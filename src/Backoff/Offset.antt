-- ===== src/Backoff/Offset.antt =====
-- getOffset of client/backoff.go: the delay, and what its 64-bit arithmetic does.
use shar.Prelude.{ℕ, ◌+◌, ◌-◌, ◌*◌, ◌^◌, ◌≤◌, ◌<◌, ◌≡◌, true, arith, ltb, if◌then◌else◌}
use shar.Task.{RetryStrategy, linear, exponential}
use shar.Backoff.{
  wrap, signed_lt, times_milli, interval_of, ceiling_of, capped, grown, delay, get_offset,
}

wrap-small : (n : ℕ) → n < 18446744073709551616 → wrap n ≡ n
wrap-small n h = omega (arith, h)

signed_lt-small :
    (a b : ℕ) → a < 9223372036854775808 → b < 9223372036854775808 → signed_lt a b ≡ ltb a b
signed_lt-small a b h k = ground arith

signed_lt-negative :
    (a b : ℕ)
    → 9223372036854775808 ≤ a
    → a < 18446744073709551616
    → b < 9223372036854775808
    → signed_lt a b ≡ true
signed_lt-negative a b h k l = ground arith

-- The multiples of the interval that a strategy waits.
abbrev pub steps : RetryStrategy → ℕ → ℕ
steps linear n = n
steps exponential n = 2 ^ n

interval_of-exact :
    (interval : ℕ)
    → 0 < interval
    → interval * 1000000 < 9223372036854775808
    → interval_of interval ≡ interval * 1000000
interval_of-exact interval pos h = ground arith

ceiling_of-exact :
    (ceiling interval : ℕ)
    → interval ≤ ceiling
    → ceiling * 1000000 < 9223372036854775808
    → ceiling_of ceiling (interval * 1000000) ≡ ceiling * 1000000
ceiling_of-exact ceiling interval le h = ground arith

grown-exact :
    (overflow : ℕ) (strategy : RetryStrategy) (initial interval n : ℕ)
    → n < 63
    → initial + interval * steps strategy n < 9223372036854775808
    → grown overflow strategy initial interval n ≡ initial + interval * steps strategy n
grown-exact overflow linear initial interval n h k = ground arith
grown-exact overflow exponential initial interval n h k = ground arith

capped-exact :
    (ceiling offset : ℕ)
    → ceiling < 9223372036854775808
    → offset < 9223372036854775808
    → capped ceiling offset ≡ (if ltb ceiling offset then ceiling else offset)
capped-exact ceiling offset h k = ground arith

-- For a redelivery of at most the 63rd attempt, with a positive interval that is at most the ceiling and values that do not wrap, the delay in nanoseconds is the initial delay plus the interval times the number of earlier redeliveries, or times two to that number, cut at the ceiling.
pub delay-exact :
    (overflow : ℕ) (strategy : RetryStrategy) (initial interval count ceiling : ℕ)
    → 1 < count
    → count < 64
    → 0 < interval
    → interval ≤ ceiling
    → ceiling * 1000000 < 9223372036854775808
    → initial * 1000000 + interval * 1000000 * steps strategy (count - 1) < 9223372036854775808
    → delay overflow strategy initial interval count ceiling ≡ (
        let offset = initial * 1000000 + interval * 1000000 * steps strategy (count - 1) in
        if ltb (ceiling * 1000000) offset then ceiling * 1000000 else offset)
unfolding delay
delay-exact overflow strategy initial interval count ceiling more few pos le small fits =
    let offset = initial * 1000000 + interval * 1000000 * steps strategy (count - 1) in
    let first : times_milli initial ≡ initial * 1000000 =
      wrap-small (initial * 1000000) (omega (arith, fits)) in
    let counted : signed_lt 1 count ≡ true = ground (arith, signed_lt-small 1 count) in
    let step = interval_of-exact interval pos (omega (arith, small, le)) in
    rw
      (
        counted,
        first,
        step,
        ceiling_of-exact ceiling interval le small,
        grown-exact overflow strategy (initial * 1000000) (interval * 1000000) (count - 1)
            (omega (arith, few)) fits,
      )
      (capped-exact (ceiling * 1000000) offset small fits)

-- A delay between 9223372036855 and 18446744073709 nanoseconds, about two and a half to five hours, is replaced by no delay, however little time has passed since the message: it is multiplied by a million once more before it is compared with that time, and the product is negative.
pub get_offset-long :
    (overflow : ℕ) (strategy : RetryStrategy) (initial interval count ceiling elapsed : ℕ)
    → 9223372036855 ≤ delay overflow strategy initial interval count ceiling
    → delay overflow strategy initial interval count ceiling ≤ 18446744073709
    → elapsed < 9223372036854775808
    → get_offset overflow strategy initial interval count ceiling elapsed ≡ 0
unfolding get_offset
get_offset-long overflow strategy initial interval count ceiling elapsed low high h =
    let d = delay overflow strategy initial interval count ceiling in
    let wide : times_milli d ≡ d * 1000000 = wrap-small (d * 1000000) (omega (arith, high)) in
    rw (wide, signed_lt-negative (d * 1000000) elapsed (omega (arith, low)) (omega (arith, high)) h)

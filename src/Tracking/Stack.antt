-- ===== src/Tracking/Stack.antt =====
-- common/id.go: the identifiers form a stack.
use shar.Prelude.{
  ℕ, zero, suc, ◌-◌, ◌<◌, String, ◌≡◌, refl, [], ◌∷◌, ◌++◌, ap, arith, length, length-append,
}
use shar.Tracking.{TrackingId, index, id, ancestor, take, pop, push}

take-append : (t : TrackingId) (x : String) → take (length t) (t ++ x ∷ []) ≡ t
take-append [] x = refl
take-append (y ∷ t) x = ap (◌∷◌ y) (take-append t x)

index-append : (t : TrackingId) (x : String) → index (t ++ x ∷ []) (length t) ≡ x
index-append [] x = refl
index-append (y ∷ t) x = index-append t x

index-append_lt :
    (t : TrackingId) (x : String) (i : ℕ) → i < length t → index (t ++ x ∷ []) i ≡ index t i
index-append_lt [] x i h = elim h [ ]
index-append_lt (y ∷ t) x zero h = refl
index-append_lt (y ∷ t) x (suc i) h = index-append_lt t x i (omega arith)

length-push : (t : TrackingId) (x : String) → length (push t x) ≡ suc (length t)
unfolding push
length-push t x = omega (arith, length-append t (x ∷ []))

-- Pushing an identifier makes it the current one, and popping restores the stack.
pub pop-push : (t : TrackingId) (x : String) → (pop (push t x) ≡ t) × (id (push t x) ≡ x)
unfolding pop id push
pop-push t x = (
  ground (arith, length-append t (x ∷ []), take-append t x),
  ground (arith, length-append t (x ∷ []), index-append t x),
)

-- Pushing an identifier shifts the ancestry by one generation: the ancestor `gen + 1` back of the new stack is the ancestor `gen` back of the old one.
ancestor-push :
    (t : TrackingId) (x : String) (gen : ℕ) → ancestor (push t x) (suc gen) ≡ ancestor t gen
unfolding ancestor push
ancestor-push t x gen = ground (arith, length-push t x, index-append_lt t x (length t - 1 - gen))

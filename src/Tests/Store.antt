-- ===== src/Tests/Store.antt =====
-- A store in memory, which keeps what the documentation of JetStream promises: the log of the writes,
-- newest first. A deletion is a write without a value, and the revision of a key is the position of
-- its last write.
use shar.Prelude.{
  ℕ, suc, ◌≤◌, ◌≡◌, ◌≢◌, refl, sym, ap, ◌∙◌, String, Bool, true, false, Option, none, some, List,
  [], ◌∷◌, ◌==◌, eqb, length, arith, if◌then◌else◌,
}
use shar.Errors.{Outcome, ok, err, ◌>>=◌, key_not_found, key_exists, wrong_last_sequence}
use shar.Nats.{KeyValue, Documented, Honest, load_obj}

abbrev pub Log : Type 0 → Type 0
Log V = List (String × Option V)

module _ {V : Type 0} where
  abbrev pub stamped : ℕ → Option V → Option (V × ℕ)
  stamped n none = none
  stamped n (some v) = some (v, n)

  abbrev pub find : String → Log V → Option (V × ℕ)
  find k [] = none
  find k ((j, o) ∷ log) =
      let rest = find k log in if j == k then stamped (suc (length log)) o else rest

  abbrev pub entry : Option (V × ℕ) → Outcome (V × ℕ)
  entry none = err key_not_found
  entry (some e) = ok e

  abbrev pub memory_get : Log V → String → Outcome (V × ℕ)
  memory_get log k = entry (find k log)

  abbrev pub memory_put : Log V → String → V → Outcome (Log V)
  memory_put log k v = ok ((k, some v) ∷ log)

  abbrev pub if_absent : Outcome (Log V) → Option (V × ℕ) → Outcome (Log V)
  if_absent r none = r
  if_absent r (some e) = err key_exists

  abbrev pub memory_create : Log V → String → V → Outcome (Log V)
  memory_create log k v = if_absent (memory_put log k v) (find k log)

  abbrev pub if_last : ℕ → Outcome (Log V) → Option (V × ℕ) → Outcome (Log V)
  if_last r done none = err wrong_last_sequence
  if_last r done (some (w, q)) = if eqb q r then done else err wrong_last_sequence

  abbrev pub memory_update : Log V → String → V → ℕ → Outcome (Log V)
  memory_update log k v r = if_last r (memory_put log k v) (find k log)

  abbrev pub memory_delete : Log V → String → Outcome (Log V)
  memory_delete log k = ok ((k, none) ∷ log)

  -- No revision is ahead of the log.
  find-le : (k : String) (log : Log V) (v : V) (r : ℕ) → find k log ≡ some (v, r) → r ≤ length log
  find-le k [] v r h = absurd (ground arith)
  find-le k ((j, some w) ∷ log) v r h = ground (arith, find-le k log v r)
  find-le k ((j, none) ∷ log) v r h = ground (arith, find-le k log v r)

abbrev pub memory : KeyValue
memory = record {
  Bucket = Log;
  get = memory_get;
  create = memory_create;
  put = memory_put;
  update = memory_update;
  delete = memory_delete;
}

abbrev loaded : {V : Type 0} → Option (V × ℕ) → Outcome V
loaded o = entry o >>= λ e. ok e.0

loaded-if :
    {V : Type 0} (c : Bool) (v : V) (n : ℕ) (o : Option (V × ℕ))
    → loaded (if c then some (v, n) else o) ≡ (if c then ok v else loaded o)
loaded-if true v n o = refl
loaded-if false v n o = refl

loaded-unless :
    {V : Type 0} (c : Bool) (o : Option (V × ℕ))
    → loaded (if c then none else o) ≡ (if c then err key_not_found else loaded o)
loaded-unless true o = refl
loaded-unless false o = refl

load-memory_put :
    {V : Type 0} (b b' : Log V) (k j : String) (v : V)
    → memory_put b k v ≡ ok b'
    → load_obj memory b' j ≡ (if k == j then ok v else load_obj memory b j)
unfolding load_obj
load-memory_put b b' k j v h =
    let e : (k, some v) ∷ b ≡ b' = ground arith in
    ap (λ x. loaded (find j x)) (sym e) ∙ loaded-if (k == j) v (suc (length b)) (find j b)

if_last-ok :
    {V : Type 0} (r : ℕ) (done : Outcome (Log V)) (o : Option (V × ℕ)) {b : Log V}
    → if_last r done o ≡ ok b
    → (done ≡ ok b) × (w : V) × (o ≡ some (w, r))
if_last-ok r done none h = absurd (ground arith)
if_last-ok r done (some (w, q)) h =
    let e : q ≡ r = ground arith in (ground arith, w, ap (λ x. some (w, x)) e)

if_absent-ok :
    {V : Type 0} (r : Outcome (Log V)) (o : Option (V × ℕ)) {b : Log V}
    → if_absent r o ≡ ok b
    → r ≡ ok b
if_absent-ok r none h = h
if_absent-ok r (some e) h = absurd (ground arith)

if_absent-taken :
    {V : Type 0} (r : Outcome (Log V)) (o : Option (V × ℕ)) (e : V × ℕ)
    → entry o ≡ ok e
    → if_absent r o ≡ err key_exists
if_absent-taken r none e h = absurd (ground arith)
if_absent-taken r (some x) e h = refl

if_last-current :
    {V : Type 0} (r : ℕ) (b : Log V) (o : Option (V × ℕ)) (w : V)
    → entry o ≡ ok (w, r)
    → if_last r (ok b) o ≢ err wrong_last_sequence
if_last-current r b none w h g = absurd (ground arith)
if_last-current r b (some (x, q)) w h g =
    let e : q ≡ r = ap (λ x. elim x [ ok y ↦ y.1 | _ ↦ q ]) h in absurd (ground arith)

pub memory_documented : Documented memory
unfolding load_obj
memory_documented = record {
  load-put = load-memory_put;
  load-update = λ {V} b b' k j v r h.
      load-memory_put b b' k j v (if_last-ok r (memory_put b k v) (find k b) h).0;
  load-create =
      λ {V} b b' k j v h. load-memory_put b b' k j v (if_absent-ok (memory_put b k v) (find k b) h);
  load-delete = λ {V} b b' k j h.
      let e : (k, none) ∷ b ≡ b' = ground arith in
      ap (λ x. loaded (find j x)) (sym e) ∙ loaded-unless (k == j) (find j b);
  create_taken = λ {V} b k v e h. if_absent-taken (memory_put b k v) (find k b) e h;
  update_current = λ {V} b b' k v r h.
      let (done, w, e) = if_last-ok r (memory_put b k v) (find k b) h in (w, ap entry e);
  update_not_stale = λ {V} b k v w r h. if_last-current r ((k, some v) ∷ b) (find k b) w h;
}

entry-some : {V : Type 0} (o : Option (V × ℕ)) (e : V × ℕ) → entry o ≡ ok e → o ≡ some e
entry-some none e h = absurd (ground arith)
entry-some (some x) e h = ground arith

-- Another client that writes a key takes a new revision.
pub put-Honest : {V : Type 0} (j k : String) (v : V) → Honest memory k (λ b. (j, some v) ∷ b)
put-Honest j k v = record {
  same_value = λ b x y r g h.
      let before = entry-some (find k b) (x, r) g in
      let after = entry-some (if j == k then some (v, suc (length b)) else find k b) (y, r) h in
      ground (arith, find-le k b x r before);
}

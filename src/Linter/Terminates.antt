-- ===== src/Linter/Terminates.antt =====
-- directed_scan.go of common/linter: the scan ends, since every step into an element marks it.
use shar.Prelude.{
  ℕ, zero, suc, ◌≤◌, ◌<◌, ◌≡◌, ◌≢◌, refl, ap, ◌∙◌, String, true, false, Option, none, some, List,
  [], ◌∷◌, ◌==◌, arith, eq_refl, if◌then◌else◌, Bool-cases, inl, inr,
}
use shar.Prelude.Maps.{Map, lookup, insert, has_key, is_some, has_key-insert}
use shar.Model.{Element}
use shar.Linter.{
  Scan, done, failed, crashed, spent, Instruction, and_then, next_targets, at_end, at_seen, pointer,
  visit_target, each_target, follow, coloured_traverse,
}

-- The entries of the index whose element was not visited.
abbrev pub remaining : Map Element → Map Element → ℕ
remaining [] visited = 0
remaining ((k, e) ∷ rest) visited =
    let more = remaining rest visited in if has_key e.id visited then more else suc more

remaining-insert :
    (index : Map Element) (k : String) (v : Element) (visited : Map Element)
    → remaining index (insert k v visited) ≤ remaining index visited
remaining-insert [] k v visited = omega arith
remaining-insert ((i, e) ∷ rest) k v visited =
    ground (arith, remaining-insert rest k v visited, has_key-insert e.id k v visited)

-- What was visited before is visited after.
abbrev pub Grows : Map Element → Map Element → Type 0
Grows before after = (k : String) → has_key k before ≡ true → has_key k after ≡ true

remaining-Grows :
    (index before after : Map Element)
    → Grows before after
    → remaining index after ≤ remaining index before
remaining-Grows [] before after g = omega arith
remaining-Grows ((i, e) ∷ rest) before after g = elim (Bool-cases (has_key e.id before)) [
  | inl t ↦ ground (arith, t, g e.id t, remaining-Grows rest before after g)
  | inr f ↦ ground (arith, f, remaining-Grows rest before after g)
]

Grows-insert :
    (k : String) (v : Element) (visited : Map Element) → Grows visited (insert k v visited)
Grows-insert k v visited j h = elim (Bool-cases (k == j)) [
  | inl t ↦ ground (arith, t, has_key-insert j k v visited)
  | inr f ↦ ground (arith, f, h, has_key-insert j k v visited)
]

remaining-step :
    (index : Map Element) (t : String) (target el : Element) (visited : Map Element)
    → lookup t index ≡ some target
    → lookup target.id visited ≡ none
    → remaining index (insert target.id el visited) < remaining index visited
unfolding lookup
remaining-step [] t target el visited found new = absurd (ground arith)
remaining-step ((i, e) ∷ rest) t target el visited found new = elim (Bool-cases (i == t)) [
  | inl here ↦
      let same : e ≡ target = ground arith in
      let marked : has_key e.id (insert target.id el visited) ≡ true =
        ap (λ x. has_key x.id (insert target.id el visited)) same
        ∙ has_key-insert target.id target.id el visited
        ∙ rw (eq_refl target.id) in
      let fresh : has_key e.id visited ≡ false =
        ap (λ x. has_key x.id visited) same ∙ ap is_some new in
      ground (arith, marked, fresh, remaining-insert rest target.id el visited)
  | inr away ↦ ground (
    arith,
    remaining-step rest t target el visited (ground arith) new,
    has_key-insert e.id target.id el visited,
  )
]

module _ (instruction : Instruction) (index : Map Element) where
  -- The scan came to an end, and every name that was visited still is.
  abbrev pub Ends : Scan (Map Element) → Map Element → Type 0
  Ends (done v) visited = Grows visited v
  Ends (failed e) visited = Unit
  Ends crashed visited = Unit
  Ends spent visited = ⊥

  Ends-weaken : (r : Scan (Map Element)) (a b : Map Element) → Ends r a → Grows b a → Ends r b
  Ends-weaken (done v) a b h le = λ k seen. h k (le k seen)
  Ends-weaken (failed e) a b h le = tt
  Ends-weaken crashed a b h le = tt
  Ends-weaken spent a b h le = h

  and_then-Ends :
      (r : Scan (Map Element)) (f : Map Element → Scan (Map Element)) (visited : Map Element)
      → Ends r visited
      → ((v : Map Element) → Grows visited v → Ends (f v) v)
      → Ends (and_then r f) visited
  and_then-Ends (done v) f visited h next = Ends-weaken (f v) v visited (next v h) h
  and_then-Ends (failed e) f visited h next = tt
  and_then-Ends crashed f visited h next = tt
  and_then-Ends spent f visited h next = h

  -- The rules of the instruction come to an end themselves.
  abbrev pub RulesEnd : Type 0
  RulesEnd =
      ((rule : Element → Scan (Unit {0})) (e : Element)
        → instruction.end_of_process ≡ some rule
        → rule e ≢ spent)
      × ((rule : Element → Element → Element → Scan (Unit {0})) (e t o : Element)
          → instruction.cyclic ≡ some rule
          → rule e t o ≢ spent)

  ruled-Ends :
      (r : Scan (Unit {0})) (visited : Map Element)
      → r ≢ spent
      → Ends (and_then r (λ u. done visited)) visited
  ruled-Ends (done u) visited h = λ k seen. seen
  ruled-Ends (failed e) visited h = tt
  ruled-Ends crashed visited h = tt
  ruled-Ends spent visited h = h refl

  at_end-Ends :
      (o : Option (Element → Scan (Unit {0}))) (el : Element) (visited : Map Element)
      → RulesEnd
      → instruction.end_of_process ≡ o
      → Ends (at_end o el visited) visited
  at_end-Ends none el visited rules e = λ k seen. seen
  at_end-Ends (some rule) el visited rules e = ruled-Ends (rule el) visited (rules.0 rule el e)

  at_seen-Ends :
      (o : Option (Element → Element → Element → Scan (Unit {0}))) (el target other : Element)
      (visited : Map Element)
      → RulesEnd
      → instruction.cyclic ≡ o
      → Ends (at_seen o el target other visited) visited
  at_seen-Ends none el target other visited rules e = λ k seen. seen
  at_seen-Ends (some rule) el target other visited rules e =
      ruled-Ends (rule el target other) visited (rules.1 rule el target other e)

  -- What a call for a target promises where its fuel is enough.
  abbrev pub Visits : ℕ → (Element → Map Element → Scan (Map Element)) → Type 0
  Visits fuel visit =
      (target : Element) (v : Map Element) → remaining index v < fuel → Ends (visit target v) v

  each_target-Ends :
      (fuel : ℕ) (visit : Element → Map Element → Scan (Map Element)) (el : Element)
      (ts : List String) (visited : Map Element)
      → RulesEnd
      → Visits fuel visit
      → remaining index visited ≤ fuel
      → Ends (each_target instruction index visit el ts visited) visited
  each_target-Ends fuel visit el [] visited rules visits le = λ k seen. seen
  each_target-Ends fuel visit el (t ∷ ts) visited rules visits le =
      go (lookup t index) refl (λ v h. each_target-Ends fuel visit el ts v rules visits h)
    where
      seen :
          (target : Element) (o : Option Element)
          → lookup t index ≡ some target
          → lookup target.id visited ≡ o
          → ((v : Map Element)
              → remaining index v ≤ fuel
              → Ends (each_target instruction index visit el ts v) v)
          → Ends
              (visit_target instruction index visit
                (each_target instruction index visit el ts)
                el
                target
                o
                visited)
              visited
      seen target (some other) found e ih =
          at_seen-Ends instruction.cyclic el target other visited rules refl
      seen target none found e ih =
          let marked = insert target.id el visited in
          let less = remaining-step index t target el visited found e in
          Ends-weaken (and_then (visit target marked) (each_target instruction index visit el ts))
            marked visited
            (and_then-Ends (visit target marked) (each_target instruction index visit el ts) marked
              (visits target marked (omega (arith, less, le)))
              (λ v h. ih v (omega (arith, remaining-Grows index marked v h, less, le))))
            (Grows-insert target.id el visited)

      go :
          (o : Option Element)
          → lookup t index ≡ o
          → ((v : Map Element)
              → remaining index v ≤ fuel
              → Ends (each_target instruction index visit el ts v) v)
          → Ends
              (and_then (pointer o) (λ target.
                visit_target instruction index visit
                  (each_target instruction index visit el ts)
                  el
                  target
                  (lookup target.id visited)
                  visited))
              visited
      go none e ih = tt
      go (some target) e ih = seen target (lookup target.id visited) e refl ih

  follow-Ends :
      (fuel : ℕ) (visit : Element → Map Element → Scan (Map Element)) (el : Element)
      (visited : Map Element) (ts : List String)
      → RulesEnd
      → Visits fuel visit
      → remaining index visited ≤ fuel
      → Ends (follow instruction index visit el visited ts) visited
  follow-Ends fuel visit el visited [] rules visits le =
      at_end-Ends instruction.end_of_process el visited rules refl
  follow-Ends fuel visit el visited (t ∷ ts) rules visits le =
      each_target-Ends fuel visit el (t ∷ ts) visited rules visits le

  -- The scan from an element comes to an end, with a map of visited elements in which every name that was visited before still is, or with an error or a panic, where the fuel is more than the number of elements of the index that were not visited and the rules it applies end.
  pub coloured_traverse-Ends :
      (fuel : ℕ) (el : Element) (visited : Map Element)
      → RulesEnd
      → remaining index visited < fuel
      → Ends (coloured_traverse instruction index fuel el visited) visited
  unfolding coloured_traverse
  coloured_traverse-Ends zero el visited rules h = absurd (ground (arith, h))
  coloured_traverse-Ends (suc fuel) el visited rules h =
      targets (next_targets index el) refl (coloured_traverse-Ends fuel)
    where
      targets :
          (r : Scan (List String))
          → next_targets index el ≡ r
          → ((e : Element) (v : Map Element)
              → RulesEnd
              → remaining index v < fuel
              → Ends (coloured_traverse instruction index fuel e v) v)
          → Ends
              (and_then r
                (follow instruction index (coloured_traverse instruction index fuel) el visited))
              visited
      targets (done ts) e ih =
          follow-Ends fuel (coloured_traverse instruction index fuel) el visited ts rules
            (λ target v. ih target v rules) (omega (arith, h))
      targets (failed x) e ih = tt
      targets crashed e ih = tt
      targets spent e ih = unspent e
        where
          unspent : next_targets index el ≢ spent
          unspent x = ground arith

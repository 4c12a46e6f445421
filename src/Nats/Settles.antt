-- ===== src/Nats/Settles.antt =====
-- common/natsutil.go: the optimistic update loop comes to an end once the others leave the key alone.
use shar.Prelude.{ℕ, String, ◌≡◌, refl, ◌⊎◌, inl, inr, List, [], ◌∷◌, All, arith}
use shar.Errors.{Outcome, ok, err, panic, wrong_last_sequence}
use shar.Nats.{KeyValue, Turn, Documented, update_kv, retry}

module _ (kv : KeyValue) (doc : Documented kv) {V : Type 0} (k : String) (fn : V → Outcome V) where
  abbrev pub Returns : kv.Bucket V → List (Turn kv V) → Type 0
  Returns b turns = (r : kv.Bucket V × V) × (update_kv kv b k fn turns ≡ ok r)

  -- The key can be read.
  abbrev pub IsThere : kv.Bucket V → Type 0
  IsThere b = (e : V × ℕ) × (kv.get b k ≡ ok e)

  -- The others do not remove the key.
  abbrev pub Leaves : Turn kv V → Type 0
  Leaves turn = (b : kv.Bucket V) → IsThere b → IsThere (turn b)

  retried :
      (r : Outcome (kv.Bucket V)) (u : V) (again : Outcome (kv.Bucket V × V))
      → ((b : kv.Bucket V) × (r ≡ ok b)) ⊎ (r ≡ err wrong_last_sequence)
      → ((x : kv.Bucket V × V) × (again ≡ ok x))
      → (x : kv.Bucket V × V) × (retry kv r u again ≡ ok x)
  retried (ok b) u again c h = ((b, u), refl)
  retried (err wrong_last_sequence) u again c h = h
  retried (err e) u again (inl x) h = absurd (ground (arith, x.1))
  retried (err e) u again (inr x) h = absurd (ground (arith, x))
  retried panic u again (inl x) h = absurd (ground (arith, x.1))
  retried panic u again (inr x) h = absurd (ground (arith, x))

  -- The update loop returns where its key is there and stays there, its function succeeds on every value, and a write fails only for a stale revision: the rounds are at most one more than the moves that the other clients make meanwhile.
  pub update_kv-Returns :
      (turns : List (Turn kv V)) (b : kv.Bucket V)
      → ((v : V) → (u : V) × (fn v ≡ ok u))
      → ((b : kv.Bucket V) (u : V) (r : ℕ)
          → ((b' : kv.Bucket V) × (kv.update b k u r ≡ ok b'))
            ⊎ (kv.update b k u r ≡ err wrong_last_sequence))
      → All Leaves turns
      → IsThere b
      → Returns b turns
  unfolding update_kv
  update_kv-Returns [] b total writes leaves (e, g) =
      let (u, f) = total e.0 in
      elim (writes b u e.1) [
        | inl w ↦ ((w.0, u), rw (g, f, w.1) refl)
        | inr stale ↦ absurd (doc.update_not_stale b k u e.0 e.1 g stale)
      ]
  update_kv-Returns (turn ∷ turns) b total writes leaves (e, g) =
      let (u, f) = total e.0 in
      let rest = update_kv-Returns turns (turn b) total writes leaves.1 (leaves.0 b (e, g)) in
      let (x, h) =
        retried (kv.update (turn b) k u e.1) u (update_kv kv (turn b) k fn turns)
          (writes (turn b) u e.1) rest in
      (x, rw (g, f) h)

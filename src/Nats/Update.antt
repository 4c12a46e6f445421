-- ===== src/Nats/Update.antt =====
-- common/natsutil.go: the optimistic update loop loses no write of another client.
use shar.Prelude.{
  ℕ, String, ◌≡◌, refl, sym, ap, ◌∙◌, ◌⊎◌, inl, inr, List, [], ◌∷◌, ◌++◌, ◌==◌, arith,
  if◌then◌else◌, All,
}
use shar.Errors.{Outcome, ok, err, panic, bind-eq-ok, wrong_last_sequence}
use shar.Nats.{KeyValue, Turn, Documented, Honest, load_obj, update_kv, retry, run_turns}

-- The update took effect at one moment: `fn` was applied to the value that the key had after the
-- first moves of the others, and that bucket differs from the result at this key only.
pub record Committed (kv : KeyValue) {V : Type 0} (b : kv.Bucket V) (k : String)
    (fn : V → Outcome V) (turns : List (Turn kv V)) (b' : kv.Bucket V) (updated : V) : Type 0 where
  pub seen : List (Turn kv V)
  pub unseen : List (Turn kv V)
  pub value : V
  pub moves : seen ++ unseen ≡ turns
  pub current : load_obj kv (run_turns kv seen b) k ≡ ok value
  pub applied : fn value ≡ ok updated
  pub written :
      (j : String)
      → load_obj kv b' j ≡ (if k == j then ok updated else load_obj kv (run_turns kv seen b) j)

retry-cases :
    (kv : KeyValue) {V : Type 0} (r : Outcome (kv.Bucket V)) (uv : V)
    (again : Outcome (kv.Bucket V × V)) {b : kv.Bucket V} {u : V}
    → retry kv r uv again ≡ ok (b, u)
    → ((r ≡ ok b) × (uv ≡ u)) ⊎ (again ≡ ok (b, u))
retry-cases kv (ok c) uv again h = inl (ground arith, ground arith)
retry-cases kv (err wrong_last_sequence) uv again h = inr h
retry-cases kv (err e) uv again h = absurd (ground arith)
retry-cases kv panic uv again h = absurd (ground arith)

load-get :
    (kv : KeyValue) {V : Type 0} (b : kv.Bucket V) (k : String) (v : V) (r : ℕ)
    → kv.get b k ≡ ok (v, r)
    → load_obj kv b k ≡ ok v
unfolding load_obj
load-get kv b k v r h = rw h

module _ (kv : KeyValue) (doc : Documented kv) {V : Type 0} (k : String) (fn : V → Outcome V) where
  Committed-now :
      (b b' : kv.Bucket V) (v u : V) (r : ℕ)
      → kv.get b k ≡ ok (v, r)
      → fn v ≡ ok u
      → kv.update b k u r ≡ ok b'
      → Committed kv b k fn [] b' u
  Committed-now b b' v u r g f up = record {
    seen = [];
    unseen = [];
    value = v;
    moves = refl;
    current = load-get kv b k v r g;
    applied = f;
    written = λ j. doc.load-update b b' k j u r up;
  }

  -- The write was accepted after the others' move, so the value that was read was still the last.
  Committed-past :
      (turn : Turn kv V) (turns : List (Turn kv V)) (b b' : kv.Bucket V) (v u : V) (r : ℕ)
      → Honest kv k turn
      → kv.get b k ≡ ok (v, r)
      → fn v ≡ ok u
      → kv.update (turn b) k u r ≡ ok b'
      → Committed kv b k fn (turn ∷ turns) b' u
  Committed-past turn turns b b' v u r honest g f up =
      let (w, now) = doc.update_current (turn b) b' k u r up in
      record {
        seen = turn ∷ [];
        unseen = turns;
        value = v;
        moves = refl;
        current = load-get kv (turn b) k w r now ∙ ap ok (sym (honest.same_value b v w r g now));
        applied = f;
        written = λ j. doc.load-update (turn b) b' k j u r up;
      }

  Committed-later :
      (turn : Turn kv V) (turns : List (Turn kv V)) (b b' : kv.Bucket V) (u : V)
      → Committed kv (turn b) k fn turns b' u
      → Committed kv b k fn (turn ∷ turns) b' u
  Committed-later turn turns b b' u c = record {
    seen = turn ∷ c.seen;
    unseen = c.unseen;
    value = c.value;
    moves = ap (◌∷◌ turn) c.moves;
    current = c.current;
    applied = c.applied;
    written = c.written;
  }

  -- When the update loop returns, whatever the other clients wrote between its reads and writes, the update took effect at one moment: its function was applied to the value that the key had after an initial part of the others' moves, the result stands under the key and is what the caller keeps, and every other key is as in the bucket of that moment.
  pub update_kv-Committed :
      (turns : List (Turn kv V)) (b b' : kv.Bucket V) (u : V)
      → All (Honest kv k) turns
      → update_kv kv b k fn turns ≡ ok (b', u)
      → Committed kv b k fn turns b' u
  unfolding update_kv
  update_kv-Committed [] b b' u hs h =
      let (entry, g, h1) = bind-eq-ok (kv.get b k) _ h in
      let (u', f, h2) = bind-eq-ok (fn entry.0) _ h1 in
      let (b'', up, h3) = bind-eq-ok (kv.update b k u' entry.1) _ h2 in
      let same : u' ≡ u = ground arith in
      let same' : b'' ≡ b' = ground arith in
      Committed-now b b' entry.0 u entry.1 g (f ∙ ap ok same) (ground arith)
  update_kv-Committed (turn ∷ turns) b b' u hs h =
      let (entry, g, h1) = bind-eq-ok (kv.get b k) _ h in
      let (u', f, h2) = bind-eq-ok (fn entry.0) _ h1 in
      elim (retry-cases kv (kv.update (turn b) k u' entry.1) u' (update_kv kv (turn b) k fn turns)
        h2) [
          | inl now ↦
              Committed-past turn turns b b' entry.0 u entry.1 hs.0 g (f ∙ ap ok now.1)
                (ap (λ x. kv.update (turn b) k x entry.1) (sym now.1) ∙ now.0)
          | inr later ↦
              Committed-later turn turns b b' u (update_kv-Committed turns (turn b) b' u hs.1 later)
        ]

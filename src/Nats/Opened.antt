-- ===== src/Nats/Opened.antt =====
-- UpdateObj of common/natsutil.go: what its own read and save do while others write.
use shar.Prelude.{
  String, ◌≡◌, ◌≢◌, refl, sym, ap, ◌∙◌, List, [], ◌∷◌, ◌++◌, ◌==◌, arith, eq_refl, if◌then◌else◌,
  All,
}
use shar.Errors.{Outcome, ok, err, panic, bind-eq-ok, key_not_found}
use shar.Nats.{
  KeyValue, Turn, Documented, Honest, load_obj, save_obj, ensure, first_move, later_moves,
  run_turns, update_obj,
}
use shar.Nats.Update.{Committed, update_kv-Committed}

-- The bucket with which the update loop starts: as the others left it where the key was found when it
-- was looked at, and with the default under the key, whatever the others stored there, where it was not.
pub data Opened (kv : KeyValue) {V : Type 0} (b moved : kv.Bucket V) (k : String) (msg : V)
    (start : kv.Bucket V) : Type 0 where
  found : kv.get b k ≢ err key_not_found → start ≡ moved → Opened kv b moved k msg start
  missing :
      kv.get b k ≡ err key_not_found
      → ((j : String) → load_obj kv start j ≡ (if k == j then ok msg else load_obj kv moved j))
      → Opened kv b moved k msg start

none_seen : {A : Type 0} (seen unseen : List A) → seen ++ unseen ≡ [] → seen ≡ []
none_seen [] unseen h = refl
none_seen (x ∷ seen) unseen h = absurd (ground (arith, h))

module _ (kv : KeyValue) (doc : Documented kv) {V : Type 0} where
  ensure-Opened :
      (b moved start : kv.Bucket V) (k : String) (msg : V) (r : Outcome (V × _))
      → kv.get b k ≡ r
      → ensure kv moved k msg r ≡ ok start
      → Opened kv b moved k msg start
  unfolding save_obj
  ensure-Opened b moved start k msg (ok e) at h =
      found (λ n. absurd (ground (arith, n, at))) (ground arith)
  ensure-Opened b moved start k msg (err key_not_found) at h =
      missing at (λ j. doc.load-put moved start k j msg h)
  ensure-Opened b moved start k msg (err e) at h =
      found (λ n. absurd (ground (arith, n, at))) (ground arith)
  ensure-Opened b moved start k msg panic at h = absurd (ground arith)

  later-Honest :
      (k : String) (turns : List (Turn kv V))
      → All (Honest kv k) turns
      → All (Honest kv k) (later_moves kv turns)
  later-Honest k [] h = tt
  later-Honest k (turn ∷ turns) h = h.1

  -- The outcome of an UpdateObj with a function that cannot fail: one moment, one value.
  pub update_obj-Committed :
      (b : kv.Bucket V) (k : String) (msg : V) (fn : V → V) (turns : List (Turn kv V))
      {b' : kv.Bucket V} {u : V}
      → All (Honest kv k) turns
      → update_obj kv b k msg (λ x. ok (fn x)) turns ≡ ok (b', u)
      → (start : kv.Bucket V) × Opened kv b (first_move kv turns b) k msg start
        × Committed kv start k (λ x. ok (fn x)) (later_moves kv turns) b' u
  unfolding update_obj
  update_obj-Committed b k msg fn turns {b'} {u} hs h =
      let moved = first_move kv turns b in
      let (start, e, h1) = bind-eq-ok (ensure kv moved k msg (kv.get b k)) _ h in
      (
        start,
        ensure-Opened b moved start k msg (kv.get b k) refl e,
        update_kv-Committed kv doc k (λ x. ok (fn x)) (later_moves kv turns) start b' u
            (later-Honest k turns hs) h1,
      )

  -- Where a key is absent when UpdateObj looks at it, the update that another client makes before the default is saved is lost: whatever that client stored under the key, the update that returns was applied to the default, and its result stands under the key.
  pub update_obj-overwrites :
      (b b' : kv.Bucket V) (k : String) (msg u : V) (fn : V → V) (creation : Turn kv V)
      → kv.get b k ≡ err key_not_found
      → update_obj kv b k msg (λ x. ok (fn x)) (creation ∷ []) ≡ ok (b', u)
      → (u ≡ fn msg) × (load_obj kv b' k ≡ ok (fn msg))
  unfolding update_obj save_obj
  update_obj-overwrites b b' k msg u fn creation absent h =
      let (start, e, h1) = bind-eq-ok (ensure kv (creation b) k msg (kv.get b k)) _ h in
      let put : kv.put (creation b) k msg ≡ ok start =
        ap (ensure kv (creation b) k msg) (sym absent) ∙ e in
      let c = update_kv-Committed kv doc k (λ x. ok (fn x)) [] start b' u tt h1 in
      let stored : load_obj kv start k ≡ ok msg =
        doc.load-put (creation b) start k k msg put ∙ rw (eq_refl k) refl in
      let read : load_obj kv start k ≡ ok c.value =
        ap (λ turns. load_obj kv (run_turns kv turns start) k)
          (sym (none_seen c.seen c.unseen c.moves))
        ∙ c.current in
      let same : c.value ≡ msg = ap (λ r. elim r [ ok x ↦ x | _ ↦ msg ]) (sym read ∙ stored) in
      let made : u ≡ fn msg = ap (λ r. elim r [ ok x ↦ x | _ ↦ u ]) (sym c.applied) ∙ ap fn same in
      (made, c.written k ∙ rw (eq_refl k) (ap ok made))

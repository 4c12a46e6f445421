-- ===== src/Nats/Locks.antt =====
-- Lock and UnLock of common/natsutil.go: a lock has one holder at a time.
use shar.Prelude.{ℕ, String, ◌≡◌, refl, ◌∙◌, true, false, eq_refl, arith}
use shar.Errors.{Outcome, ok, err, panic, ◌>>=◌, bind-eq-ok, key_exists, key_not_found}
use shar.Nats.{KeyValue, Documented, load_obj, granted, lock, unlock}

module _ (kv : KeyValue) (doc : Documented kv) {V : Type 0} where
  granted-true :
      (b : kv.Bucket V) (r : Outcome (kv.Bucket V)) {b' : kv.Bucket V}
      → granted kv b r ≡ ok (b', true)
      → r ≡ ok b'
  granted-true b (ok c) h = ground arith
  granted-true b (err key_exists) h = absurd (ground arith)
  granted-true b (err e) h = absurd (ground arith)
  granted-true b panic h = absurd (ground arith)

  -- While a lock is held, nobody else is granted it, and the attempt changes nothing.
  lock-exclusive :
      (b : kv.Bucket V) (id : String) (mine theirs : V) {b' : kv.Bucket V}
      → lock kv b id mine ≡ ok (b', true)
      → lock kv b' id theirs ≡ ok (b', false)
  unfolding lock load_obj
  lock-exclusive b id mine theirs {b'} h =
      let created = granted-true b (kv.create b id mine) h in
      let there : load_obj kv b' id ≡ ok mine =
        doc.load-create b b' id id mine created ∙ rw (eq_refl id) in
      let (e, g, v) = bind-eq-ok (kv.get b' id) _ there in
      rw (doc.create_taken b' id theirs e g) refl

  -- A lock that was released cannot be released again: the second release finds no lock.
  unlock-once :
      (b : kv.Bucket V) (id : String) {b' : kv.Bucket V}
      → unlock kv b id ≡ ok b'
      → unlock kv b' id ≡ err key_not_found
  unfolding unlock load_obj
  unlock-once b id {b'} h =
      let (e, g, gone) = bind-eq-ok (kv.get b id) _ h in
      missing (kv.get b' id) (doc.load-delete b b' id id gone ∙ rw (eq_refl id))
    where
      missing :
          (r : Outcome (V × ℕ))
          → (r >>= λ e. ok e.0) ≡ err key_not_found
          → (r >>= λ e. kv.delete b' id) ≡ err key_not_found
      missing (ok e) h = absurd (ground arith)
      missing (err e) h = ground arith
      missing panic h = absurd (ground arith)

-- ===== src/Nats.antt =====
-- common/natsutil.go over a JetStream key-value store. The store is not part of the repository: it
-- is the parameter `KeyValue`, and what its documentation promises is `Documented`. A bucket holds
-- decoded messages, since protobuf encoding is a library's; its failures are `library_error`.
pub mod Update
pub mod Alone
pub mod Opened
pub mod Settles
pub mod Locks
use shar.Prelude.{ℕ, String, ◌≡◌, refl, ◌≢◌, Bool, true, false, List, [], ◌∷◌, ◌==◌, if◌then◌else◌}
use shar.Errors.{
  Err, Outcome, ok, err, panic, ◌>>=◌, ◌>>◌, is_key_not_found, is_key_exists,
  is_wrong_last_sequence, wrong_last_sequence, key_exists, key_not_found,
}

pub record KeyValue : Type 1 where
  pub Bucket : Type 0 → Type 0
  -- the value and its revision
  pub get : {V : Type 0} → Bucket V → String → Outcome (V × ℕ)
  pub create : {V : Type 0} → Bucket V → String → V → Outcome (Bucket V)
  pub put : {V : Type 0} → Bucket V → String → V → Outcome (Bucket V)
  pub update : {V : Type 0} → Bucket V → String → V → ℕ → Outcome (Bucket V)
  pub delete : {V : Type 0} → Bucket V → String → Outcome (Bucket V)

-- What other clients do to the bucket between two calls of it: the read and the write of `updateKV`, or
-- the read of `UpdateObj` and its save of the default.
abbrev pub Turn : (kv : KeyValue) → Type 0 → Type 0
Turn kv V = kv.Bucket V → kv.Bucket V

-- The bucket after the others have made these moves.
abbrev pub run_turns : (kv : KeyValue) {V : Type 0} → List (Turn kv V) → kv.Bucket V → kv.Bucket V
run_turns kv [] b = b
run_turns kv (turn ∷ turns) b = run_turns kv turns (turn b)

module _ (kv : KeyValue) {V : Type 0} where
  -- Load and LoadObj
  unfoldable pub load_obj : kv.Bucket V → String → Outcome V
  load_obj b k = do e ← kv.get b k; ok e.0

  -- Save and SaveObj
  unfoldable pub save_obj : kv.Bucket V → String → V → Outcome (kv.Bucket V)
  save_obj b k v = kv.put b k v

  -- The `for` loop of updateKV, with the message that was written, which the caller keeps. Each
  -- round takes one turn of the others from the list. When the list is used up nobody interferes,
  -- and a last round is made.
  abbrev pub retry :
      Outcome (kv.Bucket V) → V → Outcome (kv.Bucket V × V) → Outcome (kv.Bucket V × V)
  retry (ok b) uv again = ok (b, uv)
  retry (err e) uv again = if is_wrong_last_sequence e then again else err e
  retry panic uv again = panic

  unfoldable pub update_kv :
      kv.Bucket V → String → (V → Outcome V) → List (Turn kv V) → Outcome (kv.Bucket V × V)
  update_kv b k fn [] = do
    entry ← kv.get b k
    uv ← fn entry.0
    b' ← kv.update b k uv entry.1
    ok (b', uv)
  update_kv b k fn (turn ∷ turns) = do
    entry ← kv.get b k
    uv ← fn entry.0
    let b' = turn b
    let again = update_kv b' k fn turns
    retry (kv.update b' k uv entry.1) uv again

  -- UpdateObj: the default is saved first where the key is absent.
  abbrev pub ensure : kv.Bucket V → String → V → Outcome (V × ℕ) → Outcome (kv.Bucket V)
  ensure b k msg (ok e) = ok b
  ensure b k msg (err e) = if is_key_not_found e then save_obj b k msg else ok b
  ensure b k msg panic = panic

  abbrev pub first_move : List (Turn kv V) → kv.Bucket V → kv.Bucket V
  first_move [] b = b
  first_move (turn ∷ turns) b = turn b

  abbrev pub later_moves : List (Turn kv V) → List (Turn kv V)
  later_moves [] = []
  later_moves (turn ∷ turns) = turns

  -- The first move of the others falls between the read and the save.
  unfoldable pub update_obj :
      kv.Bucket V → String → V → (V → Outcome V) → List (Turn kv V) → Outcome (kv.Bucket V × V)
  unfolding update_kv save_obj
  update_obj b k msg fn turns = do
    b' ← ensure (first_move turns b) k msg (kv.get b k)
    update_kv b' k fn (later_moves turns)

  abbrev pub after_save : kv.Bucket V → Outcome (kv.Bucket V) → kv.Bucket V
  after_save b (ok b') = b'
  after_save b (err e) = b
  after_save b panic = b

  -- What an UpdateObj that fails leaves: the default, where it was saved before the update failed, and
  -- the moves of the others.
  unfoldable pub abandoned : kv.Bucket V → String → V → List (Turn kv V) → kv.Bucket V
  unfolding save_obj
  abandoned b k msg turns =
      let moved = first_move turns b in
      run_turns kv (later_moves turns) (after_save moved (ensure moved k msg (kv.get b k)))

-- The locks are keys of a bucket.
module _ (kv : KeyValue) {V : Type 0} where
  abbrev pub granted : kv.Bucket V → Outcome (kv.Bucket V) → Outcome (kv.Bucket V × Bool)
  granted b (ok b') = ok (b', true)
  granted b (err e) = if is_key_exists e then ok (b, false) else err e
  granted b panic = panic

  -- Lock: whether it was granted
  unfoldable pub lock : kv.Bucket V → String → V → Outcome (kv.Bucket V × Bool)
  lock b id lock_val = granted b (kv.create b id lock_val)

  -- Both ways through `errors.As(err, &testErr)` return nil; `is_api_error` is that test.
  abbrev pub extended : (Err → Bool) → kv.Bucket V → Outcome (kv.Bucket V) → Outcome (kv.Bucket V)
  extended is_api_error b (ok b') = ok b'
  extended is_api_error b (err e) = if is_api_error e then ok b else err e
  extended is_api_error b panic = panic

  -- ExtendLock
  unfoldable pub extend_lock : (Err → Bool) → kv.Bucket V → String → V → Outcome (kv.Bucket V)
  extend_lock is_api_error b id lock_val = do
    entry ← kv.get b id
    extended is_api_error b (kv.update b id lock_val entry.1)

  -- UnLock
  unfoldable pub unlock : kv.Bucket V → String → Outcome (kv.Bucket V)
  unlock b id = do kv.get b id; kv.delete b id

-- What the documentation of JetStream says of the store.
pub record Documented (kv : KeyValue) : Type 1 where
  pub load-put :
      {V : Type 0} (b b' : kv.Bucket V) (k j : String) (v : V)
      → kv.put b k v ≡ ok b'
      → load_obj kv b' j ≡ (if k == j then ok v else load_obj kv b j)
  pub load-update :
      {V : Type 0} (b b' : kv.Bucket V) (k j : String) (v : V) (r : ℕ)
      → kv.update b k v r ≡ ok b'
      → load_obj kv b' j ≡ (if k == j then ok v else load_obj kv b j)
  pub load-create :
      {V : Type 0} (b b' : kv.Bucket V) (k j : String) (v : V)
      → kv.create b k v ≡ ok b'
      → load_obj kv b' j ≡ (if k == j then ok v else load_obj kv b j)
  pub load-delete :
      {V : Type 0} (b b' : kv.Bucket V) (k j : String)
      → kv.delete b k ≡ ok b'
      → load_obj kv b' j ≡ (if k == j then err key_not_found else load_obj kv b j)
  -- a key is created only where it is absent
  pub create_taken :
      {V : Type 0} (b : kv.Bucket V) (k : String) (v : V) (e : V × ℕ)
      → kv.get b k ≡ ok e
      → kv.create b k v ≡ err key_exists
  -- an update is accepted only against the last revision of its key
  pub update_current :
      {V : Type 0} (b b' : kv.Bucket V) (k : String) (v : V) (r : ℕ)
      → kv.update b k v r ≡ ok b'
      → (w : V) × (kv.get b k ≡ ok (w, r))
  -- and the last revision is never called stale
  pub update_not_stale :
      {V : Type 0} (b : kv.Bucket V) (k : String) (v w : V) (r : ℕ)
      → kv.get b k ≡ ok (w, r)
      → kv.update b k v r ≢ err wrong_last_sequence

-- A revision is given to one write: where the others leave the revision of a key, they leave its
-- value.
pub record Honest (kv : KeyValue) {V : Type 0} (k : String) (turn : Turn kv V) : Type 0 where
  pub same_value :
      (b : kv.Bucket V) (v w : V) (r : ℕ)
      → kv.get b k ≡ ok (v, r)
      → kv.get (turn b) k ≡ ok (w, r)
      → v ≡ w

-- ===== src/Nats/Alone.antt =====
-- UpdateObj of common/natsutil.go where no other client moves: the value that it read, and the bucket
-- after it.
use shar.Prelude.{
  ℕ, String, ◌≡◌, refl, sym, ap, ◌∙◌, ◌⊎◌, inl, inr, Bool, true, false, [], ◌==◌, arith,
  if◌then◌else◌, eq_refl,
}
use shar.Errors.{Outcome, ok, err, panic, ◌>>=◌, bind-eq-ok, key_not_found}
use shar.Nats.{
  KeyValue, Documented, load_obj, save_obj, update_kv, update_obj, ensure, after_save, abandoned,
}

ok-injective : {A : Type 0} {x y : A} → ok x ≡ ok y → x ≡ y
ok-injective {A} {x} h = ap (λ r. elim r [ ok z ↦ z | _ ↦ x ]) h

-- The update started from the stored value, or from the default where the key is missing.
pub record Updated (kv : KeyValue) {V : Type 0} (b : kv.Bucket V) (k : String) (msg : V)
    (fn : V → Outcome V) (b' : kv.Bucket V) (u : V) : Type 0 where
  pub value : V
  pub started :
      (load_obj kv b k ≡ ok value) ⊎ ((load_obj kv b k ≡ err key_not_found) × (value ≡ msg))
  pub applied : fn value ≡ ok u
  pub written : (j : String) → load_obj kv b' j ≡ (if k == j then ok u else load_obj kv b j)

twice :
    {A : Type 0} (c : Bool) (x y z : A)
    → (if c then x else if c then y else z) ≡ (if c then x else z)
twice true x y z = refl
twice false x y z = refl

module _ (kv : KeyValue) (doc : Documented kv) {V : Type 0} (k : String) (msg : V)
    (fn : V → Outcome V) where
  ensured :
      (b b1 : kv.Bucket V) (r : Outcome (V × ℕ))
      → ensure kv b k msg r ≡ ok b1
      → (b ≡ b1) ⊎ ((r ≡ err key_not_found) × (kv.put b k msg ≡ ok b1))
  unfolding save_obj
  ensured b b1 (ok e) h = inl (ok-injective h)
  ensured b b1 (err key_not_found) h = inr (refl, h)
  ensured b b1 (err e) h = inl (ok-injective h)
  ensured b b1 panic h = absurd (ground arith)

  -- An UpdateObj that fails leaves the bucket as it was, or with the default where the key was absent.
  pub abandoned-cases :
      (b : kv.Bucket V)
      → (abandoned kv b k msg [] ≡ b)
        ⊎ ((load_obj kv b k ≡ err key_not_found) × (kv.put b k msg ≡ ok (abandoned kv b k msg [])))
  unfolding abandoned save_obj load_obj
  abandoned-cases b = elim (go (kv.get b k)) [
    | inl kept ↦ inl kept
    | inr (gone, put) ↦ inr (ap (λ x. x >>= λ y. ok y.0) gone, put)
  ]
    where
      saved : (r : Outcome (kv.Bucket V)) → (after_save kv b r ≡ b) ⊎ (r ≡ ok (after_save kv b r))
      saved (ok b') = inr refl
      saved (err e) = inl refl
      saved panic = inl refl

      go :
          (r : Outcome (V × ℕ))
          → (after_save kv b (ensure kv b k msg r) ≡ b)
            ⊎ ((r ≡ err key_not_found)
                × (kv.put b k msg ≡ ok (after_save kv b (ensure kv b k msg r))))
      go (ok e) = inl refl
      go (err key_not_found) = elim (saved (kv.put b k msg)) [
        | inl kept ↦ inl kept
        | inr put ↦ inr (refl, put)
      ]
      go (err e) = inl refl
      go panic = inl refl

  pub update_obj-Updated :
      (b b' : kv.Bucket V) (u : V)
      → update_obj kv b k msg fn [] ≡ ok (b', u)
      → Updated kv b k msg fn b' u
  unfolding update_obj update_kv load_obj
  update_obj-Updated b b' u h =
      let (b1, e, h1) = bind-eq-ok (ensure kv b k msg (kv.get b k)) _ h in
      let (entry, g, h2) = bind-eq-ok (kv.get b1 k) _ h1 in
      let (v, f, h3) = bind-eq-ok (fn entry.0) _ h2 in
      let (d, up, h4) = bind-eq-ok (kv.update b1 k v entry.1) _ h3 in
      let same : d ≡ b' = ap (λ x. x.0) (ok-injective h4) in
      let same' : v ≡ u = ap (λ x. x.1) (ok-injective h4) in
      let at : load_obj kv b1 k ≡ ok entry.0 = ap (λ x. x >>= λ y. ok y.0) g in
      let after : (j : String) → load_obj kv b' j ≡ (if k == j then ok u else load_obj kv b1 j) =
        λ j.
          ap (λ x. load_obj kv x j) (sym same)
          ∙ doc.load-update b1 d k j v entry.1 up
          ∙ ap (λ x. if k == j then ok x else load_obj kv b1 j) same' in
      elim (ensured b b1 (kv.get b k) e) [
        | inl kept ↦ record {
          value = entry.0;
          started = inl (ap (λ x. load_obj kv x k) kept ∙ at);
          applied = f ∙ ap ok same';
          written = λ j. after j ∙ ap (λ x. if k == j then ok u else load_obj kv x j) (sym kept);
        }
        | inr (missing, put) ↦ record {
          value = msg;
          started = inr (ap (λ x. x >>= λ y. ok y.0) missing, refl);
          applied =
              ap fn (ok-injective (sym (doc.load-put b b1 k k msg put ∙ rw (eq_refl k)) ∙ at))
              ∙ f
              ∙ ap ok same';
          written = λ j.
              after j
              ∙ ap (λ x. if k == j then ok u else x) (doc.load-put b b1 k j msg put)
              ∙ twice (k == j) (ok u) (ok msg) (load_obj kv b j);
        }
      ]

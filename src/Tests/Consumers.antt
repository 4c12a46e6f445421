-- ===== src/Tests/Consumers.antt =====
-- The theorems on the message loop and the end of the update loop, at concrete inputs.
use shar.Prelude.{
  ℕ, ◌+◌, ◌≡◌, ◌⊎◌, refl, inl, inr, true, false, Option, none, some, [], ◌∷◌, if◌then◌else◌, eqb,
}
use shar.Errors.{ok, err, wrong_last_sequence, library_error}
use shar.Consumer.{Consumer, Message, round}
use shar.Consumer.Settled.{Once, settlements-round}
use shar.Nats.{Turn}
use shar.Nats.Settles.{Returns, IsThere, update_kv-Returns}
use shar.Tests.Store.{Log, find, memory, if_last, memory_documented}

abbrev consumer : Consumer
consumer = record {
  has_signal = true;
  has_backoff = true;
  carries_state = λ e. true;
  is_workflow_error = λ e. false;
}

abbrev message : Message
message = record {
  namespace = "default";
  header_fails = false;
  embargo = "";
  embargo_value = err library_error;
}

settlements-round_example :
    Once consumer
      (record { ack = false; error = some library_error })
      (round consumer 100 message (record { ack = false; error = some library_error }))
settlements-round_example =
    settlements-round consumer 100 message (record { ack = false; error = some library_error })
      (inl (inl refl))

if_last-writes :
    {V : Type 0} (r : ℕ) (b : Log V) (o : Option (V × ℕ))
    → ((b' : Log V) × (if_last r (ok b) o ≡ ok b')) ⊎ (if_last r (ok b) o ≡ err wrong_last_sequence)
if_last-writes r b none = inr refl
if_last-writes r b (some (w, q)) = go (eqb q r)
  where
    go :
        (c : _)
        → ((b' : _) × ((if c then ok b else err wrong_last_sequence) ≡ ok b'))
          ⊎ ((if c then ok b else err wrong_last_sequence) ≡ err wrong_last_sequence)
    go true = inl (b, refl)
    go false = inr refl

-- Another client writes the key once.
abbrev rewrite_k : Turn memory ℕ
rewrite_k b = ("k", some 10) ∷ b

rewrite_k-IsThere :
    (b : Log ℕ)
    → IsThere memory memory_documented "k" (λ n. ok (n + 1)) b
    → IsThere memory memory_documented "k" (λ n. ok (n + 1)) (rewrite_k b)
rewrite_k-IsThere b h = ((10, _), refl)

update_kv-Returns_example :
    Returns memory memory_documented "k" (λ n. ok (n + 1)) (("k", some 3) ∷ []) (rewrite_k ∷ [])
update_kv-Returns_example =
    update_kv-Returns memory memory_documented "k" (λ n. ok (n + 1)) (rewrite_k ∷ [])
      (("k", some 3) ∷ []) (λ v. (v + 1, refl))
      (λ b u r. if_last-writes r (("k", some u) ∷ b) (find "k" b)) (rewrite_k-IsThere, tt)
      ((3, 1), refl)

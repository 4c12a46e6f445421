-- ===== src/Exchange/Lone.antt =====
-- handleMessageExchange of internal/server/workflow/messages.go, for the party that arrives first.
use shar.Prelude.{◌≡◌, refl, ap, ◌∙◌, ◌⊎◌, String, Option, none, some, List, eq_refl, arith}
use shar.Prelude.Maps.{Map}
use shar.Errors.{Outcome, ok}
use shar.Errors.Exec.{Exec, query, exec_bind-eq, ◌>>=◌}
use shar.Nats.{Turn, Documented, load_obj}
use shar.Model.{Exchange, Receiver, Sender}
use shar.Server.{Libraries, World, kvs_for}
use shar.Exchange.{
  Party, message_key, attempt_message_delivery, handle_message_exchange, enter_party, both_parties,
  deliver_both,
}

abbrev pub OneSided : Exchange → Type 0
OneSided exch = (exch.sender ≡ none) ⊎ (exch.receivers ≡ none)

module _ (lib : Libraries) (others : List (Turn lib.kv Exchange)) where
  both_parties-one :
      (s : Option Sender) (m : Option (Map Receiver)) (w : World lib)
      (next : Sender → Map Receiver → World lib → Outcome (Unit {0}) × World lib)
      → (s ≡ none) ⊎ (m ≡ none)
      → both_parties lib others s m next w ≡ (ok tt, w)
  both_parties-one none m w next h = refl
  both_parties-one (some s) none w next h = refl
  both_parties-one (some s) (some m) w next h = absurd (ground arith)

  -- A party that arrives where no exchange is stored under the message's key waits: its side of the exchange is stored under that key, the call succeeds, and nothing is delivered or changed besides.
  pub handle_message_exchange-waits :
      (doc : Documented lib.kv) (party : Party) (fn : Exchange → Exchange) (element_id : String)
      (exchange : Exchange) (name key : String) (w : World lib) {b : lib.kv.Bucket Exchange}
      → OneSided exchange
      → lib.kvs_for ≡ ok tt
      → lib.kv.create w.wf_messages (message_key name key) exchange ≡ ok b
      → (handle_message_exchange lib others party fn element_id exchange name key w
          ≡ (ok tt, record w { wf_messages = b }))
        × (load_obj lib.kv b (message_key name key) ≡ ok exchange)
  unfolding handle_message_exchange enter_party attempt_message_delivery
  handle_message_exchange-waits doc party fn element_id exchange name key w {b} one k h =
      let stored : load_obj lib.kv b (message_key name key) ≡ ok exchange =
        doc.load-create w.wf_messages b (message_key name key) (message_key name key) exchange h
        ∙ rw (eq_refl (message_key name key)) in
      let w1 = record w { wf_messages = b } in
      let attempt : Exchange → Exec (World lib) (Unit {0}) =
        λ x. attempt_message_delivery lib others x element_id party name key in
      let both : Sender → Map Receiver → Exec (World lib) (Unit {0}) =
        λ s m. deliver_both lib others s m element_id party name key in
      let read : Exec (World lib) Exchange =
        query (λ x. load_obj lib.kv x.wf_messages (message_key name key)) in
      let enter = enter_party lib others (message_key name key) exchange fn in
      let entered : enter w ≡ (ok tt, w1) = rw h in
      (
        exec_bind-eq (kvs_for lib) (λ t. enter >>= λ u. read >>= attempt) w (ap (λ r. (r, w)) k)
            ∙ exec_bind-eq enter (λ u. read >>= attempt) w entered
            ∙ exec_bind-eq read attempt w1 (ap (λ r. (r, w1)) stored)
            ∙ exec_bind-eq (kvs_for lib)
                (λ t. both_parties lib others exchange.sender exchange.receivers both) w1
                (ap (λ r. (r, w1)) k)
            ∙ both_parties-one exchange.sender exchange.receivers w1 both one,
        stored,
      )

-- ===== src/Tests/Exchanges.antt =====
-- The theorems on message exchanges, at concrete inputs.
use shar.Prelude.{◌≡◌, ◌≢◌, ◌↔◌, refl, inr, true, false, none, some, [], ◌∷◌}
use shar.Errors.{ok, err, job_not_found}
use shar.Nats.{load_obj}
use shar.Model.{Exchange}
use shar.Exchange.{sender_party, all_received, deliver, handle_message_exchange, set_sender}
use shar.Exchange.Receivers.{AllThere, all_received_iff}
use shar.Exchange.Delivery.{Delivered, deliver-Delivered, deliver-gone}
use shar.Exchange.Met.{Met}
use shar.Exchange.Lone.{handle_message_exchange-waits}
use shar.Tests.Store.{memory, memory_documented}
use shar.Tests.Data.{libraries, world, await_message, paid_sender, await_receiver}

all_received_iff_example :
    (all_received false (await_message ∷ []) (("await", await_receiver) ∷ []) ≡ true)
    ↔ (((await_message ∷ []) ≢ []) × AllThere (("await", await_receiver) ∷ []) (await_message ∷ []))
all_received_iff_example = all_received_iff (await_message ∷ []) (("await", await_receiver) ∷ [])

deliver-Delivered_example :
    Delivered libraries paid_sender
      (await_receiver ∷ [])
      world
      (deliver libraries [] paid_sender (await_receiver ∷ []) world).1
unfolding deliver
deliver-Delivered_example =
    deliver-Delivered libraries [] paid_sender (await_receiver ∷ []) world
      {w' = (deliver libraries [] paid_sender (await_receiver ∷ []) world).1} refl

deliver-gone_example :
    deliver libraries [] paid_sender (record await_receiver { id = "gone" } ∷ []) world
    ≡ (err job_not_found, world)
unfolding load_obj
deliver-gone_example =
    deliver-gone libraries [] paid_sender (record await_receiver { id = "gone" }) [] world refl refl

handle_message_exchange-waits_example :
    (handle_message_exchange libraries [] sender_party
        (set_sender paid_sender)
        ""
        (record { sender = some paid_sender; receivers = none })
        "paid"
        "k"
        world
      ≡ (
        ok tt,
        record world {
          wf_messages =
              ("paid-k", some (record { sender = some paid_sender; receivers = none })) ∷ [];
        },
      ))
    × (load_obj memory {V = Exchange}
          (("paid-k", some (record { sender = some paid_sender; receivers = none })) ∷ [])
          "paid-k"
        ≡ ok (record { sender = some paid_sender; receivers = none }))
handle_message_exchange-waits_example =
    handle_message_exchange-waits libraries [] memory_documented sender_party
      (set_sender paid_sender) "" (record { sender = some paid_sender; receivers = none }) "paid"
      "k" world (inr refl) refl refl

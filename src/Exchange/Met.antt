-- ===== src/Exchange/Met.antt =====
-- attemptMessageDelivery of internal/server/workflow/messages.go, where both sides are there.
use shar.Prelude.{◌≡◌, ◌⊎◌, String, true, false, List}
use shar.Prelude.Maps.{Map}
use shar.Errors.{ok, err, key_not_found}
use shar.Nats.{load_obj}
use shar.Model.{Exchange, MessageReceiver, Receiver, Sender}
use shar.Server.{Libraries, World}
use shar.Exchange.{Party, message_key, all_received, recipients}
use shar.Exchange.Delivery.{Delivered}

-- The delivery came to its end, and the exchange is gone exactly when every expected receiver is in it.
pub record Met (lib : Libraries) (s : Sender) (m : Map Receiver) (receiver_name : String)
    (party : Party) (name key : String) (w w' : World lib) : Type 0 where
  pub rs : List Receiver
  pub chosen : recipients party receiver_name m ≡ ok rs
  pub told : World lib
  pub delivered : Delivered lib s rs w told
  pub expected : List MessageReceiver
  pub loads : load_obj lib.kv told.wf_msg_types name ≡ ok expected
  pub outcome :
      ((all_received false expected m ≡ true)
        × (load_obj lib.kv w'.wf_messages (message_key name key) ≡ err key_not_found)
        × (w' ≡ record told { wf_messages = w'.wf_messages }))
      ⊎ ((all_received false expected m ≡ false) × (w' ≡ told))

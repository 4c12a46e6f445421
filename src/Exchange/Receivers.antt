-- ===== src/Exchange/Receivers.antt =====
-- hasAllReceivers: when an exchange is finished.
use shar.Prelude.{◌≡◌, ◌≢◌, ◌↔◌, refl, Bool, true, false, List, [], ◌∷◌, arith, All}
use shar.Prelude.Maps.{Map, has_key}
use shar.Model.{MessageReceiver, Receiver}
use shar.Exchange.{all_received}

abbrev pub AllThere : Map Receiver → List MessageReceiver → Type 0
AllThere receivers = All (λ r. has_key r.id receivers ≡ true)

all_received-AllThere :
    (flag : Bool) (expected : List MessageReceiver) (receivers : Map Receiver)
    → all_received flag expected receivers ≡ true
    → AllThere receivers expected
unfolding all_received
all_received-AllThere flag [] receivers h = tt
all_received-AllThere flag (r ∷ rs) receivers h =
    (ground arith, all_received-AllThere true rs receivers (ground arith))

AllThere-all_received :
    (expected : List MessageReceiver) (receivers : Map Receiver)
    → AllThere receivers expected
    → all_received true expected receivers ≡ true
unfolding all_received
AllThere-all_received [] receivers h = refl
AllThere-all_received (r ∷ rs) receivers h =
    ground (arith, h.0, AllThere-all_received rs receivers h.1)

-- The test whether an exchange has all its receivers passes exactly when at least one receiver is expected and every expected one has arrived.
pub all_received_iff :
    (expected : List MessageReceiver) (receivers : Map Receiver)
    → (all_received false expected receivers ≡ true)
      ↔ ((expected ≢ []) × AllThere receivers expected)
unfolding all_received
all_received_iff expected receivers = (forward expected, backward expected)
  where
    forward :
        (l : List MessageReceiver)
        → all_received false l receivers ≡ true
        → (l ≢ []) × AllThere receivers l
    forward [] h = absurd (ground arith)
    forward (r ∷ rs) h = (λ e. ground arith, all_received-AllThere false (r ∷ rs) receivers h)

    backward :
        (l : List MessageReceiver)
        → (l ≢ []) × AllThere receivers l
        → all_received false l receivers ≡ true
    backward [] h = absurd (h.0 refl)
    backward (r ∷ rs) h = rw h.1.0 (AllThere-all_received rs receivers h.1.1)

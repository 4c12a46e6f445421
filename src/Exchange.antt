-- ===== src/Exchange.antt =====
-- internal/server/workflow/messages.go: a sender and the receivers of a message meet in the bucket of
-- exchanges, under the message's name and correlation key. `others` is what other handlers do to the
-- bucket between a read and its write.
pub mod Receivers
pub mod Delivery
pub mod Lone
pub mod Met
use Prim.Native.String.{◌++◌ as str_append}
use shar.Prelude.{String, Bool, true, false, Option, none, some, List, [], ◌∷◌, ◌==◌, if◌then◌else◌}
use shar.Prelude.Maps.{Map, lookup, insert, has_key}
use shar.Errors.{
  Err, Outcome, ok, err, panic, fatal, acked, is_key_exists, is_key_not_found, element_not_found,
  library_error, make_fatal,
}
use shar.Errors.Exec.{
  Exec, pure, raise, lift, query, committed, continue, relabel, on_err, handle, ◌>>=◌, ◌>>◌,
}
use shar.Tracking
use shar.Nats.{Turn, load_obj, update_obj, abandoned}
use shar.Model.{
  Bytes, Element, Exchange, MessageReceiver, Receiver, Sender, Workflow, WorkflowState,
  element_table,
}
use shar.Vars.{Codec, Expr, Value, null, decode}
use shar.Server.{
  Libraries, World, await_message_complete, kvs_for, get_job, has_valid_process,
  publish_workflow_state,
}
use shar.Gateway.Handlers.{is_orphan}

pub data Party : Type 0 where
  sender_party receiver_party : Party

pub record MessageInstance : Type 0 where
  pub name : String
  pub correlation_key : String
  pub vars : Bytes

abbrev pub sender_of : MessageInstance → Sender
sender_of m = record { vars = m.vars; correlation_key = m.correlation_key }

abbrev pub receiver_of : WorkflowState → String → Receiver
receiver_of job key = record { id = Tracking.id job.id; correlation_key = key }

abbrev pub empty_exchange : Exchange
empty_exchange = record { sender = none; receivers = none }

-- messageKeyFrom: the two joined by a dash
abbrev pub message_key : String → String → String
message_key name key = str_append name (str_append "-" key)

-- The two functions that enter a party.
abbrev pub set_sender : Sender → Exchange → Exchange
set_sender s exch = record exch { sender = some s }

abbrev pub add_receiver : String → Receiver → Option (Map Receiver) → Map Receiver
add_receiver element_id r none = (element_id, r) ∷ []
add_receiver element_id r (some m) = insert element_id r m

abbrev pub set_receiver : String → Receiver → Exchange → Exchange
set_receiver element_id r exch = record exch {
  receivers = some (add_receiver element_id r exch.receivers);
}

-- The loop of hasAllReceivers; the flag is false before it.
unfoldable pub all_received : Bool → List MessageReceiver → Map Receiver → Bool
all_received flag [] receivers = flag
all_received flag (r ∷ rs) receivers =
    let rest = all_received true rs receivers in if has_key r.id receivers then rest else false

-- exchange.Receivers[receiverName], whose Id is read: a nil pointer where it is absent
abbrev pub only_receiver : Option Receiver → Outcome (List Receiver)
only_receiver none = panic
only_receiver (some r) = ok (r ∷ [])

abbrev pub values : Map Receiver → List Receiver
values [] = []
values ((k, r) ∷ m) = r ∷ values m

-- maps.Values for the sender, and the receiver that has just arrived otherwise
abbrev pub recipients : Party → String → Map Receiver → Outcome (List Receiver)
recipients sender_party name m = ok (values m)
recipients receiver_party name m = only_receiver (lookup name m)

module _ (lib : Libraries) (others : List (Turn lib.kv Exchange)) where
  abbrev pub W : Type 0
  W = World lib

  unfoldable pub has_all_receivers : Map Receiver → String → Exec W Bool
  unfolding all_received load_obj
  has_all_receivers receivers message_name = do
    kvs_for lib
    expected ← query (λ w. load_obj lib.kv w.wf_msg_types message_name)
    pure (all_received false expected receivers)

  -- One round of the delivery loop. `false` is the early `return nil`.
  abbrev pub found_job : Sender → Exec W Bool → Outcome WorkflowState → Exec W Bool
  found_job s next (ok job) = do
    publish_workflow_state lib await_message_complete (record job { vars = s.vars })
    next
  found_job s next (err e) = if is_key_not_found e then pure false else raise e
  found_job s next panic = lift panic

  unfoldable pub deliver : Sender → List Receiver → Exec W Bool
  unfolding get_job publish_workflow_state
  deliver s [] = pure true
  deliver s (r ∷ rs) = let next = deliver s rs in handle (get_job lib r.id) (found_job s next)

  unfoldable pub delete_exchange : String → Exec W (Unit {0})
  delete_exchange key w =
      committed w (λ b. record w { wf_messages = b }) (λ b. tt) (lib.kv.delete w.wf_messages key)

  abbrev pub when : Bool → Exec W (Unit {0}) → Exec W (Unit {0})
  when true m = m
  when false m = pure tt

  -- The body of the `if` of attemptMessageDelivery, where both sides are there.
  unfoldable pub deliver_both :
      Sender → Map Receiver → String → Party → String → String → Exec W (Unit {0})
  unfolding deliver has_all_receivers delete_exchange
  deliver_both s receivers receiver_name party message_name correlation_key = do
    rs ← lift (recipients party receiver_name receivers)
    finished ← deliver s rs
    when finished (do
      all ← has_all_receivers receivers message_name
      when all (delete_exchange (message_key message_name correlation_key)))

  abbrev pub both_parties :
      Option Sender
      → Option (Map Receiver)
      → (Sender → Map Receiver → Exec W (Unit {0}))
      → Exec W (Unit {0})
  both_parties (some s) (some m) next = next s m
  both_parties none _ next = pure tt
  both_parties (some s) none next = pure tt

  unfoldable pub attempt_message_delivery :
      Exchange → String → Party → String → String → Exec W (Unit {0})
  unfolding deliver_both
  attempt_message_delivery exchange receiver_name party message_name correlation_key = do
    kvs_for lib
    both_parties exchange.sender exchange.receivers
        (λ s m. deliver_both s m receiver_name party message_name correlation_key)

  -- Create, and UpdateObj where the key exists.
  abbrev pub created :
      W → String → (Exchange → Exchange) → Outcome (lib.kv.Bucket Exchange) → Outcome (Unit {0}) × W
  created w key fn (ok b) = (ok tt, record w { wf_messages = b })
  created w key fn (err e) =
      if is_key_exists e
      then committed
          (record w { wf_messages = abandoned lib.kv w.wf_messages key empty_exchange others })
          (λ r. record w { wf_messages = r.0 }) (λ r. tt)
          (update_obj lib.kv w.wf_messages key empty_exchange (λ x. ok (fn x)) others)
      else (err e, w)
  created w key fn panic = (panic, w)

  unfoldable pub enter_party : String → Exchange → (Exchange → Exchange) → Exec W (Unit {0})
  enter_party key exchange fn w = created w key fn (lib.kv.create w.wf_messages key exchange)

  unfoldable pub handle_message_exchange :
      Party → (Exchange → Exchange) → String → Exchange → String → String → Exec W (Unit {0})
  unfolding enter_party attempt_message_delivery load_obj
  handle_message_exchange party fn element_id exchange message_name correlation_key = do
    kvs_for lib
    enter_party (message_key message_name correlation_key) exchange fn
    updated ← query (λ w. load_obj lib.kv w.wf_messages (message_key message_name correlation_key))
    attempt_message_delivery updated element_id party message_name correlation_key

  -- processMessage, on the message that was unmarshalled
  unfoldable pub process_message : Outcome MessageInstance → Exec W Bool
  unfolding handle_message_exchange
  process_message msg = do
    instance_ ← lift msg
    let sender = sender_of instance_
    handle_message_exchange sender_party (set_sender sender) ""
        (record { sender = some sender; receivers = none }) instance_.name instance_.correlation_key
    pure true

  -- getElement: an error of the store other than a missing key leaves an empty workflow.
  abbrev pub elements_of : Outcome Workflow → Outcome (Map Element)
  elements_of (ok wf) = ok (element_table wf)
  elements_of (err e) = if is_key_not_found e then err e else ok []
  elements_of panic = panic

  abbrev pub located : Option Element → Outcome Element
  located none = err element_not_found
  located (some el) = ok el

  unfoldable pub get_element : WorkflowState → Exec W Element
  unfolding load_obj
  get_element state = do
    kvs_for lib
    els ← query (λ w. elements_of (load_obj lib.kv w.wf state.workflow_id))
    lift (located (lookup state.element_id els))

  -- An error of the expression or a nil result is fatal.
  abbrev pub correlated : Outcome Value → Outcome Value
  correlated (ok null) = err (fatal library_error)
  correlated (ok v) = ok v
  correlated (err e) = err (fatal e)
  correlated panic = panic

  -- awaitMessageProcessor; `show` is fmt.Sprintf("%+v").
  unfoldable pub await_message_processor :
      Codec → Expr → (Value → String) → Outcome WorkflowState → Exec W Bool
  unfolding get_element has_valid_process handle_message_exchange
  await_message_processor codec expr show msg = do
    job ← lift msg
    on_err (λ e. if is_orphan e then acked e else e)
        (has_valid_process lib job.process_instance_id job.execution_id)
    el ← on_err (λ e. if is_key_not_found e then acked (fatal e) else e) (get_element job)
    vrs ← lift (make_fatal (decode codec job.vars))
    res ← lift (correlated (expr.eval (str_append "= " el.execute) vrs))
    let receiver = receiver_of job (show res)
    handle_message_exchange receiver_party (set_receiver job.element_id receiver) job.element_id
        (record { sender = none; receivers = some ((job.element_id, receiver) ∷ []) }) el.msg
        (show res)
    pure true

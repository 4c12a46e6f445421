-- ===== src/Exchange/Delivery.antt =====
-- The delivery loop of attemptMessageDelivery in internal/server/workflow/messages.go.
use shar.Prelude.{ℕ, ◌≡◌, refl, sym, ap, subst, ◌∙◌, String, true, List, [], ◌∷◌, ◌++◌, arith}
use mathlib.Core.List.{append_assoc, append-nil}
use shar.Errors.{Err, Outcome, ok, err, panic, key_not_found, job_not_found}
use shar.Errors.Exec.{exec_bind-ok}
use shar.Nats.{Turn, load_obj}
use shar.Model.{Exchange, WorkflowState, Sender, Receiver}
use shar.Server.{
  Libraries, World, Subject, await_message_complete, get_job, not_found, publish_workflow_state,
}
use shar.Server.Published.{publish_workflow_state-Sent}
use shar.Server.Reads.{read-ok}
use shar.Exchange.{deliver, found_job}

-- The waiting job of each receiver.
abbrev pub Jobs : (lib : Libraries) → World lib → List Receiver → List WorkflowState → Type 0
Jobs lib w [] [] = Unit
Jobs lib w (r ∷ rs) (job ∷ jobs) = (load_obj lib.kv w.job r.id ≡ ok job) × Jobs lib w rs jobs
Jobs lib w _ _ = ⊥

abbrev pub notices : Sender → ℕ → List WorkflowState → List (Subject × WorkflowState)
notices s now [] = []
notices s now (job ∷ jobs) =
    (await_message_complete, record job { vars = s.vars; unix_time_nano = now })
    ∷ notices s now jobs

-- Every receiver's job was found and told, and only the stream changed.
pub record Delivered (lib : Libraries) (s : Sender) (rs : List Receiver) (w w' : World lib)
    : Type 0 where
  pub jobs : List WorkflowState
  pub found : Jobs lib w rs jobs
  pub sent : lib.published w'.stream ≡ lib.published w.stream ++ notices s w.now jobs
  pub only_stream : w' ≡ record w { stream = w'.stream }

not_found-ok : {A : Type 0} (e : Err) (r : Outcome A) {a : A} → not_found e r ≡ ok a → r ≡ ok a
not_found-ok e (ok a) h = h
not_found-ok e (err key_not_found) h = absurd (ground arith)
not_found-ok e (err x) h = absurd (ground arith)
not_found-ok e panic h = absurd (ground arith)

module _ (lib : Libraries) (others : List (Turn lib.kv Exchange)) where
  get_job-found :
      (w : World lib) (id : String) {job : WorkflowState} {w' : World lib}
      → get_job lib id w ≡ (ok job, w')
      → (load_obj lib.kv w.job id ≡ ok job) × (w' ≡ w)
  unfolding get_job
  get_job-found w id h =
      let (e, same) = read-ok lib (λ w. not_found job_not_found (load_obj lib.kv w.job id)) w h in
      (not_found-ok job_not_found (load_obj lib.kv w.job id) e, same)

  -- `Jobs` reads the bucket of jobs only.
  Jobs-stream :
      (w : World lib) (s : lib.Stream) (rs : List Receiver) (jobs : List WorkflowState)
      → Jobs lib (record w { stream = s }) rs jobs
      → Jobs lib w rs jobs
  Jobs-stream w s [] [] h = tt
  Jobs-stream w s (r ∷ rs) (job ∷ jobs) h = (h.0, Jobs-stream w s rs jobs h.1)
  Jobs-stream w s [] (job ∷ jobs) h = absurd h
  Jobs-stream w s (r ∷ rs) [] h = absurd h

  Delivered-cons :
      (s : Sender) (r : Receiver) (rs : List Receiver) (w w1 w' : World lib) (job : WorkflowState)
      → load_obj lib.kv w.job r.id ≡ ok job
      → lib.published w1.stream
        ≡ lib.published w.stream
          ++ (await_message_complete, record job { vars = s.vars; unix_time_nano = w.now }) ∷ []
      → w1 ≡ record w { stream = w1.stream }
      → Delivered lib s rs w1 w'
      → Delivered lib s (r ∷ rs) w w'
  Delivered-cons s r rs w w1 w' job found out e d =
      let clock : w1.now ≡ w.now = ap (λ x. x.now) e in
      record {
        jobs = job ∷ d.jobs;
        found = (
          found,
          Jobs-stream w w1.stream rs d.jobs (subst (λ x. Jobs lib x rs d.jobs) e d.found),
        );
        sent =
            d.sent
            ∙ ap (λ x. x ++ notices s w1.now d.jobs) out
            ∙ append_assoc (lib.published w.stream) _ (notices s w1.now d.jobs)
            ∙ ap
                (λ n.
                  lib.published w.stream
                  ++ (await_message_complete, record job { vars = s.vars; unix_time_nano = w.now })
                    ∷ notices s n d.jobs)
                clock;
        only_stream = d.only_stream ∙ ap {A = World lib} (λ x. record x { stream = w'.stream }) e;
      }

  -- When the delivery to a list of receivers runs to its end, the waiting job of each receiver was found, one completion per receiver went out in the receivers' order, each carrying the sender's variables and otherwise the state of the job, and nothing but the stream changed.
  pub deliver-Delivered :
      (s : Sender) (rs : List Receiver) (w : World lib) {w' : World lib}
      → deliver lib others s rs w ≡ (ok true, w')
      → Delivered lib s rs w w'
  unfolding deliver
  deliver-Delivered s [] w {w'} h =
      let e : w ≡ w' = ap (λ x. x.1) h in
      record {
        jobs = [];
        found = tt;
        sent = ap (λ x. lib.published x.stream) (sym e) ∙ sym (append-nil (lib.published w.stream));
        only_stream = sym e ∙ ap (λ x. record w { stream = x.stream }) e;
      }
  deliver-Delivered s (r ∷ rs) w {w'} h =
      go (get_job lib r.id w) refl h (λ w1 w'. deliver-Delivered s rs w1)
    where
      go :
          (x : Outcome WorkflowState × World lib)
          → get_job lib r.id w ≡ x
          → found_job lib others s (deliver lib others s rs) x.0 x.1 ≡ (ok true, w')
          → ((w1 w' : World lib)
              → deliver lib others s rs w1 ≡ (ok true, w')
              → Delivered lib s rs w1 w')
          → Delivered lib s (r ∷ rs) w w'
      go (ok job, w0) e g ih =
          let (found, same) = get_job-found w r.id e in
          let (s1, w1, p, g1) =
            exec_bind-ok
              (publish_workflow_state lib await_message_complete (record job { vars = s.vars })) _
              w0 g in
          let p' =
            subst
              (λ x.
                publish_workflow_state lib await_message_complete (record job { vars = s.vars }) x
                ≡ (ok s1, w1))
              same p in
          let (f, out) =
            publish_workflow_state-Sent lib w await_message_complete (record job { vars = s.vars })
              p' in
          Delivered-cons s r rs w w1 w' job found
            (out.sent ∙ ap (λ x. lib.published w.stream ++ (await_message_complete, x) ∷ []) f)
            out.only_stream (ih w1 w' g1)
      go (err key_not_found, w0) e g ih = absurd (ground arith)
      go (err x, w0) e g ih = absurd (ground arith)
      go (panic, w0) e g ih = absurd (ground arith)

  -- A receiver whose job is gone stops the delivery with an error, before any later receiver is told: the lookup of the job reports a job that was not found, never the missing key that the loop tests for.
  pub deliver-gone :
      (s : Sender) (r : Receiver) (rs : List Receiver) (w : World lib)
      → lib.kvs_for ≡ ok tt
      → load_obj lib.kv w.job r.id ≡ err key_not_found
      → deliver lib others s (r ∷ rs) w ≡ (err job_not_found, w)
  unfolding deliver get_job
  deliver-gone s r rs w k h = rw (k, h)

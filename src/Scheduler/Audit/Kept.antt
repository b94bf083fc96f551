-- ===== src/Scheduler/Audit/Kept.antt =====
-- What the audit of `src/scheduler/legacy-scheduler-audit.adapter.ts` leaves as the operation made it.
use telegram_news_agent.Prelude.{String, Option, none, some, ◌∷◌, ◌++◌}
use telegram_news_agent.Effects.{Outcome, returns, throws, settle, throw}
use telegram_news_agent.Effects.Rules.{Ensures}
use telegram_news_agent.Scheduler.Errors.{Fault}
use telegram_news_agent.Scheduler.Contracts.{RunResult, Call, Ports}
use telegram_news_agent.Scheduler.Ownership.{State, Action, perform, check_signal}
use telegram_news_agent.Scheduler.Ownership.Stopping.{
  IsStopped, Keeps, Stops, Keeps-then, Keeps-catch, Stops-skip, IsStopped-then, forget,
  perform-Keeps, check_signal-Keeps,
}
use telegram_news_agent.Scheduler.Audit.{
  own, finish_run, after_failure, defer_audit, after_success, audit_run,
}

module _ {W : Type 0} (p : Ports W) where
  defer_audit-Keeps :
      (outbox : Option (W → Outcome Fault W (Unit {0}))) (e : Fault)
      → Keeps (defer_audit p outbox e)
  defer_audit-Keeps none e = λ s x. x
  defer_audit-Keeps (some enqueue) e = perform-Keeps p Call.enqueue_audit enqueue

  after_success-Keeps : (outcome : RunResult) → Keeps (after_success p outcome)
  unfolding after_success
  after_success-Keeps outcome =
      Keeps-then _ _
        (Keeps-catch _ _
          (Keeps-then (check_signal p) _ (check_signal-Keeps p)
            λ _. perform-Keeps p (Call.finish_audit "Succeeded") (p.finish_audit "Succeeded"))
          (defer_audit-Keeps p.outbox))
        (λ _ s x. x)

  -- the audit of a failure always throws
  after_failure-Stops : (e : Fault) → Stops (after_failure p e)
  unfolding after_failure
  after_failure-Stops e s = go (finish_run p "Failed" s)
    where
      go :
          (o : Outcome Fault (State W) (Unit {0}))
          → Ensures
              (λ _ t. IsStopped t)
              (λ _ _. Unit)
              (settle o
                (λ _. throw {A = RunResult} e)
                (λ audit_error. throw (
                  "Pipeline failed and its Notion audit record could not be finalized"
                  ∷ (own e ++ own audit_error))))
      go (returns _ t) = tt
      go (throws f t) = tt

  -- An operation that returns with the heartbeat stopped does so under the audit too.
  pub audit_run-Stops :
      (run_id : String) (operation : Action W RunResult)
      → Stops operation
      → Stops (audit_run p run_id operation)
  unfolding audit_run
  audit_run-Stops run_id operation h = Stops-skip (check_signal p) _ λ _.
      Stops-skip (perform p (Call.start_audit run_id) (p.start_audit run_id)) _
        λ _ s. go (operation s) (h s)
    where
      go :
          (o : Outcome Fault (State W) RunResult)
          → Ensures (λ _ t. IsStopped t) (λ _ _. Unit) o
          → Ensures
              (λ _ t. IsStopped t)
              (λ _ _. Unit)
              (settle o (after_success p) (after_failure p))
      go (returns a t) q =
          forget (after_success p a t)
            (IsStopped-then (after_success p a t) t q (after_success-Keeps a t))
      go (throws e t) q = after_failure-Stops e t

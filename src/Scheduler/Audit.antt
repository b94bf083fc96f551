-- ===== src/Scheduler/Audit.antt =====
-- `LegacySchedulerAuditAdapter` of `src/scheduler/legacy-scheduler-audit.adapter.ts`.
pub mod Kept
use telegram_news_agent.Prelude.{String, Option, none, some, [], ◌∷◌, ◌++◌}
use telegram_news_agent.Effects.{Outcome, pure, throw, catch, attempt, ◌>>◌}
use telegram_news_agent.Scheduler.Errors.{Fault}
use telegram_news_agent.Scheduler.Contracts.{RunResult, Call, Ports}
use telegram_news_agent.Scheduler.Ownership.{Action, perform, check_signal}

-- an error's own message, without those of an `AggregateError`'s errors
abbrev own : Fault → Fault
own [] = []
own (message ∷ _) = message ∷ []

module _ {W : Type 0} (p : Ports W) where
  abbrev finish_run : String → Action W (Unit {0})
  finish_run status = perform p (Call.finish_audit status) (p.finish_audit status)

  -- the operation failed: its error, or both errors where the audit fails too
  pub after_failure : Fault → Action W RunResult
  after_failure error =
      attempt (finish_run "Failed") (λ _. throw error)
        (λ audit_error. throw (
          "Pipeline failed and its Notion audit record could not be finalized"
          ∷ (own error ++ own audit_error)))

  abbrev defer_audit : Option (W → Outcome Fault W (Unit {0})) → Fault → Action W (Unit {0})
  defer_audit none error = throw error
  defer_audit (some enqueue) error = perform p Call.enqueue_audit enqueue

  -- the operation succeeded: an audit that fails goes to the outbox
  pub after_success : RunResult → Action W RunResult
  after_success outcome = do
    catch (do check_signal p; finish_run "Succeeded") (defer_audit p.outbox)
    pure outcome

  pub audit_run : String → Action W RunResult → Action W RunResult
  audit_run run_id operation = do
    check_signal p
    perform p (Call.start_audit run_id) (p.start_audit run_id)
    attempt operation after_success after_failure

-- ===== src/Scheduler/RunOnce/Timers.antt =====
-- The schedule's heartbeat over a whole occurrence of
-- `src/scheduler/application/run-scheduled-news-once.use-case.ts`.
use telegram_news_agent.Prelude.{ℕ, Bool, true, false, some, String, if◌then◌else◌, str_eq, ◌||◌}
use telegram_news_agent.Effects.{pure, throw, attempt, catch, ◌>>◌}
use telegram_news_agent.Effects.Rules.{Ensures}
use telegram_news_agent.Scheduler.Errors.{Fault, error_code}
use telegram_news_agent.Scheduler.Contracts.{Claim, RunStatus, schedule, Call, Ports}
use telegram_news_agent.Scheduler.Ownership.{State, perform, stop, check_signal}
use telegram_news_agent.Scheduler.Ownership.Stopping.{
  IsStopped, Keeps, Stops, StopsBoth, Keeps-then, Keeps-catch, Stops-skip, StopsBoth-then,
  StopsBoth-attempt, StopsBoth-catch, Stops-catch, Keeps-if, perform-Keeps, stop-StopsBoth,
}
use telegram_news_agent.Scheduler.Audit.Kept.{audit_run-Stops}
use telegram_news_agent.Scheduler.RunOnce.{
  demand, finish, execute_claim, run_claim, settle as settle_run, report_failure, after_error,
  after_claim, settings_of, chat_of, notify_paused,
}
use telegram_news_agent.Scheduler.RunOnce.Steps.{execute_claim-Stops, finish-Keeps}

module _ {W : Type 0} (p : Ports W) where
  run_claim-Stops : (claim : Claim) → Stops (run_claim p claim)
  unfolding run_claim
  run_claim-Stops claim = Stops-skip (check_signal p) _ λ _.
      Stops-skip (demand p (p.settings_for claim)) _ λ settings.
        audit_run-Stops p claim.run_id (execute_claim p claim settings)
          (execute_claim-Stops p claim settings)

  pausing-Keeps :
      (chat_id : ℕ) (code : String) (is_paused : Bool)
      → Keeps (if is_paused then notify_paused p chat_id >> pure code else pure "claim_lost")
  pausing-Keeps chat_id code is_paused =
      Keeps-if is_paused _ _
        (Keeps-then (notify_paused p chat_id) _
          (Keeps-catch (perform p (Call.notify chat_id) (p.notify chat_id)) _
            (perform-Keeps p (Call.notify chat_id) (p.notify chat_id)) (λ e s x. x))
          (λ _ s x. x))
        (λ s x. x)

  settle-Keeps : (chat_id : ℕ) (code : String) → Keeps (settle_run p chat_id code)
  unfolding settle_run
  settle-Keeps chat_id code =
      Keeps-if (str_eq code "publication_unresolved") _ _
        (Keeps-catch _ _
          (Keeps-then (perform p (Call.pause code) (p.pause code)) _
            (perform-Keeps p (Call.pause code) (p.pause code)) (pausing-Keeps chat_id code))
          (λ e s x. x))
        (Keeps-if (str_eq code "claim_lost" || str_eq code "review_delivery_failed") _ _ (λ s x. x)
          (Keeps-catch _ _
            (Keeps-then (finish p RunStatus.failed (some code)) _
              ((finish-Keeps p) RunStatus.failed (some code)) (λ _ s x. x))
            (λ e s x. x)))

  report_failure-StopsBoth : (claim : Claim) (e : Fault) → StopsBoth (report_failure p claim e)
  unfolding report_failure
  report_failure-StopsBoth claim e =
      StopsBoth-then (attempt (stop p schedule) (λ _. pure (error_code e)) (λ _. pure "claim_lost"))
        _ (StopsBoth-attempt (stop p schedule) _ _ (stop-StopsBoth p) (λ _ s x. x) (λ _ s x. x))
        λ code.
          Keeps-then (settle_run p (chat_of claim (settings_of (p.settings_for claim))) code) _
            (settle-Keeps (chat_of claim (settings_of (p.settings_for claim))) code) (λ _ s x. x)

  after_error-StopsBoth : (claim : Claim) (e : Fault) → StopsBoth (after_error p claim e)
  unfolding after_error
  after_error-StopsBoth claim e s = either (p.is_aborted s.world)
    where
      either :
          (is_aborted : Bool)
          → Ensures
              (λ _ t. IsStopped t)
              (λ _ t. IsStopped t)
              ((if is_aborted
                  then catch (stop p schedule) (λ _. pure tt) >> throw p.abort_fault
                  else report_failure p claim e)
                s)
      either true =
          StopsBoth-then (catch (stop p schedule) (λ _. pure tt)) _
            (StopsBoth-catch (stop p schedule) (λ _. pure tt) (stop-StopsBoth p) (λ _ s x. x))
            (λ _ s x. x) s
      either false = report_failure-StopsBoth claim e s

  -- Once a schedule is claimed, the occurrence ends with the claim's heartbeat stopped, so no timer
  -- renews a claim that is over. This holds whether it returns or throws, and whatever the ports,
  -- the intervals and the abort signal do.
  pub after_claim-StopsBoth :
      (claim : Claim) (s : State W)
      → Ensures (λ _ t. IsStopped t) (λ _ t. IsStopped t) (after_claim p (some claim) s)
  unfolding after_claim
  after_claim-StopsBoth claim s =
      Stops-catch (run_claim p claim) (after_error p claim) (run_claim-Stops claim)
        (after_error-StopsBoth claim) _

-- ===== src/Scheduler/Tests.antt =====
-- Inputs for the scheduler of `src/scheduler`, and the theorems at them.
use telegram_news_agent.Prelude.{ℕ, suc, refl, true, false, [], ◌∷◌, none, some, inr, arith}
use telegram_news_agent.Prelude.Text.{nat}
use telegram_news_agent.Effects.{Outcome, returns, throws}
use telegram_news_agent.Effects.Rules.{Ensures}
use telegram_news_agent.Scheduler.Worker
use telegram_news_agent.Scheduler.Worker.Pace.{StaysPaced, loop_paces, is_paced}
use telegram_news_agent.Scheduler.Errors.{Fault, unresolved_fault, error_code-unresolved_fault}
use telegram_news_agent.Scheduler.Contracts.{
  Claim, Settings, ApprovalPolicy, DraftStatus, Publication, Ports,
}
use telegram_news_agent.Scheduler.Ownership.{State, running}
use telegram_news_agent.Scheduler.Ownership.Counting.{Between}
use telegram_news_agent.Scheduler.RunOnce.{run_pipeline, execute_claim, report_failure, after_claim}
use telegram_news_agent.Scheduler.RunOnce.Lease.{releases, run_pipeline-releases}
use telegram_news_agent.Scheduler.RunOnce.Timers.{after_claim-StopsBoth}
use telegram_news_agent.Scheduler.RunOnce.Unresolved.{finishes, report_failure-Makes}
use telegram_news_agent.Scheduler.Ownership.Stopping.{IsStopped}
use telegram_news_agent.Scheduler.RunOnce.Publishing.{execute_claim_publishes}
use telegram_news_agent.Scheduler.RunOnce.Silent.{publications}

-- every run fails
abbrev worker_ports : Worker.Ports ℕ
worker_ports = record {
  is_aborted = λ _. false;
  run_once = λ w. throws (record { code = some "Secret!" }) (suc w);
  sleep = λ _ w. returns tt w;
  random = λ _. 0;
}

abbrev loop_start : Worker.Loop ℕ
loop_start = record { world = 0; failures = 0; events = [] }

loop_paces_example : StaysPaced worker_ports 30000 (Worker.loop worker_ports 30000 4 loop_start)
unfolding is_paced
loop_paces_example = loop_paces worker_ports 30000 (omega arith) 4 loop_start (refl, refl)

abbrev answer : {A : Type 0} → A → ℕ → Outcome Fault ℕ A
answer a w = returns a (suc w)

abbrev settings : Settings
settings = record {
  channel_id = "c1";
  review_chat_id = 5;
  updated_by = 5;
  version = 1;
  approval_policy = ApprovalPolicy.automatic;
  quiet_hours_enabled = true;
}

abbrev claim : Claim
claim = record {
  channel_id = "c1";
  review_chat_id = 5;
  run_id = "r1";
  draft_id = none;
  preview = none;
  window_hours = nat 24;
  publication_message_id = none;
}

abbrev ports : Ports ℕ
ports = record {
  is_aborted = λ _. false;
  abort_fault = "aborted" ∷ [];
  is_quiet_hours = λ _. false;
  settings_for = λ _. inr settings;
  fires = λ _ _. 1;
  claim_due = λ w. answer (some claim) w;
  renew = λ _. answer true;
  acquire_lease = λ w. answer true w;
  release_lease = λ w. answer tt w;
  run_workflow = λ _. answer (
      some (record {
        status = "review_ready";
        draft_id = some "d1";
        preview = some "preview";
        window_hours = nat 24;
      }));
  save_draft = λ _. answer true;
  has_pending_review = λ _. answer false;
  deliver_review = λ _ _. answer none;
  get_draft = λ _. answer DraftStatus.review;
  approve = λ _. answer tt;
  publish = λ _ _. answer (Publication.posted (some 7));
  save_publication = λ _ _. answer true;
  defer_run = λ w. answer true w;
  pause = λ _. answer true;
  finish = λ _ _. answer true;
  notify = λ _. answer tt;
  start_audit = λ _. answer tt;
  finish_audit = λ _. answer tt;
  outbox = none;
}

abbrev at_start : State ℕ
at_start = record {
  world = 0;
  calls = [];
  schedule_heartbeat = running;
  pipeline_heartbeat = running;
}

run_pipeline-releases_example :
    Between ports releases 1 1 at_start (run_pipeline ports claim settings at_start)
run_pipeline-releases_example = run_pipeline-releases ports claim settings at_start

execute_claim_publishes_example :
    Between ports publications 0 1 at_start (execute_claim ports claim settings at_start)
execute_claim_publishes_example = execute_claim_publishes ports claim settings at_start

after_claim-StopsBoth_example :
    Ensures (λ _ t. IsStopped t) (λ _ t. IsStopped t) (after_claim ports (some claim) at_start)
after_claim-StopsBoth_example = after_claim-StopsBoth ports claim at_start

report_failure-Makes_example :
    Between ports finishes 0 0 at_start (report_failure ports claim unresolved_fault at_start)
report_failure-Makes_example =
    report_failure-Makes ports claim unresolved_fault at_start error_code-unresolved_fault

-- ===== src/Telegram/Tests.antt =====
-- Inputs for the job worker of `src/telegram/telegram-news-job-worker.ts`, and the theorems at them.
use telegram_news_agent.Prelude.{ℕ, suc, ◌+◌, ◌≤◌, ◌≡◌, true, false, [], some}
use telegram_news_agent.Prelude.Text.{nat}
use telegram_news_agent.Effects.{Outcome, returns}
use telegram_news_agent.Effects.Rules.{Ensures}
use telegram_news_agent.Telegram.NewsJobs.{
  Phase, OutcomeStatus, Job, Fault, advanced, Ports, State, execute, deliver, run_once,
}
use telegram_news_agent.Telegram.NewsJobs.Outcomes.{
  saved_outcomes, retries, saved_retries, settlements, RecordsRenderable, execute_once,
  execute-RecordsRenderable, deliver_once,
}
use telegram_news_agent.Telegram.NewsJobs.Heartbeat.{starts, stops, run_once-Balanced}

abbrev job : Job
job = record { id = "j1"; claim_token = "t1"; claim_phase = Phase.execution }

abbrev answer : {A : Type 0} → A → ℕ → Outcome Fault ℕ A
answer a w = returns a (suc w)

abbrev ports : Ports ℕ
ports = record {
  is_aborted = λ _. false;
  claim_next = λ w. answer (some job) w;
  set_interval = λ w. w;
  clear_interval = λ w. answer tt w;
  run_workflow = λ _. answer (record {
    status = OutcomeStatus.published;
    draft_id = some "d1";
    publication_message_id = some (nat 7);
  });
  deliver_result = λ _. answer tt;
  renew = λ _. answer tt;
  record_outcome = λ _ _. answer true;
  retry = λ _ _. answer true;
  complete = λ _. answer true;
  retry_delivery = λ _. answer true;
  classify_execution_error = λ _. record { error_code = "failed"; terminal = false };
}

abbrev at_start : State ℕ
at_start = record { world = 0; calls = []; is_cleared = false }

execute_once_example :
    Ensures
      (λ r t.
        (saved_outcomes t + retries t ≤ 1)
        × (r ≡ advanced → saved_outcomes t + saved_retries t ≡ 1))
      (λ _ t. (saved_outcomes t ≡ 0) × (saved_retries t ≡ 0) × (retries t ≤ 1))
      (execute ports job at_start)
execute_once_example = execute_once ports job at_start

execute-RecordsRenderable_example :
    Ensures
      (λ _ t. RecordsRenderable t.calls)
      (λ _ t. RecordsRenderable t.calls)
      (execute ports job at_start)
execute-RecordsRenderable_example = execute-RecordsRenderable ports job at_start tt

deliver_once_example :
    Ensures
      (λ r t. (saved_outcomes t ≡ 0) × (retries t ≡ 0) × (r ≡ advanced → settlements t ≡ 1))
      (λ _ t. (saved_outcomes t ≡ 0) × (retries t ≡ 0) × (settlements t ≡ 0))
      (deliver ports job at_start)
deliver_once_example = deliver_once ports job at_start

run_once-Balanced_example :
    Ensures
      (λ _ t. (stops t + 0 ≡ 0 + starts t) × (starts t ≤ 1))
      (λ _ t. (stops t + 0 ≡ 0 + starts t) × (starts t ≤ 1))
      (run_once ports at_start)
run_once-Balanced_example = run_once-Balanced ports at_start

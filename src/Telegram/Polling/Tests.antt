-- ===== src/Telegram/Polling/Tests.antt =====
-- Updates and ports for the poller of `src/telegram/telegram-polling-worker.ts`, and the theorems there.
use telegram_news_agent.Prelude.{ℕ, suc, ◌+◌, ◌≡◌, false, true, some, List, [], ◌∷◌, leb}
use telegram_news_agent.Effects.{Outcome, returns}
use telegram_news_agent.Effects.Rules.{Ensures}
use telegram_news_agent.Telegram.Updates.{
  Json, object, number, whole, field, no_fields, classify_telegram_update,
}
use telegram_news_agent.Telegram.Updates.Terminal.{Describes, classify_telegram_update-Describes}
use telegram_news_agent.Telegram.Polling.{Fault, ClaimStatus, FailureStatus, Ports, State}
use telegram_news_agent.Telegram.Polling.Batch.{handle_batch}
use telegram_news_agent.Telegram.Polling.Batch.Cursor.{MovesOver, handle_batch-MovesOver}
use telegram_news_agent.Telegram.Polling.Batch.Leases.{grants, releases}
use telegram_news_agent.Telegram.Polling.Batch.Requests.{AsksBacked}
use telegram_news_agent.Telegram.Polling.Loop.{Settings, poll_telegram_updates}
use telegram_news_agent.Telegram.Polling.Loop.Asks.{poll_telegram_updates-AsksBacked}
use telegram_news_agent.Telegram.Polling.Loop.Lease.{poll_telegram_updates-releases}

abbrev message_update : ℕ → Json
message_update id =
    object (field "update_id" (number (whole id)) (field "message" (object no_fields) no_fields))

abbrev batch : List Json
batch = message_update 7 ∷ message_update 8 ∷ []

abbrev answer : {A : Type 0} → A → ℕ → Outcome Fault ℕ A
answer a w = returns a (suc w)

-- The world is the time. The lease is free from the second second on.
abbrev ports : Ports ℕ
ports = record {
  is_aborted = λ w. leb 60000 w;
  now = λ w. w;
  random = λ _. 0;
  acquire = λ w. returns (leb 2000 w) (suc w);
  release = answer tt;
  start_heartbeat = λ w. w;
  mark_poll = λ w. w;
  get_updates = λ _. answer (some batch);
  handle = λ _. answer true;
  claim = λ _ _. answer (record {
    is_claimed = true;
    claim_token = some "t";
    claim_status = ClaimStatus.other_claim_status;
  });
  finish = λ _ _. answer true;
  record_failure = λ _ _ _. answer (record {
    attempt_count = 1;
    is_terminal = false;
    failure_status = FailureStatus.other_failure_status;
    is_recorded = true;
  });
  sleep = λ ms w. returns tt (w + ms);
}

abbrev settings : Settings
settings = record {
  lease_acquire_timeout_ms = 70000;
  lease_acquire_retry_ms = 2000;
  max_failure_ledger_attempts = 3;
}

abbrev at_start : State ℕ
at_start = record {
  world = 0;
  offset = 0;
  poll_attempt = 0;
  failure_ledger_attempt = 0;
  calls = [];
}

classify_telegram_update-Describes_example :
    Describes (message_update 7) (classify_telegram_update (message_update 7))
classify_telegram_update-Describes_example = classify_telegram_update-Describes (message_update 7)

handle_batch-MovesOver_example :
    Ensures
      (λ _ t. MovesOver ports batch 0 t)
      (λ _ t. MovesOver ports batch 0 t)
      (handle_batch ports 3 batch at_start)
handle_batch-MovesOver_example = handle_batch-MovesOver ports 3 batch at_start

poll_telegram_updates-AsksBacked_example :
    Ensures
      (λ _ t. AsksBacked t.calls)
      (λ _ t. AsksBacked t.calls)
      (poll_telegram_updates ports settings 3 2 at_start)
poll_telegram_updates-AsksBacked_example =
    poll_telegram_updates-AsksBacked ports settings 3 2 at_start tt

poll_telegram_updates-releases_example :
    Ensures
      (λ _ t. grants t + 0 ≡ 0 + releases t)
      (λ _ t. grants t + 0 ≡ 0 + releases t)
      (poll_telegram_updates ports settings 3 2 at_start)
poll_telegram_updates-releases_example = poll_telegram_updates-releases ports settings 3 2 at_start

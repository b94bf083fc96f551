-- ===== src/Telegram/Control/Tests.antt =====
-- A status command of an administrator, for
-- `src/telegram/application/handle-telegram-control-update.use-case.ts`.
use telegram_news_agent.Prelude.{
  ℕ, suc, ◌≤◌, ◌≡◌, ◌≢◌, ◌⊎◌, String, true, false, none, some, [], if◌then◌else◌,
}
use telegram_news_agent.Effects.{Outcome, returns, Traced}
use telegram_news_agent.Effects.Rules.{Ensures}
use telegram_news_agent.Telegram.Updates.{whole}
use telegram_news_agent.Telegram.Polling.{Fault, ClaimStatus, is_terminal_telegram_control_error}
use telegram_news_agent.Telegram.Control.{
  private_chat, stats, Request, Call, Ports, invalid_request, execute,
}
use telegram_news_agent.Telegram.Control.Durable.{completions, Answered, execute-Durable}
use telegram_news_agent.Telegram.Control.Guards.{IsGuarded, routed, execute-IsGuarded}

abbrev answer : {A : Type 0} → A → ℕ → Outcome Fault ℕ A
answer a w = returns a (suc w)

abbrev ports : Ports ℕ String
ports = record {
  is_aborted = λ _. false;
  claim = λ _ _. answer (record {
    is_claimed = true;
    claim_token = some "t1";
    claim_status = ClaimStatus.other_claim_status;
  });
  is_channel_admin = λ _ _. answer true;
  run_route = λ _ _. answer "12 posts";
  present = λ _. answer tt;
  finish = λ _ _ _ _. answer true;
}

abbrev request : Request
request = record {
  update_id = whole 7;
  update_kind = "stats_command";
  channel_id = "c1";
  actor_id = whole 1;
  chat_id = whole 1;
  chat_type = private_chat;
  route = stats false;
}

abbrev at_start : Traced ℕ Call
at_start = record { world = 0; calls = [] }

execute-IsGuarded_example :
    Ensures
      (λ _ t. IsGuarded t.calls × (routed t ≤ 1) × (invalid_request request ≢ none → routed t ≡ 0))
      (λ _ t. IsGuarded t.calls × (routed t ≤ 1) × (invalid_request request ≢ none → routed t ≡ 0))
      (execute ports request at_start)
execute-IsGuarded_example = execute-IsGuarded ports request at_start tt

execute-Durable_example :
    Ensures
      (λ r t. Answered ports request at_start r t)
      (λ e t.
        (completions t ≡ (if is_terminal_telegram_control_error e then 1 else 0)) ⊎ (t.calls ≡ []))
      (execute ports request at_start)
execute-Durable_example = execute-Durable ports request at_start (λ _. tt)

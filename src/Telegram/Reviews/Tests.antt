-- ===== src/Telegram/Reviews/Tests.antt =====
-- A review that is decided and one that is delivered: concrete ports for
-- `src/telegram/application`, and the theorems at them.
use telegram_news_agent.Prelude.{
  ℕ, suc, ◌+◌, ◌≤◌, ◌≡◌, ◌↔◌, String, true, false, none, some, [], indicator,
}
use telegram_news_agent.Effects.{Outcome, returns, Traced}
use telegram_news_agent.Effects.Rules.{Ensures}
use telegram_news_agent.Telegram.Updates.{whole}
use telegram_news_agent.Telegram.Reviews.Callback.{
  publish, is_session_id, review_callback_data, parse_review_callback, parse_review_callback-data,
}
use telegram_news_agent.Telegram.Reviews.{Fault, available, Session, published, Call}
use telegram_news_agent.Telegram.Reviews.Decide as Decide
use telegram_news_agent.Telegram.Reviews.Decide.Authority.{
  IsAuthorized, publications, is_attempt, execute-IsAuthorized,
}
use telegram_news_agent.Telegram.Reviews.Deliver as Deliver

abbrev session_id : String
session_id = "0123456789abcdef0123456789abcdef"

parse_review_callback-data_example :
    (parse_review_callback "news:p:0123456789abcdef0123456789abcdef" ≡ some (publish, session_id))
    ↔ (("news:p:0123456789abcdef0123456789abcdef" ≡ review_callback_data publish session_id)
        × (is_session_id session_id ≡ true))
parse_review_callback-data_example =
    parse_review_callback-data publish "news:p:0123456789abcdef0123456789abcdef" session_id

abbrev answer : {A : Type 0} → A → ℕ → Outcome Fault ℕ A
answer a w = returns a (suc w)

abbrev decide_ports : Decide.Ports ℕ
decide_ports = record {
  is_aborted = λ _. false;
  decide = λ _ _. answer (record { decision_won = true; decision = publish; draft_id = "d1" });
  disable_controls = λ _ _. answer tt;
  answer_callback = λ _ _ _. answer tt;
  publish_approved_draft = λ _ _. answer (record { status = published; reason_code = none });
}

abbrev request : Decide.Request
request = record {
  channel_id = "c1";
  actor_id = whole 1;
  chat_id = whole 2;
  route = some (record {
    session_id = session_id;
    action = publish;
    message_id = whole 3;
    callback_id = "cb1";
  });
}

abbrev at_start : Traced ℕ Call
at_start = record { world = 0; calls = [] }

execute-IsAuthorized_example :
    Ensures
      (λ r t. IsAuthorized t.calls × (publications t ≡ 0 + indicator (is_attempt r)))
      (λ _ t. IsAuthorized t.calls × (publications t ≤ 1))
      (Decide.execute decide_ports request at_start)
execute-IsAuthorized_example = execute-IsAuthorized decide_ports request at_start tt

abbrev session : Session
session = record {
  id = session_id;
  control_chat_id = whole 2;
  preview_message_id = whole 3;
  expires_at = 5;
  decision = none;
}

abbrev deliver_ports : Deliver.Ports ℕ String
deliver_ports = record {
  is_aborted = λ _. false;
  now = λ w. w;
  next_id = λ _. session_id;
  find_session = λ _. answer none;
  restore_controls = λ _ _ _. answer available;
  disable_controls = λ _ _. answer tt;
  renew_session = λ _ _. answer (some session);
  get_draft = λ _. answer "draft";
  send_review = λ _ _ _ _. answer (whole 3);
  rebind_session = λ _ _ _ _. answer (some session);
  create_session = λ _ _ _ _. answer session;
}

abbrev input : Deliver.Input
input = record {
  draft_id = "d1";
  channel_id = "c1";
  chat_id = whole 2;
  actor_id = whole 1;
  preview = "a story";
}

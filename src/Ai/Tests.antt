-- ===== src/Ai/Tests.antt =====
-- Inputs for the provider cascade of `src/ai/ai-provider-composition.ts`, and the theorems at them.
use telegram_news_agent.Prelude.{
  ℕ, suc, str_eq, ◌≤◌, ◌≡◌, refl, String, true, false, List, [], ◌∷◌, none, some, if◌then◌else◌,
  ltb, arith,
}
use telegram_news_agent.Prelude.Dict.{get}
use telegram_news_agent.Effects.Rules.{Ensures}
use telegram_news_agent.Ai.Breaker.{
  is_throttle_code, is_credential_code, next_state, throttle_for, is_throttle_open,
}
use telegram_news_agent.Ai.Breaker.Streaks.{
  Recorded, is_throttled, is_rejected_key, streak, after, HasCause, after_streaks, opened-HasCause,
  streak_opens,
}
use telegram_news_agent.Ai.Breaker.Tables.{Log, table_after, calls_of, is_throttle_open-table_after}
use telegram_news_agent.Ai.Cascade.{
  Operation, Provider, Raced, Ports, State, skipped, is_open, execute,
}
use telegram_news_agent.Ai.Deadlines.{deadline_for_provider_ms}
use telegram_news_agent.Ai.Cascade.Single.{
  requests as single_requests, outcomes as single_outcomes, execute_single, execute_single-cost,
}
use telegram_news_agent.Ai.Cascade.Spending.{requests, outcomes}
use telegram_news_agent.Ai.Cascade.Requests.{execute_bounded}
use telegram_news_agent.Ai.Cascade.Failover.{execute-passed}
use telegram_news_agent.Ai.Cascade.Later.{prefixed}

abbrev throttled : ℕ → Recorded
throttled now = record { now = now; outcome = some "rate_limited" }

-- five throttled calls, the latest first
abbrev history : List Recorded
history = throttled 5 ∷ throttled 4 ∷ throttled 3 ∷ throttled 2 ∷ throttled 1 ∷ []

after_streaks_example :
    ((after history).consecutive ≡ streak is_throttled history)
    × ((after history).consecutive_credential ≡ streak is_rejected_key history)
after_streaks_example = after_streaks history

opened-HasCause_example : HasCause history
unfolding next_state is_throttle_code is_credential_code
opened-HasCause_example = opened-HasCause history (omega arith)

streak_opens_example :
    (5 ≤ streak is_throttled history → (after history).open_until_ms ≡ 60005)
    × (2 ≤ streak is_rejected_key history → (after history).open_until_ms ≡ 900005)
streak_opens_example =
    streak_opens (throttled 5) (throttled 4 ∷ throttled 3 ∷ throttled 2 ∷ throttled 1 ∷ [])

abbrev log : Log
log = ("a", throttled 2) ∷ ("b", throttled 1) ∷ []

is_throttle_open-table_after_example :
    (throttle_for "a" (table_after log) ≡ after (calls_of "a" log))
    × (is_throttle_open "a" 3 (table_after log) ≡ ltb 3 (after (calls_of "a" log)).open_until_ms)
is_throttle_open-table_after_example = is_throttle_open-table_after "a" 3 log

abbrev ports : Ports ℕ
ports = record {
  now = λ _. 10;
  random = λ _. 0;
  is_parent_aborted = λ _. false;
  start_attempt = λ _ _ w. w;
  complete_attempt = λ _ _ w. w;
  request = λ name _ _ w.
      ((if str_eq name "a" then Raced.rejected "rate_limited" else Raced.resolved 42), suc w);
  notify = λ _ _ w. w;
  sleep = λ _ w. w;
  traits_of = λ _. record { halts_cascade_on_quota_exhaustion = true; deadline_ms = none };
  is_transient = λ _. true;
}

abbrev provider : String → Provider
provider name = record { name = name; supports = λ _. true }

abbrev at_start : State ℕ
at_start = record { world = 0; calls = []; table = []; is_timer_fired = false }

-- the provider that fails is configured once
execute_bounded_example :
    Ensures
      (λ _ t. (requests "a" t ≤ 3) × (outcomes "a" t ≤ 1))
      (λ _ t. (requests "a" t ≤ 3) × (outcomes "a" t ≤ 1))
      (execute ports Operation.search_news (λ _. 60000) (provider "a" ∷ provider "b" ∷ []) at_start)
execute_bounded_example =
    execute_bounded ports "a" Operation.search_news (λ _. 60000) (provider "a" ∷ provider "b" ∷ [])
      at_start

-- the first provider's breaker is open
abbrev opened : State ℕ
opened = record at_start {
  table = ("a", record { consecutive = 5; consecutive_credential = 0; open_until_ms = 60005 }) ∷ [];
}

execute-passed_example :
    execute ports Operation.search_news (λ _. 60000) (provider "a" ∷ provider "b" ∷ []) opened
    ≡ prefixed
        (skipped "a" ∷ [])
        (execute ports Operation.search_news (λ _. 60000) (provider "b" ∷ []) opened)
unfolding is_open is_throttle_open throttle_for get
execute-passed_example =
    execute-passed ports Operation.search_news (λ _. 60000) (provider "a" ∷ []) (provider "b" ∷ [])
      opened (refl, tt)

execute_single-cost_example :
    Ensures
      (λ _ t. (single_requests t ≡ 1) × (single_outcomes t ≡ 1))
      (λ _ t. (single_requests t ≤ 1) × (single_outcomes t ≤ 1))
      (execute_single ports Operation.generate_structured
        (deadline_for_provider_ms (some "editorial_draft") (λ _. none))
        (provider "b" ∷ [])
        at_start)
execute_single-cost_example =
    execute_single-cost ports Operation.generate_structured
      (deadline_for_provider_ms (some "editorial_draft") (λ _. none)) (provider "b" ∷ []) at_start

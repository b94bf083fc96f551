-- ===== src/Ai/Breaker.antt =====
-- The circuit breaker of each provider: `throttleState`, `throttleFor`, `isThrottleOpen` and
-- `recordThrottleOutcome` of `src/ai/ai-provider-composition.ts`.
pub mod Streaks
pub mod Tables
use telegram_news_agent.Prelude.{
  ℕ, suc, ◌+◌, ◌≡◌, String, Bool, true, false, not, ◌||◌, Option, none, some, List, arith, ltb, leb,
  if◌then◌else◌, get_or, str_eq,
}
use telegram_news_agent.Prelude.Dict.{get, set}

pub record ThrottleState : Type 0 where
  pub consecutive : ℕ
  pub consecutive_credential : ℕ
  pub open_until_ms : ℕ

abbrev pub Table : Type 0
Table = List (String × ThrottleState)

abbrev pub closed : ThrottleState
closed = record { consecutive = 0; consecutive_credential = 0; open_until_ms = 0 }

abbrev pub throttle_breaker_threshold : ℕ
throttle_breaker_threshold = 5

abbrev pub throttle_breaker_cooldown_ms : ℕ
throttle_breaker_cooldown_ms = 60000

abbrev pub credential_breaker_threshold : ℕ
credential_breaker_threshold = 2

abbrev pub credential_breaker_cooldown_ms : ℕ
credential_breaker_cooldown_ms = 900000

-- `THROTTLE_ERROR_CODES.has(code)`
unfoldable pub is_throttle_code : String → Bool
is_throttle_code code = str_eq code "rate_limited" || str_eq code "quota_exhausted"

-- `CREDENTIAL_ERROR_CODES.has(code)`
unfoldable pub is_credential_code : String → Bool
is_credential_code code = str_eq code "authentication_failed"

-- The state of one provider after a call's outcome: none for a success.
unfoldable pub next_state : ℕ → Option String → ThrottleState → ThrottleState
next_state now none state = closed
next_state now (some code) state =
    if is_credential_code code
    then (let count = suc state.consecutive_credential in
        record {
          consecutive = 0;
          consecutive_credential = count;
          open_until_ms =
              if leb credential_breaker_threshold count
              then now + credential_breaker_cooldown_ms
              else state.open_until_ms;
        })
    else if not (is_throttle_code code)
    then record state { consecutive = 0; consecutive_credential = 0 }
    else (let count = suc state.consecutive in
        record {
          consecutive = count;
          consecutive_credential = 0;
          open_until_ms =
              if leb throttle_breaker_threshold count
              then now + throttle_breaker_cooldown_ms
              else state.open_until_ms;
        })

unfoldable pub throttle_for : String → Table → ThrottleState
throttle_for name table = get_or (get name table) closed

unfoldable pub is_throttle_open : String → ℕ → Table → Bool
unfolding throttle_for
is_throttle_open name now table = ltb now (throttle_for name table).open_until_ms

unfoldable pub record_throttle_outcome : String → ℕ → Option String → Table → Table
unfolding throttle_for next_state
record_throttle_outcome name now outcome table =
    set name (next_state now outcome (throttle_for name table)) table

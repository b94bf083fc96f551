-- ===== src/Ai/Breaker/Streaks.antt =====
-- The counters are the lengths of the latest streaks, and the breaker opens on no other evidence.
use telegram_news_agent.Prelude.{
  ℕ, suc, ◌+◌, ◌≤◌, ◌<◌, ◌≡◌, ◌≢◌, String, Bool, false, not, ◌&&◌, Option, none, some, List, [],
  ◌∷◌, ◌⊎◌, arith, if◌then◌else◌, All, eq_iff, str_eq,
}
use telegram_news_agent.Prelude.Dict.{get-set}
use telegram_news_agent.Ai.Breaker.{
  ThrottleState, Table, closed, is_throttle_code, is_credential_code, next_state, throttle_for,
  record_throttle_outcome,
}

-- The outcome of one call and when it was recorded.
pub record Recorded : Type 0 where
  pub now : ℕ
  pub outcome : Option String

abbrev pub is_throttled : Option String → Bool
is_throttled none = false
is_throttled (some code) = not (is_credential_code code) && is_throttle_code code

abbrev pub is_rejected_key : Option String → Bool
is_rejected_key none = false
is_rejected_key (some code) = is_credential_code code

-- How many of the latest outcomes, without a gap, pass the test. The latest stands first.
abbrev pub streak : (Option String → Bool) → List Recorded → ℕ
streak test [] = 0
streak test (r ∷ history) =
    let before = streak test history in if test r.outcome then suc before else 0

-- The state after a history of calls.
abbrev pub after : List Recorded → ThrottleState
after [] = closed
after (r ∷ history) = next_state r.now r.outcome (after history)

-- Both counters are the streaks of the history.
pub after_streaks :
    (history : List Recorded)
    → ((after history).consecutive ≡ streak is_throttled history)
      × ((after history).consecutive_credential ≡ streak is_rejected_key history)
unfolding next_state
after_streaks [] = ground arith
after_streaks (r ∷ history) = ground (arith, after_streaks history)

-- Since the latest success there was a moment with five throttled calls or two rejected keys in a
-- row.
abbrev pub HasCause : List Recorded → Type 0
HasCause [] = ⊥
HasCause (r ∷ history) =
    (5 ≤ streak is_throttled (r ∷ history))
    ⊎ (2 ≤ streak is_rejected_key (r ∷ history))
    ⊎ ((r.outcome ≢ none) × HasCause history)

-- A breaker that has an opening time has a cause: since the latest success there were five
-- throttled calls in a row or two rejected keys in a row.
pub opened-HasCause :
    (history : List Recorded) → 0 < (after history).open_until_ms → HasCause history
unfolding next_state
opened-HasCause [] h = absurd (omega arith)
opened-HasCause (r ∷ history) h =
    ground (arith, after_streaks history, after_streaks (r ∷ history), opened-HasCause history)

-- Five throttled calls in a row close the provider off for one minute from the last of them, and
-- two rejected keys in a row for a quarter of an hour.
pub streak_opens :
    (r : Recorded) (history : List Recorded)
    → (5 ≤ streak is_throttled (r ∷ history) → (after (r ∷ history)).open_until_ms ≡ r.now + 60000)
      × (2 ≤ streak is_rejected_key (r ∷ history)
          → (after (r ∷ history)).open_until_ms ≡ r.now + 900000)
unfolding next_state
streak_opens r history = ground (arith, after_streaks history)

-- No provider is closed off beyond a quarter of an hour after the latest time in its history.
pub open_bounded :
    (history : List Recorded) (latest : ℕ)
    → All (λ r. r.now ≤ latest) history
    → (after history).open_until_ms ≤ latest + 900000
unfolding next_state
open_bounded [] latest h = omega arith
open_bounded (r ∷ history) latest (h, hs) = ground (arith, open_bounded history latest hs)

-- What is recorded for one provider changes the state of that provider and of no other.
pub throttle_for-record :
    (name j : String) (now : ℕ) (outcome : Option String) (table : Table)
    → throttle_for j (record_throttle_outcome name now outcome table) ≡ (
        if str_eq name j
        then next_state now outcome (throttle_for name table)
        else throttle_for j table)
unfolding throttle_for record_throttle_outcome
throttle_for-record name j now outcome table =
    ground (
      arith,
      get-set name j (next_state now outcome (throttle_for name table)) table,
      eq_iff name j,
    )

-- ===== src/Ai/Breaker/Tables.antt =====
-- The shared table of `src/ai/ai-provider-composition.ts` keeps one breaker per provider, each of them
-- driven by the calls of its own provider only.
use telegram_news_agent.Prelude.{
  ℕ, ◌≡◌, refl, String, List, [], ◌∷◌, arith, ltb, if◌then◌else◌, str_eq, eq_iff,
}
use telegram_news_agent.Prelude.Dict.{get}
use telegram_news_agent.Ai.Breaker.{Table, throttle_for, is_throttle_open, record_throttle_outcome}
use telegram_news_agent.Ai.Breaker.Streaks.{Recorded, after, throttle_for-record}

-- The calls of all providers, the latest first.
abbrev pub Log : Type 0
Log = List (String × Recorded)

abbrev pub table_after : Log → Table
table_after [] = []
table_after ((name, r) ∷ log) = record_throttle_outcome name r.now r.outcome (table_after log)

-- the calls of one provider
abbrev pub calls_of : String → Log → List Recorded
calls_of name [] = []
calls_of name ((j, r) ∷ log) =
    let rest = calls_of name log in if str_eq j name then r ∷ rest else rest

throttle_for-table_after :
    (name : String) (log : Log) → throttle_for name (table_after log) ≡ after (calls_of name log)
unfolding throttle_for get
throttle_for-table_after name [] = refl
throttle_for-table_after name ((j, r) ∷ log) = ground (
  arith,
  throttle_for-record j name r.now r.outcome (table_after log),
  throttle_for-table_after name log,
  throttle_for-table_after j log,
  eq_iff j name,
)

-- After any calls of any providers, a provider is closed off exactly where the breaker is that saw
-- its own calls alone; the shared table reads as one independent breaker for each name.
pub is_throttle_open-table_after :
    (name : String) (now : ℕ) (log : Log)
    → (throttle_for name (table_after log) ≡ after (calls_of name log))
      × (is_throttle_open name now (table_after log)
          ≡ ltb now (after (calls_of name log)).open_until_ms)
unfolding is_throttle_open
is_throttle_open-table_after name now log =
    let e = throttle_for-table_after name log in (e, rw e refl)

-- ===== src/Telegram/Polling/Batch/Leases.antt =====
-- A batch of `src/telegram/telegram-polling-worker.ts` neither acquires nor releases the lease.
use telegram_news_agent.Prelude.{ℕ, ◌≡◌, refl, Bool, true, false, List, count, arith}
use telegram_news_agent.Effects.Rules.{Moves}
use telegram_news_agent.Telegram.Updates.{Json, Classification}
use telegram_news_agent.Telegram.Polling.{answered, Call, Ports, State}
use telegram_news_agent.Telegram.Polling.Batch.{
  Verdict, sleep_for, after_claim, safe_claim, judge_error, handle_update, examine, after_recorded,
  after_ledger_error, act_on, handle_batch,
}
use telegram_news_agent.Telegram.Polling.Batch.Relations.{handle_batch-Moves}

abbrev pub is_grant : Call → Bool
is_grant (Call.acquire (answered granted)) = granted
is_grant _ = false

abbrev pub is_release : Call → Bool
is_release Call.release = true
is_release _ = false

module _ {W : Type 0} where
  abbrev pub grants : State W → ℕ
  grants s = count is_grant s.calls

  abbrev pub releases : State W → ℕ
  releases s = count is_release s.calls

  abbrev pub SameLease : State W → State W → Type 0
  SameLease s t = (grants t ≡ grants s) × (releases t ≡ releases s)

  pub SameLease-trans : (s t u : State W) → SameLease s t → SameLease t u → SameLease s u
  SameLease-trans s t u h k = omega arith

module _ {W : Type 0} (p : Ports W) where
  examine-SameLease : (raw : Json) (c : Classification) → Moves SameLease (examine p raw c)
  unfolding examine handle_update judge_error safe_claim after_claim
  examine-SameLease raw c s = ground arith

  act_on-SameLease :
      (limit : ℕ) (c : Classification) (v : Verdict) → Moves SameLease (act_on p limit c v)
  unfolding act_on after_recorded after_ledger_error
  act_on-SameLease limit c Verdict.interrupted s = ground arith
  act_on-SameLease limit c Verdict.acknowledged s = ground arith
  act_on-SameLease limit c (Verdict.failure f) s = ground arith

  pub sleep_for-SameLease : (delay : ℕ → ℕ) → Moves SameLease (sleep_for p delay)
  sleep_for-SameLease delay s = ground arith

  pub handle_batch-SameLease :
      (limit : ℕ) (batch : List Json) → Moves SameLease (handle_batch p limit batch)
  handle_batch-SameLease =
      handle_batch-Moves p SameLease (λ s. (refl, refl)) SameLease-trans examine-SameLease
        act_on-SameLease

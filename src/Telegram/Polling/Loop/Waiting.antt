-- ===== src/Telegram/Polling/Loop/Waiting.antt =====
-- The poller of `src/telegram/telegram-polling-worker.ts` does not wait for the lease forever.
use telegram_news_agent.Prelude.{ℕ, ◌+◌, ◌≤◌, ◌≢◌}
use telegram_news_agent.Effects.{Outcome}
use telegram_news_agent.Effects.Rules.{Ensures}
use telegram_news_agent.Telegram.Polling.{Fault, Ports, State}
use telegram_news_agent.Telegram.Polling.Loop.{Settings, Wait, waiting}

abbrev Later : {W A : Type 0} → Ports W → ℕ → Outcome Fault W A → Type 0
Later p time = Ensures (λ _ w. time ≤ p.now w) (λ _ w. time ≤ p.now w)

-- The clock does not go back while the lease is asked for, and a timer does not fire early.
pub record Clocked {W : Type 0} (p : Ports W) (retry_ms : ℕ) : Type 0 where
  pub acquires : (w : W) → Later p (p.now w) (p.acquire w)
  pub sleeps : (w : W) → Later p (p.now w + retry_ms) (p.sleep retry_ms w)

module _ {W : Type 0} (p : Ports W) (settings : Settings)
    (clock : Clocked p settings.lease_acquire_retry_ms) where
  abbrev Ends : Outcome Fault (State W) Wait → Type 0
  Ends = Ensures (λ w _. w ≢ waiting) (λ _ _. Unit)

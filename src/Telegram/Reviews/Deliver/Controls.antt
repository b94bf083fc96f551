-- ===== src/Telegram/Reviews/Deliver/Controls.antt =====
-- A review of `src/telegram/application/deliver-telegram-review.use-case.ts` is ready only where its
-- controls are.
use telegram_news_agent.Prelude.{ℕ, suc, ◌+◌, ◌≤◌, Bool, true, false, some, count, indicator}
use telegram_news_agent.Effects.{Traced}
use telegram_news_agent.Effects.Rules.{Ensures}
use telegram_news_agent.Telegram.Reviews.{available, Call, Effect}
use telegram_news_agent.Telegram.Reviews.Deliver.{ReviewDelivery, review_unavailable, review_ready}

abbrev pub is_preview : Call → Bool
is_preview (Call.send_review _ _) = true
is_preview _ = false

abbrev pub is_created : Call → Bool
is_created (Call.create_session _ _) = true
is_created _ = false

-- the controls of a message were there
abbrev pub is_restored : Call → Bool
is_restored (Call.restore_controls _ _ _ (some available)) = true
is_restored _ = false

abbrev pub calls_in : (Call → Bool) → {W : Type 0} → Traced W Call → ℕ
calls_in test s = count test s.calls

abbrev pub is_ready : ReviewDelivery → Bool
is_ready (review_ready _ _ _ _) = true
is_ready (review_unavailable _ _ _) = false

module _ {W : Type 0} where
  -- one preview at most, and a session only with its preview
  abbrev Bounded : Traced W Call → Traced W Call → Type 0
  Bounded s t =
      (calls_in is_preview t ≤ suc (calls_in is_preview s))
      × (calls_in is_created t + calls_in is_preview s
          ≤ calls_in is_preview t + calls_in is_created s)

  abbrev Ready : Traced W Call → ReviewDelivery → Traced W Call → Type 0
  Ready s r t =
      Bounded s t × (indicator (is_ready r) + calls_in is_restored s ≤ calls_in is_restored t)

  abbrev Delivers : Effect W ReviewDelivery → Type 0
  Delivers m = (s : Traced W Call) → Ensures (λ r t. Ready s r t) (λ _ t. Bounded s t) (m s)

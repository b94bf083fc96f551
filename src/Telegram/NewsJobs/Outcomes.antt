-- ===== src/Telegram/NewsJobs/Outcomes.antt =====
-- A research outcome is paid for once: after it is durable no retry is asked for.
use telegram_news_agent.Prelude.{
  ℕ, suc, ◌+◌, ◌≤◌, ◌≡◌, Bool, true, false, List, ◌∷◌, [], some, arith, count, get_or,
}
use telegram_news_agent.Prelude.Text.{Number, is_positive_safe_integer}
use telegram_news_agent.Effects.Rules.{Ensures}
use telegram_news_agent.Telegram.NewsJobs.{
  Job, JobOutcome, advanced, Call, Ports, State, execute, deliver, needs_draft, is_published,
  is_truthy,
}

abbrev pub is_saved_outcome : Call → Bool
is_saved_outcome (Call.record_outcome _ (some true)) = true
is_saved_outcome _ = false

abbrev pub is_retry : Call → Bool
is_retry (Call.retry _ _) = true
is_retry _ = false

abbrev pub is_saved_retry : Call → Bool
is_saved_retry (Call.retry _ (some true)) = true
is_saved_retry _ = false

-- the database completed the delivery, or noted that it is to be tried again
abbrev pub is_settlement : Call → Bool
is_settlement (Call.complete (some true)) = true
is_settlement (Call.retry_delivery (some true)) = true
is_settlement _ = false

abbrev pub settlements : {W : Type 0} → State W → ℕ
settlements s = count is_settlement s.calls

abbrev pub saved_outcomes : {W : Type 0} → State W → ℕ
saved_outcomes s = count is_saved_outcome s.calls

abbrev pub retries : {W : Type 0} → State W → ℕ
retries s = count is_retry s.calls

abbrev pub saved_retries : {W : Type 0} → State W → ℕ
saved_retries s = count is_saved_retry s.calls

module _ {W : Type 0} (p : Ports W) where
  -- An execution saves an outcome or asks for a retry, at most one of the two and at most once. If
  -- it throws, no outcome was saved; if it reports an advance, exactly one of the two was saved.
  pub execute_once :
      (job : Job) (s : State W)
      → Ensures
          (λ r t.
            (saved_outcomes t + retries t ≤ suc (saved_outcomes s + retries s))
            × (r ≡ advanced
                → saved_outcomes t + saved_retries t ≡ suc (saved_outcomes s + saved_retries s)))
          (λ _ t.
            (saved_outcomes t ≡ saved_outcomes s)
            × (saved_retries t ≡ saved_retries s)
            × (retries t ≤ suc (retries s)))
          (execute p job s)
  unfolding execute
  execute_once job s = ground arith

-- The delivery phase can render it: it has a draft where its status needs one, and a usable message
-- number if it was published.
abbrev pub IsRenderable : JobOutcome → Type 0
IsRenderable outcome =
    (needs_draft outcome.status ≡ true → is_truthy outcome.draft_id ≡ true)
    × (is_published outcome.status ≡ true
        → is_positive_safe_integer (get_or outcome.publication_message_id Number.other) ≡ true)

abbrev pub RecordsRenderable : List Call → Type 0
RecordsRenderable [] = Unit
RecordsRenderable (Call.record_outcome outcome _ ∷ rest) =
    IsRenderable outcome × RecordsRenderable rest
RecordsRenderable (_ ∷ rest) = RecordsRenderable rest

module _ {W : Type 0} (p : Ports W) where
  -- Every outcome that an execution hands to the database can be rendered: it names the draft where
  -- its status needs one, and a positive safe message number where it was published. This is said
  -- of all outcomes noted, if it held of those before the execution.
  pub execute-RecordsRenderable :
      (job : Job) (s : State W)
      → RecordsRenderable s.calls
      → Ensures
          (λ _ t. RecordsRenderable t.calls)
          (λ _ t. RecordsRenderable t.calls)
          (execute p job s)
  unfolding execute
  execute-RecordsRenderable job s h = ground arith

  -- A delivery completes the job or asks for another delivery, and records no outcome and retries
  -- no research. It reports an advance only after the database accepted one of the two.
  pub deliver_once :
      (job : Job) (s : State W)
      → Ensures
          (λ r t.
            (saved_outcomes t ≡ saved_outcomes s)
            × (retries t ≡ retries s)
            × (r ≡ advanced → settlements t ≡ suc (settlements s)))
          (λ _ t.
            (saved_outcomes t ≡ saved_outcomes s)
            × (retries t ≡ retries s)
            × (settlements t ≡ settlements s))
          (deliver p job s)
  unfolding deliver
  deliver_once job s = ground arith

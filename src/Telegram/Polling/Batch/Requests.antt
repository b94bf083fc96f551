-- ===== src/Telegram/Polling/Batch/Requests.antt =====
-- Which offsets the poller of `src/telegram/telegram-polling-worker.ts` may ask Telegram for: what lies
-- below the offset is never delivered again.
use telegram_news_agent.Prelude.{ℕ, zero, suc, ◌≡◌, inl, inr, max, true, List, [], ◌∷◌, any, arith}
use telegram_news_agent.Effects.{Outcome}
use telegram_news_agent.Effects.Rules.{Moves, Ensures, Ensures-zip, Ensures-map}
use telegram_news_agent.Telegram.Updates.{
  Json, Classification, Classified, throws_protocol, classified, classify_telegram_update,
}
use telegram_news_agent.Telegram.Polling.{Fault, Call, Ports, State}
use telegram_news_agent.Telegram.Polling.Batch.{
  Verdict, after_claim, safe_claim, judge_error, handle_update, examine, after_recorded,
  after_ledger_error, act_on, handle_batch,
}
use telegram_news_agent.Telegram.Polling.Batch.Cursor.{
  settles, OverFirst, MovesOver, Keeps, handle_batch-Keeps, handle_batch-MovesOver,
}
use telegram_news_agent.Telegram.Polling.Batch.Relations.{handle_batch-Moves}

-- The update directly below the offset was settled.
abbrev pub Backed : ℕ → List Call → Type 0
Backed zero calls = Unit
Backed (suc id) calls = any (settles id) calls ≡ true

-- Every request has been for an offset that was backed at that time.
abbrev pub AsksBacked : List Call → Type 0
AsksBacked [] = Unit
AsksBacked (Call.get_updates offset ∷ calls) = Backed offset calls × AsksBacked calls
AsksBacked (_ ∷ calls) = AsksBacked calls

module _ {W : Type 0} (p : Ports W) where
  abbrev KeepsAsking : State W → State W → Type 0
  KeepsAsking s t = AsksBacked s.calls → AsksBacked t.calls

  examine-KeepsAsking : (raw : Json) (c : Classification) → Moves KeepsAsking (examine p raw c)
  unfolding examine handle_update judge_error safe_claim after_claim
  examine-KeepsAsking raw c s = ground arith

  act_on-KeepsAsking :
      (limit : ℕ) (c : Classification) (v : Verdict) → Moves KeepsAsking (act_on p limit c v)
  unfolding act_on after_recorded after_ledger_error
  act_on-KeepsAsking limit c Verdict.interrupted s = ground arith
  act_on-KeepsAsking limit c Verdict.acknowledged s = ground arith
  act_on-KeepsAsking limit c (Verdict.failure f) s = ground arith

  handle_batch-KeepsAsking :
      (limit : ℕ) (batch : List Json) → Moves KeepsAsking (handle_batch p limit batch)
  handle_batch-KeepsAsking =
      handle_batch-Moves p KeepsAsking (λ s h. h) (λ s t u f g h. g (f h)) examine-KeepsAsking
        act_on-KeepsAsking

  max-Backed :
      (start id : ℕ) (calls : List Call)
      → Backed start calls
      → any (settles id) calls ≡ true
      → Backed (max start (suc id)) calls
  max-Backed start id calls h k = ground arith

  OverFirst-Backed :
      (update : Classified) (Rest : ℕ → Type 0) (start : ℕ) (t : State W)
      → ((o : ℕ) → Rest o → Backed o t.calls → Backed t.offset t.calls)
      → OverFirst p update Rest start t
      → Backed start t.calls
      → Backed t.offset t.calls
  OverFirst-Backed (throws_protocol code) Rest start t f k h = elim k [ ]
  OverFirst-Backed (classified c) Rest start t f (settled, k) h =
      f (max start (suc c.update_id)) k (max-Backed start c.update_id t.calls h settled)

  -- An offset that was moved over settled updates is backed.
  MovesOver-Backed :
      (batch : List Json) (start : ℕ) (t : State W)
      → MovesOver p batch start t
      → Backed start t.calls
      → Backed t.offset t.calls
  MovesOver-Backed [] start t e h = rw e h
  MovesOver-Backed (raw ∷ rest) start t (inl e) h = rw e h
  MovesOver-Backed (raw ∷ rest) start t (inr k) h =
      OverFirst-Backed (classify_telegram_update raw) (λ o. MovesOver p rest o t) start t
        (λ o. MovesOver-Backed rest o t) k h

  abbrev pub IsSound : State W → Type 0
  IsSound s = AsksBacked s.calls × Backed s.offset s.calls

  handle_batch-Backed :
      (limit : ℕ) (batch : List Json) (s : State W)
      → Backed s.offset s.calls
      → Ensures
          (λ _ t. Backed t.offset t.calls)
          (λ _ t. Backed t.offset t.calls)
          (handle_batch p limit batch s)
  handle_batch-Backed limit batch s h = go s.offset h (handle_batch-MovesOver p limit batch s)
    where
      done : Outcome Fault (State W) (Unit {0})
      done = handle_batch p limit batch s

      go :
          (offset : ℕ)
          → Backed offset s.calls
          → Ensures (λ _ t. MovesOver p batch offset t) (λ _ t. MovesOver p batch offset t) done
          → Ensures (λ _ t. Backed t.offset t.calls) (λ _ t. Backed t.offset t.calls) done
      go zero h over =
          Ensures-map (λ _ t. MovesOver p batch 0 t) (λ _ t. Backed t.offset t.calls)
            (λ _ t. MovesOver p batch 0 t) (λ _ t. Backed t.offset t.calls) done over
            (λ _ t k. MovesOver-Backed batch 0 t k tt) (λ _ t k. MovesOver-Backed batch 0 t k tt)
      go (suc id) h over =
          Ensures-zip (λ t. MovesOver p batch (suc id) t) (λ t. Keeps p id s t)
            (λ t. Backed t.offset t.calls) done
            (λ t k keep. MovesOver-Backed batch (suc id) t k (keep h)) over
            (handle_batch-Keeps p id limit batch s)

  pub handle_batch-IsSound :
      (limit : ℕ) (batch : List Json) (s : State W)
      → IsSound s
      → Ensures (λ _ t. IsSound t) (λ _ t. IsSound t) (handle_batch p limit batch s)
  handle_batch-IsSound limit batch s (asked, backed) =
      Ensures-zip (KeepsAsking s) (λ t. Backed t.offset t.calls) IsSound
        (handle_batch p limit batch s) (λ t keep b. (keep asked, b))
        (handle_batch-KeepsAsking limit batch s) (handle_batch-Backed limit batch s backed)

-- ===== src/Telegram/Polling/Loop/Relations.antt =====
-- A relation that a batch, a sleep and a request keep is kept by the whole poll loop of
-- `src/telegram/telegram-polling-worker.ts`.
use telegram_news_agent.Prelude.{ℕ, zero, suc, Option, none, some, List, ◌∷◌, arith}
use telegram_news_agent.Effects.{Outcome, returns, throws, settle, ◌>>◌}
use telegram_news_agent.Effects.Rules.{Ensures, Ensures-map, Moves, Moves-bind}
use telegram_news_agent.Telegram.Updates.{Json}
use telegram_news_agent.Telegram.Polling.{Fault, retry_delay, Call, Ports, State, Action, noted}
use telegram_news_agent.Telegram.Polling.Batch.{sleep_for, handle_batch}
use telegram_news_agent.Telegram.Polling.Loop.{Settings, after_batch, after_poll_error, poll}

module _ {W : Type 0} (p : Ports W) (settings : Settings) (R : State W → State W → Type 0)
    (same : (s : State W) → R s s) (trans : (s t u : State W) → R s t → R t u → R s u)
    (batched : (limit : ℕ) (batch : List Json) → Moves R (handle_batch p limit batch))
    (slept : (delay : ℕ → ℕ) → Moves R (sleep_for p delay))
    (asked : (s : State W) (w : W)
      → R s (record s { world = w; calls = Call.get_updates s.offset ∷ s.calls }))
    (counted : (s : State W) (n : ℕ) (w : W) → R s (record s { poll_attempt = n; world = w })) where
  abbrev From : {A : Type 0} → State W → Outcome Fault (State W) A → Type 0
  From s = Ensures (λ _ t. R s t) (λ _ t. R s t)

  From-trans :
      {A : Type 0} (s t : State W) (o : Outcome Fault (State W) A) → R s t → From t o → From s o
  From-trans s t o r h =
      Ensures-map (λ _ u. R t u) (λ _ u. R s u) (λ _ u. R t u) (λ _ u. R s u) o h
        (λ _ u. trans s t u r) (λ _ u. trans s t u r)

  after_batch-Moves :
      (rest : Action W (Unit {0})) (batch : Option (List Json))
      → Moves R rest
      → Moves R (after_batch p settings rest batch)
  unfolding after_batch
  after_batch-Moves rest none k s = same s
  after_batch-Moves rest (some batch) k s =
      let t : State W = record s { poll_attempt = 0; world = p.mark_poll s.world } in
      let limit = settings.max_failure_ledger_attempts in
      From-trans s t ((handle_batch p limit batch >> rest) t) (counted s 0 (p.mark_poll s.world)) (
        Moves-bind R trans (handle_batch p limit batch) (λ _. rest) (batched limit batch) (λ _. k)
          t)

  after_poll_error-Moves :
      (rest : Action W (Unit {0})) (e : Fault)
      → Moves R rest
      → Moves R (after_poll_error p settings rest e)
  unfolding after_poll_error
  after_poll_error-Moves rest e k s =
      let t : State W = record s { poll_attempt = suc s.poll_attempt } in
      let m = sleep_for p (retry_delay s.poll_attempt) in
      ground (
        arith,
        same s,
        From-trans s t ((m >> rest) t) (counted s (suc s.poll_attempt) s.world)
            (Moves-bind R trans m (λ _. rest) (slept (retry_delay s.poll_attempt)) (λ _. k) t),
      )

  -- the answer of `getUpdates`
  polled-From :
      (n : ℕ) (s : State W) (o : Outcome Fault W (Option (List Json)))
      → Moves R (poll p settings n)
      → From s (
          settle
            (noted (λ _. Call.get_updates s.offset) s o)
            (after_batch p settings (poll p settings n))
            (after_poll_error p settings (poll p settings n)))
  polled-From n s (returns batch w) k =
      let t : State W = record s { world = w; calls = Call.get_updates s.offset ∷ s.calls } in
      let rest = poll p settings n in
      From-trans s t (after_batch p settings rest batch t) (asked s w)
        (after_batch-Moves rest batch k t)
  polled-From n s (throws e w) k =
      let t : State W = record s { world = w; calls = Call.get_updates s.offset ∷ s.calls } in
      let rest = poll p settings n in
      From-trans s t (after_poll_error p settings rest e t) (asked s w)
        (after_poll_error-Moves rest e k t)

  pub poll-Moves : (n : ℕ) → Moves R (poll p settings n)
  unfolding poll
  poll-Moves zero s = same s
  poll-Moves (suc n) s =
      ground (arith, same s, polled-From n s (p.get_updates s.offset s.world) (poll-Moves n))

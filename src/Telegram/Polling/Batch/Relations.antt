-- ===== src/Telegram/Polling/Batch/Relations.antt =====
-- A relation that each part of a turn keeps is kept by a whole batch of
-- `src/telegram/telegram-polling-worker.ts`.
use telegram_news_agent.Prelude.{ℕ, List, [], ◌∷◌, arith}
use telegram_news_agent.Effects.Rules.{Moves, Moves-bind}
use telegram_news_agent.Telegram.Updates.{
  Json, Classification, Classified, throws_protocol, classified, classify_telegram_update,
}
use telegram_news_agent.Telegram.Polling.{Ports, State, Action}
use telegram_news_agent.Telegram.Polling.Batch.{
  Turn, next, halt, Verdict, unless_halted, examine, act_on, take_classified, take_update,
  handle_batch,
}

module _ {W : Type 0} (p : Ports W) (R : State W → State W → Type 0) (same : (s : State W) → R s s)
    (trans : (s t u : State W) → R s t → R t u → R s u)
    (examined : (raw : Json) (c : Classification) → Moves R (examine p raw c))
    (acted : (limit : ℕ) (c : Classification) (v : Verdict) → Moves R (act_on p limit c v)) where
  take_classified-Moves :
      (limit : ℕ) (raw : Json) (update : Classified) → Moves R (take_classified p limit raw update)
  unfolding take_classified
  take_classified-Moves limit raw (throws_protocol code) = same
  take_classified-Moves limit raw (classified c) =
      Moves-bind R trans (examine p raw c) (act_on p limit c) (examined raw c) (acted limit c)

  take_update-Moves : (limit : ℕ) (raw : Json) → Moves R (take_update p limit raw)
  unfolding take_update
  take_update-Moves limit raw s =
      ground (arith, same s, take_classified-Moves limit raw (classify_telegram_update raw) s)

  unless_halted-Moves :
      (m : Action W (Unit {0})) → Moves R m → (turn : Turn) → Moves R (unless_halted p m turn)
  unless_halted-Moves m h next = h
  unless_halted-Moves m h halt = same

  pub handle_batch-Moves : (limit : ℕ) (batch : List Json) → Moves R (handle_batch p limit batch)
  unfolding handle_batch
  handle_batch-Moves limit [] = same
  handle_batch-Moves limit (raw ∷ rest) =
      Moves-bind R trans (take_update p limit raw) (unless_halted p (handle_batch p limit rest))
        (take_update-Moves limit raw)
        (unless_halted-Moves (handle_batch p limit rest) (handle_batch-Moves limit rest))

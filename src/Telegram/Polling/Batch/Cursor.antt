-- ===== src/Telegram/Polling/Batch/Cursor.antt =====
-- The offset of the poller in `src/telegram/telegram-polling-worker.ts` moves only over updates that
-- are settled.
use telegram_news_agent.Prelude.{
  ℕ, suc, ◌≡◌, ◌⊎◌, inl, inr, refl, max, Bool, true, false, not, ◌&&◌, List, [], ◌∷◌, ◌==◌,
  if◌then◌else◌, any, arith,
}
use telegram_news_agent.Effects.{Outcome, returns, continue}
use telegram_news_agent.Effects.Rules.{Ensures, Ensures-continue, Ensures-zip, Ensures-map, Moves}
use telegram_news_agent.Telegram.Updates.{
  Json, Classification, Classified, throws_protocol, classified, classify_telegram_update,
}
use telegram_news_agent.Telegram.Polling.{
  Fault, is_terminal_telegram_control_error, answered, failed, Call, Ports, State, Action,
}
use telegram_news_agent.Telegram.Polling.Batch.Relations.{handle_batch-Moves}
use telegram_news_agent.Telegram.Polling.Batch.{
  Turn, next, halt, unless_halted, Verdict, is_busy, is_processing, after_claim, safe_claim,
  judge_error, handle_update, examine, after_recorded, after_ledger_error, act_on, take_classified,
  take_update, handle_batch,
}

-- The answers after which an update need not come again: the application handled it, or its claim
-- was finished or is another's that is not busy, or it failed for good and that is durable.
abbrev pub settles : ℕ → Call → Bool
settles id (Call.handle i (answered is_handled)) = i == id && is_handled
settles id (Call.handle i (failed e)) = i == id && is_terminal_telegram_control_error e
settles id (Call.claim i (answered c)) = i == id && not c.is_claimed && not (is_busy c.claim_status)
settles id (Call.claim i (failed e)) = i == id && is_terminal_telegram_control_error e
settles id (Call.finish i (answered is_finished)) = i == id && is_finished
settles id (Call.finish i (failed e)) = i == id && is_terminal_telegram_control_error e
settles id (Call.record_failure i f (answered r)) =
    i == id && r.is_terminal && not (not r.is_recorded && is_processing r.failure_status)
settles id _ = false

abbrev pub IsSettled : {W : Type 0} → ℕ → State W → Type 0
IsSettled id s = any (settles id) s.calls ≡ true

module _ {W : Type 0} (p : Ports W) where
  abbrev VerdictHolds : ℕ → State W → Verdict → State W → Type 0
  VerdictHolds id s Verdict.acknowledged t = (t.offset ≡ s.offset) × IsSettled id t
  VerdictHolds id s _ t = t.offset ≡ s.offset

  handle_update-VerdictHolds :
      (raw : Json) (c : Classification) (s : State W)
      → Ensures (VerdictHolds c.update_id s) (λ _ t. t.offset ≡ s.offset) (handle_update p raw c s)
  unfolding handle_update judge_error safe_claim after_claim is_terminal_telegram_control_error
  handle_update-VerdictHolds raw c s = ground arith

  examine-VerdictHolds :
      (raw : Json) (c : Classification) (s : State W)
      → Ensures (VerdictHolds c.update_id s) (λ _ t. t.offset ≡ s.offset) (examine p raw c s)
  unfolding examine
  examine-VerdictHolds raw c s = ground (arith, handle_update-VerdictHolds raw c s)

  -- After a turn the offset is where it was, or behind the update, which is settled.
  abbrev TurnHolds : ℕ → State W → Turn → State W → Type 0
  TurnHolds id s next t = (t.offset ≡ max s.offset (suc id)) × IsSettled id t
  TurnHolds id s halt t = t.offset ≡ s.offset

  act_on-TurnHolds :
      (limit : ℕ) (c : Classification) (s u : State W) (v : Verdict)
      → VerdictHolds c.update_id s v u
      → Ensures (TurnHolds c.update_id s) (λ _ t. t.offset ≡ s.offset) (act_on p limit c v u)
  unfolding act_on after_recorded after_ledger_error
  act_on-TurnHolds limit c s u Verdict.interrupted h = ground arith
  act_on-TurnHolds limit c s u Verdict.acknowledged h = ground arith
  act_on-TurnHolds limit c s u (Verdict.failure f) h = ground arith

  -- what is settled stays so
  abbrev pub Keeps : ℕ → State W → State W → Type 0
  Keeps id s t = IsSettled id s → IsSettled id t

  examine-Keeps : (id : ℕ) (raw : Json) (c : Classification) → Moves (Keeps id) (examine p raw c)
  unfolding examine handle_update judge_error safe_claim after_claim
  examine-Keeps id raw c s = ground arith

  act_on-Keeps :
      (id limit : ℕ) (c : Classification) (v : Verdict) → Moves (Keeps id) (act_on p limit c v)
  unfolding act_on after_recorded after_ledger_error
  act_on-Keeps id limit c Verdict.interrupted s = ground arith
  act_on-Keeps id limit c Verdict.acknowledged s = ground arith
  act_on-Keeps id limit c (Verdict.failure f) s = ground arith

  pub handle_batch-Keeps :
      (id limit : ℕ) (batch : List Json) → Moves (Keeps id) (handle_batch p limit batch)
  handle_batch-Keeps id =
      handle_batch-Moves p (Keeps id) (λ s h. h) (λ s t u f g h. g (f h)) (examine-Keeps id)
        (act_on-Keeps id)

  -- An update in its place in a batch: the offset is moved over it where it is settled.
  abbrev ClassifiedHolds : Classified → State W → Turn → State W → Type 0
  ClassifiedHolds (classified c) s turn t = TurnHolds c.update_id s turn t
  ClassifiedHolds (throws_protocol code) s turn t = ⊥

  take_classified-Holds :
      (limit : ℕ) (raw : Json) (update : Classified) (s : State W)
      → Ensures
          (ClassifiedHolds update s)
          (λ _ t. t.offset ≡ s.offset)
          (take_classified p limit raw update s)
  unfolding take_classified
  take_classified-Holds limit raw (throws_protocol code) s = refl
  take_classified-Holds limit raw (classified c) s =
      Ensures-continue (VerdictHolds c.update_id s) (TurnHolds c.update_id s)
        (λ _ t. t.offset ≡ s.offset) (examine p raw c s) (act_on p limit c)
        (examine-VerdictHolds raw c s) (λ v u h. act_on-TurnHolds limit c s u v h)

  abbrev pub OverFirst : Classified → (ℕ → Type 0) → ℕ → State W → Type 0
  OverFirst (throws_protocol code) Rest start t = ⊥
  OverFirst (classified c) Rest start t =
      IsSettled c.update_id t × Rest (max start (suc c.update_id))

  -- The offset has moved from `start` over some first updates of the batch, each of them settled,
  -- and over no other.
  abbrev pub MovesOver : List Json → ℕ → State W → Type 0
  MovesOver [] start t = t.offset ≡ start
  MovesOver (raw ∷ rest) start t =
      (t.offset ≡ start)
      ⊎ OverFirst (classify_telegram_update raw) (λ o. MovesOver rest o t) start t

  abbrev Over : List Json → ℕ → {A : Type 0} → Outcome Fault (State W) A → Type 0
  Over batch start = Ensures (λ _ t. MovesOver batch start t) (λ _ t. MovesOver batch start t)

  stays-MovesOver :
      (batch : List Json) (start : ℕ) (t : State W) → t.offset ≡ start → MovesOver batch start t
  stays-MovesOver [] start t e = e
  stays-MovesOver (raw ∷ rest) start t e = inl e

  rest-MovesOver :
      (raw : Json) (rest : List Json) (s u : State W) (update : Classified) (turn : Turn)
      (m : Action W (Unit {0}))
      → classify_telegram_update raw ≡ update
      → ClassifiedHolds update s turn u
      → Over rest u.offset (m u)
      → ((id : ℕ) → Moves (Keeps id) m)
      → Over (raw ∷ rest) s.offset (unless_halted p m turn u)
  rest-MovesOver raw rest s u (throws_protocol code) turn m e h k keeps = elim h [ ]
  rest-MovesOver raw rest s u (classified c) halt m e h k keeps = inl h
  rest-MovesOver raw rest s u (classified c) next m e (moved, settled) k keeps =
      Ensures-zip (MovesOver rest u.offset) (Keeps c.update_id u) (MovesOver (raw ∷ rest) s.offset)
        (m u) (λ t over keep. inr (rw e (keep settled, rw (← moved) over))) k (keeps c.update_id u)

  batch-MovesOver :
      (limit : ℕ) (raw : Json) (rest : List Json) (m : Action W (Unit {0})) (s : State W)
      → ((u : State W) → Over rest u.offset (m u))
      → ((id : ℕ) → Moves (Keeps id) m)
      → Over (raw ∷ rest) s.offset (continue (take_update p limit raw s) (unless_halted p m))
  unfolding take_update
  batch-MovesOver limit raw rest m s k keeps = go (p.is_aborted s.world)
    where
      update : Classified
      update = classify_telegram_update raw

      go :
          (b : Bool)
          → Over (raw ∷ rest) s.offset (
              continue
                (if b then returns halt s else take_classified p limit raw update s)
                (unless_halted p m))
      go true = inl refl
      go false =
          Ensures-continue (ClassifiedHolds update s) (λ _ t. MovesOver (raw ∷ rest) s.offset t)
            (λ _ t. MovesOver (raw ∷ rest) s.offset t) (take_classified p limit raw update s)
            (unless_halted p m)
            (Ensures-map (ClassifiedHolds update s) (ClassifiedHolds update s)
              (λ _ t. t.offset ≡ s.offset) (λ _ t. MovesOver (raw ∷ rest) s.offset t)
              (take_classified p limit raw update s) (take_classified-Holds limit raw update s)
              (λ _ _ h. h) (λ _ _ h. inl h))
            (λ turn u h. rest-MovesOver raw rest s u update turn m refl h (k u) keeps)

  -- A batch, whether it is handled to its end, left early or fails, has moved the offset over some
  -- first updates of it, and each of these is settled.
  pub handle_batch-MovesOver :
      (limit : ℕ) (batch : List Json) (s : State W)
      → Ensures
          (λ _ t. MovesOver batch s.offset t)
          (λ _ t. MovesOver batch s.offset t)
          (handle_batch p limit batch s)
  unfolding handle_batch
  handle_batch-MovesOver limit [] s = refl
  handle_batch-MovesOver limit (raw ∷ rest) s =
      batch-MovesOver limit raw rest (handle_batch p limit rest) s
        (handle_batch-MovesOver limit rest) (λ id. handle_batch-Keeps id limit rest)

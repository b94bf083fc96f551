-- ===== src/Telegram/Polling/Batch.antt =====
-- The updates of a batch, one after the other: the body of the loop over `updatesBatch` in
-- `src/telegram/telegram-polling-worker.ts`.
pub mod Relations
pub mod Cursor
pub mod Requests
pub mod Leases
use telegram_news_agent.Prelude.{
  ℕ, suc, ◌+◌, max, String, Bool, true, false, not, ◌&&◌, ◌||◌, Option, none, some, List, [], ◌∷◌,
  leb, if◌then◌else◌, get_or,
}
use telegram_news_agent.Effects.{Outcome, returns, throws, pure, throw, attempt, ◌>>=◌, ◌>>◌}
use telegram_news_agent.Telegram.Updates.{
  Json, Classification, Classified, throws_protocol, classified, classify_telegram_update,
}
use telegram_news_agent.Telegram.Polling.{
  Fault, is_terminal_telegram_control_error, is_telegram_conflict, is_lease_lost,
  non_retryable_error, Failure, classify_update_error, retry_delay, retry_delay_before, ClaimStatus,
  busy, Claim, FailureStatus, processing, Recorded, Answer, Call, Ports, State, Action, perform,
}

-- After an update: the next one, or a `break`.
pub data Turn : Type 0 where
  next halt : Turn

-- What became of an update before the failure ledger is asked.
pub data Verdict : Type 0 where
  acknowledged interrupted : Verdict
  failure : Failure → Verdict

abbrev pub is_busy : ClaimStatus → Bool
is_busy busy = true
is_busy _ = false

abbrev pub is_processing : FailureStatus → Bool
is_processing processing = true
is_processing _ = false

module _ {W : Type 0} (p : Ports W) where
  -- a sleep that the state decides the length of
  abbrev pub sleep_for : (ℕ → ℕ) → Action W (Unit {0})
  sleep_for delay s =
      let ms = delay (p.random s.world) in perform (λ _. Call.sleep ms) (p.sleep ms) s

  pub after_claim : Classification → Claim → Action W Bool
  after_claim c claimed =
      if claimed.is_claimed
      then elim claimed.claim_token [
        | none ↦ throw (Fault.protocol "missing_claim_token")
        | some token ↦ perform (Call.finish c.update_id) (p.finish c.update_id token)
      ]
      else if is_busy claimed.claim_status
      then throw (non_retryable_error "update_in_progress")
      else pure true

  pub safe_claim : Classification → Action W Bool
  unfolding after_claim
  safe_claim c = perform (Call.claim c.update_id) (p.claim c.update_id c.kind) >>= after_claim c

  abbrev pub unless_finished : Bool → Action W (Unit {0})
  unless_finished true = pure tt
  unless_finished false = throw (Fault.control "update_in_progress")

  abbrev pub unless_handled : Classification → Bool → Action W (Unit {0})
  unfolding safe_claim
  unless_handled c true = pure tt
  unless_handled c false = safe_claim c >>= unless_finished

  -- the `catch` after the handler
  pub judge_error : Fault → Action W Verdict
  judge_error e s =
      (if is_lease_lost e || is_telegram_conflict e
          then throw e
          else if p.is_aborted s.world
          then pure Verdict.interrupted
          else if is_terminal_telegram_control_error e
          then pure Verdict.acknowledged
          else pure (Verdict.failure (classify_update_error e)))
        s

  pub handle_update : Json → Classification → Action W Verdict
  unfolding judge_error
  handle_update raw c =
      attempt (perform (Call.handle c.update_id) (p.handle raw) >>= unless_handled c)
        (λ _. pure Verdict.acknowledged) judge_error

  pub examine : Json → Classification → Action W Verdict
  unfolding handle_update
  examine raw c =
      if c.is_terminal
      then pure (
          Verdict.failure
            (record { is_busy = false; is_terminal = true; error_code = get_or c.error_code "" }))
      else handle_update raw c

  -- `offset = Math.max(offset, classification.updateId + 1)`
  abbrev pub advance : ℕ → Action W Turn
  advance id s = returns next (record s { offset = max s.offset (suc id) })

  pub after_recorded : ℕ → Recorded → Action W Turn
  after_recorded id recorded s =
      (if not recorded.is_recorded && is_processing recorded.failure_status
          then (sleep_for (retry_delay 0) >> pure halt)
          else if recorded.is_terminal
          then advance id
          else (sleep_for (retry_delay_before recorded.attempt_count) >> pure halt))
        (record s { failure_ledger_attempt = 0 })

  pub after_ledger_error : ℕ → Fault → Action W Turn
  after_ledger_error max_failure_ledger_attempts e s =
      if is_lease_lost e
      then throws e s
      else if p.is_aborted s.world
      then returns halt s
      else let t : State W = record s { failure_ledger_attempt = suc s.failure_ledger_attempt } in
        if leb max_failure_ledger_attempts t.failure_ledger_attempt
        then throws Fault.ledger_unavailable t
        else (sleep_for (retry_delay s.failure_ledger_attempt) >> pure halt) t

  pub act_on : ℕ → Classification → Verdict → Action W Turn
  unfolding after_recorded after_ledger_error
  act_on max_failure_ledger_attempts c Verdict.interrupted = pure halt
  act_on max_failure_ledger_attempts c Verdict.acknowledged =
      λ s. advance c.update_id (record s { failure_ledger_attempt = 0 })
  act_on max_failure_ledger_attempts c (Verdict.failure f) =
      if f.is_busy
      then (sleep_for (retry_delay 0) >> pure halt)
      else attempt
          (perform (Call.record_failure c.update_id f) (p.record_failure c.update_id c.kind f))
          (after_recorded c.update_id) (after_ledger_error max_failure_ledger_attempts)

  pub take_classified : ℕ → Json → Classified → Action W Turn
  unfolding examine act_on
  take_classified max_failure_ledger_attempts raw (throws_protocol code) =
      throw (Fault.protocol code)
  take_classified max_failure_ledger_attempts raw (classified c) =
      examine raw c >>= act_on max_failure_ledger_attempts c

  -- an iteration of the loop over the batch
  pub take_update : ℕ → Json → Action W Turn
  unfolding take_classified
  take_update max_failure_ledger_attempts raw s =
      if p.is_aborted s.world
      then returns halt s
      else take_classified max_failure_ledger_attempts raw (classify_telegram_update raw) s

  abbrev pub unless_halted : Action W (Unit {0}) → Turn → Action W (Unit {0})
  unless_halted rest next = rest
  unless_halted rest halt = pure tt

  pub handle_batch : ℕ → List Json → Action W (Unit {0})
  unfolding take_update
  handle_batch max_failure_ledger_attempts [] = pure tt
  handle_batch max_failure_ledger_attempts (raw ∷ rest) =
      take_update max_failure_ledger_attempts raw
      >>= unless_halted (handle_batch max_failure_ledger_attempts rest)

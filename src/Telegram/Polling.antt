-- ===== src/Telegram/Polling.antt =====
-- The errors, ports and state of the poller in `src/telegram/telegram-polling-worker.ts`.
pub mod Batch
pub mod Loop
mod Tests
use telegram_news_agent.Prelude.{
  ℕ, zero, suc, ◌+◌, ◌*◌, ◌/◌, ◌^◌, min, String, Bool, true, false, ◌||◌, Option, none, some, List,
  [], ◌∷◌, ◌==◌, if◌then◌else◌, any, str_eq,
}
use telegram_news_agent.Effects.{Outcome, returns, throws, Io}
use telegram_news_agent.Scheduler.Worker.{is_stable_code}
use telegram_news_agent.Telegram.Updates.{Json, Kind}

-- A thrown value, by its class and the properties that the poller looks at. `other` has whether
-- `retryable` is false, and `code` where that is a string.
pub data Fault : Type 0 where
  lease_lost lease_held ledger_unavailable : Fault
  protocol control non_retryable : String → Fault
  telegram : (status error_code : ℕ) → Fault
  other : Bool → Option String → Fault

terminal_codes : List String
terminal_codes =
    "forbidden" ∷ "private_chat_required" ∷ "malformed_command" ∷ "missing_sender"
    ∷ "malformed_callback" ∷ "invalid_review_session" ∷ "publication_unresolved"
    ∷ "malformed_update" ∷ []

unfoldable pub is_terminal_telegram_control_error : Fault → Bool
unfolding terminal_codes
is_terminal_telegram_control_error (Fault.control code) = any (λ c. str_eq c code) terminal_codes
is_terminal_telegram_control_error _ = false

unfoldable pub is_telegram_conflict : Fault → Bool
is_telegram_conflict (Fault.telegram status error_code) = status == 409 || error_code == 409
is_telegram_conflict _ = false

abbrev pub is_lease_lost : Fault → Bool
is_lease_lost Fault.lease_lost = true
is_lease_lost _ = false

abbrev sanitize_error_code : Option String → String → String
sanitize_error_code none fallback = fallback
sanitize_error_code (some value) fallback = if is_stable_code value then value else fallback

abbrev pub non_retryable_error : String → Fault
non_retryable_error code =
    Fault.non_retryable (sanitize_error_code (some code) "non_retryable_update")

pub record Failure : Type 0 where
  pub is_busy : Bool
  pub is_terminal : Bool
  pub error_code : String

unfoldable pub classify_update_error : Fault → Failure
unfolding is_terminal_telegram_control_error
classify_update_error (Fault.control code) =
    if str_eq code "update_in_progress"
    then record { is_busy = true; is_terminal = false; error_code = code }
    else record {
      is_busy = false;
      is_terminal = false;
      error_code =
          if is_terminal_telegram_control_error (Fault.control code)
          then code
          else "update_handler_failed";
    }
classify_update_error (Fault.non_retryable code) = record {
  is_busy = false;
  is_terminal = true;
  error_code = sanitize_error_code (some code) "non_retryable_update";
}
classify_update_error (Fault.other true code) = record {
  is_busy = false;
  is_terminal = true;
  error_code = sanitize_error_code code "non_retryable_update";
}
classify_update_error _ = record {
  is_busy = false;
  is_terminal = false;
  error_code = "update_handler_failed";
}

-- `retryDelay`, where `random()` is `r / 2 ^ 53`
unfoldable pub retry_delay : ℕ → ℕ → ℕ
retry_delay attempt r = r * min 30000 (500 * 2 ^ min attempt 6) / 2 ^ 53

-- `retryDelay(count - 1)`; `500 * 2 ** -1` is 250
unfoldable pub retry_delay_before : ℕ → ℕ → ℕ
unfolding retry_delay
retry_delay_before zero r = r * 250 / 2 ^ 53
retry_delay_before (suc attempt) r = retry_delay attempt r

pub data ClaimStatus : Type 0 where
  busy other_claim_status : ClaimStatus

pub record Claim : Type 0 where
  pub is_claimed : Bool
  pub claim_token : Option String
  pub claim_status : ClaimStatus

pub data FailureStatus : Type 0 where
  processing quarantined other_failure_status : FailureStatus

pub record Recorded : Type 0 where
  pub attempt_count : ℕ
  pub is_terminal : Bool
  pub failure_status : FailureStatus
  pub is_recorded : Bool

-- What an awaited call answered.
pub data Answer (A : Type 0) : Type 0 where
  answered : A → Answer A
  failed : Fault → Answer A

pub data Call : Type 0 where
  acquire : Answer Bool → Call
  release : Call
  get_updates : ℕ → Call
  handle : ℕ → Answer Bool → Call
  claim : ℕ → Answer Claim → Call
  finish : ℕ → Answer Bool → Call
  record_failure : ℕ → Failure → Answer Recorded → Call
  sleep : ℕ → Call

-- A call that the code races against the loss of the lease may throw `lease_lost`. `get_updates`
-- answers `none` where the result is no array.
pub record Ports (W : Type 0) : Type 0 where
  pub is_aborted : W → Bool
  pub now : W → ℕ
  pub random : W → ℕ
  pub acquire : W → Outcome Fault W Bool
  pub release : W → Outcome Fault W (Unit {0})
  pub start_heartbeat : W → W
  pub mark_poll : W → W
  pub get_updates : ℕ → W → Outcome Fault W (Option (List Json))
  pub handle : Json → W → Outcome Fault W Bool
  pub claim : ℕ → Kind → W → Outcome Fault W Claim
  pub finish : ℕ → String → W → Outcome Fault W Bool
  pub record_failure : ℕ → Kind → Failure → W → Outcome Fault W Recorded
  pub sleep : ℕ → W → Outcome Fault W (Unit {0})

pub record State (W : Type 0) : Type 0 where
  pub world : W
  pub offset : ℕ
  pub poll_attempt : ℕ
  pub failure_ledger_attempt : ℕ
  pub calls : List Call

abbrev pub Action : Type 0 → Type 0 → Type 0
Action W A = Io Fault (State W) A

module _ {W A : Type 0} where
  abbrev pub noted : (Answer A → Call) → State W → Outcome Fault W A → Outcome Fault (State W) A
  noted note s (returns a w) =
      returns a (record s { world = w; calls = note (answered a) ∷ s.calls })
  noted note s (throws e w) = throws e (record s { world = w; calls = note (failed e) ∷ s.calls })

  -- an awaited call, noted with its answer
  abbrev pub perform : (Answer A → Call) → (W → Outcome Fault W A) → Action W A
  perform note port s = noted note s (port s.world)

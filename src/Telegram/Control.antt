-- ===== src/Telegram/Control.antt =====
-- `HandleTelegramControlUpdateUseCase` of
-- `src/telegram/application/handle-telegram-control-update.use-case.ts`, with the audit around it,
-- `src/telegram/legacy-telegram-control-audit.adapter.ts`. The features that it routes to are a port.
pub mod Guards
pub mod Durable
mod Tests
use telegram_news_agent.Prelude.{
  ℕ, String, Bool, true, false, not, ◌&&◌, ◌||◌, Option, none, some, ltb, leb, if◌then◌else◌,
}
use telegram_news_agent.Prelude.Text.{trim, is_empty, max_safe_integer}
use telegram_news_agent.Effects.{
  Outcome, Io, pure, throw, catch, attempt, ◌>>=◌, ◌>>◌, Traced, perform, perform_noted,
}
use telegram_news_agent.Telegram.Updates.{Numeric, whole}
use telegram_news_agent.Telegram.Polling.{
  Fault, is_terminal_telegram_control_error, ClaimStatus, busy, Claim,
}
use telegram_news_agent.Telegram.Reviews.Callback.{is_session_id}
use telegram_news_agent.Telegram.Reviews.Decide.{ReviewRoute}

pub data ChatType : Type 0 where
  private_chat group supergroup channel : ChatType

pub data Feature : Type 0 where
  settings labs status : Feature

-- The payload of a callback: its id where that is a string, its message, and whether its action
-- is an object.
pub record Payload : Type 0 where
  pub callback_id : Option String
  pub message_id : Numeric
  pub has_action : Bool

pub data FeatureAction : Type 0 where
  open_menu input : FeatureAction
  callback : Option Payload → FeatureAction

-- `Bool` is the flag `malformed`.
pub data Route : Type 0 where
  news stats : Bool → Route
  feature : Feature → FeatureAction → Bool → Route
  malformed : Route
  review : ReviewRoute → Route

pub record Request : Type 0 where
  pub update_id : Numeric
  pub update_kind : String
  pub channel_id : String
  pub actor_id : Numeric
  pub chat_id : Numeric
  pub chat_type : ChatType
  pub route : Route

-- `finish` has whether the status is "completed"; answers are noted.
pub data Call : Type 0 where
  audit_started audit_completed audit_failed : Call
  claim : Numeric → Option Claim → Call
  is_channel_admin : String → Numeric → Option Bool → Call
  run_route : String → Numeric → Call
  present : Call
  finish : Bool → String → Option Bool → Call

-- `O` is the type of the features' outcomes.
pub record Ports (W O : Type 0) : Type 0 where
  pub is_aborted : W → Bool
  pub claim : Numeric → String → W → Outcome Fault W Claim
  pub is_channel_admin : String → Numeric → W → Outcome Fault W Bool
  pub run_route : Request → String → W → Outcome Fault W O
  pub present : O → W → Outcome Fault W (Unit {0})
  pub finish : Numeric → String → Bool → Option String → W → Outcome Fault W Bool

pub data Handled (O : Type 0) : Type 0 where
  duplicate : Handled O
  outcome : O → Handled O

abbrev pub Effect : Type 0 → Type 0 → Type 0
Effect W A = Io Fault (Traced W Call) A

-- `Number.isSafeInteger(n) && n > 0`
abbrev is_positive_safe : Numeric → Bool
is_positive_safe (whole n) = ltb 0 n && leb n max_safe_integer
is_positive_safe _ = false

abbrev pub is_private : ChatType → Bool
is_private private_chat = true
is_private _ = false

abbrev is_blank : String → Bool
is_blank s = is_empty (trim s)

abbrev is_flagged : Route → Bool
is_flagged (news flag) = flag
is_flagged (stats flag) = flag
is_flagged (feature _ _ flag) = flag
is_flagged _ = false

abbrev is_full : Option String → Bool
is_full none = false
is_full (some s) = not (is_blank s)

abbrev is_valid_payload : Option Payload → Bool
is_valid_payload none = false
is_valid_payload (some payload) =
    is_full payload.callback_id && is_positive_safe payload.message_id && payload.has_action

abbrev is_valid_route : Route → Bool
is_valid_route (review route) =
    is_session_id route.session_id
    && is_positive_safe route.message_id
    && not (is_blank route.callback_id)
is_valid_route (feature _ (callback payload) _) = is_valid_payload payload
is_valid_route _ = true

abbrev is_malformed_route : Route → Bool
is_malformed_route malformed = true
is_malformed_route _ = false

-- the code of the error that `validateRequest` throws, where it throws
unfoldable pub invalid_request : Request → Option String
invalid_request request =
    if not (is_private request.chat_type) || not (is_positive_safe request.chat_id)
    then some "private_chat_required"
    else if not (is_positive_safe request.actor_id)
    then some "missing_sender"
    else if is_blank request.channel_id
    then some "malformed_update"
    else if is_malformed_route request.route
    then some "malformed_callback"
    else if is_flagged request.route
    then some "malformed_command"
    else if is_valid_route request.route
    then none
    else some "malformed_callback"

module _ {W O : Type 0} (p : Ports W O) where
  abbrev throw_if_aborted : Effect W (Unit {0})
  throw_if_aborted s =
      (if p.is_aborted s.world then throw (Fault.control "update_claim_lost") else pure tt) s

  validate_claim_envelope : Request → Effect W (Unit {0})
  validate_claim_envelope request =
      if is_positive_safe request.update_id
      then pure tt
      else throw (Fault.control "malformed_update")

  validate_request : Request → Effect W (Unit {0})
  validate_request request = elim (invalid_request request) [
    | none ↦ pure tt
    | some code ↦ throw (Fault.control code)
  ]

  abbrev unless_allowed : Bool → Effect W (Unit {0})
  unless_allowed true = pure tt
  unless_allowed false = throw (Fault.control "forbidden")

  require_admin : Request → Effect W (Unit {0})
  require_admin request =
      attempt
        (perform_noted (Call.is_channel_admin request.channel_id request.actor_id)
          (p.is_channel_admin request.channel_id request.actor_id))
        unless_allowed (λ _. throw_if_aborted >> throw (Fault.control "authorization_unavailable"))

  abbrev finished_or_lost : O → Bool → Effect W (Handled O)
  finished_or_lost o true = pure (outcome o)
  finished_or_lost o false = throw (Fault.control "update_claim_lost")

  -- after the route
  conclude : Request → String → O → Effect W (Handled O)
  conclude request token o = do
    throw_if_aborted
    perform Call.present (p.present o)
    throw_if_aborted
    finished ← perform_noted (Call.finish true token) (p.finish request.update_id token true none)
    finished_or_lost o finished

  -- the `try` block
  process : Request → String → Effect W (Handled O)
  unfolding validate_request require_admin conclude
  process request token = do
    throw_if_aborted
    validate_request request
    require_admin request
    throw_if_aborted
    o ← perform (Call.run_route request.channel_id request.actor_id) (p.run_route request token)
    conclude request token o

  abbrev code_of : Fault → String
  code_of (Fault.control code) = code
  code_of _ = "internal_error"

  abbrev rethrow_if : Fault → Bool → Effect W (Handled O)
  rethrow_if e true = throw e
  rethrow_if e false = throw (Fault.control "update_claim_lost")

  -- the `catch` block, where the error is known
  settle_as : Request → String → Fault → Effect W (Handled O)
  settle_as request token e =
      let is_terminal = is_terminal_telegram_control_error e in
      catch
        (perform_noted (Call.finish is_terminal token)
          (p.finish request.update_id token is_terminal (some (code_of e))))
        (λ _. pure false)
      >>= rethrow_if e

  settle_error : Request → String → Fault → Effect W (Handled O)
  unfolding settle_as
  settle_error request token e s =
      settle_as request token
        (if p.is_aborted s.world then Fault.control "update_claim_lost" else e) s

  with_token : Request → Option String → Effect W (Handled O)
  unfolding process settle_error
  with_token request none = throw (Fault.other false none)
  with_token request (some token) =
      if is_empty token
      then throw (Fault.other false none)
      else attempt (process request token) pure (settle_error request token)

  abbrev is_busy_claim : ClaimStatus → Bool
  is_busy_claim busy = true
  is_busy_claim _ = false

  after_claim : Request → Claim → Effect W (Handled O)
  unfolding with_token
  after_claim request claimed =
      if claimed.is_claimed
      then with_token request claimed.claim_token
      else if is_busy_claim claimed.claim_status
      then throw (Fault.control "update_in_progress")
      else pure duplicate

  abbrev note : Call → Effect W (Unit {0})
  note call = perform call (λ w. Outcome.returns tt w)

  -- `LegacyTelegramControlAuditAdapter.run`: a logger that throws is ignored
  audit_run : Effect W (Handled O) → Effect W (Handled O)
  audit_run operation = do
    note Call.audit_started
    attempt operation (λ handled. note Call.audit_completed >> pure handled)
        (λ e. note Call.audit_failed >> throw e)

  pub execute : Request → Effect W (Handled O)
  unfolding validate_claim_envelope after_claim audit_run
  execute request = do
    throw_if_aborted
    validate_claim_envelope request
    audit_run (
        perform_noted (Call.claim request.update_id) (p.claim request.update_id request.update_kind)
        >>= after_claim request)

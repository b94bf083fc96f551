-- ===== src/Telegram/Reviews.antt =====
-- The review of a draft in Telegram: the contracts of `src/telegram/telegram-application.contracts.ts`
-- and `src/telegram/telegram-persistence.contracts.ts` that the use cases below share.
pub mod Callback
pub mod Decide
pub mod Deliver
mod Tests
use telegram_news_agent.Prelude.{ℕ, String, Bool, true, false, Option}
use telegram_news_agent.Effects.{Outcome, Io, pure, throw, Traced}
use telegram_news_agent.Telegram.Updates.{Numeric}
use telegram_news_agent.Telegram.Reviews.Callback.{Action}

-- A thrown value: an error of the ports by its message, the abort reason, a
-- `TelegramControlError` by its code, and the error of controls that were not activated.
pub data Fault : Type 0 where
  external control : String → Fault
  aborted controls_inactive : Fault

pub data Restored : Type 0 where
  available missing : Restored

pub record Decision : Type 0 where
  pub decision_won : Bool
  pub decision : Action
  pub draft_id : String

pub record Session : Type 0 where
  pub id : String
  pub control_chat_id : Numeric
  pub preview_message_id : Numeric
  pub expires_at : ℕ
  pub decision : Option Action

pub data PublicationStatus : Type 0 where
  published already_published blocked already_blocked : PublicationStatus

-- The calls of the ports. The decision, the restored controls and the sessions are noted with
-- what was answered.
pub data Call : Type 0 where
  decide : String → Action → Option Decision → Call
  publish_approved_draft : String → String → Call
  answer_callback : String → String → Bool → Call
  disable_controls : Numeric → Numeric → Call
  restore_controls : Numeric → Numeric → String → Option Restored → Call
  send_review : Numeric → String → Call
  find_session : String → Option (Option Session) → Call
  renew_session rebind_session : String → Call
  create_session : String → String → Call
  get_draft : String → Call

abbrev pub Effect : Type 0 → Type 0 → Type 0
Effect W A = Io Fault (Traced W Call) A

-- `signal?.throwIfAborted()`
abbrev pub check_signal : {W : Type 0} → (W → Bool) → Effect W (Unit {0})
check_signal is_aborted s = elim (is_aborted s.world) [
  | true ↦ throw Fault.aborted s
  | false ↦ pure tt s
]

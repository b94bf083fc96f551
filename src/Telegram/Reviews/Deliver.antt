-- ===== src/Telegram/Reviews/Deliver.antt =====
-- `DeliverTelegramReviewUseCase.execute` of
-- `src/telegram/application/deliver-telegram-review.use-case.ts`. Instants are milliseconds.
pub mod Controls
use telegram_news_agent.Prelude.{
  ℕ, ◌+◌, String, Bool, true, false, ◌&&◌, Option, none, some, leb, ◌==◌, if◌then◌else◌, get_or,
}
use telegram_news_agent.Effects.{
  Outcome, returns, pure, throw, catch, ◌>>=◌, ◌>>◌, perform, perform_noted,
}
use telegram_news_agent.Telegram.Updates.{Numeric, whole, negative}
use telegram_news_agent.Telegram.Reviews.Callback.{Action}
use telegram_news_agent.Telegram.Reviews.{
  Fault, Restored, available, missing, Session, Call, Effect, check_signal,
}

pub record Input : Type 0 where
  pub draft_id : String
  pub channel_id : String
  pub chat_id : Numeric
  pub actor_id : Numeric
  pub preview : String

pub data ReviewDelivery : Type 0 where
  review_unavailable : (session_id : String) → Numeric → Option Action → ReviewDelivery
  review_ready : (session_id : String) → Numeric → (resumed rebound : Bool) → ReviewDelivery

-- `D` is the type of a draft's row, which is only handed on.
pub record Ports (W D : Type 0) : Type 0 where
  pub is_aborted : W → Bool
  pub now : W → ℕ
  pub next_id : W → String
  pub find_session : String → W → Outcome Fault W (Option Session)
  pub restore_controls : Numeric → Numeric → String → W → Outcome Fault W Restored
  pub disable_controls : Numeric → Numeric → W → Outcome Fault W (Unit {0})
  pub renew_session : String → ℕ → W → Outcome Fault W (Option Session)
  pub get_draft : String → W → Outcome Fault W D
  pub send_review : Numeric → String → String → D → W → Outcome Fault W Numeric
  pub rebind_session : String → Session → Numeric → ℕ → W → Outcome Fault W (Option Session)
  pub create_session : String → Input → Numeric → ℕ → W → Outcome Fault W Session

abbrev pub review_session_ttl_ms : ℕ
review_session_ttl_ms = 86400000

-- `===` on message ids, which are integers
abbrev same_id : Numeric → Numeric → Bool
same_id (whole a) (whole b) = a == b
same_id (negative a) (negative b) = a == b
same_id _ _ = false

abbrev is_undecided : Option Action → Bool
is_undecided none = true
is_undecided (some _) = false

module _ {W D : Type 0} (p : Ports W D) (input : Input) where
  abbrev check : Effect W (Unit {0})
  check = check_signal p.is_aborted

  abbrev find : Effect W (Option Session)
  find = perform_noted (Call.find_session input.draft_id) (p.find_session input.draft_id)

  abbrev restore : Numeric → Numeric → String → Effect W Restored
  restore chat message id =
      perform_noted (Call.restore_controls chat message id) (p.restore_controls chat message id)

  -- `disableControls(...).catch(() => undefined)`
  abbrev disable : Numeric → Numeric → Effect W (Unit {0})
  disable chat message =
      catch (perform (Call.disable_controls chat message) (p.disable_controls chat message))
        (λ _. pure tt)

  abbrev unless_available : Restored → Effect W (Unit {0})
  unless_available available = pure tt
  unless_available missing = throw Fault.controls_inactive

  pub activate_controls : Numeric → Numeric → String → Effect W (Unit {0})
  activate_controls chat message id = do
    check
    restored ← restore chat message id
    check
    unless_available restored

  after_renewal : Session → ℕ → Session → Effect W ReviewDelivery
  after_renewal existing now reusable =
      if leb reusable.expires_at now
      then disable existing.control_chat_id existing.preview_message_id
        >> pure (review_unavailable existing.id existing.preview_message_id none)
      else pure (review_ready reusable.id reusable.preview_message_id true false)

  pub reuse : Session → ℕ → Effect W ReviewDelivery
  unfolding after_renewal
  reuse existing now =
      if leb existing.expires_at now
      then (do
        renewed ←
            perform (Call.renew_session input.draft_id)
              (p.renew_session input.draft_id (now + review_session_ttl_ms))
        after_renewal existing now (get_or renewed existing))
      else pure (review_ready existing.id existing.preview_message_id true false)

  abbrev recovered_or : Fault → Numeric → Option Session → Effect W (Option Session)
  recovered_or e message none = throw e
  recovered_or e message (some session) =
      if is_undecided session.decision && same_id session.preview_message_id message
      then pure (some session)
      else throw e

  pub rebind : Session → ℕ → Numeric → Effect W (Option Session)
  rebind existing now message =
      catch
        (perform (Call.rebind_session input.draft_id)
          (p.rebind_session input.draft_id existing message (now + review_session_ttl_ms)))
        (λ e. find >>= recovered_or e message)

  after_rebind : Session → Numeric → Option Session → Effect W ReviewDelivery
  unfolding activate_controls
  after_rebind existing message none =
      disable existing.control_chat_id message >> pure (review_unavailable existing.id message none)
  after_rebind existing message (some rebound) =
      activate_controls existing.control_chat_id rebound.preview_message_id rebound.id
      >> pure (review_ready rebound.id rebound.preview_message_id true true)

  pub send : Numeric → String → Effect W Numeric
  send chat id = do
    draft ← perform (Call.get_draft input.draft_id) (p.get_draft input.draft_id)
    perform (Call.send_review chat id) (p.send_review chat id input.preview draft)

  pub replace : Session → ℕ → Effect W ReviewDelivery
  unfolding send rebind after_rebind
  replace existing now = do
    message ← send existing.control_chat_id existing.id
    rebound ← rebind existing now message
    after_rebind existing message rebound

  abbrev after_restore : Session → ℕ → Restored → Effect W ReviewDelivery
  after_restore existing now available = reuse existing now
  after_restore existing now missing = replace existing now

  pub resume : Session → ℕ → Effect W ReviewDelivery
  resume existing now = elim existing.decision [
    | some decision ↦
        pure (review_unavailable existing.id existing.preview_message_id (some decision))
    | none ↦
        restore existing.control_chat_id existing.preview_message_id existing.id
        >>= after_restore existing now
  ]

  -- a session that is created now
  pub begin : ℕ → Effect W ReviewDelivery
  unfolding send activate_controls
  begin now s =
      (do
        let id = p.next_id s.world
        message ← send input.chat_id id
        created ←
            perform (Call.create_session id input.draft_id)
              (p.create_session id input message (now + review_session_ttl_ms))
        activate_controls created.control_chat_id created.preview_message_id created.id
        pure (review_ready created.id created.preview_message_id false false))
        s

  abbrev resume_or_begin : ℕ → Option Session → Effect W ReviewDelivery
  resume_or_begin now none = begin now
  resume_or_begin now (some existing) = resume existing now

  -- the clock is read before the session is looked up
  abbrev look_up : Effect W ReviewDelivery
  look_up s = (find >>= resume_or_begin (p.now s.world)) s

  pub execute : Effect W ReviewDelivery
  execute = check >> look_up

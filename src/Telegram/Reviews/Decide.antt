-- ===== src/Telegram/Reviews/Decide.antt =====
-- `DecideTelegramReviewUseCase.execute` of
-- `src/telegram/application/decide-telegram-review.use-case.ts`.
pub mod Authority
use telegram_news_agent.Prelude.{
  ℕ, String, Bool, true, false, not, ◌&&◌, ◌||◌, Option, none, some, if◌then◌else◌,
}
use telegram_news_agent.Effects.{
  Outcome, pure, throw, catch, attempt, ◌>>=◌, ◌>>◌, perform, perform_noted,
}
use telegram_news_agent.Scheduler.Errors.{includes}
use telegram_news_agent.Telegram.Updates.{Numeric}
use telegram_news_agent.Telegram.Reviews.Callback.{Action, publish, reject}
use telegram_news_agent.Telegram.Reviews.{
  Fault, Decision, PublicationStatus, published, already_published, blocked, already_blocked, Call,
  Effect, check_signal,
}

pub record ReviewRoute : Type 0 where
  pub session_id : String
  pub action : Action
  pub message_id : Numeric
  pub callback_id : String

-- The route of a request: a review, or another one.
pub record Request : Type 0 where
  pub channel_id : String
  pub actor_id : Numeric
  pub chat_id : Numeric
  pub route : Option ReviewRoute

pub record Publication : Type 0 where
  pub status : PublicationStatus
  pub reason_code : Option String

pub data ReviewOutcome : Type 0 where
  already_decided : Action → String → ReviewOutcome
  rejected : String → Bool → ReviewOutcome
  blocked_by_policy : String → Option String → Bool → ReviewOutcome
  published_draft : String → (is_already_published decision_won : Bool) → ReviewOutcome

pub record Ports (W : Type 0) : Type 0 where
  pub is_aborted : W → Bool
  pub decide : ReviewRoute → Request → W → Outcome Fault W Decision
  pub disable_controls : Numeric → Numeric → W → Outcome Fault W (Unit {0})
  pub answer_callback : String → String → Bool → W → Outcome Fault W (Unit {0})
  pub publish_approved_draft : String → String → W → Outcome Fault W Publication

-- `error instanceof Error ? error.message : ""`. The message of an abortion or of a control error is
-- left out, since the two patterns below read only the texts of the persistence and of the editor.
abbrev message_of : Fault → String
message_of (Fault.external message) = message
message_of _ = ""

-- `/not found|expired|binding mismatch|not actionable/i`
is_unavailable : Fault → Bool
is_unavailable e =
    includes "not found" (message_of e)
    || includes "expired" (message_of e)
    || includes "binding mismatch" (message_of e)
    || includes "not actionable" (message_of e)

-- `/unresolved/i`
is_unresolved : Fault → Bool
is_unresolved e = includes "unresolved" (message_of e)

abbrev is_reject : Action → Bool
is_reject reject = true
is_reject publish = false

abbrev pub is_blocked : PublicationStatus → Bool
is_blocked blocked = true
is_blocked already_blocked = true
is_blocked _ = false

abbrev is_already_published : PublicationStatus → Bool
is_already_published already_published = true
is_already_published _ = false

module _ {W : Type 0} (p : Ports W) where
  abbrev check : Effect W (Unit {0})
  check = check_signal p.is_aborted

  pub answer : String → String → Bool → Effect W (Unit {0})
  answer callback_id text show_alert = do
    check
    catch
        (perform (Call.answer_callback callback_id text show_alert)
          (p.answer_callback callback_id text show_alert))
        (λ _. check)
    check

  decide_error : Fault → Effect W Decision
  unfolding is_unavailable
  decide_error e =
      if is_unavailable e then throw (Fault.control "invalid_review_session") else throw e

  pub decide : Request → ReviewRoute → Effect W Decision
  unfolding decide_error
  decide request route =
      catch (perform_noted (Call.decide route.session_id route.action) (p.decide route request))
        decide_error

  abbrev outcome_of : Decision → Publication → ReviewOutcome
  outcome_of d publication =
      if is_blocked publication.status
      then blocked_by_policy d.draft_id publication.reason_code d.decision_won
      else published_draft d.draft_id (is_already_published publication.status) d.decision_won

  publish_error : Fault → Effect W Publication
  unfolding is_unresolved
  publish_error e =
      if is_unresolved e then throw (Fault.control "publication_unresolved") else throw e

  pub publish_draft : Request → ReviewRoute → Decision → Effect W ReviewOutcome
  unfolding answer publish_error
  publish_draft request route d = do
    answer route.callback_id (if d.decision_won then "Publishing..." else "Resuming publication...")
        false
    publication ←
        catch
          (do
            check
            perform (Call.publish_approved_draft d.draft_id request.channel_id)
                (p.publish_approved_draft d.draft_id request.channel_id))
          publish_error
    pure (outcome_of d publication)

  abbrev disable_if_won : Request → ReviewRoute → Decision → Effect W (Unit {0})
  disable_if_won request route d =
      if d.decision_won
      then catch
          (perform (Call.disable_controls request.chat_id route.message_id)
            (p.disable_controls request.chat_id route.message_id))
          (λ _. pure tt)
      else pure tt

  pub conclude : Request → ReviewRoute → Decision → Effect W ReviewOutcome
  unfolding answer publish_draft
  conclude request route d =
      if is_reject d.decision
      then (do
        answer route.callback_id "Draft rejected. Nothing was published." false
        pure (rejected d.draft_id d.decision_won))
      else publish_draft request route d

  pub act_on : Request → ReviewRoute → Decision → Effect W ReviewOutcome
  unfolding answer conclude
  act_on request route d =
      if not d.decision_won && is_reject d.decision
      then (do
        answer route.callback_id "This draft was already rejected." true
        pure (already_decided d.decision d.draft_id))
      else disable_if_won request route d >> conclude request route d

  with_route : Request → Option ReviewRoute → Effect W ReviewOutcome
  unfolding decide act_on
  with_route request none = throw (Fault.control "malformed_callback")
  with_route request (some route) = check >> (decide request route >>= act_on request route)

  pub execute : Request → Effect W ReviewOutcome
  unfolding with_route
  execute request = check >> with_route request request.route

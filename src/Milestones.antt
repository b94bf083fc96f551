-- ===== src/Milestones.antt =====
-- `PublicationMilestonesService` of
-- `src/publication-milestones/application/publication-milestones.service.ts`.
pub mod Settlement
mod Tests
use Prim.Native.String.{◌++◌}
use telegram_news_agent.Prelude.{
  ℕ, String, Bool, true, false, ◌&&◌, Option, none, some, List, [], ◌∷◌, if◌then◌else◌, str_eq,
}
use telegram_news_agent.Prelude.Text.{trim}
use telegram_news_agent.Effects.{
  Outcome, returns, throws, Io, pure, throw, attempt, ◌>>=◌, ◌>>◌, Traced, perform,
}

pub data DeliveryOutcome : Type 0 where
  rejected uncertain : DeliveryOutcome

-- The class of an error: a `PublicationMilestoneDeliveryError`, or another one.
pub data Class : Type 0 where
  delivery : DeliveryOutcome → Class
  general : Class

-- A thrown value: no error, by its text, or an error, with its cause where that is another value.
-- The chain of causes is finite.
pub data Thrown : Type 0 where
  value : String → Thrown
  error : Class → String → Thrown
  caused : Class → String → Thrown → Thrown

unfoldable pub root_error_message : Thrown → String
root_error_message (value text) = text
root_error_message (error class message) = message
root_error_message (caused class message (value text)) = message
root_error_message (caused class message (error c m)) = m
root_error_message (caused class message (caused c m cause)) = root_error_message (caused c m cause)

class_of : Thrown → Class
class_of (value text) = general
class_of (error class message) = class
class_of (caused class message cause) = class

abbrev is_rejection : Class → Bool
is_rejection (delivery rejected) = true
is_rejection _ = false

-- `error instanceof PublicationMilestoneDeliveryError && error.outcome === "rejected"`
unfoldable pub is_rejected : Thrown → Bool
unfolding class_of
is_rejected e = is_rejection (class_of e)

pub data MilestoneState : Type 0 where
  pending sending sent failed uncertain_delivery : MilestoneState

pub data Language : Type 0 where
  de uk en : Language

pub record Milestone : Type 0 where
  pub id : String
  pub channel_id : String
  pub ordinal : ℕ
  pub language_code : Language
  pub editor_name : String
  pub state : MilestoneState
  pub claim_token : Option String

pub data FeatureState : Type 0 where
  enabled not_enabled : FeatureState

pub record FeatureFlag : Type 0 where
  pub feature_key : String
  pub state : FeatureState

pub record Event : Type 0 where
  pub publication_id : String
  pub channel_id : String

-- How a call of a port ended.
pub data Answer (A : Type 0) : Type 0 where
  gave : A → Answer A
  failed_with : Thrown → Answer A

-- The calls of the ports, with their answers where these decide; the texts of the errors are kept.
pub data Call : Type 0 where
  get_settings get_feature_flags : Call
  claim retry_milestone : String → Answer (Option Milestone) → Call
  reconciled_sent reconciled_not_sent : String → Call
  send : String → String → Answer ℕ → Call
  mark_sent : String → String → ℕ → Answer (Option Milestone) → Call
  mark_failed mark_uncertain : String → String → String → Answer (Option Milestone) → Call

pub record Ports (W : Type 0) : Type 0 where
  pub get_settings : String → W → Outcome Thrown W (Option Language)
  pub get_feature_flags : String → W → Outcome Thrown W (List FeatureFlag)
  pub claim : String → Language → String → W → Outcome Thrown W (Option Milestone)
  pub retry : String → W → Outcome Thrown W (Option Milestone)
  pub reconcile_sent : String → ℕ → W → Outcome Thrown W (Option Milestone)
  pub reconcile_not_sent : String → W → Outcome Thrown W (Option Milestone)
  pub send : String → String → W → Outcome Thrown W ℕ
  pub mark_sent : String → String → ℕ → W → Outcome Thrown W (Option Milestone)
  pub mark_failed : String → String → String → W → Outcome Thrown W (Option Milestone)
  pub mark_uncertain : String → String → String → W → Outcome Thrown W (Option Milestone)
  pub show : ℕ → String

abbrev pub Action : Type 0 → Type 0 → Type 0
Action W A = Io Thrown (Traced W Call) A

-- one awaited call, noted with its answer
abbrev resume_answered :
    {W A : Type 0}
    → (Answer A → Call)
    → List Call
    → Outcome Thrown W A
    → Outcome Thrown (Traced W Call) A
resume_answered note cs (returns a w) = returns a (record { world = w; calls = note (gave a) ∷ cs })
resume_answered note cs (throws e w) =
    throws e (record { world = w; calls = note (failed_with e) ∷ cs })

abbrev perform_answered : {W A : Type 0} → (Answer A → Call) → (W → Outcome Thrown W A) → Action W A
perform_answered note port s = resume_answered note s.calls (port s.world)

abbrev pub is_sending : MilestoneState → Bool
is_sending sending = true
is_sending _ = false

-- `flags.find((row) => row.feature_key === key)?.state === "enabled"`
pub is_feature_enabled : List FeatureFlag → Bool
is_feature_enabled [] = false
is_feature_enabled (flag ∷ flags) =
    let rest = is_feature_enabled flags in
    if str_eq flag.feature_key "publication_milestones"
    then elim flag.state [ enabled ↦ true | not_enabled ↦ false ]
    else rest

module _ {W : Type 0} (p : Ports W) where
  -- `renderPublicationMilestoneMessage`
  pub render_publication_milestone_message : Milestone → String
  render_publication_milestone_message m =
      let name = trim m.editor_name in
      elim m.language_code [
        | de ↦
            "Das ist unser "
            ++ p.show m.ordinal
            ++ ". Beitrag. "
            ++ name
            ++ " bedankt sich bei allen, die hier mitlesen, und macht mit weiteren starken Geschichten weiter."
        | uk ↦
            "Це наша "
            ++ p.show m.ordinal
            ++ "-та публікація. "
            ++ name
            ++ " дякує всім, хто нас читає, і продовжить ділитися тут сильними історіями."
        | en ↦
            "This is our "
            ++ p.show m.ordinal
            ++ "th post. "
            ++ name
            ++ " is grateful to everyone reading and will keep sharing strong stories here."
      ]

  abbrev pub receipt_not_persisted : Thrown
  receipt_not_persisted =
      error general
        "Milestone delivery was accepted but its fenced receipt was not persisted; operator reconciliation is required"

  abbrev check_finalized : Option Milestone → Action W (Unit {0})
  check_finalized none = throw receipt_not_persisted
  check_finalized (some _) = pure tt

  pub after_send : Milestone → String → ℕ → Action W (Unit {0})
  after_send m token message_id =
      perform_answered (Call.mark_sent m.id token message_id) (p.mark_sent m.id token message_id)
      >>= check_finalized

  pub after_send_error : Milestone → String → Thrown → Action W (Unit {0})
  after_send_error m token e =
      let message = root_error_message e in
      if is_rejected e
      then (perform_answered (Call.mark_failed m.id token message)
            (p.mark_failed m.id token message)
          >> throw e)
      else (perform_answered (Call.mark_uncertain m.id token message)
            (p.mark_uncertain m.id token message)
          >> throw e)

  deliver_claimed : Milestone → Option String → Action W (Unit {0})
  unfolding after_send after_send_error
  deliver_claimed m none = pure tt
  deliver_claimed m (some token) =
      let text = render_publication_milestone_message m in
      attempt (perform_answered (Call.send m.channel_id text) (p.send m.channel_id text))
        (after_send m token) (after_send_error m token)

  pub deliver : Milestone → Action W (Unit {0})
  unfolding deliver_claimed
  deliver m = if is_sending m.state then deliver_claimed m m.claim_token else pure tt

  abbrev deliver_if_any : Option Milestone → Action W (Unit {0})
  deliver_if_any none = pure tt
  deliver_if_any (some m) = deliver m

  abbrev claim_if_enabled : String → Event → Language → List FeatureFlag → Action W (Unit {0})
  claim_if_enabled editor_name event language flags =
      if is_feature_enabled flags
      then perform_answered (Call.claim event.publication_id)
          (p.claim event.publication_id language editor_name)
        >>= deliver_if_any
      else pure tt

  abbrev with_settings : String → Event → Option Language → Action W (Unit {0})
  with_settings editor_name event none = pure tt
  with_settings editor_name event (some language) =
      perform Call.get_feature_flags (p.get_feature_flags event.channel_id)
      >>= claim_if_enabled editor_name event language

  pub handle : String → Event → Action W (Unit {0})
  handle editor_name event =
      perform Call.get_settings (p.get_settings event.channel_id)
      >>= with_settings editor_name event

  pub retry : String → Action W (Unit {0})
  retry id = perform_answered (Call.retry_milestone id) (p.retry id) >>= deliver_if_any

  pub reconcile_sent : String → ℕ → Action W (Option Milestone)
  reconcile_sent id message_id = perform (Call.reconciled_sent id) (p.reconcile_sent id message_id)

  abbrev retry_if_any : String → Option Milestone → Action W (Unit {0})
  unfolding retry
  retry_if_any id none = pure tt
  retry_if_any id (some _) = retry id

  pub reconcile_not_sent_and_retry : String → Action W (Unit {0})
  reconcile_not_sent_and_retry id =
      perform (Call.reconciled_not_sent id) (p.reconcile_not_sent id) >>= retry_if_any id

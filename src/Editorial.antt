-- ===== src/Editorial.antt =====
-- The rows, ports and errors of the editorial use cases: `src/editorial/editorial-persistence.contracts.ts`
-- and `src/editorial/editorial-application.contracts.ts`. A port is a field of `Ports`; columns that
-- no use case reads are left out of the rows.
pub mod Identifier
pub mod Publish
pub mod Corroboration
pub mod Review
mod Tests
use telegram_news_agent.Prelude.{
  ℕ, String, Bool, true, false, Option, none, some, List, if◌then◌else◌,
}
use telegram_news_agent.Prelude.Text.{Number}
use telegram_news_agent.Effects.{Outcome, Io, Traced, pure, throw}

pub data DraftStatus : Type 0 where
  draft review approved publishing rejected published : DraftStatus

pub record DraftRow : Type 0 where
  pub id : String
  pub article_id : String
  pub body : String
  pub status : DraftStatus
  pub reviewer_notes : Option String

pub record PublishedPostRow : Type 0 where
  pub id : String
  pub article_id : String
  pub telegram_message_id : ℕ

pub data PublicationPath : Type 0 where
  automatic automatic_news manual_review scheduler drafts_cli reconciliation : PublicationPath
  direct : PublicationPath

pub data Classification : Type 0 where
  main_subject uncertain classifier_error : Classification

pub data PolicyOutcome : Type 0 where
  claimed blocked already_published already_blocked stale_settings outbound_changed : PolicyOutcome
  not_publishable : PolicyOutcome

pub record ClaimResult : Type 0 where
  pub outcome : PolicyOutcome
  pub draft : Option DraftRow

pub record BlockResult : Type 0 where
  pub outcome : PolicyOutcome
  pub reason_code : Option String

pub record Settings : Type 0 where
  pub version : ℕ
  pub excluded_topic_codes : List String

-- The policy port's answer, before it is validated.
pub data Verdict : Type 0 where
  allow block uncertain error unknown : Verdict

pub record PolicyDecision : Type 0 where
  pub decision : Verdict
  pub reason_code : Option String
  pub topic_code : Option String
  pub provider : Option String
  pub model : Option String
  pub prompt_version : Option String
  pub usage_events : List ℕ

pub data DeliveryOutcome : Type 0 where
  rejected uncertain : DeliveryOutcome

pub record Receipt : Type 0 where
  pub message_id : Number
  pub message_date : Option ℕ

pub record BlockInput : Type 0 where
  pub draft_id : String
  pub channel_id : String
  pub path : PublicationPath
  pub topic_code : Option String
  pub classification : Classification
  pub settings_version : ℕ
  pub outbound_text : String
  pub outbound_text_sha256 : String
  pub provider : Option String
  pub model : Option String
  pub prompt_version : Option String
  pub reason_code : String

pub record ClaimInput : Type 0 where
  pub draft_id : String
  pub channel_id : String
  pub settings_version : ℕ
  pub outbound_text_sha256 : String

pub data Metadata : Type 0 where
  bot_message : Option ℕ → Option String → Metadata
  operator_confirmed_sent : Metadata

pub record FinalizeInput : Type 0 where
  pub draft_id : String
  pub channel_id : String
  pub message_id : Number
  pub message_text : String
  pub metadata : Metadata

pub record PolicyInput : Type 0 where
  pub draft_id : String
  pub article_id : String
  pub channel_id : String
  pub text : String
  pub version : ℕ
  pub excluded_topic_codes : List String

-- A review draft that is yet to be created, and the answer of the draft gateway.
pub record NewDraft : Type 0 where
  pub article_id : String
  pub body : String

pub record Generation : Type 0 where
  pub draft : NewDraft
  pub usage_events : List ℕ

-- What is thrown: by the abort signal, by a port, or by a use case.
pub data Fault : Type 0 where
  aborted : Fault
  external : String → Fault
  delivery : DeliveryOutcome → Fault
  invalid_decision settings_unavailable content_changed settings_changed : Fault
  block_failed claim_failed : PolicyOutcome → Fault
  released_for_retry unresolved invalid_receipt not_persisted unresolved_after_accept : Fault
  message_id_required wrong_article draft_not_created unknown_outcome : Fault

-- The calls that change state outside, with what they carry.
pub data Call : Type 0 where
  evaluate : PolicyInput → Call
  record_usage : ℕ → String → String → Call
  block : BlockInput → Call
  claim : ClaimInput → Call
  send : String → String → Call
  release : String → Call
  finalize : FinalizeInput → Call
  reset : String → String → Call
  create_draft : NewDraft → Option (Option DraftRow) → Call
  generate : String → Call
  record_generation_usage : ℕ → Call
  article_published : String → PublicationPath → PublishedPostRow → Call
  read : Call

pub record Ports (W : Type 0) : Type 0 where
  pub is_aborted : W → Bool
  pub find_publication : String → W → Outcome Fault W (Option PublishedPostRow)
  pub find_block : String → String → W → Outcome Fault W (Option String)
  pub get_draft : String → W → Outcome Fault W DraftRow
  pub get_settings : String → W → Outcome Fault W (Option Settings)
  pub evaluate : PolicyInput → W → Outcome Fault W PolicyDecision
  pub record_usage : ℕ → String → String → W → Outcome Fault W (Unit {0})
  pub block : BlockInput → W → Outcome Fault W BlockResult
  pub claim : ClaimInput → W → Outcome Fault W ClaimResult
  pub send : String → String → W → Outcome Fault W Receipt
  pub release : String → W → Outcome Fault W (Unit {0})
  pub finalize : FinalizeInput → W → Outcome Fault W (Option PublishedPostRow)
  pub reset : String → String → W → Outcome Fault W (Option DraftRow)
  pub generate : String → W → Outcome Fault W Generation
  pub record_generation_usage : ℕ → W → Outcome Fault W ℕ
  pub create_draft : NewDraft → W → Outcome Fault W (Option DraftRow)
  pub article_published :
      String → PublicationPath → PublishedPostRow → W → Outcome Fault W (Unit {0})
  pub sha256 : String → String
  pub parse_editor : String → Option (Option String)

abbrev pub Action : Type 0 → Type 0 → Type 0
Action W A = Io Fault (Traced W Call) A

-- `signal?.throwIfAborted()`
abbrev pub check_signal : {W : Type 0} → Ports W → Action W (Unit {0})
check_signal p s = (if p.is_aborted s.world then throw aborted else pure tt) s

-- ===== src/Scheduler/Contracts.antt =====
-- The claim, the checkpoint and the ports of `src/scheduler/scheduler-application.contracts.ts`,
-- `src/scheduler/scheduler-persistence.contracts.ts` and
-- `src/scheduler/application/run-scheduled-news-once.use-case.ts`. The settings that a claim's
-- snapshot stands for and the quiet hours of `src/quiet-hours.js` are ports. Columns, settings and
-- fields of the result that the run only hands on, such as the window of the research, are left out.
use telegram_news_agent.Prelude.{
  ℕ, String, Bool, true, false, not, ◌||◌, Option, none, some, ◌⊎◌, inl, inr, if◌then◌else◌, get_or,
  str_eq,
}
use telegram_news_agent.Prelude.Text.{Number, is_positive_safe_integer, is_empty, trim}
use telegram_news_agent.Effects.{Outcome}
use telegram_news_agent.Scheduler.Errors.{Fault, fault}

-- The columns of a claimed schedule that the run itself reads.
pub record Claim : Type 0 where
  pub channel_id : String
  pub review_chat_id : ℕ
  pub run_id : String
  pub draft_id : Option String
  pub preview : Option String
  pub window_hours : Number
  pub publication_message_id : Option ℕ

pub data ApprovalPolicy : Type 0 where
  manual automatic : ApprovalPolicy

pub record Settings : Type 0 where
  pub channel_id : String
  pub review_chat_id : ℕ
  pub updated_by : ℕ
  pub version : ℕ
  pub approval_policy : ApprovalPolicy
  pub quiet_hours_enabled : Bool

pub record Checkpoint : Type 0 where
  pub id : String
  pub preview : String
  pub window_hours : Number

pub data RunStatus : Type 0 where
  idle quiet_hours_deferred skipped_pending_review no_candidates awaiting_approval : RunStatus
  review_already_resolved published blocked_by_policy failed : RunStatus

pub record RunResult : Type 0 where
  pub status : RunStatus
  pub error_code : Option String
  pub reason_code : Option String
  pub draft_id : Option String
  pub publication_message_id : Option ℕ
  pub settings : Option Settings

-- An object from outside, by its `status`: a text that the code tests.
pub record WorkflowAnswer : Type 0 where
  pub status : String
  pub draft_id : Option String
  pub preview : Option String
  pub window_hours : Number

pub data Workflow : Type 0 where
  nothing_found : Workflow
  ready : Checkpoint → Workflow

-- What the review gateway answers: a status, a decision and whether it resumed, each of which may
-- be of the wrong kind.
pub data Field : Type 0 where
  missing null wrong : Field
  text : String → Field
  boolean : Bool → Field

pub record ReviewAnswer : Type 0 where
  pub status : String
  pub decision : Field
  pub resumed : Field

pub data Review : Type 0 where
  review_ready review_unavailable : Review

pub data DraftStatus : Type 0 where
  review approved publishing published rejected other_status : DraftStatus

-- `publishApprovedDraft`'s result: blocked with a reason, or a publication where there is one.
pub data Publication : Type 0 where
  blocked : Option String → Publication
  posted : Option ℕ → Publication

-- The two heartbeats of a run.
pub data Owner : Type 0 where
  schedule pipeline : Owner

pub data Call : Type 0 where
  claim_due : Call
  renew : Owner → Call
  acquire_lease release_lease : Call
  run_workflow : Call
  save_draft : Checkpoint → Call
  pending_review : Call
  deliver_review : String → Call
  get_draft approve : String → Call
  publish : String → String → Call
  save_publication : String → ℕ → Call
  defer_run : Call
  pause : String → Call
  finish : RunStatus → Option String → Call
  notify : ℕ → Call
  start_audit finish_audit : String → Call
  enqueue_audit : Call

pub record Ports (W : Type 0) : Type 0 where
  pub is_aborted : W → Bool
  pub abort_fault : Fault
  pub is_quiet_hours : W → Bool
  pub settings_for : Claim → Fault ⊎ Settings
  pub fires : Owner → W → ℕ
  pub claim_due : W → Outcome Fault W (Option Claim)
  pub renew : Owner → W → Outcome Fault W Bool
  pub acquire_lease : W → Outcome Fault W Bool
  pub release_lease : W → Outcome Fault W (Unit {0})
  pub run_workflow : Settings → W → Outcome Fault W (Option WorkflowAnswer)
  pub save_draft : Checkpoint → W → Outcome Fault W Bool
  pub has_pending_review : String → W → Outcome Fault W Bool
  pub deliver_review : String → String → W → Outcome Fault W (Option ReviewAnswer)
  pub get_draft : String → W → Outcome Fault W DraftStatus
  pub approve : String → W → Outcome Fault W (Unit {0})
  pub publish : String → String → W → Outcome Fault W Publication
  pub save_publication : String → ℕ → W → Outcome Fault W Bool
  pub defer_run : W → Outcome Fault W Bool
  pub pause : String → W → Outcome Fault W Bool
  pub finish : RunStatus → Option String → W → Outcome Fault W Bool
  pub notify : ℕ → W → Outcome Fault W (Unit {0})
  pub start_audit : String → W → Outcome Fault W (Unit {0})
  pub finish_audit : String → W → Outcome Fault W (Unit {0})
  pub outbox : Option (W → Outcome Fault W (Unit {0}))

abbrev nonblank : Option String → Bool
nonblank none = false
nonblank (some s) = not (is_empty (trim s))

-- `workflowResult`; none is for what is no object
pub workflow_result : Option WorkflowAnswer → Fault ⊎ Workflow
workflow_result none = inl (fault "Scheduler news workflow returned an invalid result")
workflow_result (some value) =
    if str_eq value.status "no_candidates"
    then inr nothing_found
    else if not (str_eq value.status "review_ready")
        || not (nonblank value.draft_id)
        || not (nonblank value.preview)
        || not (is_positive_safe_integer value.window_hours)
    then inl (fault "Scheduler news workflow returned an invalid checkpoint")
    else inr (
        ready (record {
          id = get_or value.draft_id "";
          preview = get_or value.preview "";
          window_hours = value.window_hours;
        }))

-- `value.resumed !== undefined && typeof value.resumed !== "boolean"`
abbrev is_bad_resumed : Field → Bool
is_bad_resumed missing = false
is_bad_resumed (boolean _) = false
is_bad_resumed _ = true

abbrev is_bad_decision : Field → Bool
is_bad_decision missing = false
is_bad_decision null = false
is_bad_decision (text s) = not (str_eq s "publish" || str_eq s "reject")
is_bad_decision _ = true

-- `reviewDeliveryResult`
pub review_delivery_result : Option ReviewAnswer → Fault ⊎ Review
review_delivery_result none = inl (fault "Invalid review gateway result")
review_delivery_result (some value) =
    if str_eq value.status "review_ready"
    then if is_bad_resumed value.resumed
      then inl (fault "Invalid review gateway result")
      else inr review_ready
    else if str_eq value.status "review_unavailable"
    then if is_bad_resumed value.resumed || is_bad_decision value.decision
      then inl (fault "Invalid review gateway result")
      else inr review_unavailable
    else inl (fault "Invalid review gateway result")

-- `checkpointForClaim`; `!claim.schedule_draft_id` is true of null and of the empty text
pub checkpoint_for_claim : Claim → Fault ⊎ Option Checkpoint
checkpoint_for_claim claim =
    if is_empty (get_or claim.draft_id "")
    then inr none
    else if is_empty (get_or claim.preview "") || not (is_positive_safe_integer claim.window_hours)
    then inl (fault "Scheduled draft checkpoint is incomplete")
    else inr (
        some (record {
          id = get_or claim.draft_id "";
          preview = get_or claim.preview "";
          window_hours = claim.window_hours;
        }))

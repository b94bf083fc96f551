-- ===== src/Scheduler/RunOnce.antt =====
-- `RunScheduledNewsOnceUseCase` of `src/scheduler/application/run-scheduled-news-once.use-case.ts`:
-- one scheduled occurrence, from the claim to its settlement. The pipeline lease has the default
-- name. `failureCause`, the settings' validation and the notices' texts are left out.
pub mod Lease
pub mod Silent
pub mod Publishing
pub mod Steps
pub mod Timers
pub mod Unresolved
use Prim.Native.String.{◌++◌ as append}
use telegram_news_agent.Prelude.{
  ℕ, zero, suc, String, Bool, true, false, not, ◌&&◌, ◌||◌, Option, none, some, List, [], ◌∷◌, ◌==◌,
  if◌then◌else◌, get_or, str_eq, ◌⊎◌, inl, inr,
}
use telegram_news_agent.Effects.{
  Outcome, returns, throws, Io, pure, throw, catch, attempt, ◌>>=◌, ◌>>◌,
}
use telegram_news_agent.Scheduler.Errors.{Fault, fault, error_code}
use telegram_news_agent.Scheduler.Contracts.{
  Claim, Settings, Checkpoint, ApprovalPolicy, RunStatus, RunResult, WorkflowAnswer, Workflow,
  nothing_found, ready, Review, DraftStatus, Publication, blocked, posted, Owner, schedule,
  pipeline, Call, Ports, workflow_result, review_delivery_result, checkpoint_for_claim,
}
use telegram_news_agent.Scheduler.Ownership.{
  State, Action, start, assert_owned, renew, perform, stop, check_signal,
}
use telegram_news_agent.Scheduler.Audit.{audit_run}

-- `if (value) ...` on a message number
abbrev is_truthy : Option ℕ → Bool
is_truthy none = false
is_truthy (some n) = not (n == 0)

abbrev pub is_manual : ApprovalPolicy → Bool
is_manual ApprovalPolicy.manual = true
is_manual ApprovalPolicy.automatic = false

abbrev pub status_of : Review → RunStatus
status_of Review.review_unavailable = RunStatus.review_already_resolved
status_of Review.review_ready = RunStatus.awaiting_approval

abbrev pub result_of : RunStatus → Settings → RunResult
result_of status settings = record {
  status = status;
  error_code = none;
  reason_code = none;
  draft_id = none;
  publication_message_id = none;
  settings = some settings;
}

abbrev pub with_draft : Checkpoint → RunResult → RunResult
with_draft checkpoint result = record result { draft_id = some checkpoint.id }

abbrev settings_of : Fault ⊎ Settings → Option Settings
settings_of (inl _) = none
settings_of (inr settings) = some settings

abbrev chat_of : Claim → Option Settings → ℕ
chat_of claim none = claim.review_chat_id
chat_of claim (some settings) = settings.review_chat_id

abbrev failed_result : Option Settings → String → RunResult
failed_result settings code = record {
  status = RunStatus.failed;
  error_code = some code;
  reason_code = none;
  draft_id = none;
  publication_message_id = none;
  settings = settings;
}

module _ {W : Type 0} (p : Ports W) where
  abbrev require : Bool → Fault → Action W (Unit {0})
  require true e = pure tt
  require false e = throw e

  abbrev demand : {A : Type 0} → Fault ⊎ A → Action W A
  demand (inl e) = throw e
  demand (inr a) = pure a

  pub finish : RunStatus → Option String → Action W (Unit {0})
  finish status failure_code = do
    is_done ← perform p (Call.finish status failure_code) (p.finish status failure_code)
    require is_done (fault "Scheduled news claim was lost before completion")

  pub finish_with_heartbeat : RunStatus → Option String → Action W (Unit {0})
  unfolding finish
  finish_with_heartbeat status failure_code = do stop p schedule; finish status failure_code

  -- `shouldDeferScheduledNews`
  abbrev should_defer : Settings → State W → Bool
  should_defer settings s = settings.quiet_hours_enabled && p.is_quiet_hours s.world

  defer_run : Settings → Action W (Option RunResult)
  defer_run settings = do
    stop p schedule
    is_deferred ← perform p Call.defer_run p.defer_run
    require is_deferred (fault "Scheduled news claim was lost before quiet-hours deferral")
    pure (some (result_of RunStatus.quiet_hours_deferred settings))

  pub defer_if_quiet : Settings → Action W (Option RunResult)
  unfolding defer_run
  defer_if_quiet settings s = (if should_defer settings s then defer_run settings else pure none) s

  module _ (claim : Claim) (settings : Settings) where
    -- the workflow's checkpoint is saved under the claim
    pub after_workflow : Workflow → Action W (Option Checkpoint)
    after_workflow nothing_found = pure none
    after_workflow (ready checkpoint) = do
      is_saved ← perform p (Call.save_draft checkpoint) (p.save_draft checkpoint)
      require is_saved (fault "Scheduled news claim was lost before checkpointing")
      pure (some checkpoint)

    pub after_answer : Option WorkflowAnswer → Action W (Option Checkpoint)
    unfolding after_workflow
    after_answer answer = do
      workflow ← demand (workflow_result answer)
      assert_owned pipeline
      after_workflow workflow

    -- the `try` under the pipeline lease
    pub under_lease : Action W (Option Checkpoint)
    unfolding after_answer
    under_lease = do
      check_signal p
      answer ←
          perform p Call.run_workflow
            (p.run_workflow (record settings { approval_policy = ApprovalPolicy.manual }))
      after_answer answer

    -- its `finally`: the lease is released, then an error of the heartbeat is thrown
    pub release_then : {A : Type 0} → Action W A → Action W A
    release_then rest =
        attempt (stop p pipeline) (λ _. perform p Call.release_lease p.release_lease >> rest)
          (λ e. perform p Call.release_lease p.release_lease >> throw e)

    pub finally_release : Action W (Option Checkpoint) → Action W (Option Checkpoint)
    unfolding release_then
    finally_release body =
        attempt body (λ checkpoint. release_then (pure checkpoint)) (λ e. release_then (throw e))

    pub run_pipeline : Action W (Option Checkpoint)
    unfolding under_lease
    run_pipeline = do
      is_acquired ← perform p Call.acquire_lease p.acquire_lease
      require is_acquired (fault "Pipeline \"daily-news-pipeline\" is already running")
      start pipeline
      finally_release under_lease

    pub deliver_for_review : Checkpoint → Action W RunResult
    unfolding finish_with_heartbeat
    deliver_for_review checkpoint = do
      answer ←
          catch
            (perform p (Call.deliver_review checkpoint.id)
              (p.deliver_review checkpoint.id checkpoint.preview))
            (λ _. throw (fault "Scheduled review delivery could not be completed"))
      delivered ← demand (review_delivery_result answer)
      finish_with_heartbeat (status_of delivered) none
      pure (with_draft checkpoint (result_of (status_of delivered) settings))

    -- an early return of a deferral
    abbrev unless_deferred : Checkpoint → Action W RunResult → Action W RunResult
    unless_deferred checkpoint rest = do
      deferral ← defer_if_quiet settings
      elim deferral [ some result ↦ pure (with_draft checkpoint result) | none ↦ rest ]

    -- the claim is renewed, then the abort signal and the quiet hours are looked at once more
    abbrev renewed_unless_deferred : Checkpoint → Action W RunResult → Action W RunResult
    renewed_unless_deferred checkpoint rest = do
      renew p schedule
      check_signal p
      unless_deferred checkpoint rest

    pub complete : Checkpoint → ℕ → Action W RunResult
    unfolding finish_with_heartbeat
    complete checkpoint message_id = do
      finish_with_heartbeat RunStatus.published none
      catch (perform p (Call.notify settings.review_chat_id) (p.notify settings.review_chat_id))
          (λ _. pure tt)
      pure (record (with_draft checkpoint (result_of RunStatus.published settings)) {
        publication_message_id = some message_id;
      })

    -- what the editorial workflow published, or why it did not
    pub after_publish : Checkpoint → Publication → Action W RunResult
    unfolding finish_with_heartbeat complete
    after_publish checkpoint (blocked reason) = do
      finish_with_heartbeat RunStatus.blocked_by_policy
          (some (get_or reason "excluded_topic_policy"))
      pure (record (with_draft checkpoint (result_of RunStatus.blocked_by_policy settings)) {
        reason_code = reason;
      })
    after_publish checkpoint (posted none) =
        throw (fault "Published outcome has no publication receipt")
    after_publish checkpoint (posted (some message_id)) = do
      is_saved ←
          perform p (Call.save_publication checkpoint.id message_id)
            (p.save_publication checkpoint.id message_id)
      require is_saved (fault "Scheduled news claim was lost before checkpointing")
      complete checkpoint message_id

    pub approve_if_review : Checkpoint → DraftStatus → Action W (Unit {0})
    approve_if_review checkpoint DraftStatus.review =
        perform p (Call.approve checkpoint.id) (p.approve checkpoint.id)
    approve_if_review checkpoint DraftStatus.other_status =
        throw (fault (append "Scheduled draft " (append checkpoint.id " is not publishable")))
    approve_if_review checkpoint _ = pure tt

    pub publish : Checkpoint → Action W RunResult
    unfolding approve_if_review after_publish
    publish checkpoint = do
      status ← perform p (Call.get_draft checkpoint.id) (p.get_draft checkpoint.id)
      approve_if_review checkpoint status
      check_signal p
      publication ←
          perform p (Call.publish checkpoint.id settings.channel_id)
            (p.publish checkpoint.id settings.channel_id)
      after_publish checkpoint publication

    abbrev publish_or_complete : Checkpoint → Action W RunResult
    publish_or_complete checkpoint =
        if is_truthy claim.publication_message_id
        then complete checkpoint (get_or claim.publication_message_id 0)
        else renewed_unless_deferred checkpoint (publish checkpoint)

    -- from the saved checkpoint on
    pub after_checkpoint : Checkpoint → Action W RunResult
    unfolding deliver_for_review complete publish
    after_checkpoint checkpoint = do
      check_signal p
      unless_deferred checkpoint (
          if is_manual settings.approval_policy
          then renewed_unless_deferred checkpoint (deliver_for_review checkpoint)
          else publish_or_complete checkpoint)

    pub after_pipeline : Option Checkpoint → Action W RunResult
    unfolding finish_with_heartbeat after_checkpoint
    after_pipeline none = do
      finish_with_heartbeat RunStatus.no_candidates none
      check_signal p
      pure (result_of RunStatus.no_candidates settings)
    after_pipeline (some checkpoint) = after_checkpoint checkpoint

    pub with_checkpoint : Option Checkpoint → Action W RunResult
    unfolding run_pipeline after_pipeline after_checkpoint
    with_checkpoint none = run_pipeline >>= after_pipeline
    with_checkpoint (some checkpoint) = after_checkpoint checkpoint

    abbrev pending : Action W Bool
    pending =
        if is_manual settings.approval_policy
        then perform p Call.pending_review (p.has_pending_review settings.channel_id)
        else pure false

    pub unless_pending : Option Checkpoint → Bool → Action W RunResult
    unfolding finish_with_heartbeat with_checkpoint
    unless_pending checkpoint true = do
      finish_with_heartbeat RunStatus.skipped_pending_review none
      pure (result_of RunStatus.skipped_pending_review settings)
    unless_pending checkpoint false = with_checkpoint checkpoint

    pub after_early_deferral : Option RunResult → Action W RunResult
    unfolding unless_pending
    after_early_deferral (some result) = pure result
    after_early_deferral none = do
      checkpoint ← demand (checkpoint_for_claim claim)
      is_pending ← pending
      unless_pending checkpoint is_pending

    pub execute_claim : Action W RunResult
    unfolding defer_if_quiet after_early_deferral
    execute_claim = do
      check_signal p
      deferral ← defer_if_quiet settings
      after_early_deferral deferral

  pub run_claim : Claim → Action W RunResult
  unfolding execute_claim
  run_claim claim = do
    check_signal p
    settings ← demand (p.settings_for claim)
    audit_run p claim.run_id (execute_claim claim settings)

  abbrev notify_paused : ℕ → Action W (Unit {0})
  notify_paused chat_id = catch (perform p (Call.notify chat_id) (p.notify chat_id)) (λ _. pure tt)

  -- the schedule is paused, or the occurrence is finished as failed; the code says what came of it
  pub settle : ℕ → String → Action W String
  unfolding finish
  settle chat_id code =
      if str_eq code "publication_unresolved"
      then catch
          (do
            is_paused ← perform p (Call.pause code) (p.pause code)
            if is_paused then notify_paused chat_id >> pure code else pure "claim_lost")
          (λ _. pure "schedule_pause_failed")
      else if str_eq code "claim_lost" || str_eq code "review_delivery_failed"
      then pure code
      else catch (finish RunStatus.failed (some code) >> pure code) (λ _. pure "claim_lost")

  -- the `catch` of the occurrence, where the signal has not aborted
  pub report_failure : Claim → Fault → Action W RunResult
  unfolding settle
  report_failure claim error = do
    code ← attempt (stop p schedule) (λ _. pure (error_code error)) (λ _. pure "claim_lost")
    settled ← settle (chat_of claim (settings_of (p.settings_for claim))) code
    pure (failed_result (settings_of (p.settings_for claim)) settled)

  pub after_error : Claim → Fault → Action W RunResult
  unfolding report_failure
  after_error claim error s =
      (if p.is_aborted s.world
          then catch (stop p schedule) (λ _. pure tt) >> throw p.abort_fault
          else report_failure claim error)
        s

  pub after_claim : Option Claim → Action W RunResult
  unfolding run_claim after_error
  after_claim none = pure (record {
    status = RunStatus.idle;
    error_code = none;
    reason_code = none;
    draft_id = none;
    publication_message_id = none;
    settings = none;
  })
  after_claim (some claim) = do start schedule; catch (run_claim claim) (after_error claim)

  pub execute : Action W RunResult
  unfolding after_claim
  execute = do check_signal p; claim ← perform p Call.claim_due p.claim_due; after_claim claim

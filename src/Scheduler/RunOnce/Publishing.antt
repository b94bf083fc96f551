-- ===== src/Scheduler/RunOnce/Publishing.antt =====
-- How often an occurrence of `src/scheduler/application/run-scheduled-news-once.use-case.ts` has the
-- editorial workflow publish.
use telegram_news_agent.Prelude.{
  ℕ, Bool, true, false, Option, none, some, arith, if◌then◌else◌, get_or,
}
use telegram_news_agent.Scheduler.Contracts.{
  Claim, Settings, Checkpoint, RunStatus, RunResult, Call, Ports, checkpoint_for_claim,
}
use telegram_news_agent.Scheduler.Ownership.{perform, check_signal}
use telegram_news_agent.Scheduler.Ownership.Counting.{
  Makes, perform-Makes, then-Makes, check_signal-Makes, Makes-widen,
}
use telegram_news_agent.Scheduler.RunOnce.{
  is_manual, is_truthy, demand, finish_with_heartbeat, defer_if_quiet, run_pipeline,
  deliver_for_review, renewed_unless_deferred, complete, approve_if_review, publish,
  publish_or_complete, after_checkpoint, after_pipeline, with_checkpoint, pending, unless_pending,
  after_early_deferral, execute_claim,
}
use telegram_news_agent.Scheduler.RunOnce.Silent.{
  renewed_unless_deferred-Makes, finish_with_heartbeat-Silent, deliver_for_review-Silent,
  approve_if_review-Silent, defer_if_quiet-Silent, unless_deferred-Makes, after_publish-Silent,
  run_pipeline-Silent, complete-Silent, Silent-before, demand-Silent, Silent, publications,
}

module _ {W : Type 0} (p : Ports W) where
  module _ (claim : Claim) (settings : Settings) where
    publish-Makes :
        (checkpoint : Checkpoint) → Makes p publications 0 1 (publish p claim settings checkpoint)
    unfolding publish
    publish-Makes checkpoint =
        (Silent-before p) 1 (perform p (Call.get_draft checkpoint.id) (p.get_draft checkpoint.id)) _
          (perform-Makes p publications (Call.get_draft checkpoint.id) (p.get_draft checkpoint.id))
          λ status.
            (Silent-before p) 1 (approve_if_review p claim settings checkpoint status) _
              ((approve_if_review-Silent p claim settings) checkpoint status)
              λ _. (Silent-before p) 1 (check_signal p) _ (check_signal-Makes p publications) λ _.
                then-Makes p publications 0 1 0
                  (perform p (Call.publish checkpoint.id settings.channel_id)
                    (p.publish checkpoint.id settings.channel_id))
                  _
                  (Makes-widen p publications 0 1 1 1 _ (omega arith) (omega arith) (
                    perform-Makes p publications (Call.publish checkpoint.id settings.channel_id)
                      (p.publish checkpoint.id settings.channel_id)))
                  ((after_publish-Silent p claim settings) checkpoint)

    -- How often the settings let the occurrence publish.
    abbrev pub allowance : ℕ
    allowance = if is_manual settings.approval_policy then 0 else 1

    publish_or_complete-Makes :
        (checkpoint : Checkpoint)
        → Makes p publications 0 1 (publish_or_complete p claim settings checkpoint)
    publish_or_complete-Makes checkpoint = either (is_truthy claim.publication_message_id)
      where
        either :
            (is_published : Bool)
            → Makes p publications 0 1 (
                if is_published
                then complete p claim settings checkpoint (get_or claim.publication_message_id 0)
                else renewed_unless_deferred p claim settings checkpoint
                    (publish p claim settings checkpoint))
        either true =
            Makes-widen p publications 0 0 0 1 _ (omega arith) (omega arith) (
              (complete-Silent p claim settings) checkpoint (get_or claim.publication_message_id 0))
        either false =
            (renewed_unless_deferred-Makes p claim settings) 1 checkpoint
              (publish p claim settings checkpoint) (publish-Makes checkpoint)

    act-Makes :
        (manual : Bool) (checkpoint : Checkpoint)
        → Makes p publications 0 (if manual then 0 else 1) (
            if manual
            then renewed_unless_deferred p claim settings checkpoint
                (deliver_for_review p claim settings checkpoint)
            else publish_or_complete p claim settings checkpoint)
    act-Makes true checkpoint =
        (renewed_unless_deferred-Makes p claim settings) 0 checkpoint
          (deliver_for_review p claim settings checkpoint)
          ((deliver_for_review-Silent p claim settings) checkpoint)
    act-Makes false checkpoint = publish_or_complete-Makes checkpoint

    after_checkpoint-Makes :
        (checkpoint : Checkpoint)
        → Makes p publications 0 allowance (after_checkpoint p claim settings checkpoint)
    unfolding after_checkpoint
    after_checkpoint-Makes checkpoint =
        (Silent-before p) allowance (check_signal p) _ (check_signal-Makes p publications) λ _.
          (unless_deferred-Makes p claim settings) allowance checkpoint _
            (act-Makes (is_manual settings.approval_policy) checkpoint)

    after_pipeline-Makes :
        (checkpoint : Option Checkpoint)
        → Makes p publications 0 allowance (after_pipeline p claim settings checkpoint)
    unfolding after_pipeline
    after_pipeline-Makes none =
        (Silent-before p) allowance (finish_with_heartbeat p RunStatus.no_candidates none) _
          ((finish_with_heartbeat-Silent p) RunStatus.no_candidates none)
          λ _.
            (Silent-before p) allowance (check_signal p) _ (check_signal-Makes p publications)
              λ _ s. omega arith
    after_pipeline-Makes (some checkpoint) = after_checkpoint-Makes checkpoint

    with_checkpoint-Makes :
        (checkpoint : Option Checkpoint)
        → Makes p publications 0 allowance (with_checkpoint p claim settings checkpoint)
    unfolding with_checkpoint
    with_checkpoint-Makes none =
        (Silent-before p) allowance (run_pipeline p claim settings) _
          (run_pipeline-Silent p claim settings) after_pipeline-Makes
    with_checkpoint-Makes (some checkpoint) = after_checkpoint-Makes checkpoint

    unless_pending-Makes :
        (checkpoint : Option Checkpoint) (is_pending : Bool)
        → Makes p publications 0 allowance (unless_pending p claim settings checkpoint is_pending)
    unfolding unless_pending
    unless_pending-Makes checkpoint true =
        (Silent-before p) allowance (finish_with_heartbeat p RunStatus.skipped_pending_review none)
          _ ((finish_with_heartbeat-Silent p) RunStatus.skipped_pending_review none)
          (λ _ s. omega arith)
    unless_pending-Makes checkpoint false = with_checkpoint-Makes checkpoint

    pending-Silent : (Silent p) (pending p claim settings)
    pending-Silent s = ground (
      arith,
      perform-Makes p publications Call.pending_review (p.has_pending_review settings.channel_id) s,
    )

    after_early_deferral-Makes :
        (deferral : Option RunResult)
        → Makes p publications 0 allowance (after_early_deferral p claim settings deferral)
    unfolding after_early_deferral
    after_early_deferral-Makes (some result) = λ s. omega arith
    after_early_deferral-Makes none =
        (Silent-before p) allowance (demand p (checkpoint_for_claim claim)) _
          ((demand-Silent p) (checkpoint_for_claim claim))
          λ checkpoint.
            (Silent-before p) allowance (pending p claim settings) _ pending-Silent
              (unless_pending-Makes checkpoint)

    -- An occurrence has at most one article published, and none at all under the manual approval
    -- policy, whether it returns or throws.
    pub execute_claim_publishes :
        Makes p publications 0
          (if is_manual settings.approval_policy then 0 else 1)
          (execute_claim p claim settings)
    unfolding execute_claim
    execute_claim_publishes =
        (Silent-before p) allowance (check_signal p) _ (check_signal-Makes p publications) λ _.
          (Silent-before p) allowance (defer_if_quiet p settings) _
            ((defer_if_quiet-Silent p) settings) after_early_deferral-Makes

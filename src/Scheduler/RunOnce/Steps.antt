-- ===== src/Scheduler/RunOnce/Steps.antt =====
-- The steps of an occurrence of `src/scheduler/application/run-scheduled-news-once.use-case.ts`, and the
-- schedule's heartbeat.
use telegram_news_agent.Prelude.{
  ℕ, Bool, true, false, Option, none, some, String, if◌then◌else◌, get_or, ◌&&◌,
}
use telegram_news_agent.Effects.{Outcome, returns, throws, pure, catch, continue, ◌>>=◌}
use telegram_news_agent.Effects.Rules.{Ensures}
use telegram_news_agent.Scheduler.Errors.{Fault}
use telegram_news_agent.Scheduler.Contracts.{
  Claim, Settings, Checkpoint, RunStatus, RunResult, Publication, blocked, posted, schedule, Call,
  Ports, review_delivery_result, checkpoint_for_claim,
}
use telegram_news_agent.Scheduler.Ownership.{State, Action, perform, stop, renew, check_signal}
use telegram_news_agent.Scheduler.Ownership.Stopping.{
  IsStopped, Keeps, Stops, Keeps-then, Keeps-catch, Stops-then, Stops-skip, IsStopped-then, forget,
  perform-Keeps, stop-Stops, check_signal-Keeps,
}
use telegram_news_agent.Scheduler.RunOnce.{
  is_manual, is_truthy, require, demand, finish, finish_with_heartbeat, defer_run, defer_if_quiet,
  run_pipeline, deliver_for_review, unless_deferred, renewed_unless_deferred, complete,
  after_publish, approve_if_review, publish, publish_or_complete, after_checkpoint, after_pipeline,
  with_checkpoint, pending, unless_pending, after_early_deferral, execute_claim, status_of,
}

module _ {W : Type 0} (p : Ports W) where
  require-Keeps : (b : Bool) (e : Fault) → Keeps (require p b e)
  require-Keeps true e s = λ x. x
  require-Keeps false e s = λ x. x

  pub finish-Keeps : (status : RunStatus) (code : Option String) → Keeps (finish p status code)
  unfolding finish
  finish-Keeps status code =
      Keeps-then (perform p (Call.finish status code) (p.finish status code)) _
        (perform-Keeps p (Call.finish status code) (p.finish status code))
        λ is_done. require-Keeps is_done _

  finish_with_heartbeat-Stops :
      (status : RunStatus) (code : Option String) → Stops (finish_with_heartbeat p status code)
  unfolding finish_with_heartbeat
  finish_with_heartbeat-Stops status code =
      Stops-then (stop p schedule) _ (stop-Stops p) λ _. finish-Keeps status code

  -- a deferral is returned with the heartbeat stopped
  abbrev StopsIfDeferred : Option RunResult → State W → Type 0
  StopsIfDeferred none t = Unit
  StopsIfDeferred (some _) t = IsStopped t

  defer_run-Stops : (settings : Settings) → Stops (defer_run p settings)
  unfolding defer_run
  defer_run-Stops settings = Stops-then (stop p schedule) _ (stop-Stops p) λ _.
      Keeps-then (perform p Call.defer_run p.defer_run) _
        (perform-Keeps p Call.defer_run p.defer_run)
        λ is_deferred.
          Keeps-then (require p is_deferred _) _ (require-Keeps is_deferred _) λ _ s x. x

  defer_if_quiet-Stops :
      (settings : Settings) (s : State W)
      → Ensures StopsIfDeferred (λ _ _. Unit) (defer_if_quiet p settings s)
  unfolding defer_if_quiet
  defer_if_quiet-Stops settings s =
      either (settings.quiet_hours_enabled && p.is_quiet_hours s.world)
    where
      weaken :
          (o : Outcome Fault (State W) (Option RunResult))
          → Ensures (λ _ t. IsStopped t) (λ _ _. Unit) o
          → Ensures StopsIfDeferred (λ _ _. Unit) o
      weaken (returns none t) q = tt
      weaken (returns (some _) t) q = q
      weaken (throws e t) q = tt

      either :
          (is_quiet : Bool)
          → Ensures StopsIfDeferred
              (λ _ _. Unit)
              ((if is_quiet then defer_run p settings else pure none) s)
      either true = weaken (defer_run p settings s) (defer_run-Stops settings s)
      either false = tt

  -- what comes after a look at the quiet hours
  after_deferral :
      (settings : Settings) (f : Option RunResult → Action W RunResult)
      → ((result : RunResult) → Keeps (f (some result)))
      → Stops (f none)
      → Stops (defer_if_quiet p settings >>= f)
  after_deferral settings f h k s =
      go (defer_if_quiet p settings s) (defer_if_quiet-Stops settings s)
    where
      go :
          (o : Outcome Fault (State W) (Option RunResult))
          → Ensures StopsIfDeferred (λ _ _. Unit) o
          → Ensures (λ _ t. IsStopped t) (λ _ _. Unit) (continue o f)
      go (returns none t) q = k t
      go (returns (some result) t) q =
          forget (f (some result) t) (IsStopped-then (f (some result) t) t q (h result t))
      go (throws e t) q = tt

  module _ (claim : Claim) (settings : Settings) where
    unless_deferred-Stops :
        (checkpoint : Checkpoint) (rest : Action W RunResult)
        → Stops rest
        → Stops (unless_deferred p claim settings checkpoint rest)
    unless_deferred-Stops checkpoint rest h = after_deferral settings _ (λ result s x. x) h

    renewed_unless_deferred-Stops :
        (checkpoint : Checkpoint) (rest : Action W RunResult)
        → Stops rest
        → Stops (renewed_unless_deferred p claim settings checkpoint rest)
    renewed_unless_deferred-Stops checkpoint rest h =
        Stops-skip (renew p schedule) _
          λ _. Stops-skip (check_signal p) _ λ _. unless_deferred-Stops checkpoint rest h

    deliver_for_review-Stops :
        (checkpoint : Checkpoint) → Stops (deliver_for_review p claim settings checkpoint)
    unfolding deliver_for_review
    deliver_for_review-Stops checkpoint =
        Stops-skip (catch (perform p (Call.deliver_review checkpoint.id) (p.deliver_review _ _)) _)
          _
          λ answer. Stops-skip (demand p (review_delivery_result answer)) _ λ delivered.
            Stops-then (finish_with_heartbeat p (status_of delivered) none) _
              (finish_with_heartbeat-Stops (status_of delivered) none) (λ _ s x. x)

    complete-Stops :
        (checkpoint : Checkpoint) (message_id : ℕ)
        → Stops (complete p claim settings checkpoint message_id)
    unfolding complete
    complete-Stops checkpoint message_id =
        Stops-then (finish_with_heartbeat p RunStatus.published none) _
          (finish_with_heartbeat-Stops RunStatus.published none)
          λ _.
            Keeps-then
              (catch
                (perform p (Call.notify settings.review_chat_id) (p.notify settings.review_chat_id))
                _)
              _
              (Keeps-catch
                (perform p (Call.notify settings.review_chat_id) (p.notify settings.review_chat_id))
                _
                (perform-Keeps p (Call.notify settings.review_chat_id)
                  (p.notify settings.review_chat_id))
                (λ e s x. x))
              (λ _ s x. x)

    after_publish-Stops :
        (checkpoint : Checkpoint) (publication : Publication)
        → Stops (after_publish p claim settings checkpoint publication)
    unfolding after_publish
    after_publish-Stops checkpoint (blocked reason) =
        Stops-then (finish_with_heartbeat p RunStatus.blocked_by_policy _) _
          (finish_with_heartbeat-Stops RunStatus.blocked_by_policy _) (λ _ s x. x)
    after_publish-Stops checkpoint (posted none) = λ s. tt
    after_publish-Stops checkpoint (posted (some message_id)) =
        Stops-skip
          (perform p (Call.save_publication checkpoint.id message_id) (p.save_publication _ _)) _
          λ is_saved. Stops-skip (require p is_saved _) _ λ _. complete-Stops checkpoint message_id

    publish-Stops : (checkpoint : Checkpoint) → Stops (publish p claim settings checkpoint)
    unfolding publish
    publish-Stops checkpoint =
        Stops-skip (perform p (Call.get_draft checkpoint.id) (p.get_draft checkpoint.id)) _
          λ status. Stops-skip (approve_if_review p claim settings checkpoint status) _ λ _.
            Stops-skip (check_signal p) _ λ _.
              Stops-skip
                (perform p (Call.publish checkpoint.id settings.channel_id)
                  (p.publish checkpoint.id settings.channel_id))
                _ (after_publish-Stops checkpoint)

    publish_or_complete-Stops :
        (checkpoint : Checkpoint) → Stops (publish_or_complete p claim settings checkpoint)
    publish_or_complete-Stops checkpoint = either (is_truthy claim.publication_message_id)
      where
        either :
            (is_published : Bool)
            → Stops (
                if is_published
                then complete p claim settings checkpoint (get_or claim.publication_message_id 0)
                else renewed_unless_deferred p claim settings checkpoint
                    (publish p claim settings checkpoint))
        either true = complete-Stops checkpoint (get_or claim.publication_message_id 0)
        either false =
            renewed_unless_deferred-Stops checkpoint (publish p claim settings checkpoint)
              (publish-Stops checkpoint)

    act-Stops :
        (manual : Bool) (checkpoint : Checkpoint)
        → Stops (
            if manual
            then renewed_unless_deferred p claim settings checkpoint
                (deliver_for_review p claim settings checkpoint)
            else publish_or_complete p claim settings checkpoint)
    act-Stops true checkpoint =
        renewed_unless_deferred-Stops checkpoint (deliver_for_review p claim settings checkpoint)
          (deliver_for_review-Stops checkpoint)
    act-Stops false checkpoint = publish_or_complete-Stops checkpoint

    after_checkpoint-Stops :
        (checkpoint : Checkpoint) → Stops (after_checkpoint p claim settings checkpoint)
    unfolding after_checkpoint
    after_checkpoint-Stops checkpoint = Stops-skip (check_signal p) _ λ _.
        unless_deferred-Stops checkpoint _
          (act-Stops (is_manual settings.approval_policy) checkpoint)

    after_pipeline-Stops :
        (checkpoint : Option Checkpoint) → Stops (after_pipeline p claim settings checkpoint)
    unfolding after_pipeline
    after_pipeline-Stops none =
        Stops-then (finish_with_heartbeat p RunStatus.no_candidates none) _
          (finish_with_heartbeat-Stops RunStatus.no_candidates none)
          λ _. Keeps-then (check_signal p) _ (check_signal-Keeps p) (λ _ s x. x)
    after_pipeline-Stops (some checkpoint) = after_checkpoint-Stops checkpoint

    with_checkpoint-Stops :
        (checkpoint : Option Checkpoint) → Stops (with_checkpoint p claim settings checkpoint)
    unfolding with_checkpoint
    with_checkpoint-Stops none = Stops-skip (run_pipeline p claim settings) _ after_pipeline-Stops
    with_checkpoint-Stops (some checkpoint) = after_checkpoint-Stops checkpoint

    unless_pending-Stops :
        (checkpoint : Option Checkpoint) (is_pending : Bool)
        → Stops (unless_pending p claim settings checkpoint is_pending)
    unfolding unless_pending
    unless_pending-Stops checkpoint true =
        Stops-then (finish_with_heartbeat p RunStatus.skipped_pending_review none) _
          (finish_with_heartbeat-Stops RunStatus.skipped_pending_review none) (λ _ s x. x)
    unless_pending-Stops checkpoint false = with_checkpoint-Stops checkpoint

    pub execute_claim-Stops : Stops (execute_claim p claim settings)
    unfolding execute_claim after_early_deferral
    execute_claim-Stops = Stops-skip (check_signal p) _ λ _.
        after_deferral settings _ (λ result s x. x)
          (Stops-skip (demand p (checkpoint_for_claim claim)) _
            λ checkpoint. Stops-skip (pending p claim settings) _ (unless_pending-Stops checkpoint))

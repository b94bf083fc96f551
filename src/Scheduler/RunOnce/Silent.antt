-- ===== src/Scheduler/RunOnce/Silent.antt =====
-- The parts of an occurrence of `src/scheduler/application/run-scheduled-news-once.use-case.ts` that have
-- nothing published.
use telegram_news_agent.Prelude.{
  ℕ, ◌+◌, refl, Bool, true, false, Option, none, some, String, arith, inl, inr, ◌⊎◌,
}
use telegram_news_agent.Effects.{pure, throw, catch, ◌>>=◌}
use telegram_news_agent.Scheduler.Errors.{Fault}
use telegram_news_agent.Scheduler.Contracts.{
  Claim, Settings, Checkpoint, RunStatus, RunResult, Workflow, nothing_found, ready, WorkflowAnswer,
  DraftStatus, Publication, blocked, posted, schedule, pipeline, Call, Ports, workflow_result,
  review_delivery_result,
}
use telegram_news_agent.Scheduler.Ownership.{
  Action, perform, stop, renew, check_signal, assert_owned, start,
}
use telegram_news_agent.Scheduler.Ownership.Counting.{
  Class, Makes, perform-Makes, then-Makes, attempt-Makes, catch-Makes, stop-Makes, renew-Makes,
  check_signal-Makes, assert_owned-Makes, Makes-widen,
}
use telegram_news_agent.Scheduler.RunOnce.{
  require, demand, finish, finish_with_heartbeat, defer_run, defer_if_quiet, after_workflow,
  after_answer, under_lease, release_then, finally_release, run_pipeline, deliver_for_review,
  unless_deferred, renewed_unless_deferred, complete, after_publish, approve_if_review, status_of,
}

abbrev is_publish : Call → Bool
is_publish (Call.publish _ _) = true
is_publish _ = false

abbrev pub publications : Class
publications = record { has = is_publish; renewals_out = λ _. refl }

module _ {W : Type 0} (p : Ports W) where
  -- The action has nothing published.
  abbrev pub Silent : {A : Type 0} → Action W A → Type 0
  Silent m = Makes p publications 0 0 m

  Silent-then :
      {A B : Type 0} (m : Action W A) (f : A → Action W B)
      → Silent m
      → ((a : A) → Silent (f a))
      → Silent (m >>= f)
  Silent-then = then-Makes p publications 0 0 0

  pub Silent-before :
      {A B : Type 0} (n : ℕ) (m : Action W A) (f : A → Action W B)
      → Silent m
      → ((a : A) → Makes p publications 0 n (f a))
      → Makes p publications 0 n (m >>= f)
  Silent-before n m f h k =
      Makes-widen p publications 0 0 (0 + n) n (m >>= f) (omega arith) (omega arith)
        (then-Makes p publications 0 0 n m f h k)

  require-Silent : (b : Bool) (e : Fault) → Silent (require p b e)
  require-Silent true e s = ground arith
  require-Silent false e s = ground arith

  pub demand-Silent : {A : Type 0} (o : Fault ⊎ A) → Silent (demand p o)
  demand-Silent (inl e) s = ground arith
  demand-Silent (inr a) s = ground arith

  finish-Silent : (status : RunStatus) (code : Option String) → Silent (finish p status code)
  unfolding finish
  finish-Silent status code =
      Silent-then (perform p (Call.finish status code) (p.finish status code)) _
        (perform-Makes p publications (Call.finish status code) (p.finish status code))
        λ is_done. require-Silent is_done _

  pub finish_with_heartbeat-Silent :
      (status : RunStatus) (code : Option String) → Silent (finish_with_heartbeat p status code)
  unfolding finish_with_heartbeat
  finish_with_heartbeat-Silent status code =
      Silent-then (stop p schedule) _ (stop-Makes p publications schedule)
        λ _. finish-Silent status code

  defer_run-Silent : (settings : Settings) → Silent (defer_run p settings)
  unfolding defer_run
  defer_run-Silent settings =
      Silent-then (stop p schedule) _ (stop-Makes p publications schedule) λ _.
        Silent-then (perform p Call.defer_run p.defer_run) _
          (perform-Makes p publications Call.defer_run p.defer_run)
          λ is_deferred.
            Silent-then (require p is_deferred _) _ (require-Silent is_deferred _)
              λ _ s. ground arith

  pub defer_if_quiet-Silent : (settings : Settings) → Silent (defer_if_quiet p settings)
  unfolding defer_if_quiet
  defer_if_quiet-Silent settings s = ground (arith, defer_run-Silent settings s)

  module _ (claim : Claim) (settings : Settings) where
    after_workflow-Silent :
        (workflow : Workflow) → Silent (after_workflow p claim settings workflow)
    unfolding after_workflow
    after_workflow-Silent nothing_found = λ s. ground arith
    after_workflow-Silent (ready checkpoint) =
        Silent-then (perform p (Call.save_draft checkpoint) (p.save_draft checkpoint)) _
          (perform-Makes p publications (Call.save_draft checkpoint) (p.save_draft checkpoint))
          λ is_saved.
            Silent-then (require p is_saved _) _ (require-Silent is_saved _) λ _ s. ground arith

    after_answer-Silent :
        (answer : Option WorkflowAnswer) → Silent (after_answer p claim settings answer)
    unfolding after_answer
    after_answer-Silent answer =
        Silent-then (demand p (workflow_result answer)) _ (demand-Silent (workflow_result answer))
          λ workflow.
            Silent-then (assert_owned pipeline) _ (assert_owned-Makes p publications pipeline)
              (λ _. after_workflow-Silent workflow)

    under_lease-Silent : Silent (under_lease p claim settings)
    unfolding under_lease
    under_lease-Silent = Silent-then (check_signal p) _ (check_signal-Makes p publications) λ _.
        Silent-then (perform p Call.run_workflow (p.run_workflow _)) _
          (perform-Makes p publications Call.run_workflow (p.run_workflow _)) after_answer-Silent

    release_then-Silent :
        {A : Type 0} (rest : Action W A) → Silent rest → Silent (release_then p claim settings rest)
    unfolding release_then
    release_then-Silent rest h =
        attempt-Makes p publications 0 0 0 0 (stop p pipeline) _ _
          (stop-Makes p publications pipeline)
          (λ _.
            Silent-then (perform p Call.release_lease p.release_lease) _
              (perform-Makes p publications Call.release_lease p.release_lease) (λ _. h))
          (λ e.
            Silent-then (perform p Call.release_lease p.release_lease) _
              (perform-Makes p publications Call.release_lease p.release_lease)
              (λ _ s. ground arith))

    pub run_pipeline-Silent : Silent (run_pipeline p claim settings)
    unfolding run_pipeline finally_release
    run_pipeline-Silent =
        Silent-then (perform p Call.acquire_lease p.acquire_lease) _
          (perform-Makes p publications Call.acquire_lease p.acquire_lease)
          λ is_acquired. Silent-then (require p is_acquired _) _ (require-Silent is_acquired _) λ _.
            Silent-then (start pipeline) _ (λ s. ground arith)
              λ _.
                attempt-Makes p publications 0 0 0 0 (under_lease p claim settings) _ _
                  under_lease-Silent
                  (λ checkpoint. release_then-Silent (pure checkpoint) (λ s. ground arith))
                  (λ e. release_then-Silent (throw e) (λ s. ground arith))

    pub deliver_for_review-Silent :
        (checkpoint : Checkpoint) → Silent (deliver_for_review p claim settings checkpoint)
    unfolding deliver_for_review
    deliver_for_review-Silent checkpoint =
        Silent-then (catch (perform p (Call.deliver_review checkpoint.id) (p.deliver_review _ _)) _)
          _
          (catch-Makes p publications 0 0
            (perform p (Call.deliver_review checkpoint.id) (p.deliver_review _ _)) _
            (perform-Makes p publications (Call.deliver_review checkpoint.id)
              (p.deliver_review _ _))
            (λ e s. ground arith))
          λ answer.
            Silent-then (demand p (review_delivery_result answer)) _
              (demand-Silent (review_delivery_result answer))
              λ delivered.
                Silent-then (finish_with_heartbeat p (status_of delivered) none) _
                  (finish_with_heartbeat-Silent (status_of delivered) none) (λ _ s. ground arith)

    -- a deferral stands before the rest
    pub unless_deferred-Makes :
        (n : ℕ) (checkpoint : Checkpoint) (rest : Action W RunResult)
        → Makes p publications 0 n rest
        → Makes p publications 0 n (unless_deferred p claim settings checkpoint rest)
    unless_deferred-Makes n checkpoint rest h =
        Silent-before n (defer_if_quiet p settings) _ (defer_if_quiet-Silent settings)
          (elim [ some result ↦ λ s. omega arith | none ↦ h ])

    pub renewed_unless_deferred-Makes :
        (n : ℕ) (checkpoint : Checkpoint) (rest : Action W RunResult)
        → Makes p publications 0 n rest
        → Makes p publications 0 n (renewed_unless_deferred p claim settings checkpoint rest)
    renewed_unless_deferred-Makes n checkpoint rest h =
        Silent-before n (renew p schedule) _ (renew-Makes p publications schedule) λ _.
          Silent-before n (check_signal p) _ (check_signal-Makes p publications)
            λ _. unless_deferred-Makes n checkpoint rest h

    pub complete-Silent :
        (checkpoint : Checkpoint) (message_id : ℕ)
        → Silent (complete p claim settings checkpoint message_id)
    unfolding complete
    complete-Silent checkpoint message_id =
        Silent-then (finish_with_heartbeat p RunStatus.published none) _
          (finish_with_heartbeat-Silent RunStatus.published none)
          λ _.
            Silent-then
              (catch
                (perform p (Call.notify settings.review_chat_id) (p.notify settings.review_chat_id))
                _)
              _
              (catch-Makes p publications 0 0
                (perform p (Call.notify settings.review_chat_id) (p.notify settings.review_chat_id))
                _
                (perform-Makes p publications (Call.notify settings.review_chat_id)
                  (p.notify settings.review_chat_id))
                (λ e s. ground arith))
              (λ _ s. ground arith)

    pub after_publish-Silent :
        (checkpoint : Checkpoint) (publication : Publication)
        → Silent (after_publish p claim settings checkpoint publication)
    unfolding after_publish
    after_publish-Silent checkpoint (blocked reason) =
        Silent-then (finish_with_heartbeat p RunStatus.blocked_by_policy _) _
          (finish_with_heartbeat-Silent RunStatus.blocked_by_policy _) (λ _ s. ground arith)
    after_publish-Silent checkpoint (posted none) = λ s. ground arith
    after_publish-Silent checkpoint (posted (some message_id)) =
        Silent-then
          (perform p (Call.save_publication checkpoint.id message_id) (p.save_publication _ _)) _
          (perform-Makes p publications (Call.save_publication checkpoint.id message_id)
            (p.save_publication _ _))
          λ is_saved.
            Silent-then (require p is_saved _) _ (require-Silent is_saved _)
              λ _. complete-Silent checkpoint message_id

    pub approve_if_review-Silent :
        (checkpoint : Checkpoint) (status : DraftStatus)
        → Silent (approve_if_review p claim settings checkpoint status)
    unfolding approve_if_review
    approve_if_review-Silent checkpoint DraftStatus.review =
        perform-Makes p publications (Call.approve checkpoint.id) (p.approve checkpoint.id)
    approve_if_review-Silent checkpoint DraftStatus.other_status = λ s. ground arith
    approve_if_review-Silent checkpoint DraftStatus.approved = λ s. ground arith
    approve_if_review-Silent checkpoint DraftStatus.publishing = λ s. ground arith
    approve_if_review-Silent checkpoint DraftStatus.published = λ s. ground arith
    approve_if_review-Silent checkpoint DraftStatus.rejected = λ s. ground arith

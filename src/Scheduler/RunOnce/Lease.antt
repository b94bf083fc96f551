-- ===== src/Scheduler/RunOnce/Lease.antt =====
-- The pipeline lease of `src/scheduler/application/run-scheduled-news-once.use-case.ts`.
use telegram_news_agent.Prelude.{refl, Bool, true, false, Option, arith, indicator, inl, inr, ◌⊎◌}
use telegram_news_agent.Effects.{Outcome, returns, throws, pure, throw, continue, ◌>>◌}
use telegram_news_agent.Effects.Rules.{Ensures}
use telegram_news_agent.Scheduler.Errors.{Fault, fault}
use telegram_news_agent.Scheduler.Contracts.{
  Claim, Settings, Checkpoint, Workflow, nothing_found, ready, pipeline, Call, Ports,
  WorkflowAnswer, workflow_result, ApprovalPolicy,
}
use telegram_news_agent.Scheduler.Ownership.{
  State, Action, perform, stop, check_signal, assert_owned, start, set_heartbeat, running,
}
use telegram_news_agent.Scheduler.Ownership.Counting.{
  Class, Between, Between-from, Makes, Answers, Fails, perform-Answers, perform-Makes, then-Makes,
  attempt-Makes, stop-Makes, check_signal-Makes, assert_owned-Makes,
}
use telegram_news_agent.Scheduler.RunOnce.{
  after_workflow, after_answer, demand, require, under_lease, release_then, finally_release,
  run_pipeline,
}

abbrev is_release : Call → Bool
is_release Call.release_lease = true
is_release _ = false

abbrev pub releases : Class
releases = record { has = is_release; renewals_out = λ _. refl }

-- Whether the lease was granted.
abbrev pub is_granted : {W : Type 0} → Outcome Fault W Bool → Bool
is_granted (returns b _) = b
is_granted (throws _ _) = false

module _ {W : Type 0} (p : Ports W) (claim : Claim) (settings : Settings) where
  after_workflow-Makes :
      (workflow : Workflow) → Makes p releases 0 0 (after_workflow p claim settings workflow)
  unfolding after_workflow
  after_workflow-Makes nothing_found = λ s. ground arith
  after_workflow-Makes (ready checkpoint) =
      then-Makes p releases 0 0 0 (perform p (Call.save_draft checkpoint) (p.save_draft checkpoint))
        _ (perform-Makes p releases (Call.save_draft checkpoint) (p.save_draft checkpoint))
        (elim [ true ↦ λ s. ground arith | false ↦ λ s. ground arith ])

  after_answer-Makes :
      (answer : Option WorkflowAnswer) → Makes p releases 0 0 (after_answer p claim settings answer)
  unfolding after_answer
  after_answer-Makes answer =
      then-Makes p releases 0 0 0 (demand p (workflow_result answer)) _
        (demanded (workflow_result answer))
        λ workflow.
          then-Makes p releases 0 0 0 (assert_owned pipeline) _
            (assert_owned-Makes p releases pipeline) (λ _. after_workflow-Makes workflow)
    where
      demanded : (o : Fault ⊎ Workflow) → Makes p releases 0 0 (demand p o)
      demanded (inl e) s = ground arith
      demanded (inr a) s = ground arith

  under_lease-Makes : Makes p releases 0 0 (under_lease p claim settings)
  unfolding under_lease
  under_lease-Makes =
      then-Makes p releases 0 0 0 (check_signal p) _ (check_signal-Makes p releases) λ _.
        then-Makes p releases 0 0 0
          (perform p Call.run_workflow
            (p.run_workflow (record settings { approval_policy = ApprovalPolicy.manual })))
          _
          (perform-Makes p releases Call.run_workflow
            (p.run_workflow (record settings { approval_policy = ApprovalPolicy.manual })))
          after_answer-Makes

  release_then-Makes :
      {A : Type 0} (rest : Action W A)
      → Makes p releases 0 0 rest
      → Makes p releases 1 1 (release_then p claim settings rest)
  unfolding release_then
  release_then-Makes rest h =
      attempt-Makes p releases 0 0 1 1 (stop p pipeline) _ _ (stop-Makes p releases pipeline)
        (λ _.
          then-Makes p releases 1 1 0 (perform p Call.release_lease p.release_lease) _
            (perform-Makes p releases Call.release_lease p.release_lease) (λ _. h))
        (λ e.
          then-Makes p releases 1 1 0 (perform p Call.release_lease p.release_lease) _
            (perform-Makes p releases Call.release_lease p.release_lease) (λ _ s. ground arith))

  finally_release-Makes :
      (body : Action W (Option Checkpoint))
      → Makes p releases 0 0 body
      → Makes p releases 1 1 (finally_release p claim settings body)
  unfolding finally_release
  finally_release-Makes body h =
      attempt-Makes p releases 0 0 1 1 body _ _ h
        (λ checkpoint. release_then-Makes (pure checkpoint) (λ s. ground arith))
        (λ e. release_then-Makes (throw e) (λ s. ground arith))

  -- Running the pipeline releases its lease exactly once where the lease was granted, and not at all
  -- where it was not, whether the workflow returns, throws or loses the lease.
  pub run_pipeline-releases :
      (s : State W)
      → Between p releases
          (indicator (is_granted (p.acquire_lease s.world)))
          (indicator (is_granted (p.acquire_lease s.world)))
          s
          (run_pipeline p claim settings s)
  unfolding run_pipeline
  run_pipeline-releases s =
      after_acquire (perform p Call.acquire_lease p.acquire_lease s)
        (perform-Answers p releases Call.acquire_lease p.acquire_lease s)
    where
      after_acquire :
          (o : Outcome Fault (State W) Bool)
          → Ensures
              (Answers p releases Call.acquire_lease s (p.acquire_lease s.world))
              (Fails p releases Call.acquire_lease s (p.acquire_lease s.world))
              o
          → Between p releases
              (indicator (is_granted (p.acquire_lease s.world)))
              (indicator (is_granted (p.acquire_lease s.world)))
              s
              (continue o λ is_acquired.
                require p is_acquired (fault "Pipeline \"daily-news-pipeline\" is already running")
                >> (start pipeline
                    >> finally_release p claim settings (under_lease p claim settings)))
      after_acquire (throws e t) ((w, h), q) = rw h (omega (arith, q))
      after_acquire (returns false t) ((w, h), q) = rw h (omega (arith, q))
      after_acquire (returns true t) ((w, h), q) = rw h (
          Between-from p releases 1 1 s t _ (omega (arith, q)) (
            finally_release-Makes (under_lease p claim settings) under_lease-Makes
              (set_heartbeat pipeline running t)))

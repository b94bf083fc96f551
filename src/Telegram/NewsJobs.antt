-- ===== src/Telegram/NewsJobs.antt =====
-- The durable `/news` queue's worker: `src/telegram/telegram-news-job-worker.ts`.
pub mod Outcomes
pub mod Heartbeat
use telegram_news_agent.Prelude.{
  ℕ, zero, suc, String, Bool, true, false, not, ◌&&◌, ◌||◌, Option, none, some, List, ◌∷◌,
  if◌then◌else◌, get_or, is_some,
}
use telegram_news_agent.Prelude.Text.{Number, is_positive_safe_integer, is_empty}
use telegram_news_agent.Effects.{
  Outcome, returns, throws, Io, pure, throw, catch, attempt, ◌>>=◌, ◌>>◌,
}

pub data Phase : Type 0 where
  execution delivery : Phase

-- The statuses that a run can report; "already_running" and "failed" are set by the database.
pub data OutcomeStatus : Type 0 where
  no_candidates review_ready published blocked_by_policy : OutcomeStatus

pub record Job : Type 0 where
  pub id : String
  pub claim_token : String
  pub claim_phase : Phase

pub record JobOutcome : Type 0 where
  pub status : OutcomeStatus
  pub draft_id : Option String
  pub publication_message_id : Option Number

pub record Failure : Type 0 where
  pub error_code : String
  pub terminal : Bool

pub data Fault : Type 0 where
  external : String → Fault
  no_draft_id message_id_invalid : Fault
  claim_lost_before_outcome claim_lost_before_retry : Fault
  claim_lost_before_completion claim_lost_before_delivery_retry : Fault

pub data RunResult : Type 0 where
  idle advanced stopped : RunResult

-- The calls of one iteration. A fenced write is noted with the database's answer: `some true` if
-- the claim still held, `some false` if it was lost, `none` if the call failed.
pub data Call : Type 0 where
  claim_next : Call
  set_interval clear_interval : Call
  run_workflow deliver_result renew : Call
  record_outcome : JobOutcome → Option Bool → Call
  retry : Failure → Option Bool → Call
  complete : Option Bool → Call
  retry_delivery : Option Bool → Call

pub record Ports (W : Type 0) : Type 0 where
  pub is_aborted : W → Bool
  pub claim_next : W → Outcome Fault W (Option Job)
  pub set_interval : W → W
  pub clear_interval : W → Outcome Fault W (Unit {0})
  pub run_workflow : Job → W → Outcome Fault W JobOutcome
  pub deliver_result : Job → W → Outcome Fault W (Unit {0})
  pub renew : Job → W → Outcome Fault W (Unit {0})
  pub record_outcome : Job → JobOutcome → W → Outcome Fault W Bool
  pub retry : Job → Failure → W → Outcome Fault W Bool
  pub complete : Job → W → Outcome Fault W Bool
  pub retry_delivery : Job → W → Outcome Fault W Bool
  pub classify_execution_error : Fault → Failure

-- `is_cleared` is the heartbeat's own flag.
pub record State (W : Type 0) : Type 0 where
  pub world : W
  pub calls : List Call
  pub is_cleared : Bool

abbrev pub Action : Type 0 → Type 0 → Type 0
Action W A = Io Fault (State W) A

module _ {W A : Type 0} where
  abbrev pub noted : State W → (Option A → Call) → Outcome Fault W A → Outcome Fault (State W) A
  noted s note (returns a w) = returns a (record s { world = w; calls = note (some a) ∷ s.calls })
  noted s note (throws e w) = throws e (record s { world = w; calls = note none ∷ s.calls })

  -- an awaited call, noted with its answer
  abbrev pub perform : (Option A → Call) → (W → Outcome Fault W A) → Action W A
  perform note port s = noted s note (port s.world)

abbrev pub needs_draft : OutcomeStatus → Bool
needs_draft OutcomeStatus.review_ready = true
needs_draft OutcomeStatus.published = true
needs_draft OutcomeStatus.blocked_by_policy = true
needs_draft _ = false

abbrev pub is_published : OutcomeStatus → Bool
is_published OutcomeStatus.published = true
is_published _ = false

-- JavaScript's truth value of a text or null
abbrev pub is_truthy : Option String → Bool
is_truthy none = false
is_truthy (some s) = not (is_empty s)

module _ {W : Type 0} (p : Ports W) where
  pub assert_renderable_outcome : JobOutcome → Action W (Unit {0})
  assert_renderable_outcome outcome =
      if needs_draft outcome.status && not (is_truthy outcome.draft_id)
      then throw Fault.no_draft_id
      else if not (is_published outcome.status)
      then pure tt
      else if is_positive_safe_integer (get_or outcome.publication_message_id Number.other)
      then pure tt
      else throw Fault.message_id_invalid

  -- a failure to renew is not fatal
  pub renew_claim : Job → Action W (Unit {0})
  renew_claim job = catch (perform (λ _. Call.renew) (p.renew job)) (λ _. pure tt)

  pub start_heartbeat : Action W (Unit {0})
  start_heartbeat s = returns tt (record s {
    world = p.set_interval s.world;
    calls = Call.set_interval ∷ s.calls;
    is_cleared = false;
  })

  -- marked before clearing, so that a second call does nothing
  pub stop_heartbeat : Action W (Unit {0})
  stop_heartbeat s =
      if s.is_cleared
      then returns tt s
      else perform (λ _. Call.clear_interval) p.clear_interval (record s { is_cleared = true })

  abbrev require : Bool → Fault → Action W (Unit {0})
  require true e = pure tt
  require false e = throw e

  -- the research, up to the point where its outcome is durable
  pub persist_outcome : Job → Action W (Unit {0})
  unfolding assert_renderable_outcome renew_claim
  persist_outcome job = do
    outcome ← perform (λ _. Call.run_workflow) (p.run_workflow job)
    assert_renderable_outcome outcome
    renew_claim job
    saved ← perform (Call.record_outcome outcome) (p.record_outcome job outcome)
    require saved Fault.claim_lost_before_outcome

  abbrev stopped_if_aborted : Action W RunResult
  stopped_if_aborted s =
      returns (if p.is_aborted s.world then RunResult.stopped else RunResult.advanced) s

  pub retry_execution : Job → Fault → Action W RunResult
  unfolding renew_claim
  retry_execution job error = do
    let failure = p.classify_execution_error error
    renew_claim job
    saved ← perform (Call.retry failure) (p.retry job failure)
    require saved Fault.claim_lost_before_retry
    pure RunResult.advanced

  pub execute : Job → Action W RunResult
  unfolding persist_outcome stop_heartbeat retry_execution
  execute job =
      attempt (persist_outcome job)
        (λ _. catch (stop_heartbeat >> stopped_if_aborted) (λ _. pure RunResult.advanced))
        (λ error s.
          if p.is_aborted s.world then returns RunResult.stopped s else retry_execution job error s)

  pub complete_delivery : Job → Action W (Unit {0})
  unfolding renew_claim
  complete_delivery job = do
    perform (λ _. Call.deliver_result) (p.deliver_result job)
    renew_claim job
    completed ← perform Call.complete (p.complete job)
    require completed Fault.claim_lost_before_completion

  pub redeliver_later : Job → Action W RunResult
  unfolding renew_claim
  redeliver_later job = do
    renew_claim job
    saved ← perform Call.retry_delivery (p.retry_delivery job)
    require saved Fault.claim_lost_before_delivery_retry
    pure RunResult.advanced

  pub deliver : Job → Action W RunResult
  unfolding complete_delivery stop_heartbeat redeliver_later
  deliver job =
      attempt (complete_delivery job)
        (λ _. catch (stop_heartbeat >> pure RunResult.advanced) (λ _. pure RunResult.advanced))
        (λ error s.
          if p.is_aborted s.world then returns RunResult.stopped s else redeliver_later job s)

  -- the phase of the claim
  pub run_phase : Phase → Job → Action W RunResult
  run_phase Phase.execution job = execute job
  run_phase Phase.delivery job = deliver job

  -- `finally`: the heartbeat is stopped, and an error of that does not replace the result
  abbrev swallow_stop : State W → State W
  swallow_stop s = elim (stop_heartbeat s) [ returns _ t ↦ t | throws _ t ↦ t ]

  pub finally_stop : Outcome Fault (State W) RunResult → Outcome Fault (State W) RunResult
  unfolding stop_heartbeat
  finally_stop (returns r s) = returns r (swallow_stop s)
  finally_stop (throws e s) = throws e (swallow_stop s)

  pub run_claimed : Option Job → Action W RunResult
  unfolding start_heartbeat finally_stop run_phase
  run_claimed none s = returns RunResult.idle s
  run_claimed (some job) s = finally_stop ((start_heartbeat >> run_phase job.claim_phase job) s)

  pub run_once : Action W RunResult
  run_once s =
      if p.is_aborted s.world
      then returns RunResult.stopped s
      else (perform (λ _. Call.claim_next) p.claim_next >>= run_claimed) s

-- ===== src/Scheduler/Ownership.antt =====
-- `OwnershipHeartbeat` of `src/scheduler/application/run-scheduled-news-once.use-case.ts`, and the
-- awaited calls of a run. While a call is awaited the intervals may fire any number of times; a
-- renewal ends before the call does, so none is under way when another starts.
pub mod Counting
pub mod Stopping
use telegram_news_agent.Prelude.{
  ℕ, zero, suc, String, Bool, true, false, Option, none, some, List, [], ◌∷◌, if◌then◌else◌,
}
use telegram_news_agent.Effects.{Outcome, returns, throws, Io, pure, throw, ◌>>=◌, ◌>>◌}
use telegram_news_agent.Scheduler.Errors.{Fault, fault}
use telegram_news_agent.Scheduler.Contracts.{Owner, schedule, pipeline, Call, Ports}

pub record Heartbeat : Type 0 where
  pub lost_error : Option Fault
  pub is_stopped : Bool

pub record State (W : Type 0) : Type 0 where
  pub world : W
  pub calls : List Call
  pub schedule_heartbeat : Heartbeat
  pub pipeline_heartbeat : Heartbeat

abbrev pub Action : Type 0 → Type 0 → Type 0
Action W A = Io Fault (State W) A

abbrev pub lost_fault : Owner → Fault
lost_fault schedule = fault "Scheduled news claim ownership was lost"
lost_fault pipeline = fault "Pipeline lease \"daily-news-pipeline\" ownership was lost"

abbrev pub failed_fault : Owner → Fault
failed_fault schedule = fault "Scheduled news claim could not be renewed"
failed_fault pipeline = fault "Pipeline lease \"daily-news-pipeline\" could not be renewed"

abbrev pub running : Heartbeat
running = record { lost_error = none; is_stopped = false }

module _ {W : Type 0} where
  abbrev pub heartbeat_of : Owner → State W → Heartbeat
  heartbeat_of schedule s = s.schedule_heartbeat
  heartbeat_of pipeline s = s.pipeline_heartbeat

  abbrev pub set_heartbeat : Owner → Heartbeat → State W → State W
  set_heartbeat schedule h s = record s { schedule_heartbeat = h }
  set_heartbeat pipeline h s = record s { pipeline_heartbeat = h }

  abbrev pub lose : Owner → Fault → State W → State W
  lose owner e s = set_heartbeat owner (record (heartbeat_of owner s) { lost_error = some e }) s

  abbrev pub state_after : {A : Type 0} → Outcome Fault (State W) A → State W
  state_after (returns _ s) = s
  state_after (throws _ s) = s

  -- `new OwnershipHeartbeat`
  abbrev pub start : Owner → Action W (Unit {0})
  start owner s = returns tt (set_heartbeat owner running s)

  abbrev pub throw_if : Option Fault → Action W (Unit {0})
  throw_if none = pure tt
  throw_if (some e) = throw e

  pub assert_owned : Owner → Action W (Unit {0})
  assert_owned owner s = throw_if (heartbeat_of owner s).lost_error s

  -- what a renewal's answer makes of the heartbeat
  abbrev pub renewed : Owner → Outcome Fault W Bool → State W → Outcome Fault (State W) (Unit {0})
  renewed owner (returns true w) s = returns tt (record s { world = w })
  renewed owner (returns false w) s =
      throws (lost_fault owner) (lose owner (lost_fault owner) (record s { world = w }))
  renewed owner (throws _ w) s =
      throws (failed_fault owner) (lose owner (failed_fault owner) (record s { world = w }))

module _ {W : Type 0} (p : Ports W) where
  pub renew : Owner → Action W (Unit {0})
  unfolding assert_owned
  renew owner = do
    assert_owned owner
    λ s. renewed owner (p.renew owner s.world) (record s { calls = Call.renew owner ∷ s.calls })

  -- the interval fires so many times
  pub fire : ℕ → Owner → State W → State W
  fire zero owner s = s
  fire (suc n) owner s = fire n owner (state_after (renew owner s))

  abbrev beat : Owner → State W → State W
  beat owner s =
      if (heartbeat_of owner s).is_stopped then s else fire (p.fires owner s.world) owner s

  abbrev beats : State W → State W
  beats s = beat pipeline (beat schedule s)

  abbrev resumed :
      {A : Type 0} → List Call → State W → Outcome Fault W A → Outcome Fault (State W) A
  resumed cs s (returns a w) = returns a (beats (record s { world = w; calls = cs }))
  resumed cs s (throws e w) = throws e (beats (record s { world = w; calls = cs }))

  -- an awaited call of a port
  pub perform : {A : Type 0} → Call → (W → Outcome Fault W A) → Action W A
  unfolding fire
  perform c port s = resumed (c ∷ s.calls) s (port s.world)

  -- idempotent but for the error
  pub stop : Owner → Action W (Unit {0})
  unfolding assert_owned
  stop owner s =
      assert_owned owner
        (set_heartbeat owner (record (heartbeat_of owner s) { is_stopped = true }) s)

  -- `signal?.throwIfAborted()`
  abbrev pub check_signal : Action W (Unit {0})
  check_signal s = (if p.is_aborted s.world then throw p.abort_fault else pure tt) s

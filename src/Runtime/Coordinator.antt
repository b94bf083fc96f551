-- ===== src/Runtime/Coordinator.antt =====
-- `RuntimeCoordinator` of `src/runtime/runtime-coordinator.ts`: its state, and what each call, signal
-- and settled promise does to it. A worker is a number; `calls` has the latest call first.
pub mod Ending
pub mod Steps
pub mod Phases
pub mod Startups
pub mod Deadline
use telegram_news_agent.Prelude.{
  ℕ, String, Bool, true, false, Option, none, some, List, [], ◌∷◌, ◌++◌, ◌≡◌, ◌≢◌, refl,
  if◌then◌else◌,
}
use telegram_news_agent.Effects.{Outcome, returns, throws}
use mathlib.Core.List.{reverse}

pub data Lifecycle : Type 0 where
  idle starting running stopping stopped : Lifecycle

abbrev pub Fault : Type 0
Fault = String

pub data Call : Type 0 where
  start_worker stop_worker : ℕ → Call
  close_application : Call
  create_deadline cancel_deadline : Call
  add_handlers remove_handlers : Call
  escalate : String → Call

-- `startWorkers` and the rest of `start`: the worker whose start is due, or awaited, with those
-- after it; the settled promise that `start` has still to look at; and that it has looked at.
pub data Startup : Type 0 where
  not_begun : Startup
  launching waiting : ℕ → List ℕ → Startup
  settled over : Option Fault → Startup

-- The first phase of a shutdown: the errors of the drained workers, or the deadline.
pub data Drain : Type 0 where
  drained : List Fault → Drain
  timed_out : Drain

pub data CloseResult : Type 0 where
  closed timeout : CloseResult
  close_error : Fault → CloseResult

pub data StopFault : Type 0 where
  grace_exceeded : StopFault
  single : Fault → StopFault
  aggregate : List Fault → StopFault

pub data Shutdown : Type 0 where
  not_requested draining : Shutdown
  closing : Drain → Shutdown
  done : Option StopFault → Shutdown

pub record Coordinator : Type 0 where
  pub workers : List ℕ
  pub state : Lifecycle
  pub startup : Startup
  pub shutdown : Shutdown
  pub attempted : List ℕ
  pub is_close_bound : Bool
  pub is_close_called : Bool
  pub is_aborted : Bool
  pub has_handlers : Bool
  pub is_first_signal_received : Bool
  pub is_second_signal_handled : Bool
  pub fatal_cause : Option Fault
  pub calls : List Call

-- the constructor
abbrev pub new : List ℕ → Bool → Coordinator
new workers is_close_bound = record {
  workers = workers;
  state = Lifecycle.idle;
  startup = Startup.not_begun;
  shutdown = Shutdown.not_requested;
  attempted = [];
  is_close_bound = is_close_bound;
  is_close_called = false;
  is_aborted = false;
  has_handlers = false;
  is_first_signal_received = false;
  is_second_signal_handled = false;
  fatal_cause = none;
  calls = [];
}

abbrev pub is_idle : Lifecycle → Bool
is_idle Lifecycle.idle = true
is_idle _ = false

abbrev pub is_starting : Lifecycle → Bool
is_starting Lifecycle.starting = true
is_starting _ = false

abbrev pub is_stopped : Lifecycle → Bool
is_stopped Lifecycle.stopped = true
is_stopped _ = false

unfoldable pub stop_each : List ℕ → List Call → List Call
stop_each [] calls = calls
stop_each (w ∷ ws) calls = stop_each ws (Call.stop_worker w ∷ calls)

unfoldable pub invoke_stops_in_reverse : List ℕ → List Call → List Call
unfolding stop_each
invoke_stops_in_reverse workers calls = stop_each (reverse workers) calls

-- up to the first `await`
unfoldable pub stop_all : Coordinator → Coordinator
unfolding invoke_stops_in_reverse
stop_all c = record c {
  state = Lifecycle.stopping;
  shutdown = Shutdown.draining;
  is_aborted = true;
  calls = invoke_stops_in_reverse c.attempted (Call.create_deadline ∷ c.calls);
}

stop_unless : Shutdown → Coordinator → Coordinator
unfolding stop_all
stop_unless Shutdown.not_requested c = stop_all c
stop_unless _ c = c

unfoldable pub request_stop : Coordinator → Coordinator
unfolding stop_unless
request_stop c = stop_unless c.shutdown c

-- A request either finds one before it, and changes nothing, or runs `stopAll`.
pub request_stop_rule {ℓ} :
    (P : Coordinator → Type ℓ) (c : Coordinator)
    → (c.shutdown ≢ Shutdown.not_requested → P c)
    → (c.shutdown ≡ Shutdown.not_requested → P (stop_all c))
    → P (request_stop c)
unfolding request_stop stop_unless
request_stop_rule P c h k = go c.shutdown refl
  where
    go : (s : Shutdown) → c.shutdown ≡ s → P (stop_unless s c)
    go Shutdown.not_requested e = k e
    go Shutdown.draining e = h (λ f. cc (e, f))
    go (Shutdown.closing p) e = h (λ f. cc (e, f))
    go (Shutdown.done r) e = h (λ f. cc (e, f))

unfoldable pub keep_fatal_cause : Fault → Coordinator → Coordinator
keep_fatal_cause error c = elim c.fatal_cause [
  | none ↦ record c { fatal_cause = some error }
  | some _ ↦ c
]

unfoldable pub report_fatal : Fault → Coordinator → Coordinator
unfolding keep_fatal_cause
report_fatal error c = request_stop (keep_fatal_cause error c)

unfoldable pub bind_application_close : Coordinator → Outcome Fault Coordinator (Unit {0})
bind_application_close c =
    if is_idle c.state
    then (if c.is_close_bound
        then throws "RuntimeCoordinator application close is already bound" c
        else returns tt (record c { is_close_bound = true }))
    else throws "RuntimeCoordinator can only bind close callback in idle state" c

-- a turn of the loop in `startWorkers`, up to its `await`
unfoldable pub start_next : List ℕ → Coordinator → Coordinator
start_next [] c = record c { startup = Startup.settled none }
start_next (w ∷ rest) c =
    if c.is_aborted
    then record c { startup = Startup.settled none }
    else record c { attempted = c.attempted ++ (w ∷ []); startup = Startup.launching w rest }

unfoldable pub install_signal_handlers : Coordinator → Coordinator
install_signal_handlers c =
    if c.has_handlers
    then c
    else record c { has_handlers = true; calls = Call.add_handlers ∷ c.calls }

-- up to its first `await`
unfoldable pub start : Coordinator → Outcome Fault Coordinator (Unit {0})
unfolding start_next install_signal_handlers
start c =
    if is_idle c.state
    then (if c.is_close_bound
        then returns tt (
            start_next c.workers
              (record (install_signal_handlers c) { state = Lifecycle.starting }))
        else throws "RuntimeCoordinator start requires bound application close callback" c)
    else returns tt c

-- the callback that calls `worker.start`
unfoldable pub launch : ℕ → List ℕ → Coordinator → Coordinator
launch w rest c = record c {
  startup = Startup.waiting w rest;
  calls = Call.start_worker w ∷ c.calls;
}

-- `worker.start` has resolved, or failed
unfoldable pub after_start : Option Fault → List ℕ → Coordinator → Coordinator
unfolding start_next
after_start (some error) rest c = record c { startup = Startup.settled (some error) }
after_start none rest c =
    if c.is_aborted then record c { startup = Startup.settled none } else start_next rest c

-- what `start` does when the promise of `startWorkers` has settled
unfoldable pub finish_start : Option Fault → Coordinator → Coordinator
unfolding request_stop
finish_start none c =
    let d : Coordinator = record c { startup = Startup.over none } in
    if is_starting c.state then record d { state = Lifecycle.running } else d
finish_start (some error) c = request_stop (record c { startup = Startup.over (some error) })

-- the handler of a signal
unfoldable pub on_signal : String → Coordinator → Coordinator
unfolding request_stop
on_signal signal c =
    if is_stopped c.state
    then c
    else if c.is_first_signal_received
    then (if c.is_second_signal_handled
        then c
        else record c { is_second_signal_handled = true; calls = Call.escalate signal ∷ c.calls })
    else request_stop (record c { is_first_signal_received = true })

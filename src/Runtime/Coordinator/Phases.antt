-- ===== src/Runtime/Coordinator/Phases.antt =====
-- What every reachable state of the coordinator satisfies.
use mathlib.Core.List.{reverse, reverse_aux, reverse-reverse}
use telegram_news_agent.Prelude.{
  ℕ, String, ◌≡◌, refl, Bool, true, false, Option, none, some, List, [], ◌∷◌, arith, count,
}
use telegram_news_agent.Effects.{returns}
use telegram_news_agent.Runtime.Coordinator.{
  Lifecycle, Fault, Call, Startup, Drain, CloseResult, Shutdown, Coordinator, stop_each,
  invoke_stops_in_reverse, stop_all, request_stop, request_stop_rule, report_fatal,
  keep_fatal_cause, start_next, install_signal_handlers, bind_application_close, start, launch,
  after_start, finish_start, on_signal,
}
use telegram_news_agent.Runtime.Coordinator.Ending.{
  close_application_once, remove_signal_handlers, end_drain, end_close,
}
use telegram_news_agent.Runtime.Coordinator.Steps.{
  Step, Reach, here, next, binds, starts, launches, answers, finishes, closes, fails, signals,
  drains, expires, ends,
}

-- the workers whose `stop` was called, the latest first
abbrev pub stopped_workers : List Call → List ℕ
stopped_workers [] = []
stopped_workers (Call.stop_worker w ∷ calls) = w ∷ stopped_workers calls
stopped_workers (_ ∷ calls) = stopped_workers calls

abbrev is_close : Call → Bool
is_close Call.close_application = true
is_close _ = false

abbrev pub closings : Coordinator → ℕ
closings c = count is_close c.calls

abbrev pub PhaseHolds : Shutdown → Coordinator → Type 0
PhaseHolds Shutdown.not_requested c =
    (c.is_aborted ≡ false)
    × (stopped_workers c.calls ≡ [])
    × (closings c ≡ 0)
    × (c.is_close_called ≡ false)
PhaseHolds Shutdown.draining c =
    (c.is_aborted ≡ true)
    × (stopped_workers c.calls ≡ c.attempted)
    × (closings c ≡ 0)
    × (c.is_close_called ≡ false)
    × (c.state ≡ Lifecycle.stopping)
PhaseHolds (Shutdown.closing _) c =
    (c.is_aborted ≡ true)
    × (stopped_workers c.calls ≡ c.attempted)
    × (closings c ≡ 1)
    × (c.is_close_called ≡ true)
    × (c.state ≡ Lifecycle.stopping)
PhaseHolds (Shutdown.done _) c =
    (c.is_aborted ≡ true)
    × (stopped_workers c.calls ≡ c.attempted)
    × (closings c ≡ 1)
    × (c.is_close_called ≡ true)
    × (c.state ≡ Lifecycle.stopped)
    × (c.has_handlers ≡ false)

abbrev Inv : Coordinator → Type 0
Inv c = PhaseHolds c.shutdown c

launch-Inv : (w : ℕ) (rest : List ℕ) (c : Coordinator) → Inv c → Inv (launch w rest c)
unfolding launch
launch-Inv w rest c h = ground arith

end_close-Inv :
    (p : Drain) (r : CloseResult) (c : Coordinator)
    → c.shutdown ≡ Shutdown.closing p
    → Inv c
    → Inv (end_close p r c)
unfolding end_close remove_signal_handlers
end_close-Inv p r c e h = ground arith

end_drain-Inv :
    (p : Drain) (c : Coordinator) → c.shutdown ≡ Shutdown.draining → Inv c → Inv (end_drain p c)
unfolding end_drain close_application_once
end_drain-Inv p c e h = ground arith

stop_each-stopped_workers :
    (ws : List ℕ) (calls : List Call)
    → stopped_workers (stop_each ws calls) ≡ reverse_aux ws (stopped_workers calls)
unfolding stop_each
stop_each-stopped_workers [] calls = refl
stop_each-stopped_workers (w ∷ ws) calls = stop_each-stopped_workers ws (Call.stop_worker w ∷ calls)

stop_each-closings :
    (ws : List ℕ) (calls : List Call) → count is_close (stop_each ws calls) ≡ count is_close calls
unfolding stop_each
stop_each-closings [] calls = refl
stop_each-closings (w ∷ ws) calls = stop_each-closings ws (Call.stop_worker w ∷ calls)

stop_all-Inv : (c : Coordinator) → c.shutdown ≡ Shutdown.not_requested → Inv c → Inv (stop_all c)
unfolding stop_all invoke_stops_in_reverse
stop_all-Inv c e h = ground (
  arith,
  stop_each-stopped_workers (reverse c.attempted) (Call.create_deadline ∷ c.calls),
  stop_each-closings (reverse c.attempted) (Call.create_deadline ∷ c.calls),
  reverse-reverse c.attempted,
)

start_next-Inv : (ws : List ℕ) (c : Coordinator) → Inv c → Inv (start_next ws c)
unfolding start_next
start_next-Inv [] c h = ground arith
start_next-Inv (w ∷ ws) c h = ground arith

after_start-Inv :
    (r : Option Fault) (ws : List ℕ) (c : Coordinator) → Inv c → Inv (after_start r ws c)
unfolding after_start start_next
after_start-Inv r ws c h = ground arith

bind-Inv : (c d : Coordinator) → bind_application_close c ≡ returns tt d → Inv c → Inv d
unfolding bind_application_close
bind-Inv c d e h = ground arith

start-Inv : (c d : Coordinator) → start c ≡ returns tt d → Inv c → Inv d
unfolding start install_signal_handlers
start-Inv c d e h = ground arith

request_stop-Inv : (c : Coordinator) → Inv c → Inv (request_stop c)
request_stop-Inv c h = request_stop_rule Inv c (λ _. h) (λ e. stop_all-Inv c e h)

report_fatal-Inv : (error : Fault) (c : Coordinator) → Inv c → Inv (report_fatal error c)
unfolding report_fatal keep_fatal_cause
report_fatal-Inv error c h = request_stop-Inv (keep_fatal_cause error c) (ground arith)

finish_start-Inv : (result : Option Fault) (c : Coordinator) → Inv c → Inv (finish_start result c)
unfolding finish_start
finish_start-Inv none c h = ground arith
finish_start-Inv (some error) c h =
    request_stop-Inv (record c { startup = Startup.over (some error) }) (ground arith)

on_signal-Inv : (signal : String) (c : Coordinator) → Inv c → Inv (on_signal signal c)
unfolding on_signal
on_signal-Inv signal c h =
    ground (arith, request_stop-Inv (record c { is_first_signal_received = true }))

Step-Inv : {c d : Coordinator} → Step c d → Inv c → Inv d
Step-Inv (binds e) h = bind-Inv _ _ e h
Step-Inv (starts e) h = start-Inv _ _ e h
Step-Inv (launches w rest e f) h = rw f (launch-Inv w rest _ h)
Step-Inv (answers w rest result e f) h = rw f (after_start-Inv result rest _ h)
Step-Inv (finishes result e f) h = rw f (finish_start-Inv result _ h)
Step-Inv (closes f) h = rw f (request_stop-Inv _ h)
Step-Inv (fails error f) h = rw f (report_fatal-Inv error _ h)
Step-Inv (signals signal e f) h = rw f (on_signal-Inv signal _ h)
Step-Inv (drains first stops e e1 e2 f) h = rw f (end_drain-Inv _ _ e h)
Step-Inv (expires e f) h = rw f (end_drain-Inv _ _ e h)
Step-Inv (ends p r e f) h = rw f (end_close-Inv p r _ e h)

-- In every reachable state: before a shutdown is requested, no worker was stopped and the
-- application was not closed. Afterwards the abort signal is set, and every worker whose start was
-- attempted has been stopped exactly once, the last attempted one first; the application is
-- closed exactly once, after the drain has ended or the deadline has passed. When the shutdown is
-- done, the state is stopped and no signal handler is left.
pub Reach-PhaseHolds : {ws : List ℕ} {c : Coordinator} → Reach ws c → PhaseHolds c.shutdown c
Reach-PhaseHolds (here b) = ground arith
Reach-PhaseHolds (next r st) = Step-Inv st (Reach-PhaseHolds r)

pub closing-is_aborted :
    {ws : List ℕ} {c : Coordinator} {p : Drain}
    → Reach ws c
    → c.shutdown ≡ Shutdown.closing p
    → c.is_aborted ≡ true
closing-is_aborted r e = ground (arith, Reach-PhaseHolds r)

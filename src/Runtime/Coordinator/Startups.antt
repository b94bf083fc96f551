-- ===== src/Runtime/Coordinator/Startups.antt =====
-- Which workers the coordinator has started, in every reachable state.
use mathlib.Core.List.{reverse, reverse-cons, append_assoc, append-nil}
use telegram_news_agent.Prelude.{
  ℕ, String, ◌≡◌, ◌≢◌, ◌⊎◌, refl, ◌∙◌, ap, true, false, Option, none, some, List, [], ◌∷◌, ◌++◌,
  arith,
}
use telegram_news_agent.Effects.{returns}
use telegram_news_agent.Runtime.Coordinator.{
  Lifecycle, Fault, Call, Startup, Drain, CloseResult, Coordinator, stop_each,
  invoke_stops_in_reverse, stop_all, request_stop, request_stop_rule, report_fatal,
  keep_fatal_cause, start_next, install_signal_handlers, bind_application_close, start, launch,
  after_start, finish_start, on_signal,
}
use telegram_news_agent.Runtime.Coordinator.Ending.{
  close_application_once, remove_signal_handlers, end_drain, end_close,
}
use telegram_news_agent.Runtime.Coordinator.Phases.{closing-is_aborted}
use telegram_news_agent.Runtime.Coordinator.Steps.{
  Step, Reach, here, next, binds, starts, launches, answers, finishes, closes, fails, signals,
  drains, expires, ends,
}

-- the workers whose `start` was called, the latest first
abbrev pub started_workers : List Call → List ℕ
started_workers [] = []
started_workers (Call.start_worker w ∷ calls) = w ∷ started_workers calls
started_workers (_ ∷ calls) = started_workers calls

unfoldable pub IsPrefix : List ℕ → List ℕ → Type 0
IsPrefix xs ys = (rest : List ℕ) × (ys ≡ xs ++ rest)

append-IsPrefix : (xs ys rest : List ℕ) → ys ≡ xs ++ rest → IsPrefix xs ys
unfolding IsPrefix
append-IsPrefix xs ys rest e = (rest, e)

abbrev InOrder : Coordinator → Type 0
InOrder c = c.attempted ≡ reverse (started_workers c.calls)

-- `startWorkers` has ended: after all workers, where it neither failed nor was aborted.
abbrev Ended : Option Fault → Coordinator → Type 0
Ended none c =
    InOrder c × IsPrefix c.attempted c.workers × ((c.is_aborted ≡ true) ⊎ (c.attempted ≡ c.workers))
Ended (some _) c = InOrder c × IsPrefix c.attempted c.workers

abbrev StartHolds : Startup → Coordinator → Type 0
StartHolds Startup.not_begun c = (c.attempted ≡ []) × (started_workers c.calls ≡ [])
StartHolds (Startup.launching w rest) c =
    (c.attempted ≡ reverse (started_workers c.calls) ++ (w ∷ []))
    × (c.workers ≡ c.attempted ++ rest)
StartHolds (Startup.waiting w rest) c = InOrder c × (c.workers ≡ c.attempted ++ rest)
StartHolds (Startup.settled result) c = Ended result c
StartHolds (Startup.over result) c = Ended result c

abbrev StateHolds : Lifecycle → Coordinator → Type 0
StateHolds Lifecycle.idle c = (c.startup ≡ Startup.not_begun) × (c.is_aborted ≡ false)
StateHolds Lifecycle.starting c = c.is_aborted ≡ false
StateHolds Lifecycle.running c = (c.startup ≡ Startup.over none) × (c.is_aborted ≡ false)
StateHolds Lifecycle.stopping c = c.is_aborted ≡ true
StateHolds Lifecycle.stopped c = c.is_aborted ≡ true

abbrev Inv : Coordinator → Type 0
Inv c = StartHolds c.startup c × StateHolds c.state c

launch-Inv :
    (w : ℕ) (rest : List ℕ) (c : Coordinator)
    → c.startup ≡ Startup.launching w rest
    → Inv c
    → Inv (launch w rest c)
unfolding launch
launch-Inv w rest c e h = ground (arith, reverse-cons w (started_workers c.calls))

end_close-Inv :
    (p : Drain) (r : CloseResult) (c : Coordinator)
    → c.is_aborted ≡ true
    → Inv c
    → Inv (end_close p r c)
unfolding end_close remove_signal_handlers
end_close-Inv p r c e h = ground arith

end_drain-Inv : (p : Drain) (c : Coordinator) → Inv c → Inv (end_drain p c)
unfolding end_drain close_application_once
end_drain-Inv p c h = ground arith

start_next-Inv :
    (ws : List ℕ) (c : Coordinator)
    → InOrder c
    → c.workers ≡ c.attempted ++ ws
    → StateHolds c.state c
    → c.state ≢ Lifecycle.running
    → c.state ≢ Lifecycle.idle
    → Inv (start_next ws c)
unfolding start_next
start_next-Inv [] c h k l m n =
    ground (arith, append-nil c.attempted, append-IsPrefix c.attempted c.workers [] k)
start_next-Inv (w ∷ ws) c h k l m n =
    ground (
      arith,
      append_assoc c.attempted (w ∷ []) ws,
      append-IsPrefix c.attempted c.workers (w ∷ ws) k,
    )

after_start-Inv :
    (result : Option Fault) (w : ℕ) (rest : List ℕ) (c : Coordinator)
    → c.startup ≡ Startup.waiting w rest
    → Inv c
    → Inv (after_start result rest c)
unfolding after_start
after_start-Inv (some error) w rest c e h =
    ground (arith, append-IsPrefix c.attempted c.workers rest)
after_start-Inv none w rest c e h =
    ground (arith, append-IsPrefix c.attempted c.workers rest, start_next-Inv rest c)

bind-Inv : (c d : Coordinator) → bind_application_close c ≡ returns tt d → Inv c → Inv d
unfolding bind_application_close
bind-Inv c d e h = ground arith

start-Inv : (c d : Coordinator) → start c ≡ returns tt d → Inv c → Inv d
unfolding start install_signal_handlers
start-Inv c d e h = ground (
  arith,
  start_next-Inv c.workers (record (install_signal_handlers c) { state = Lifecycle.starting }),
)

stop_each-started_workers :
    (ws : List ℕ) (calls : List Call) → started_workers (stop_each ws calls) ≡ started_workers calls
unfolding stop_each
stop_each-started_workers [] calls = refl
stop_each-started_workers (w ∷ ws) calls = stop_each-started_workers ws (Call.stop_worker w ∷ calls)

stop_all-Inv : (c : Coordinator) → StartHolds c.startup c → Inv (stop_all c)
unfolding stop_all invoke_stops_in_reverse
stop_all-Inv c h =
    ground (arith, stop_each-started_workers (reverse c.attempted) (Call.create_deadline ∷ c.calls))

request_stop-Inv : (c : Coordinator) → Inv c → Inv (request_stop c)
request_stop-Inv c h = request_stop_rule Inv c (λ _. h) (λ _. stop_all-Inv c h.0)

report_fatal-Inv : (error : Fault) (c : Coordinator) → Inv c → Inv (report_fatal error c)
unfolding report_fatal keep_fatal_cause
report_fatal-Inv error c h = request_stop-Inv (keep_fatal_cause error c) (ground arith)

finish_start-Inv :
    (result : Option Fault) (c : Coordinator)
    → c.startup ≡ Startup.settled result
    → Inv c
    → Inv (finish_start result c)
unfolding finish_start
finish_start-Inv none c e h = ground arith
finish_start-Inv (some error) c e h =
    request_stop-Inv (record c { startup = Startup.over (some error) }) (ground arith)

on_signal-Inv : (signal : String) (c : Coordinator) → Inv c → Inv (on_signal signal c)
unfolding on_signal
on_signal-Inv signal c h =
    ground (arith, request_stop-Inv (record c { is_first_signal_received = true }))

Step-Inv : {ws : List ℕ} {c d : Coordinator} → Reach ws c → Step c d → Inv c → Inv d
Step-Inv r (binds e) h = bind-Inv _ _ e h
Step-Inv r (starts e) h = start-Inv _ _ e h
Step-Inv r (launches w rest e f) h = rw f (launch-Inv w rest _ e h)
Step-Inv r (answers w rest result e f) h = rw f (after_start-Inv result w rest _ e h)
Step-Inv r (finishes result e f) h = rw f (finish_start-Inv result _ e h)
Step-Inv r (closes f) h = rw f (request_stop-Inv _ h)
Step-Inv r (fails error f) h = rw f (report_fatal-Inv error _ h)
Step-Inv r (signals signal e f) h = rw f (on_signal-Inv signal _ h)
Step-Inv r (drains first stops e e1 e2 f) h = rw f (end_drain-Inv _ _ h)
Step-Inv r (expires e f) h = rw f (end_drain-Inv _ _ h)
Step-Inv {c = c} r (ends p result e f) h =
    rw f (end_close-Inv p result c (closing-is_aborted r e) h)

Reach-Inv : {ws : List ℕ} {c : Coordinator} → Reach ws c → Inv c
Reach-Inv (here b) = ground arith
Reach-Inv (next r st) = Step-Inv r st (Reach-Inv r)

request_stop-workers : (c : Coordinator) → (request_stop c).workers ≡ c.workers
unfolding stop_all
request_stop-workers c = request_stop_rule (λ d. d.workers ≡ c.workers) c (λ _. refl) (λ _. refl)

start_next-workers : (ws : List ℕ) (c : Coordinator) → (start_next ws c).workers ≡ c.workers
unfolding start_next
start_next-workers [] c = refl
start_next-workers (w ∷ ws) c = ground arith

Step-workers : {c d : Coordinator} → Step c d → d.workers ≡ c.workers
unfolding bind_application_close start install_signal_handlers start_next launch after_start
    finish_start report_fatal keep_fatal_cause on_signal end_drain close_application_once end_close
    remove_signal_handlers
Step-workers {c = c} (binds e) = ground arith
Step-workers {c = c} (starts e) = ground (
  arith,
  start_next-workers c.workers (record (install_signal_handlers c) { state = Lifecycle.starting }),
)
Step-workers (launches w rest e f) = ap (λ c. c.workers) f
Step-workers {c = c} (answers w rest result e f) = ground (arith, start_next-workers rest c)
Step-workers {c = c} (finishes result e f) =
    ground (arith, request_stop-workers (record c { startup = Startup.over result }))
Step-workers {c = c} (closes f) = ap (λ c. c.workers) f ∙ request_stop-workers c
Step-workers {c = c} (fails error f) =
    ground (arith, request_stop-workers (keep_fatal_cause error c))
Step-workers {c = c} (signals signal e f) =
    ground (arith, request_stop-workers (record c { is_first_signal_received = true }))
Step-workers (drains first stops e e1 e2 f) = ground arith
Step-workers (expires e f) = ground arith
Step-workers (ends p result e f) = ground arith

workers-Reach : {ws : List ℕ} {c : Coordinator} → Reach ws c → c.workers ≡ ws
workers-Reach (here b) = refl
workers-Reach (next r st) = Step-workers st ∙ workers-Reach r

starts-IsPrefix : (c : Coordinator) → Inv c → IsPrefix (reverse (started_workers c.calls)) c.workers
starts-IsPrefix c h = go c.startup h.0
  where
    go : (s : Startup) → StartHolds s c → IsPrefix (reverse (started_workers c.calls)) c.workers
    go Startup.not_begun (e, f) = append-IsPrefix _ _ c.workers (rw f refl)
    go (Startup.launching w rest) (e, f) = append-IsPrefix _ _ (w ∷ rest) (
        f
        ∙ ap (λ xs. xs ++ rest) e
        ∙ append_assoc (reverse (started_workers c.calls)) (w ∷ []) rest)
    go (Startup.waiting w rest) (e, f) = append-IsPrefix _ _ rest (rw (← e) f)
    go (Startup.settled none) (e, k, _) = rw (← e) k
    go (Startup.settled (some _)) (e, k) = rw (← e) k
    go (Startup.over none) (e, k, _) = rw (← e) k
    go (Startup.over (some _)) (e, k) = rw (← e) k

-- In every reachable state the workers whose `start` was called are the first ones of the list, in
-- its order, and where the coordinator is running they are all of them.
pub Reach-starts :
    {ws : List ℕ} {c : Coordinator}
    → Reach ws c
    → IsPrefix (reverse (started_workers c.calls)) ws
      × (c.state ≡ Lifecycle.running → reverse (started_workers c.calls) ≡ ws)
Reach-starts {ws = ws} {c = c} r =
    let h = Reach-Inv r in
    let e = workers-Reach r in (rw (← e) (starts-IsPrefix c h), λ running. ground (arith, h, e))

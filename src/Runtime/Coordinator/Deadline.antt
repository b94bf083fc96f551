-- ===== src/Runtime/Coordinator/Deadline.antt =====
-- How the shutdown of the coordinator of `src/runtime/runtime-coordinator.ts` ends.
use mathlib.Core.List.{append-nil}
use telegram_news_agent.Prelude.{
  ℕ, ◌≤◌, ◌≡◌, ◌≢◌, refl, ap, false, Option, none, some, List, [], ◌∷◌, ◌++◌, map, length, keep,
  is_some, arith,
}
use telegram_news_agent.Runtime.Coordinator.{
  Lifecycle, Fault, Startup, Drain, CloseResult, StopFault, Shutdown, Coordinator, stop_all,
  request_stop, request_stop_rule,
}
use telegram_news_agent.Runtime.Coordinator.Ending.{
  rejected, start_results, end_drain, end_close, stop_result, fault_of, drain_errors_with,
}
use telegram_news_agent.Runtime.Coordinator.Phases.{Reach-PhaseHolds}
use telegram_news_agent.Runtime.Coordinator.Steps.{Step, Reach, next, closes, drains, expires, ends}

-- the deadline passes before what the shutdown is waiting for
pub expire : Shutdown → Coordinator → Coordinator
expire Shutdown.draining c = end_drain Drain.timed_out c
expire (Shutdown.closing first_phase) c = end_close first_phase CloseResult.timeout c
expire _ c = c

expire-Reach :
    {ws : List ℕ} (c : Coordinator) (s : Shutdown)
    → c.shutdown ≡ s
    → Reach ws c
    → Reach ws (expire s c)
unfolding expire
expire-Reach c Shutdown.not_requested e r = r
expire-Reach c Shutdown.draining e r = next r (expires e refl)
expire-Reach c (Shutdown.closing p) e r = next r (ends p CloseResult.timeout e refl)
expire-Reach c (Shutdown.done _) e r = r

abbrev pub expire_now : Coordinator → Coordinator
expire_now c = expire c.shutdown c

expires_twice :
    (c : Coordinator)
    → c.shutdown ≢ Shutdown.not_requested
    → (r : Option StopFault) × ((expire_now (expire_now c)).shutdown ≡ Shutdown.done r)
unfolding expire end_drain end_close
expires_twice c h = go c.shutdown refl
  where
    go :
        (s : Shutdown)
        → c.shutdown ≡ s
        → (r : Option StopFault) × ((expire_now (expire s c)).shutdown ≡ Shutdown.done r)
    go Shutdown.not_requested e = absurd (h e)
    go Shutdown.draining e = (_, refl)
    go (Shutdown.closing p) e = (_, refl)
    go (Shutdown.done r) e = (r, rw e refl)

requested : (c : Coordinator) → (request_stop c).shutdown ≢ Shutdown.not_requested
unfolding stop_all
requested c = request_stop_rule (λ d. d.shutdown ≢ Shutdown.not_requested) c (λ h. h) (λ _ f. cc f)

-- From every reachable state a requested shutdown comes to an end when the deadline has passed at
-- most twice, whatever the workers and the application do: the coordinator is then stopped, and has no signal handlers.
pub deadline_stops :
    {ws : List ℕ} {c : Coordinator}
    → Reach ws c
    → let d = expire_now (expire_now (request_stop c)) in
      Reach ws d × (d.state ≡ Lifecycle.stopped) × (d.has_handlers ≡ false)
deadline_stops {c = c} r =
    let s = request_stop c in
    let (result, e) = expires_twice s (requested c) in
    let after = expire-Reach _ _ refl (expire-Reach s _ refl (next r (closes refl))) in
    let h = Reach-PhaseHolds after in (after, ground (arith, e, h), ground (arith, e, h))

-- The failure of a shutdown for the given errors: none without any, a single one as it is, and more
-- of them together, in their order.
abbrev pub IsFailureOf : List (Option Fault) → Option StopFault → Type 0
IsFailureOf errors none = errors ≡ []
IsFailureOf errors (some StopFault.grace_exceeded) = ⊥
IsFailureOf errors (some (StopFault.single error)) = errors ≡ some error ∷ []
IsFailureOf errors (some (StopFault.aggregate all)) = (errors ≡ map some all) × (2 ≤ length errors)

abbrev pub close_result : Option Fault → CloseResult
close_result none = CloseResult.closed
close_result (some error) = CloseResult.close_error error

fault_of-IsFailureOf : (errors : List Fault) → IsFailureOf (map some errors) (fault_of errors)
unfolding fault_of
fault_of-IsFailureOf [] = refl
fault_of-IsFailureOf (e ∷ []) = refl
fault_of-IsFailureOf (e ∷ f ∷ errors) = (refl, omega arith)

rejected-append : (xs ys : List (Option Fault)) → rejected (xs ++ ys) ≡ rejected xs ++ rejected ys
rejected-append [] ys = refl
rejected-append (none ∷ xs) ys = rejected-append xs ys
rejected-append (some e ∷ xs) ys = ap (λ es. e ∷ es) (rejected-append xs ys)

rejected-keep : (xs : List (Option Fault)) → map some (rejected xs) ≡ keep is_some xs
rejected-keep [] = refl
rejected-keep (none ∷ xs) = rejected-keep xs
rejected-keep (some e ∷ xs) = ap (λ es. some e ∷ es) (rejected-keep xs)

stop_result-IsFailureOf :
    (results : List (Option Fault)) (close : Option Fault)
    → IsFailureOf
        (keep is_some (results ++ close ∷ []))
        (stop_result (Drain.drained (rejected results)) (close_result close))
unfolding stop_result drain_errors_with
stop_result-IsFailureOf results none =
    rw
      (
        ← rejected-keep (results ++ none ∷ []),
        rejected-append results (none ∷ []),
        append-nil (rejected results),
      )
      (fault_of-IsFailureOf (rejected results))
stop_result-IsFailureOf results (some error) =
    rw (← rejected-keep (results ++ some error ∷ []), rejected-append results (some error ∷ []))
      (fault_of-IsFailureOf (rejected results ++ error ∷ []))

-- The promise of `startWorkers` that a shutdown waits for: none where the coordinator was never
-- started, and otherwise the one that has settled.
abbrev pub Awaits : Startup → List (Option Fault) → Type 0
Awaits Startup.not_begun started = started ≡ []
Awaits (Startup.settled result) started = started ≡ result ∷ []
Awaits (Startup.over result) started = started ≡ result ∷ []
Awaits _ started = ⊥

start_results-Awaits :
    (startup : Startup) {started : List (Option Fault)}
    → Awaits startup started
    → start_results startup ≡ some started
start_results-Awaits Startup.not_begun h = cc
start_results-Awaits (Startup.launching w rest) h = absurd h
start_results-Awaits (Startup.waiting w rest) h = absurd h
start_results-Awaits (Startup.settled result) h = cc
start_results-Awaits (Startup.over result) h = cc

-- A shutdown that is draining, with the result of the started workers' promise where there is one,
-- that of the stop of each worker whose start was attempted, and that of the close of the
-- application, can go on to its drained phase and then to its end. It ends with the failure for
-- exactly the errors among those results, each as often as it stands there and in their order:
-- without a failure where there is no error, with the error itself where it is a single one, and
-- otherwise with all of them together; never with that of an exceeded grace period.
pub drained_failure :
    {c : Coordinator} (started stops : List (Option Fault)) (close : Option Fault)
    → c.shutdown ≡ Shutdown.draining
    → Awaits c.startup started
    → length stops ≡ length c.attempted
    → let d = end_drain (Drain.drained (rejected (started ++ stops))) c in
      let e = end_close (Drain.drained (rejected (started ++ stops))) (close_result close) d in
      Step c d
      × Step d e
      × (r : Option StopFault) × (e.shutdown ≡ Shutdown.done r)
      × IsFailureOf (keep is_some ((started ++ stops) ++ close ∷ [])) r
unfolding end_drain end_close
drained_failure {c} started stops close h a n =
    let results : List (Option Fault) = started ++ stops in
    (
      drains started stops h (start_results-Awaits c.startup a) n refl,
      ends (Drain.drained (rejected results)) (close_result close) refl refl,
      stop_result (Drain.drained (rejected results)) (close_result close),
      refl,
      stop_result-IsFailureOf results close,
    )

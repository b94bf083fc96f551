-- ===== src/Runtime/Tests.antt =====
-- A coordinator of two workers, `src/runtime/runtime-coordinator.ts`, and the theorems at a run of it.
use mathlib.Core.List.{reverse}
use telegram_news_agent.Prelude.{
  ℕ, ◌≡◌, refl, true, false, Option, none, some, List, [], ◌∷◌, keep, is_some,
}
use telegram_news_agent.Runtime.Coordinator.{
  Lifecycle, Drain, StopFault, Shutdown, Coordinator, new, request_stop, start_next,
  install_signal_handlers, start, launch, after_start, finish_start,
}
use telegram_news_agent.Runtime.Coordinator.Ending.{rejected, end_drain, end_close}
use telegram_news_agent.Runtime.Coordinator.Steps.{
  Step, Reach, here, next, starts, launches, answers, finishes, closes, drains,
}
use telegram_news_agent.Runtime.Coordinator.Phases.{PhaseHolds, Reach-PhaseHolds}
use telegram_news_agent.Runtime.Coordinator.Startups.{started_workers, IsPrefix, Reach-starts}
use telegram_news_agent.Runtime.Coordinator.Deadline.{
  expire_now, deadline_stops, IsFailureOf, close_result, drained_failure,
}

abbrev two_workers : List ℕ
two_workers = 1 ∷ 2 ∷ []

abbrev created : Coordinator
created = new two_workers true

abbrev begun : Coordinator
begun =
    start_next two_workers (record (install_signal_handlers created) { state = Lifecycle.starting })

abbrev first_started : Coordinator
first_started = after_start none (2 ∷ []) (launch 1 (2 ∷ []) begun)

abbrev running : Coordinator
running = finish_start none (after_start none [] (launch 2 [] first_started))

running-Reach : Reach two_workers running
unfolding start start_next install_signal_handlers launch after_start
running-Reach =
    next
      (next
        (next
          (next (next (next (here true) (starts refl)) (launches 1 (2 ∷ []) refl refl))
            (answers 1 (2 ∷ []) none refl refl))
          (launches 2 [] refl refl))
        (answers 2 [] none refl refl))
      (finishes none refl refl)

abbrev drained : Coordinator
drained = end_drain (Drain.drained []) (request_stop running)

drained-Reach : Reach two_workers drained
unfolding start_next install_signal_handlers launch after_start finish_start request_stop
drained-Reach =
    next (next running-Reach (closes refl))
      (drains (none ∷ []) (none ∷ none ∷ []) refl refl refl refl)

Reach-PhaseHolds_example : PhaseHolds drained.shutdown drained
Reach-PhaseHolds_example = Reach-PhaseHolds drained-Reach

Reach-starts_example :
    IsPrefix (reverse (started_workers running.calls)) two_workers
    × (running.state ≡ Lifecycle.running → reverse (started_workers running.calls) ≡ two_workers)
Reach-starts_example = Reach-starts running-Reach

deadline_stops_example :
    let d = expire_now (expire_now (request_stop running)) in
    Reach two_workers d × (d.state ≡ Lifecycle.stopped) × (d.has_handlers ≡ false)
deadline_stops_example = deadline_stops running-Reach

-- the stop of the first worker fails, and so does the close
drained_failure_example :
    let c = request_stop running in
    let d = end_drain (Drain.drained (rejected (none ∷ some "stop" ∷ none ∷ []))) c in
    let e =
      end_close
        (Drain.drained (rejected (none ∷ some "stop" ∷ none ∷ [])))
        (close_result (some "close"))
        d in
    Step c d
    × Step d e
    × (r : Option StopFault) × (e.shutdown ≡ Shutdown.done r)
    × IsFailureOf (keep is_some (none ∷ some "stop" ∷ none ∷ some "close" ∷ [])) r
unfolding start_next install_signal_handlers launch after_start finish_start request_stop
drained_failure_example =
    drained_failure {c = request_stop running} (none ∷ []) (some "stop" ∷ none ∷ []) (some "close")
      refl refl refl

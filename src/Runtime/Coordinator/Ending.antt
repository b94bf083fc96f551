-- ===== src/Runtime/Coordinator/Ending.antt =====
-- `stopAll` of `src/runtime/runtime-coordinator.ts` after its first `await`.
use telegram_news_agent.Prelude.{true, false, Option, none, some, List, [], ◌∷◌, ◌++◌}
use telegram_news_agent.Runtime.Coordinator.{
  Lifecycle, Fault, Call, Startup, Drain, CloseResult, StopFault, Shutdown, Coordinator,
}

-- the rejected ones of the settled promises
abbrev pub rejected : List (Option Fault) → List Fault
rejected [] = []
rejected (none ∷ results) = rejected results
rejected (some error ∷ results) = error ∷ rejected results

-- The drained promises begin with that of `startWorkers`, where it was called. Without an answer
-- it has not settled.
abbrev pub start_results : Startup → Option (List (Option Fault))
start_results Startup.not_begun = some []
start_results (Startup.launching w rest) = none
start_results (Startup.waiting w rest) = none
start_results (Startup.settled result) = some (result ∷ [])
start_results (Startup.over result) = some (result ∷ [])

unfoldable pub close_application_once : Coordinator → Coordinator
close_application_once c = elim c.is_close_called [
  | true ↦ c
  | false ↦ record c { is_close_called = true; calls = Call.close_application ∷ c.calls }
]

-- the first race has ended
unfoldable pub end_drain : Drain → Coordinator → Coordinator
unfolding close_application_once
end_drain first_phase c = record (close_application_once c) {
  shutdown = Shutdown.closing first_phase;
}

unfoldable pub drain_errors_with : List Fault → CloseResult → List Fault
drain_errors_with errors (CloseResult.close_error error) = errors ++ (error ∷ [])
drain_errors_with errors _ = errors

unfoldable pub fault_of : List Fault → Option StopFault
fault_of [] = none
fault_of (error ∷ []) = some (StopFault.single error)
fault_of errors = some (StopFault.aggregate errors)

unfoldable pub stop_result : Drain → CloseResult → Option StopFault
unfolding drain_errors_with fault_of
stop_result Drain.timed_out _ = some StopFault.grace_exceeded
stop_result (Drain.drained errors) CloseResult.timeout = some StopFault.grace_exceeded
stop_result (Drain.drained errors) result = fault_of (drain_errors_with errors result)

unfoldable pub remove_signal_handlers : Coordinator → Coordinator
remove_signal_handlers c = elim c.has_handlers [
  | true ↦ record c { has_handlers = false; calls = Call.remove_handlers ∷ c.calls }
  | false ↦ c
]

-- the second race has ended
unfoldable pub end_close : Drain → CloseResult → Coordinator → Coordinator
unfolding remove_signal_handlers stop_result
end_close first_phase result c =
    record (remove_signal_handlers (record c { calls = Call.cancel_deadline ∷ c.calls })) {
      state = Lifecycle.stopped;
      shutdown = Shutdown.done (stop_result first_phase result);
    }

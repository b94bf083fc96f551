-- ===== src/Runtime/Coordinator/Steps.antt =====
-- What can happen to a `RuntimeCoordinator` of `src/runtime/runtime-coordinator.ts`: the calls of its
-- methods, the signals, and the promises that settle, in any order that the code allows.
use telegram_news_agent.Prelude.{ℕ, String, Bool, true, Option, some, List, ◌≡◌, ◌++◌, length}
use telegram_news_agent.Effects.{returns}
use telegram_news_agent.Runtime.Coordinator.{
  Fault, Startup, Drain, CloseResult, Shutdown, Coordinator, new, request_stop, report_fatal,
  bind_application_close, start, launch, after_start, finish_start, on_signal,
}
use telegram_news_agent.Runtime.Coordinator.Ending.{rejected, start_results, end_drain, end_close}

-- A call that throws leaves the coordinator as it is.
pub data Step (c d : Coordinator) : Type 0 where
  binds : bind_application_close c ≡ returns tt d → Step c d
  starts : start c ≡ returns tt d → Step c d
  launches :
      (w : ℕ) (rest : List ℕ)
      → c.startup ≡ Startup.launching w rest
      → d ≡ launch w rest c
      → Step c d
  answers :
      (w : ℕ) (rest : List ℕ) (result : Option Fault)
      → c.startup ≡ Startup.waiting w rest
      → d ≡ after_start result rest c
      → Step c d
  finishes :
      (result : Option Fault)
      → c.startup ≡ Startup.settled result
      → d ≡ finish_start result c
      → Step c d
  closes : d ≡ request_stop c → Step c d
  fails : (error : Fault) → d ≡ report_fatal error c → Step c d
  signals : (signal : String) → c.has_handlers ≡ true → d ≡ on_signal signal c → Step c d
  drains :
      (first stops : List (Option Fault))
      → c.shutdown ≡ Shutdown.draining
      → start_results c.startup ≡ some first
      → length stops ≡ length c.attempted
      → d ≡ end_drain (Drain.drained (rejected (first ++ stops))) c
      → Step c d
  expires : c.shutdown ≡ Shutdown.draining → d ≡ end_drain Drain.timed_out c → Step c d
  ends :
      (first_phase : Drain) (result : CloseResult)
      → c.shutdown ≡ Shutdown.closing first_phase
      → d ≡ end_close first_phase result c
      → Step c d

-- the states that a new coordinator can come to
pub data Reach (workers : List ℕ) : Coordinator → Type 0 where
  here : (is_close_bound : Bool) → Reach workers (new workers is_close_bound)
  next : {c d : Coordinator} → Reach workers c → Step c d → Reach workers d

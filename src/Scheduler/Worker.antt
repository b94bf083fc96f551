-- ===== src/Scheduler/Worker.antt =====
-- `runNewsSchedulerLoop` and `schedulerIterationErrorCode` of `src/scheduler/news-scheduler-worker.ts`.
-- The loop runs until its signal aborts, so it takes the number of iterations to look at.
pub mod Pace
use Prim.Native.Char.{Char, code}
use telegram_news_agent.Prelude.{
  ℕ, zero, suc, String, Bool, true, false, ◌&&◌, ◌||◌, Option, none, some, List, [], ◌∷◌, ltb, leb,
  ◌==◌, if◌then◌else◌, get_or,
}
use telegram_news_agent.Prelude.Text.{all_chars, size, within, is_digit}
use telegram_news_agent.Effects.{Outcome, returns, throws, Io, pure, throw, ◌>>=◌, ◌>>◌}
use telegram_news_agent.Scheduler.Backoff.{backoff_delay}

-- A thrown value, by its `code` property where that is a string.
pub record Thrown : Type 0 where
  pub code : Option String

pub data RunStatus : Type 0 where
  idle failed other_status : RunStatus

pub record RunResult : Type 0 where
  pub status : RunStatus
  pub error_code : Option String

-- What the loop does outside, the log lines included.
pub data Event : Type 0 where
  run : Event
  slept : ℕ → Event
  iteration_failed : String → ℕ → Event
  run_failed : String → Event
  completed : RunStatus → Event

pub record Loop (W : Type 0) : Type 0 where
  pub world : W
  pub failures : ℕ
  pub events : List Event

pub record Ports (W : Type 0) : Type 0 where
  pub is_aborted : W → Bool
  pub run_once : W → Outcome Thrown W RunResult
  pub sleep : ℕ → W → Outcome Thrown W (Unit {0})
  pub random : W → ℕ

abbrev pub Action : Type 0 → Type 0 → Type 0
Action W A = Io Thrown (Loop W) A

-- Where an iteration ends: at a `break`, or at the end of the loop's body.
pub data Flow : Type 0 where
  stop go_on : Flow

-- `[a-z0-9_]`
abbrev pub is_code_char : Char → Bool
is_code_char c = within b'a' b'z' (code c) || is_digit c || code c == b'_'

-- `/^[a-z0-9_]{1,64}$/u.test(code)`
unfoldable pub is_stable_code : String → Bool
is_stable_code s = all_chars is_code_char s && ltb 0 (size s) && leb (size s) 64

unfoldable pub stable_or_default : Option String → String
stable_or_default none = "scheduler_unavailable"
stable_or_default (some c) = if is_stable_code c then c else "scheduler_unavailable"

pub iteration_error_code : Thrown → String
iteration_error_code error = stable_or_default error.code

module _ {W : Type 0} where
  abbrev pub note : Event → Loop W → Loop W
  note event s = record s { events = event ∷ s.events }

  -- the log lines for a run that was not idle
  pub report : RunResult → Loop W → Loop W
  report result s = elim result.status [
    | idle ↦ s
    | failed ↦
        note (completed failed)
          (note (run_failed (get_or result.error_code "scheduled_run_failed")) s)
    | other_status ↦ note (completed other_status) s
  ]

  abbrev pub unless_stopped : Action W Flow → Flow → Action W Flow
  unless_stopped rest stop = pure stop
  unless_stopped rest go_on = rest

module _ {W : Type 0} (p : Ports W) (poll_interval : ℕ) where
  pub wake : Outcome Thrown W (Unit {0}) → ℕ → Action W Flow
  wake (returns _ w) delay s =
      returns go_on (record s { world = w; events = slept delay ∷ s.events })
  wake (throws e w) delay s =
      (if p.is_aborted w then pure stop else throw e)
        (record s { world = w; events = slept delay ∷ s.events })

  pub delay_of : Loop W → ℕ
  delay_of s =
      if s.failures == 0
      then poll_interval
      else backoff_delay s.failures (p.random s.world) poll_interval

  -- the end of the loop's body
  pub pause : Action W Flow
  unfolding wake
  pause s =
      if p.is_aborted s.world
      then returns stop s
      else wake (p.sleep (delay_of s) s.world) (delay_of s) s

  pub after_run : Outcome Thrown W RunResult → Action W Flow
  after_run (returns result w) s =
      pause (report result (record { world = w; failures = 0; events = run ∷ s.events }))
  after_run (throws e w) s =
      if p.is_aborted w
      then returns stop (record s { world = w; events = run ∷ s.events })
      else pause (record {
        world = w;
        failures = suc s.failures;
        events = iteration_failed (iteration_error_code e) (suc s.failures) ∷ run ∷ s.events;
      })

  pub iteration : Action W Flow
  iteration s = if p.is_aborted s.world then returns stop s else after_run (p.run_once s.world) s

  -- `stop` where the loop ended, `go_on` where it still runs after so many iterations
  pub loop : ℕ → Action W Flow
  loop zero = pure go_on
  loop (suc n) = iteration >>= unless_stopped (loop n)

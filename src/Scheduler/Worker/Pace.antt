-- ===== src/Scheduler/Worker/Pace.antt =====
-- What the loop of `src/scheduler/news-scheduler-worker.ts` keeps up for as long as it runs.
use telegram_news_agent.Prelude.{
  ℕ, zero, suc, ◌≤◌, ◌<◌, ◌≡◌, refl, String, Bool, true, false, ◌&&◌, List, [], ◌∷◌, Option, none,
  some, leb, max, arith, inl, inr, Bool-cases,
}
use telegram_news_agent.Effects.{Outcome, returns, throws}
use telegram_news_agent.Effects.Rules.{Ensures, Ensures-continue}
use telegram_news_agent.Scheduler.Backoff.{max_backoff_ms, backoff_delay_bounds}
use telegram_news_agent.Scheduler.Worker.{
  Thrown, RunResult, Event, run, slept, iteration_failed, Loop, Ports, Flow, stop, go_on,
  is_stable_code, stable_or_default, iteration_error_code, report, wake, delay_of, pause, after_run,
  unless_stopped, iteration, loop,
}

-- The latest event is a wait, or there is none.
abbrev pub is_rested : List Event → Bool
is_rested [] = true
is_rested (slept _ ∷ _) = true
is_rested _ = false

-- Every run comes first or directly after a wait, and every wait keeps the bounds.
unfoldable pub is_paced : ℕ → List Event → Bool
is_paced c [] = true
is_paced c (run ∷ rest) = is_rested rest && is_paced c rest
is_paced c (slept ms ∷ rest) = leb c ms && leb ms (max c max_backoff_ms) && is_paced c rest
is_paced c (_ ∷ rest) = is_paced c rest

-- Every failed iteration is logged under a stable code.
unfoldable pub has_stable_codes : List Event → Bool
has_stable_codes [] = true
has_stable_codes (iteration_failed code _ ∷ rest) = is_stable_code code && has_stable_codes rest
has_stable_codes (_ ∷ rest) = has_stable_codes rest

default-stable : is_stable_code "scheduler_unavailable" ≡ true
unfolding is_stable_code
default-stable = refl

stable_or_default-stable : (code : Option String) → is_stable_code (stable_or_default code) ≡ true
unfolding stable_or_default
stable_or_default-stable none = default-stable
stable_or_default-stable (some c) = elim (Bool-cases (is_stable_code c)) [
  | inl e ↦ ground (arith, e)
  | inr e ↦ ground (arith, e, default-stable)
]

module _ {W : Type 0} (p : Ports W) (poll_interval : ℕ) where
  delay_of_bounds :
      (s : Loop W)
      → (0 < poll_interval)
      → (poll_interval ≤ delay_of p poll_interval s)
        × (delay_of p poll_interval s ≤ max poll_interval max_backoff_ms)
  unfolding delay_of
  delay_of_bounds s h =
      ground (arith, backoff_delay_bounds s.failures (p.random s.world) poll_interval)

  -- The loop's invariant at the head of its body, and what holds anywhere else.
  abbrev pub IsReady : Flow → Loop W → Type 0
  IsReady stop s = is_paced poll_interval s.events ≡ true
  IsReady go_on s = (is_paced poll_interval s.events ≡ true) × (is_rested s.events ≡ true)

  abbrev pub StaysPaced : Outcome Thrown (Loop W) Flow → Type 0
  StaysPaced = Ensures IsReady (λ _ t. is_paced poll_interval t.events ≡ true)

  module _ (positive : 0 < poll_interval) where
    pause-StaysPaced :
        (s : Loop W)
        → (is_paced poll_interval s.events ≡ true)
        → StaysPaced (pause p poll_interval s)
    unfolding pause wake is_paced
    pause-StaysPaced s h = ground (arith, h, delay_of_bounds s positive)

    after_run-StaysPaced :
        (o : Outcome Thrown W RunResult) (s : Loop W)
        → IsReady go_on s
        → StaysPaced (after_run p poll_interval o s)
    unfolding after_run report is_paced
    after_run-StaysPaced (returns result w) s h =
        pause-StaysPaced
          (report result (record { world = w; failures = 0; events = run ∷ s.events }))
          (ground (arith, h))
    after_run-StaysPaced (throws e w) s h = ground (
      arith,
      h,
      pause-StaysPaced (record {
        world = w;
        failures = suc s.failures;
        events = iteration_failed (iteration_error_code e) (suc s.failures) ∷ run ∷ s.events;
      }),
    )

    iteration-StaysPaced : (s : Loop W) → IsReady go_on s → StaysPaced (iteration p poll_interval s)
    unfolding iteration
    iteration-StaysPaced s h = ground (arith, h, after_run-StaysPaced (p.run_once s.world) s h)

    -- what follows an iteration
    around :
        (n : ℕ)
        → ((s : Loop W) → IsReady go_on s → StaysPaced (loop p poll_interval n s))
        → (flow : Flow) (s : Loop W) → IsReady flow s
        → StaysPaced (unless_stopped (loop p poll_interval n) flow s)
    around n ih stop s h = h
    around n ih go_on s h = ih s h

    -- Where the poll interval is positive and the events so far are paced and end with a wait or
    -- are none: however often the loop goes around, and whether it stops, throws or goes on, it
    -- never runs the scheduler twice without a wait in between, and each wait is at least the poll
    -- interval and at most the five-minute ceiling, or the poll interval if that is longer.
    pub loop_paces : (n : ℕ) (s : Loop W) → IsReady go_on s → StaysPaced (loop p poll_interval n s)
    unfolding loop
    loop_paces zero s h = h
    loop_paces (suc n) s h =
        Ensures-continue IsReady IsReady (λ _ t. is_paced poll_interval t.events ≡ true)
          (iteration p poll_interval s) _ (iteration-StaysPaced s h) (around n (loop_paces n))

  -- what the log keeps
  abbrev pub KeepsCodes : Outcome Thrown (Loop W) Flow → Type 0
  KeepsCodes =
      Ensures (λ _ t. has_stable_codes t.events ≡ true) (λ _ t. has_stable_codes t.events ≡ true)

  pause-KeepsCodes :
      (s : Loop W) → has_stable_codes s.events ≡ true → KeepsCodes (pause p poll_interval s)
  unfolding pause wake has_stable_codes
  pause-KeepsCodes s h = ground (arith, h)

  after_run-KeepsCodes :
      (o : Outcome Thrown W RunResult) (s : Loop W)
      → has_stable_codes s.events ≡ true
      → KeepsCodes (after_run p poll_interval o s)
  unfolding after_run report has_stable_codes iteration_error_code
  after_run-KeepsCodes (returns result w) s h =
      pause-KeepsCodes (report result (record { world = w; failures = 0; events = run ∷ s.events }))
        (ground (arith, h))
  after_run-KeepsCodes (throws e w) s h = ground (
    arith,
    h,
    stable_or_default-stable e.code,
    pause-KeepsCodes (record {
      world = w;
      failures = suc s.failures;
      events = iteration_failed (iteration_error_code e) (suc s.failures) ∷ run ∷ s.events;
    }),
  )

  iteration-KeepsCodes :
      (s : Loop W) → has_stable_codes s.events ≡ true → KeepsCodes (iteration p poll_interval s)
  unfolding iteration
  iteration-KeepsCodes s h = ground (arith, h, after_run-KeepsCodes (p.run_once s.world) s h)

  go_around :
      (n : ℕ)
      → ((s : Loop W) → has_stable_codes s.events ≡ true → KeepsCodes (loop p poll_interval n s))
      → (flow : Flow) (s : Loop W) → has_stable_codes s.events ≡ true
      → KeepsCodes (unless_stopped (loop p poll_interval n) flow s)
  go_around n ih stop s h = h
  go_around n ih go_on s h = ih s h

  -- However often the loop goes around, every failed iteration in the log has a code of 1 to 64
  -- lower-case letters, digits and underscores, whatever was thrown, if this holds of the log at
  -- the start.
  pub loop_logs_codes :
      (n : ℕ) (s : Loop W)
      → has_stable_codes s.events ≡ true
      → KeepsCodes (loop p poll_interval n s)
  unfolding loop
  loop_logs_codes zero s h = h
  loop_logs_codes (suc n) s h =
      Ensures-continue (λ _ t. has_stable_codes t.events ≡ true)
        (λ _ t. has_stable_codes t.events ≡ true) (λ _ t. has_stable_codes t.events ≡ true)
        (iteration p poll_interval s) _ (iteration-KeepsCodes s h) (go_around n (loop_logs_codes n))

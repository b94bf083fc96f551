-- ===== src/Scheduler/Backoff.antt =====
-- `newsSchedulerBackoffDelay` of `src/scheduler/news-scheduler-worker.ts`. The poll interval is a
-- whole number of milliseconds, 0 for one that is not positive. `random()` is `r / 2 ^ 53`, clamped
-- as the code does; the product is taken exactly, where the code rounds it to a double.
use telegram_news_agent.Prelude.{
  ℕ, zero, suc, ◌+◌, ◌-◌, ◌*◌, ◌/◌, ◌^◌, ◌≤◌, ◌≡◌, arith, min, max, ltb, ◌==◌, if◌then◌else◌,
}

abbrev pub poll_interval_ms : ℕ
poll_interval_ms = 30000

abbrev pub max_backoff_ms : ℕ
max_backoff_ms = 300000

abbrev pub random_range : ℕ
random_range = 9007199254740992

abbrev pub cadence_of : ℕ → ℕ
cadence_of poll_interval = if ltb 0 poll_interval then poll_interval else poll_interval_ms

abbrev pub ceiling : ℕ → ℕ → ℕ
ceiling cadence failures = max cadence (min max_backoff_ms (cadence * 2 ^ min failures 6))

unfoldable pub backoff_delay : ℕ → ℕ → ℕ → ℕ
backoff_delay failures r poll_interval =
    let cadence = cadence_of poll_interval in
    if failures == 0
    then cadence
    else cadence + min r random_range * (ceiling cadence failures - cadence) / random_range

mul-le : (a b c : ℕ) → a ≤ b → a * c ≤ b * c
mul-le a b zero h = omega arith
mul-le a b (suc c) h = omega (arith, mul-le a b c h)

share-le : (r spread : ℕ) → min r random_range * spread / random_range ≤ spread
share-le r spread = ground (arith, mul-le (min r random_range) random_range spread (ground arith))

-- A delay is at least the cadence, which is the poll interval or the default one, and at most the
-- five-minute ceiling or the cadence, if that is longer. Without failures it is the cadence.
pub backoff_delay_bounds :
    (failures r poll_interval : ℕ)
    → (cadence_of poll_interval ≤ backoff_delay failures r poll_interval)
      × (backoff_delay failures r poll_interval ≤ max (cadence_of poll_interval) max_backoff_ms)
      × (backoff_delay 0 r poll_interval ≡ cadence_of poll_interval)
unfolding backoff_delay
backoff_delay_bounds failures r poll_interval =
    ground
      (arith, share-le r (ceiling (cadence_of poll_interval) failures - cadence_of poll_interval))

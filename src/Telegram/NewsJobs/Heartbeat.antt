-- ===== src/Telegram/NewsJobs/Heartbeat.antt =====
-- The heartbeat of a claimed job is started once and stopped once, however the iteration ends.
use telegram_news_agent.Prelude.{
  ℕ, suc, ◌+◌, ◌≤◌, ◌≡◌, refl, Bool, true, false, not, ◌∷◌, Option, none, some, arith, count,
  indicator,
}
use telegram_news_agent.Effects.{Outcome, returns, throws, continue}
use telegram_news_agent.Effects.Rules.{Ensures, Moves}
use telegram_news_agent.Telegram.NewsJobs.{
  Phase, execution, delivery, Job, Fault, RunResult, Call, Ports, State, execute, deliver,
  run_phase, finally_stop, run_claimed, run_once, noted,
}

abbrev pub is_start : Call → Bool
is_start Call.set_interval = true
is_start _ = false

abbrev pub is_stop : Call → Bool
is_stop Call.clear_interval = true
is_stop _ = false

abbrev pub starts : {W : Type 0} → State W → ℕ
starts s = count is_start s.calls

abbrev pub stops : {W : Type 0} → State W → ℕ
stops s = count is_stop s.calls

-- What a phase may do to the heartbeat: stop it once.
abbrev OwnsHeartbeat : {W : Type 0} → State W → State W → Type 0
OwnsHeartbeat s t =
    (stops t + indicator (not t.is_cleared) ≡ stops s + indicator (not s.is_cleared))
    × (starts t ≡ starts s)

module _ {W : Type 0} (p : Ports W) where
  execute-OwnsHeartbeat : (job : Job) → Moves OwnsHeartbeat (execute p job)
  unfolding execute
  execute-OwnsHeartbeat job s = ground arith

  deliver-OwnsHeartbeat : (job : Job) → Moves OwnsHeartbeat (deliver p job)
  unfolding deliver
  deliver-OwnsHeartbeat job s = ground arith

  run_phase-OwnsHeartbeat :
      (phase : Phase) (job : Job) → Moves OwnsHeartbeat (run_phase p phase job)
  unfolding run_phase
  run_phase-OwnsHeartbeat execution job = execute-OwnsHeartbeat job
  run_phase-OwnsHeartbeat delivery job = deliver-OwnsHeartbeat job

  abbrev Balanced : State W → State W → Type 0
  Balanced s t = (stops t + starts s ≡ stops s + starts t) × (starts t ≤ suc (starts s))

  finally_stop-Balanced :
      (s u : State W) (o : Outcome Fault (State W) RunResult)
      → u.is_cleared ≡ false
      → starts u ≡ suc (starts s)
      → stops u ≡ stops s
      → Ensures (λ _ t. OwnsHeartbeat u t) (λ _ t. OwnsHeartbeat u t) o
      → Ensures (λ _ t. Balanced s t) (λ _ t. Balanced s t) (finally_stop p o)
  unfolding finally_stop
  finally_stop-Balanced s u (returns r t) c a b h = ground arith
  finally_stop-Balanced s u (throws e t) c a b h = ground arith

  run_claimed-Balanced : (job : Option Job) → Moves Balanced (run_claimed p job)
  unfolding run_claimed
  run_claimed-Balanced none s = ground arith
  run_claimed-Balanced (some job) s =
      let u : State W = record {
        world = p.set_interval s.world;
        calls = Call.set_interval ∷ s.calls;
        is_cleared = false;
      } in
      finally_stop-Balanced s u (run_phase p job.claim_phase job u) refl refl refl
        (run_phase-OwnsHeartbeat job.claim_phase job u)

  claimed-Balanced :
      (s : State W) (o : Outcome Fault W (Option Job))
      → Ensures
          (λ _ t. Balanced s t)
          (λ _ t. Balanced s t)
          (continue (noted s (λ _. Call.claim_next) o) (run_claimed p))
  claimed-Balanced s (returns job w) =
      let t : State W = record s { world = w; calls = Call.claim_next ∷ s.calls } in
      run_claimed-Balanced job t
  claimed-Balanced s (throws e w) = ground arith

  -- In every iteration the heartbeat is started at most once, and stopped as often as it is
  -- started, whether the iteration returns or throws.
  pub run_once-Balanced :
      (s : State W)
      → Ensures
          (λ _ t. (stops t + starts s ≡ stops s + starts t) × (starts t ≤ suc (starts s)))
          (λ _ t. (stops t + starts s ≡ stops s + starts t) × (starts t ≤ suc (starts s)))
          (run_once p s)
  unfolding run_once
  run_once-Balanced s = ground (arith, claimed-Balanced s (p.claim_next s.world))

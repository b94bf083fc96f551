-- ===== src/Scheduler/Ownership/Stopping.antt =====
-- When the schedule's heartbeat of `src/scheduler/application/run-scheduled-news-once.use-case.ts` is
-- stopped, and that nothing but a new heartbeat starts it again.
use telegram_news_agent.Prelude.{ℕ, zero, suc, ◌≡◌, Bool, true, false, ◌∷◌, arith, if◌then◌else◌}
use telegram_news_agent.Effects.{Outcome, returns, throws, catch, attempt, settle, handle, ◌>>=◌}
use telegram_news_agent.Effects.Rules.{Ensures, Ensures-continue, Ensures-skip, Moves, Moves-bind}
use telegram_news_agent.Scheduler.Errors.{Fault}
use telegram_news_agent.Scheduler.Contracts.{Owner, schedule, pipeline, Call, Ports}
use telegram_news_agent.Scheduler.Ownership.{
  State, Action, state_after, assert_owned, renew, fire, beat, beats, resumed, perform, stop,
  check_signal,
}

module _ {W : Type 0} where
  abbrev pub IsStopped : State W → Type 0
  IsStopped s = s.schedule_heartbeat.is_stopped ≡ true

  -- A stopped heartbeat stays stopped.
  abbrev pub Grows : State W → State W → Type 0
  Grows s t = IsStopped s → IsStopped t

  abbrev pub Keeps : {A : Type 0} → Action W A → Type 0
  Keeps m = Moves Grows m

  -- Where the action returns, the heartbeat is stopped.
  abbrev pub Stops : {A : Type 0} → Action W A → Type 0
  Stops m = (s : State W) → Ensures (λ _ t. IsStopped t) (λ _ _. Unit) (m s)

  -- The heartbeat is stopped whether the action returns or throws.
  abbrev pub StopsBoth : {A : Type 0} → Action W A → Type 0
  StopsBoth m = (s : State W) → Ensures (λ _ t. IsStopped t) (λ _ t. IsStopped t) (m s)

  pub Keeps-then :
      {A B : Type 0} (m : Action W A) (f : A → Action W B)
      → Keeps m
      → ((a : A) → Keeps (f a))
      → Keeps (m >>= f)
  Keeps-then m f h k = Moves-bind Grows (λ s t u g i x. i (g x)) m f h k

  pub Keeps-catch :
      {A : Type 0} (m : Action W A) (h : Fault → Action W A)
      → Keeps m
      → ((e : Fault) → Keeps (h e))
      → Keeps (catch m h)
  Keeps-catch {A = A} m h k l s = go (m s) (k s)
    where
      widen :
          (t : State W) (g : Grows s t) (o : Outcome Fault (State W) A)
          → Ensures (λ _ u. Grows t u) (λ _ u. Grows t u) o
          → Ensures (λ _ u. Grows s u) (λ _ u. Grows s u) o
      widen t g (returns a u) q = λ x. q (g x)
      widen t g (throws e u) q = λ x. q (g x)

      go :
          (o : Outcome Fault (State W) A)
          → Ensures (λ _ t. Grows s t) (λ _ t. Grows s t) o
          → Ensures (λ _ u. Grows s u) (λ _ u. Grows s u) (handle o h)
      go (returns a t) q = q
      go (throws e t) q = widen t q (h e t) (l e t)

  -- the heartbeat is stopped before the rest
  pub IsStopped-then :
      {A : Type 0} (o : Outcome Fault (State W) A) (t : State W)
      → IsStopped t
      → Ensures (λ _ u. Grows t u) (λ _ u. Grows t u) o
      → Ensures (λ _ u. IsStopped u) (λ _ u. IsStopped u) o
  IsStopped-then (returns a u) t x q = q x
  IsStopped-then (throws e u) t x q = q x

  pub forget :
      {A : Type 0} (o : Outcome Fault (State W) A)
      → Ensures (λ _ u. IsStopped u) (λ _ u. IsStopped u) o
      → Ensures (λ _ u. IsStopped u) (λ _ _. Unit) o
  forget (returns a u) q = q
  forget (throws e u) q = tt

  pub Stops-then :
      {A B : Type 0} (m : Action W A) (f : A → Action W B)
      → Stops m
      → ((a : A) → Keeps (f a))
      → Stops (m >>= f)
  Stops-then m f h k s =
      Ensures-continue (λ _ t. IsStopped t) (λ _ t. IsStopped t) (λ _ _. Unit) (m s) f (h s)
        λ a t q. forget (f a t) (IsStopped-then (f a t) t q (k a t))

  pub Stops-skip :
      {A B : Type 0} (m : Action W A) (f : A → Action W B)
      → ((a : A) → Stops (f a))
      → Stops (m >>= f)
  Stops-skip m f k s = Ensures-skip (λ _ t. IsStopped t) (m s) f k

  pub StopsBoth-then :
      {A B : Type 0} (m : Action W A) (f : A → Action W B)
      → StopsBoth m
      → ((a : A) → Keeps (f a))
      → StopsBoth (m >>= f)
  StopsBoth-then m f h k s =
      Ensures-continue (λ _ t. IsStopped t) (λ _ t. IsStopped t) (λ _ t. IsStopped t) (m s) f (h s)
        λ a t q. IsStopped-then (f a t) t q (k a t)

  pub StopsBoth-attempt :
      {A B : Type 0} (m : Action W A) (f : A → Action W B) (h : Fault → Action W B)
      → StopsBoth m
      → ((a : A) → Keeps (f a))
      → ((e : Fault) → Keeps (h e))
      → StopsBoth (attempt m f h)
  StopsBoth-attempt {A = A} {B = B} m f h b k l s = go (m s) (b s)
    where
      go :
          (o : Outcome Fault (State W) A)
          → Ensures (λ _ t. IsStopped t) (λ _ t. IsStopped t) o
          → Ensures (λ _ t. IsStopped t) (λ _ t. IsStopped t) (settle o f h)
      go (returns a t) q = IsStopped-then (f a t) t q (k a t)
      go (throws e t) q = IsStopped-then (h e t) t q (l e t)

  pub StopsBoth-catch :
      {A : Type 0} (m : Action W A) (h : Fault → Action W A)
      → StopsBoth m
      → ((e : Fault) → Keeps (h e))
      → StopsBoth (catch m h)
  StopsBoth-catch {A = A} m h b l s = go (m s) (b s)
    where
      go :
          (o : Outcome Fault (State W) A)
          → Ensures (λ _ t. IsStopped t) (λ _ t. IsStopped t) o
          → Ensures (λ _ t. IsStopped t) (λ _ t. IsStopped t) (handle o h)
      go (returns a t) q = q
      go (throws e t) q = IsStopped-then (h e t) t q (l e t)

  -- the handler stops what the action left running
  pub Stops-catch :
      {A : Type 0} (m : Action W A) (h : Fault → Action W A)
      → Stops m
      → ((e : Fault) → StopsBoth (h e))
      → StopsBoth (catch m h)
  Stops-catch {A = A} m h k l s = go (m s) (k s)
    where
      go :
          (o : Outcome Fault (State W) A)
          → Ensures (λ _ t. IsStopped t) (λ _ _. Unit) o
          → Ensures (λ _ t. IsStopped t) (λ _ t. IsStopped t) (handle o h)
      go (returns a t) q = q
      go (throws e t) q = l e t

  pub Keeps-if :
      {A : Type 0} (b : Bool) (m n : Action W A) → Keeps m → Keeps n → Keeps (if b then m else n)
  Keeps-if true m n h k = h
  Keeps-if false m n h k = k

module _ {W : Type 0} (p : Ports W) where
  renew-Grows : (owner : Owner) (s : State W) → Grows s (state_after (renew p owner s))
  unfolding renew assert_owned
  renew-Grows schedule s = ground arith
  renew-Grows pipeline s = ground arith

  fire-Grows : (n : ℕ) (owner : Owner) (s : State W) → Grows s (fire p n owner s)
  unfolding fire
  fire-Grows zero owner s = λ x. x
  fire-Grows (suc n) owner s =
      λ x. fire-Grows n owner (state_after (renew p owner s)) (renew-Grows owner s x)

  beats-Grows : (s : State W) → Grows s (beats p s)
  beats-Grows s = ground (
    arith,
    fire-Grows (p.fires schedule s.world) schedule s,
    fire-Grows (p.fires pipeline (beat p schedule s).world) pipeline (beat p schedule s),
  )

  resumed-Grows :
      {A : Type 0} (c : Call) (s : State W) (o : Outcome Fault W A)
      → Ensures (λ _ t. Grows s t) (λ _ t. Grows s t) (resumed p (c ∷ s.calls) s o)
  resumed-Grows c s (returns a w) = beats-Grows (record s { world = w; calls = c ∷ s.calls })
  resumed-Grows c s (throws e w) = beats-Grows (record s { world = w; calls = c ∷ s.calls })

  pub perform-Keeps :
      {A : Type 0} (c : Call) (port : W → Outcome Fault W A) → Keeps (perform p c port)
  unfolding perform
  perform-Keeps c port s = resumed-Grows c s (port s.world)

  pub stop-StopsBoth : StopsBoth (stop p schedule)
  unfolding stop assert_owned
  stop-StopsBoth s = ground arith

  pub stop-Stops : Stops (stop p schedule)
  stop-Stops s = forget (stop p schedule s) (stop-StopsBoth s)

  pub check_signal-Keeps : Keeps (check_signal p)
  check_signal-Keeps s = ground arith

-- ===== src/Scheduler/Ownership/Counting.antt =====
-- How often the actions of `src/scheduler/application/run-scheduled-news-once.use-case.ts` make a
-- call, whatever the heartbeats do meanwhile.
use telegram_news_agent.Prelude.{
  ℕ, zero, suc, ◌+◌, ◌≤◌, ◌≡◌, refl, ◌∙◌, Bool, false, ◌∷◌, arith, count, indicator,
}
use telegram_news_agent.Effects.{
  Outcome, returns, throws, catch, attempt, ◌>>=◌, continue, settle, handle,
}
use telegram_news_agent.Effects.Rules.{Ensures}
use telegram_news_agent.Scheduler.Errors.{Fault}
use telegram_news_agent.Scheduler.Contracts.{Owner, schedule, pipeline, Call, Ports}
use telegram_news_agent.Scheduler.Ownership.{
  State, Action, state_after, assert_owned, renew, fire, beat, beats, resumed, perform, stop,
  check_signal,
}

-- A class of calls that no renewal belongs to.
pub record Class : Type 0 where
  pub has : Call → Bool
  pub renewals_out : (owner : Owner) → has (Call.renew owner) ≡ false

module _ {W : Type 0} (p : Ports W) (class : Class) where
  abbrev pub calls_in : State W → ℕ
  calls_in s = count class.has s.calls

  abbrev pub Between : ℕ → ℕ → {A : Type 0} → State W → Outcome Fault (State W) A → Type 0
  Between lo hi s =
      Ensures (λ _ t. (lo + calls_in s ≤ calls_in t) × (calls_in t ≤ hi + calls_in s))
        (λ _ t. (lo + calls_in s ≤ calls_in t) × (calls_in t ≤ hi + calls_in s))

  -- The action makes at least and at most so many calls of the class.
  abbrev pub Makes : ℕ → ℕ → {A : Type 0} → Action W A → Type 0
  Makes lo hi m = (s : State W) → Between lo hi s (m s)

  renew-calls_in :
      (owner : Owner) (s : State W) → calls_in (state_after (renew p owner s)) ≡ calls_in s
  unfolding renew assert_owned
  renew-calls_in owner s = ground (arith, class.renewals_out owner)

  fire-calls_in : (n : ℕ) (owner : Owner) (s : State W) → calls_in (fire p n owner s) ≡ calls_in s
  unfolding fire
  fire-calls_in zero owner s = refl
  fire-calls_in (suc n) owner s =
      fire-calls_in n owner (state_after (renew p owner s)) ∙ renew-calls_in owner s

  beats-calls_in : (s : State W) → calls_in (beats p s) ≡ calls_in s
  beats-calls_in s = ground (
    arith,
    fire-calls_in (p.fires schedule s.world) schedule s,
    fire-calls_in (p.fires pipeline (beat p schedule s).world) pipeline (beat p schedule s),
  )

  resumed-Between :
      {A : Type 0} (c : Call) (s : State W) (o : Outcome Fault W A)
      → Between (indicator (class.has c)) (indicator (class.has c)) s (resumed p (c ∷ s.calls) s o)
  resumed-Between c s (returns a w) =
      ground (arith, beats-calls_in (record s { world = w; calls = c ∷ s.calls }))
  resumed-Between c s (throws e w) =
      ground (arith, beats-calls_in (record s { world = w; calls = c ∷ s.calls }))

  pub perform-Makes :
      {A : Type 0} (c : Call) (port : W → Outcome Fault W A)
      → Makes (indicator (class.has c)) (indicator (class.has c)) (perform p c port)
  unfolding perform
  perform-Makes c port s = resumed-Between c s (port s.world)

  pub then-Makes :
      {A B : Type 0} (lo hi more : ℕ) (m : Action W A) (f : A → Action W B)
      → Makes lo hi m
      → ((a : A) → Makes 0 more (f a))
      → Makes lo (hi + more) (m >>= f)
  then-Makes {A = A} {B = B} lo hi more m f h k s = go (m s) (h s)
    where
      go :
          (o : Outcome Fault (State W) A)
          → Between lo hi s o
          → Between lo (hi + more) s (continue o f)
      go (throws e t) q = omega arith
      go (returns a t) q = widen (f a t) (k a t)
        where
          widen : (o : Outcome Fault (State W) B) → Between 0 more t o → Between lo (hi + more) s o
          widen (returns b u) r = omega arith
          widen (throws e u) r = omega arith

  pub attempt-Makes :
      {A B : Type 0} (lo hi less more : ℕ) (m : Action W A) (f : A → Action W B)
      (h : Fault → Action W B)
      → Makes lo hi m
      → ((a : A) → Makes less more (f a))
      → ((e : Fault) → Makes less more (h e))
      → Makes (lo + less) (hi + more) (attempt m f h)
  attempt-Makes {A = A} {B = B} lo hi less more m f h n k l s = go (m s) (n s)
    where
      widen :
          (t : State W)
          → (lo + calls_in s ≤ calls_in t) × (calls_in t ≤ hi + calls_in s)
          → (o : Outcome Fault (State W) B) → Between less more t o
          → Between (lo + less) (hi + more) s o
      widen t q (returns b u) r = omega arith
      widen t q (throws e u) r = omega arith

      go :
          (o : Outcome Fault (State W) A)
          → Between lo hi s o
          → Between (lo + less) (hi + more) s (settle o f h)
      go (throws e t) q = widen t q (h e t) (l e t)
      go (returns a t) q = widen t q (f a t) (k a t)

  pub catch-Makes :
      {A : Type 0} (hi more : ℕ) (m : Action W A) (h : Fault → Action W A)
      → Makes 0 hi m
      → ((e : Fault) → Makes 0 more (h e))
      → Makes 0 (hi + more) (catch m h)
  catch-Makes {A = A} hi more m h n l s = go (m s) (n s)
    where
      widen :
          (t : State W)
          → (0 + calls_in s ≤ calls_in t) × (calls_in t ≤ hi + calls_in s)
          → (o : Outcome Fault (State W) A) → Between 0 more t o
          → Between 0 (hi + more) s o
      widen t q (returns b u) r = omega arith
      widen t q (throws e u) r = omega arith

      go : (o : Outcome Fault (State W) A) → Between 0 hi s o → Between 0 (hi + more) s (handle o h)
      go (throws e t) q = widen t q (h e t) (l e t)
      go (returns a t) q = omega arith

  pub stop-Makes : (owner : Owner) → Makes 0 0 (stop p owner)
  unfolding stop assert_owned
  stop-Makes owner s = ground arith

  pub renew-Makes : (owner : Owner) → Makes 0 0 (renew p owner)
  unfolding renew assert_owned
  renew-Makes owner s = ground (arith, class.renewals_out owner)

  pub check_signal-Makes : Makes 0 0 (check_signal p)
  check_signal-Makes s = ground arith

  pub assert_owned-Makes : (owner : Owner) → Makes 0 0 (assert_owned owner)
  unfolding assert_owned
  assert_owned-Makes owner s = ground arith

  -- The answer of a port, and the calls at that time.
  abbrev pub Answers : {A : Type 0} → Call → State W → Outcome Fault W A → A → State W → Type 0
  Answers c s o a t =
      ((w : W) × (o ≡ returns a w)) × (calls_in t ≡ indicator (class.has c) + calls_in s)

  abbrev pub Fails : {A : Type 0} → Call → State W → Outcome Fault W A → Fault → State W → Type 0
  Fails c s o e t =
      ((w : W) × (o ≡ throws e w)) × (calls_in t ≡ indicator (class.has c) + calls_in s)

  resumed-Answers :
      {A : Type 0} (c : Call) (s : State W) (o : Outcome Fault W A)
      → Ensures (Answers c s o) (Fails c s o) (resumed p (c ∷ s.calls) s o)
  resumed-Answers c s (returns a w) =
      ((w, refl), ground (arith, beats-calls_in (record s { world = w; calls = c ∷ s.calls })))
  resumed-Answers c s (throws e w) =
      ((w, refl), ground (arith, beats-calls_in (record s { world = w; calls = c ∷ s.calls })))

  pub perform-Answers :
      {A : Type 0} (c : Call) (port : W → Outcome Fault W A) (s : State W)
      → Ensures (Answers c s (port s.world)) (Fails c s (port s.world)) (perform p c port s)
  unfolding perform
  perform-Answers c port s = resumed-Answers c s (port s.world)

  pub Between-from :
      {A : Type 0} (lo hi : ℕ) (s t : State W) (o : Outcome Fault (State W) A)
      → calls_in t ≡ calls_in s
      → Between lo hi t o
      → Between lo hi s o
  Between-from lo hi s t (returns a u) e q = omega (arith, e, q)
  Between-from lo hi s t (throws f u) e q = omega (arith, e, q)

  pub Makes-widen :
      {A : Type 0} (less lo hi more : ℕ) (m : Action W A)
      → less ≤ lo
      → hi ≤ more
      → Makes lo hi m
      → Makes less more m
  Makes-widen {A = A} less lo hi more m g h k s = widen (m s) (k s)
    where
      widen : (o : Outcome Fault (State W) A) → Between lo hi s o → Between less more s o
      widen (returns a t) q = omega arith
      widen (throws e t) q = omega arith

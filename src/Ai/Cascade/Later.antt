-- ===== src/Ai/Cascade/Later.antt =====
-- A call of the cascade of `src/ai/ai-provider-composition.ts` that begins with failures in hand does
-- what it would do without them, but for the list of failures that it may end with.
use mathlib.Core.List.{append_assoc}
use telegram_news_agent.Prelude.{
  ℕ, zero, suc, ◌+◌, ◌≡◌, refl, some, Bool, true, false, String, List, [], ◌∷◌, ◌++◌, arith,
  if◌then◌else◌,
}
use telegram_news_agent.Effects.{Outcome, returns, throws, continue, pure, throw, ◌>>=◌, ◌>>◌}
use telegram_news_agent.Effects.Rules.{Ensures}
use telegram_news_agent.Ai.Cascade.{
  Operation, Provider, Failure, Fault, aborted, exhausted, Raced, resolved, rejected, timed_out,
  Ports, State, Action, Turn, answered, gave_up, ran_out, check_parent, run_attempt, after_failure,
  wait, after_error, after_attempt, attempt_once, attempts, after_turn, take_turn, ask,
  try_providers, failed, skipped, record_outcome, halts,
}

-- The same fault after further failures before its own.
abbrev pub prefix_fault : List Failure → Fault → Fault
prefix_fault earlier aborted = aborted
prefix_fault earlier (exhausted errors) = exhausted (earlier ++ errors)

-- The same outcome of a call, but that a failure of all providers lists further failures first.
abbrev pub prefixed :
    {W : Type 0} → List Failure → Outcome Fault (State W) ℕ → Outcome Fault (State W) ℕ
prefixed earlier (returns v s) = returns v s
prefixed earlier (throws e s) = throws (prefix_fault earlier e) s

abbrev later_turn : List Failure → Turn → Turn
later_turn earlier (answered v) = answered v
later_turn earlier (gave_up code errors number) = gave_up code (earlier ++ errors) number
later_turn earlier (ran_out errors number) = ran_out (earlier ++ errors) number

abbrev prefixed_turn :
    {W : Type 0} → List Failure → Outcome Fault (State W) Turn → Outcome Fault (State W) Turn
prefixed_turn earlier (returns turn s) = returns (later_turn earlier turn) s
prefixed_turn earlier (throws e s) = throws (prefix_fault earlier e) s

module _ {W : Type 0} (p : Ports W) (earlier : List Failure) where
  -- what throws only an abortion
  abbrev Aborts : {A : Type 0} → Action W A → Type 0
  Aborts m = (s : State W) → Ensures (λ _ _. Unit {0}) (λ e _. e ≡ aborted) (m s)

  turn_bind :
      {A : Type 0} (m : Action W A) (f g : A → Action W Turn)
      → Aborts m
      → ((a : A) (s : State W) → f a s ≡ prefixed_turn earlier (g a s))
      → (s : State W) → (m >>= f) s ≡ prefixed_turn earlier ((m >>= g) s)
  turn_bind {A} m f g h k s = first (m s) (h s)
    where
      first :
          (o : Outcome Fault (State W) A)
          → Ensures (λ _ _. Unit {0}) (λ e _. e ≡ aborted) o
          → continue o f ≡ prefixed_turn earlier (continue o g)
      first (returns a t) x = k a t
      first (throws aborted t) x = refl
      first (throws (exhausted errors) t) x = cc

  call_bind :
      {A : Type 0} (m : Action W A) (f g : A → Action W ℕ)
      → Aborts m
      → ((a : A) (s : State W) → f a s ≡ prefixed earlier (g a s))
      → (s : State W) → (m >>= f) s ≡ prefixed earlier ((m >>= g) s)
  call_bind {A} m f g h k s = first (m s) (h s)
    where
      first :
          (o : Outcome Fault (State W) A)
          → Ensures (λ _ _. Unit {0}) (λ e _. e ≡ aborted) o
          → continue o f ≡ prefixed earlier (continue o g)
      first (returns a t) x = k a t
      first (throws aborted t) x = refl
      first (throws (exhausted errors) t) x = cc

  check_parent-Aborts : Aborts (check_parent p)
  check_parent-Aborts s = ground arith

  -- a loop that the earlier failures do not change otherwise
  abbrev IsLater : (List Failure → ℕ → Action W Turn) → Type 0
  IsLater loop =
      (errors : List Failure) (number : ℕ) (s : State W)
      → loop (earlier ++ errors) number s ≡ prefixed_turn earlier (loop errors number s)

  module _ (provider : Provider) (rest : List Provider) (operation : Operation)
      (deadline_at : ℕ) where
    run_attempt-Aborts : (number : ℕ) → Aborts (run_attempt p provider operation number deadline_at)
    unfolding run_attempt
    run_attempt-Aborts number s = ground arith

    after_failure-Aborts :
        (code : String) (k : ℕ)
        → Aborts (after_failure p provider rest operation code k deadline_at)
    unfolding after_failure
    after_failure-Aborts code k s = ground arith

    wait-Aborts : (k : ℕ) → Aborts (wait p k deadline_at)
    unfolding wait
    wait-Aborts k s = ground arith

    module _ (loop : List Failure → ℕ → Action W Turn) (h : IsLater loop) (k : ℕ) where
      retry_or_leave-later :
          (again : Bool) (code : String) (errors : List Failure) (number : ℕ) (s : State W)
          → (if again
                then (wait p k deadline_at >> loop ((earlier ++ errors) ++ failed code ∷ []) number)
                else pure (gave_up code ((earlier ++ errors) ++ failed code ∷ []) number))
              s
            ≡ prefixed_turn earlier (
                (if again
                    then (wait p k deadline_at >> loop (errors ++ failed code ∷ []) number)
                    else pure (gave_up code (errors ++ failed code ∷ []) number))
                  s)
      retry_or_leave-later true code errors number s =
          rw (append_assoc earlier errors (failed code ∷ [])) (
            turn_bind (wait p k deadline_at)
              (λ _. loop (earlier ++ (errors ++ failed code ∷ [])) number)
              (λ _. loop (errors ++ failed code ∷ []) number) (wait-Aborts k)
              (λ _. h (errors ++ failed code ∷ []) number) s)
      retry_or_leave-later false code errors number s =
          rw (append_assoc earlier errors (failed code ∷ [])) refl

      after_error-later :
          (code : String) (errors : List Failure) (number : ℕ) (s : State W)
          → after_error p provider rest operation deadline_at loop k
              (earlier ++ errors)
              number
              code
              s
            ≡ prefixed_turn earlier
                (after_error p provider rest operation deadline_at loop k errors number code s)
      unfolding after_error
      after_error-later code errors number = turn_bind (check_parent p) _ _ check_parent-Aborts λ _.
          turn_bind (after_failure p provider rest operation code k deadline_at) _ _
            (after_failure-Aborts code k) (λ again. retry_or_leave-later again code errors number)

      after_attempt-later :
          (raced : Raced) (errors : List Failure) (number : ℕ) (s : State W)
          → after_attempt p provider rest operation deadline_at loop k
              (earlier ++ errors)
              number
              raced
              s
            ≡ prefixed_turn earlier
                (after_attempt p provider rest operation deadline_at loop k errors number raced s)
      unfolding after_attempt
      after_attempt-later (resolved v) errors number s = refl
      after_attempt-later (rejected code) errors number s = after_error-later code errors number s
      after_attempt-later timed_out errors number s = after_error-later "timeout" errors number s

      attempt_once-later :
          (errors : List Failure) (number : ℕ) (s : State W)
          → attempt_once p provider rest operation deadline_at loop k (earlier ++ errors) number s
            ≡ prefixed_turn earlier
                (attempt_once p provider rest operation deadline_at loop k errors number s)
      unfolding attempt_once
      attempt_once-later errors number = turn_bind (check_parent p) _ _ check_parent-Aborts λ _.
          turn_bind (run_attempt p provider operation number deadline_at) _ _
            (run_attempt-Aborts number) (λ raced. after_attempt-later raced errors number)

    attempts-IsLater :
        (left k : ℕ) → IsLater (attempts p provider rest operation deadline_at left k)
    unfolding attempts
    attempts-IsLater zero k errors number s = refl
    attempts-IsLater (suc left) k errors number s = ground (
      arith,
      attempt_once-later (attempts p provider rest operation deadline_at left (suc k))
          (attempts-IsLater left (suc k)) (suc k) errors (suc number) s,
    )

  module _ (operation : Operation) (deadline_for : String → ℕ) where
    take_turn-IsLater :
        (provider : Provider) (rest : List Provider)
        → IsLater (take_turn p operation deadline_for provider rest)
    unfolding take_turn
    take_turn-IsLater provider rest errors number s =
        attempts-IsLater provider rest operation (p.now s.world + deadline_for provider.name) 3 0
          errors number (record s { is_timer_fired = false })

    abbrev pub IsLaterCall : (List Failure → ℕ → Action W ℕ) → Type 0
    IsLaterCall next =
        (errors : List Failure) (number : ℕ) (s : State W)
        → next (earlier ++ errors) number s ≡ prefixed earlier (next errors number s)

    module _ (next : List Failure → ℕ → Action W ℕ) (h : IsLaterCall next)
        (provider : Provider) where
      stop_or_next-later :
          (stops : Bool) (errors : List Failure) (number : ℕ) (s : State W)
          → (if stops
                then throw (exhausted (earlier ++ errors))
                else next (earlier ++ errors) number)
              s
            ≡ prefixed earlier ((if stops then throw (exhausted errors) else next errors number) s)
      stop_or_next-later true errors number s = refl
      stop_or_next-later false errors number s = h errors number s

      after_turn-later :
          (turn : Turn) (s : State W)
          → after_turn p next provider (later_turn earlier turn) s
            ≡ prefixed earlier (after_turn p next provider turn s)
      unfolding after_turn
      after_turn-later (answered v) s = refl
      after_turn-later (ran_out errors number) s = h errors number s
      after_turn-later (gave_up code errors number) s =
          call_bind (check_parent p) _ _ check_parent-Aborts
            (λ _.
              call_bind (record_outcome p provider.name (some code)) _ _ (recorded code)
                (λ _. stop_or_next-later (halts p provider.name code) errors number))
            s
        where
          recorded : (code : String) → Aborts (record_outcome p provider.name (some code))
          recorded code s = tt

      follow-later :
          (o : Outcome Fault (State W) Turn)
          → continue (prefixed_turn earlier o) (after_turn p next provider)
            ≡ prefixed earlier (continue o (after_turn p next provider))
      follow-later (returns turn s) = after_turn-later turn s
      follow-later (throws e s) = refl

      ask-IsLaterCall :
          (rest : List Provider) → IsLaterCall (ask p operation deadline_for next provider rest)
      unfolding ask
      ask-IsLaterCall rest errors number = call_bind (check_parent p) _ _ check_parent-Aborts λ _ s.
          rw (take_turn-IsLater provider rest errors number s)
            (follow-later (take_turn p operation deadline_for provider rest errors number s))

    pub try_providers-IsLaterCall :
        (available : List Provider) → IsLaterCall (try_providers p operation deadline_for available)
    unfolding try_providers
    try_providers-IsLaterCall [] errors number s = refl
    try_providers-IsLaterCall (provider ∷ rest) errors number s = ground (
      arith,
      append_assoc earlier errors (skipped provider.name ∷ []),
      try_providers-IsLaterCall rest errors number s,
      try_providers-IsLaterCall rest (errors ++ skipped provider.name ∷ []) number s,
      ask-IsLaterCall (try_providers p operation deadline_for rest) (try_providers-IsLaterCall rest)
          provider rest errors number s,
    )

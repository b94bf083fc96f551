-- ===== src/Ai/Cascade/Spending.antt =====
-- How much one provider's turn in a call of the cascade of `src/ai/ai-provider-composition.ts` may
-- cost, counted by the provider's name.
use telegram_news_agent.Prelude.{
  ℕ, zero, suc, ◌+◌, ◌≤◌, Bool, true, false, String, List, [], ◌∷◌, ◌++◌, arith, count, str_eq,
  if◌then◌else◌,
}
use telegram_news_agent.Effects.{Outcome, returns, throws, continue, pure, ◌>>=◌, ◌>>◌}
use telegram_news_agent.Effects.Rules.{Ensures}
use telegram_news_agent.Ai.Cascade.{
  Operation, Provider, Failure, Fault, Raced, resolved, rejected, timed_out, Call, Ports, State,
  Action, Turn, answered, gave_up, ran_out, check_parent, run_attempt, after_failure, wait,
  after_attempt, attempts, take_turn, attempt_once, after_error, failed,
}

-- the provider's request, and what is recorded of it, by its name
abbrev pub is_request : String → Call → Bool
is_request name (Call.request asked _) = str_eq asked name
is_request name _ = false

abbrev pub is_outcome : String → Call → Bool
is_outcome name (Call.outcome recorded _) = str_eq recorded name
is_outcome name _ = false

abbrev pub requests : {W : Type 0} → String → State W → ℕ
requests name s = count (is_request name) s.calls

abbrev pub outcomes : {W : Type 0} → String → State W → ℕ
outcomes name s = count (is_outcome name) s.calls

abbrev pub is_named : String → Provider → Bool
is_named name provider = str_eq provider.name name

-- how many of the providers have the name
abbrev pub named : String → List Provider → ℕ
named name available = count (is_named name) available

module _ {W : Type 0} (name : String) where
  abbrev pub Costs : ℕ → ℕ → State W → State W → Type 0
  Costs n k s t = (requests name t ≤ n + requests name s) × (outcomes name t ≤ k + outcomes name s)

  -- At most `n` requests, and as many recorded outcomes as `won` says of the result.
  abbrev pub Spends : {A : Type 0} → (A → ℕ) → ℕ → Action W A → Type 0
  Spends won n m = (s : State W) → Ensures (λ a t. Costs n (won a) s t) (λ _ t. Costs n 0 s t) (m s)

  spend_bind :
      {A B : Type 0} (won : B → ℕ) (n k total : ℕ) (m : Action W A) (f : A → Action W B)
      → n + k ≤ total
      → Spends (λ _. 0) n m
      → ((a : A) → Spends won k (f a))
      → Spends won total (m >>= f)
  spend_bind {A} {B} won n k total m f le h g s = first (m s) (h s)
    where
      second :
          (t : State W) (o : Outcome Fault (State W) B)
          → Costs n 0 s t
          → Ensures (λ b u. Costs k (won b) t u) (λ _ u. Costs k 0 t u) o
          → Ensures (λ b u. Costs total (won b) s u) (λ _ u. Costs total 0 s u) o
      second t (returns b u) x y = omega arith
      second t (throws e u) x y = omega arith

      first :
          (o : Outcome Fault (State W) A)
          → Ensures (λ _ t. Costs n 0 s t) (λ _ t. Costs n 0 s t) o
          → Ensures (λ b u. Costs total (won b) s u) (λ _ u. Costs total 0 s u) (continue o f)
      first (throws e t) x = omega arith
      first (returns a t) x = second t (f a t) x (g a t)

-- what is spent on a provider, where it has the name
abbrev pub share : Bool → ℕ → ℕ
share true n = n
share false n = 0

abbrev pub won_by : Bool → Turn → ℕ
won_by is_hit (answered _) = share is_hit 1
won_by is_hit (gave_up _ _ _) = 0
won_by is_hit (ran_out _ _) = 0

module _ {W : Type 0} (p : Ports W) (name : String) where
  check_parent-Spends : Spends name (λ _. 0) 0 (check_parent p)
  check_parent-Spends s = ground arith

  run_attempt-Spends :
      (provider : Provider) (operation : Operation) (number deadline_at : ℕ)
      → Spends name
          (λ _. 0)
          (share (is_named name provider) 1)
          (run_attempt p provider operation number deadline_at)
  unfolding run_attempt
  run_attempt-Spends provider operation number deadline_at s = ground arith

  module _ (provider : Provider) (rest : List Provider) (operation : Operation)
      (deadline_at : ℕ) where
    after_failure-Spends :
        (code : String) (provider_attempt : ℕ)
        → Spends name
            (λ _. 0)
            0
            (after_failure p provider rest operation code provider_attempt deadline_at)
    unfolding after_failure
    after_failure-Spends code provider_attempt s = ground arith

    abbrev hit : Bool
    hit = is_named name provider

    retry_or_leave :
        (n : ℕ) (again : Bool) (loop leave : Action W Turn) (provider_attempt : ℕ)
        → Spends name (won_by hit) n loop
        → Spends name (won_by hit) n leave
        → Spends name
            (won_by hit)
            n
            (if again then (wait p provider_attempt deadline_at >> loop) else leave)
    unfolding wait
    retry_or_leave n true loop leave provider_attempt h k =
        spend_bind name (won_by hit) 0 n n (wait p provider_attempt deadline_at) (λ _. loop)
          (omega arith) (λ s. ground arith) (λ _. h)
    retry_or_leave n false loop leave provider_attempt h k = k

    module _ (n : ℕ) (loop : List Failure → ℕ → Action W Turn)
        (bounded : (errors : List Failure) (number : ℕ)
          → Spends name (won_by hit) (share hit n) (loop errors number)) where
      after_error-Spends :
          (provider_attempt : ℕ) (errors : List Failure) (number : ℕ) (code : String)
          → Spends name (won_by hit) (share hit n) (
              after_error p provider rest operation deadline_at loop provider_attempt errors number
                code)
      unfolding after_error
      after_error-Spends provider_attempt errors number code =
          spend_bind name (won_by hit) 0 (share hit n) (share hit n) (check_parent p) _
            (omega arith) check_parent-Spends
            λ _.
              spend_bind name (won_by hit) 0 (share hit n) (share hit n)
                (after_failure p provider rest operation code provider_attempt deadline_at) _
                (omega arith) (after_failure-Spends code provider_attempt)
                λ again.
                  retry_or_leave (share hit n) again (loop (errors ++ failed code ∷ []) number)
                    (pure (gave_up code (errors ++ failed code ∷ []) number)) provider_attempt
                    (bounded (errors ++ failed code ∷ []) number) (λ s. ground arith)

      after_attempt-Spends :
          (provider_attempt : ℕ) (errors : List Failure) (number : ℕ) (raced : Raced)
          → Spends name (won_by hit) (share hit n) (
              after_attempt p provider rest operation deadline_at loop provider_attempt errors
                number raced)
      unfolding after_attempt
      after_attempt-Spends provider_attempt errors number (resolved v) = λ s. ground arith
      after_attempt-Spends provider_attempt errors number (rejected code) =
          after_error-Spends provider_attempt errors number code
      after_attempt-Spends provider_attempt errors number timed_out =
          after_error-Spends provider_attempt errors number "timeout"

      attempt_once-Spends :
          (provider_attempt : ℕ) (errors : List Failure) (number : ℕ)
          → Spends name (won_by hit) (share hit (suc n)) (
              attempt_once p provider rest operation deadline_at loop provider_attempt errors
                number)
      unfolding attempt_once
      attempt_once-Spends provider_attempt errors number =
          spend_bind name (won_by hit) 0 (share hit (suc n)) (share hit (suc n)) (check_parent p) _
            (omega arith) check_parent-Spends
            λ _.
              spend_bind name (won_by hit) (share hit 1) (share hit n) (share hit (suc n))
                (run_attempt p provider operation number deadline_at) _ (ground arith)
                (run_attempt-Spends provider operation number deadline_at)
                (after_attempt-Spends provider_attempt errors number)

    attempts-Spends :
        (left provider_attempt : ℕ) (errors : List Failure) (number : ℕ)
        → Spends name
            (won_by hit)
            (share hit left)
            (attempts p provider rest operation deadline_at left provider_attempt errors number)
    unfolding attempts
    attempts-Spends zero provider_attempt errors number s = ground arith
    attempts-Spends (suc left) provider_attempt errors number s = ground (
      arith,
      attempt_once-Spends left
          (attempts p provider rest operation deadline_at left (suc provider_attempt))
          (attempts-Spends left (suc provider_attempt)) (suc provider_attempt) errors (suc number)
          s,
    )

  module _ (operation : Operation) (deadline_for : String → ℕ) where
    pub take_turn-Spends :
        (provider : Provider) (rest : List Provider) (errors : List Failure) (number : ℕ)
        → Spends name
            (won_by (is_named name provider))
            (share (is_named name provider) 3)
            (take_turn p operation deadline_for provider rest errors number)
    unfolding take_turn
    take_turn-Spends provider rest errors number s =
        attempts-Spends provider rest operation (p.now s.world + deadline_for provider.name) 3 0
          errors number (record s { is_timer_fired = false })

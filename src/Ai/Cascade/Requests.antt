-- ===== src/Ai/Cascade/Requests.antt =====
-- How much one call of the cascade may cost: its requests, and what it records for the breakers.
use telegram_news_agent.Prelude.{
  ℕ, ◌+◌, ◌*◌, ◌≤◌, Bool, true, false, String, List, [], ◌∷◌, ◌++◌, Option, some, arith,
  if◌then◌else◌,
}
use telegram_news_agent.Effects.{Outcome, returns, throws, continue, throw}
use telegram_news_agent.Effects.Rules.{Ensures}
use telegram_news_agent.Ai.Breaker.{record_throttle_outcome}
use telegram_news_agent.Ai.Cascade.{
  Operation, Provider, Failure, Fault, Call, Ports, State, Action, Turn, answered, gave_up, ran_out,
  after_turn, take_turn, try_providers, execute, ask, exhausted, halts, aborted, skipped,
}
use telegram_news_agent.Ai.Cascade.Spending.{
  requests, outcomes, is_named, named, Costs, share, won_by, take_turn-Spends,
}

module _ {W : Type 0} (p : Ports W) (name : String) (operation : Operation)
    (deadline_for : String → ℕ) where
  -- What a call over so many providers of the name may cost.
  abbrev Within : ℕ → State W → State W → Type 0
  Within n s t =
      (requests name t ≤ 3 * n + requests name s) × (outcomes name t ≤ n + outcomes name s)

  abbrev IsWithin : ℕ → Action W ℕ → Type 0
  IsWithin n m = (s : State W) → Ensures (λ _ t. Within n s t) (λ _ t. Within n s t) (m s)

  -- the state after an outcome was recorded
  abbrev noting : String → Option String → State W → State W
  noting name code t = record t {
    calls = Call.outcome name code ∷ t.calls;
    table = record_throttle_outcome name (p.now t.world) code t.table;
  }

  module _ (n : ℕ) (next : List Failure → ℕ → Action W ℕ)
      (bounded : (errors : List Failure) (number : ℕ) → IsWithin n (next errors number))
      (provider : Provider) where
    abbrev due : Bool
    due = is_named name provider

    abbrev more : ℕ
    more = share due 1 + n

    leave_or_next :
        (stop : Bool) (errors : List Failure) (number : ℕ) (s u : State W)
        → (requests name u ≤ share due 3 + requests name s)
        → (outcomes name u ≤ share due 1 + outcomes name s)
        → Ensures
            (λ _ u. Within more s u)
            (λ _ u. Within more s u)
            ((if stop then throw (exhausted errors) else next errors number) u)
    leave_or_next true errors number s u h k = ground arith
    leave_or_next false errors number s u h k = ground (arith, bounded errors number u)

    leave_unless_aborted :
        (is_aborted : Bool) (m : Action W ℕ) (s t : State W)
        → Costs name (share due 3) 0 s t
        → Ensures (λ _ u. Within more s u) (λ _ u. Within more s u) (m t)
        → Ensures
            (λ _ u. Within more s u)
            (λ _ u. Within more s u)
            (continue (if is_aborted then throws aborted t else returns tt t) (λ _. m))
    leave_unless_aborted true m s t c h = ground arith
    leave_unless_aborted false m s t c h = h

    after_turn-IsWithin :
        (turn : Turn) (s t : State W)
        → Costs name (share due 3) (won_by due turn) s t
        → Ensures
            (λ _ u. Within more s u)
            (λ _ u. Within more s u)
            (after_turn p next provider turn t)
    unfolding after_turn
    after_turn-IsWithin (answered v) s t c = ground arith
    after_turn-IsWithin (ran_out errors number) s t c = ground (arith, bounded errors number t)
    after_turn-IsWithin (gave_up code errors number) s t c =
        leave_unless_aborted (p.is_parent_aborted t.world) _ s t c (
          leave_or_next (halts p provider.name code) errors number s
            (noting provider.name (some code) t) (ground arith) (ground arith))

    follow :
        (s : State W) (o : Outcome Fault (State W) Turn)
        → Ensures
            (λ turn t. Costs name (share due 3) (won_by due turn) s t)
            (λ _ t. Costs name (share due 3) 0 s t)
            o
        → Ensures
            (λ _ u. Within more s u)
            (λ _ u. Within more s u)
            (continue o (after_turn p next provider))
    follow s (returns turn t) c = after_turn-IsWithin turn s t c
    follow s (throws e t) c = ground arith

    ask-IsWithin :
        (rest : List Provider) (errors : List Failure) (number : ℕ)
        → IsWithin more (ask p operation deadline_for next provider rest errors number)
    unfolding ask
    ask-IsWithin rest errors number s = ground (
      arith,
      follow s (take_turn p operation deadline_for provider rest errors number s)
          (take_turn-Spends p name operation deadline_for provider rest errors number s),
    )

  try_providers-IsWithin :
      (available : List Provider) (errors : List Failure) (number : ℕ)
      → IsWithin
          (named name available)
          (try_providers p operation deadline_for available errors number)
  unfolding try_providers
  try_providers-IsWithin [] errors number s = ground arith
  try_providers-IsWithin (provider ∷ rest) errors number s = ground (
    arith,
    try_providers-IsWithin rest errors number s,
    try_providers-IsWithin rest (errors ++ skipped provider.name ∷ []) number s,
    ask-IsWithin (named name rest) (try_providers p operation deadline_for rest)
        (try_providers-IsWithin rest) provider rest errors number s,
  )

  -- One call makes at most three requests to the providers of a name, and records at most one
  -- outcome under it, for each time that the name is configured. A provider that is not configured
  -- is not asked, and nothing is recorded of it. This holds whether the call returns or throws.
  pub execute_bounded :
      (available : List Provider) (s : State W)
      → Ensures
          (λ _ t.
            (requests name t ≤ 3 * named name available + requests name s)
            × (outcomes name t ≤ named name available + outcomes name s))
          (λ _ t.
            (requests name t ≤ 3 * named name available + requests name s)
            × (outcomes name t ≤ named name available + outcomes name s))
          (execute p operation deadline_for available s)
  unfolding execute
  execute_bounded available s = ground (arith, try_providers-IsWithin available [] 0 s)

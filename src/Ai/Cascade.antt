-- ===== src/Ai/Cascade.antt =====
-- The fallback cascade over the configured providers: `runAttempt` and `execute` of
-- `src/ai/ai-provider-composition.ts`. A request is one awaited race of the provider's method with
-- the timer; the ports say how it ends and how the clock advances. `deadline_for` is the time that
-- the tables of deadlines and the traits give a provider.
pub mod Spending
pub mod Requests
pub mod Later
pub mod Failover
pub mod Single
use telegram_news_agent.Prelude.{
  ℕ, zero, suc, ◌+◌, ◌-◌, min, String, Bool, true, false, not, ◌&&◌, ◌||◌, Option, none, some, List,
  [], ◌∷◌, ◌++◌, any, ltb, leb, if◌then◌else◌, get_or, is_some, str_eq,
}
use telegram_news_agent.Effects.{Outcome, returns, throws, Io, pure, throw, continue, ◌>>=◌, ◌>>◌}
use telegram_news_agent.Ai.Breaker.{Table, is_throttle_open, record_throttle_outcome}
use telegram_news_agent.Ai.Delay.{retry_delay_ms}

pub data Operation : Type 0 where
  generate_structured search_news search_feeds search_fact : Operation

pub record Provider : Type 0 where
  pub name : String
  pub supports : Operation → Bool

-- The traits of a provider's descriptor that the cascade reads.
pub record Traits : Type 0 where
  pub halts_cascade_on_quota_exhaustion : Bool
  pub deadline_ms : Option ℕ

-- Why an attempt failed, with its safe error code, or why a provider was passed over.
pub data Failure : Type 0 where
  failed : String → Failure
  skipped : String → Failure

pub data Fault : Type 0 where
  aborted : Fault
  exhausted : List Failure → Fault

-- How the race of a request ends: with a result, with an error of the given code, or by the timer.
pub data Raced : Type 0 where
  resolved : ℕ → Raced
  rejected : String → Raced
  timed_out : Raced

pub data Continuation : Type 0 where
  retrying_same_provider trying_next_provider request_failed : Continuation

pub data Call : Type 0 where
  start_attempt complete_attempt : String → ℕ → Call
  request : String → ℕ → Call
  outcome : String → Option String → Call
  notify : String → Continuation → Call
  sleep : ℕ → Call

pub record Ports (W : Type 0) : Type 0 where
  pub now : W → ℕ
  pub random : W → ℕ
  pub is_parent_aborted : W → Bool
  pub start_attempt : String → ℕ → W → W
  pub complete_attempt : String → ℕ → W → W
  pub request : String → Operation → ℕ → W → Raced × W
  pub notify : String → Continuation → W → W
  pub sleep : ℕ → W → W
  pub traits_of : String → Traits
  pub is_transient : String → Bool

-- `is_timer_fired` is the abort state of the current provider's controller.
pub record State (W : Type 0) : Type 0 where
  pub world : W
  pub calls : List Call
  pub table : Table
  pub is_timer_fired : Bool

abbrev pub Action : Type 0 → Type 0 → Type 0
Action W A = Io Fault (State W) A

abbrev pub fallback_provider_attempts : ℕ
fallback_provider_attempts = 3

-- How a provider's turn ends: with a result, with an error that leaves it, or by its deadline.
pub data Turn : Type 0 where
  answered : ℕ → Turn
  gave_up : String → List Failure → ℕ → Turn
  ran_out : List Failure → ℕ → Turn

module _ {W : Type 0} (p : Ports W) where
  abbrev pub check_parent : Action W (Unit {0})
  check_parent s = if p.is_parent_aborted s.world then throws aborted s else returns tt s

  abbrev tell : Call → (W → W) → Action W (Unit {0})
  tell c port s = returns tt (record s { world = port s.world; calls = c ∷ s.calls })

  abbrev noted : State W → Call → Raced × W → Outcome Fault (State W) Raced
  noted s c (resolved v, w) = returns (resolved v) (record s { world = w; calls = c ∷ s.calls })
  noted s c (rejected e, w) = returns (rejected e) (record s { world = w; calls = c ∷ s.calls })
  noted s c (timed_out, w) =
      returns timed_out (record s { world = w; calls = c ∷ s.calls; is_timer_fired = true })

  -- the request itself, unless its time is already over
  pub race : Provider → Operation → ℕ → ℕ → Action W Raced
  race provider operation number deadline_at s =
      if leb deadline_at (p.now s.world)
      then returns timed_out (record s { is_timer_fired = true })
      else noted s (Call.request provider.name number)
          (p.request provider.name operation number s.world)

  pub run_attempt : Provider → Operation → ℕ → ℕ → Action W Raced
  unfolding race
  run_attempt provider operation number deadline_at = do
    check_parent
    tell (Call.start_attempt provider.name number) (p.start_attempt provider.name number)
    result ← race provider operation number deadline_at
    tell (Call.complete_attempt provider.name number) (p.complete_attempt provider.name number)
    pure result

  pub record_outcome : String → Option String → Action W (Unit {0})
  record_outcome name code s = returns tt (record s {
    calls = Call.outcome name code ∷ s.calls;
    table = record_throttle_outcome name (p.now s.world) code s.table;
  })

  unfoldable pub is_open : State W → String → Bool
  is_open s name = is_throttle_open name (p.now s.world) s.table

  pub has_next : State W → Operation → List Provider → Bool
  has_next s operation rest = any (λ q. q.supports operation && not (is_open s q.name)) rest

  abbrev pub halts : String → String → Bool
  halts name code =
      (p.traits_of name).halts_cascade_on_quota_exhaustion && str_eq code "quota_exhausted"

  abbrev pub can_retry : State W → String → ℕ → ℕ → Bool
  can_retry s code provider_attempt deadline_at =
      p.is_transient code
      && not (
          leb fallback_provider_attempts provider_attempt
          || s.is_timer_fired
          || leb deadline_at (p.now s.world))

  abbrev pub continuation : Bool → Bool → Continuation
  continuation retry next =
      if retry
      then Continuation.retrying_same_provider
      else if next
      then Continuation.trying_next_provider
      else Continuation.request_failed

  -- after a failed attempt: whether the provider is asked again
  pub after_failure : Provider → List Provider → Operation → String → ℕ → ℕ → Action W Bool
  unfolding has_next is_open
  after_failure provider rest operation code provider_attempt deadline_at s =
      let retry = can_retry s code provider_attempt deadline_at in
      let next = not (halts provider.name code) && has_next s operation rest in
      let how = continuation retry next in
      (do
        tell (Call.notify provider.name how) (p.notify provider.name how)
        pure (not (halts provider.name code) && retry))
        s

  pub wait : ℕ → ℕ → Action W (Unit {0})
  wait provider_attempt deadline_at s =
      let delay =
        min (retry_delay_ms provider_attempt (p.random s.world)) (deadline_at - p.now s.world) in
      tell (Call.sleep delay) (p.sleep delay) s

  module _ (provider : Provider) (rest : List Provider) (operation : Operation)
      (deadline_at : ℕ) where
    -- an attempt failed: it is repeated by `loop`, or the provider is left
    pub after_error :
        (List Failure → ℕ → Action W Turn) → ℕ → List Failure → ℕ → String → Action W Turn
    unfolding after_failure wait
    after_error loop provider_attempt errors number code = do
      check_parent
      again ← after_failure provider rest operation code provider_attempt deadline_at
      if again
          then (wait provider_attempt deadline_at >> loop (errors ++ failed code ∷ []) number)
          else pure (gave_up code (errors ++ failed code ∷ []) number)

    -- one attempt's result
    pub after_attempt :
        (List Failure → ℕ → Action W Turn) → ℕ → List Failure → ℕ → Raced → Action W Turn
    unfolding record_outcome after_error
    after_attempt loop provider_attempt errors number (resolved v) = do
      record_outcome provider.name none
      pure (answered v)
    after_attempt loop provider_attempt errors number (rejected code) =
        after_error loop provider_attempt errors number code
    after_attempt loop provider_attempt errors number timed_out =
        after_error loop provider_attempt errors number "timeout"

    -- the body of the `while` loop
    pub attempt_once : (List Failure → ℕ → Action W Turn) → ℕ → List Failure → ℕ → Action W Turn
    unfolding run_attempt after_attempt
    attempt_once loop provider_attempt errors number = do
      check_parent
      raced ← run_attempt provider operation number deadline_at
      after_attempt loop provider_attempt errors number raced

    -- the `while` loop, over the attempts left; `number` counts the attempts of the whole call
    pub attempts : ℕ → ℕ → List Failure → ℕ → Action W Turn
    attempts zero provider_attempt errors number = pure (ran_out errors number)
    attempts (suc left) provider_attempt errors number =
        let once =
          attempt_once (attempts left (suc provider_attempt)) (suc provider_attempt) errors
            (suc number) in
        λ s.
          if s.is_timer_fired || leb deadline_at (p.now s.world)
          then returns (ran_out errors number) s
          else once s

  -- a new controller for the provider
  abbrev fresh_controller : State W → State W
  fresh_controller s = record s { is_timer_fired = false }

  pub after_turn : (List Failure → ℕ → Action W ℕ) → Provider → Turn → Action W ℕ
  unfolding record_outcome
  after_turn next provider (answered v) = pure v
  after_turn next provider (ran_out errors number) = next errors number
  after_turn next provider (gave_up code errors number) = do
    check_parent
    record_outcome provider.name (some code)
    if halts provider.name code then throw (exhausted errors) else next errors number

  module _ (operation : Operation) (deadline_for : String → ℕ) where
    pub take_turn : Provider → List Provider → List Failure → ℕ → Action W Turn
    take_turn provider rest errors number s =
        let deadline_at = p.now s.world + deadline_for provider.name in
        attempts provider rest operation deadline_at fallback_provider_attempts 0 errors number
          (fresh_controller s)

    -- the body of the `for` loop, for a provider that is asked
    pub ask :
        (List Failure → ℕ → Action W ℕ) → Provider → List Provider → List Failure → ℕ → Action W ℕ
    unfolding take_turn after_turn
    ask next provider rest errors number = do
      check_parent
      turn ← take_turn provider rest errors number
      after_turn next provider turn

    -- the `for` loop over the providers
    pub try_providers : List Provider → List Failure → ℕ → Action W ℕ
    try_providers [] errors number = throw (exhausted errors)
    try_providers (provider ∷ rest) errors number =
        let next : List Failure → ℕ → Action W ℕ = try_providers rest in
        λ s.
          if not (provider.supports operation)
          then next errors number s
          else if is_open s provider.name
          then next (errors ++ skipped provider.name ∷ []) number s
          else ask next provider rest errors number s

    pub execute : List Provider → Action W ℕ
    execute available = do check_parent; try_providers available [] 0

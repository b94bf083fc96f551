-- ===== src/Ai/Cascade/Single.antt =====
-- `executeOnce` of `src/ai/ai-provider-composition.ts`: the call that asks one provider once.
use telegram_news_agent.Prelude.{
  ℕ, ◌+◌, ◌≤◌, ◌≡◌, Bool, true, false, String, List, [], ◌∷◌, Option, none, some, arith, count,
  if◌then◌else◌,
}
use telegram_news_agent.Effects.{throws, pure, throw, ◌>>=◌, ◌>>◌}
use telegram_news_agent.Effects.Rules.{Ensures}
use telegram_news_agent.Ai.Cascade.{
  Operation, Provider, Raced, resolved, rejected, timed_out, Call, Continuation, Ports, State,
  Action, check_parent, tell, run_attempt, record_outcome, is_open, fresh_controller, exhausted,
  failed, skipped,
}

abbrev pub is_request : Call → Bool
is_request (Call.request _ _) = true
is_request _ = false

abbrev pub is_outcome : Call → Bool
is_outcome (Call.outcome _ _) = true
is_outcome _ = false

-- the requests made, and the outcomes recorded, of any provider
abbrev pub requests : {W : Type 0} → State W → ℕ
requests s = count is_request s.calls

abbrev pub outcomes : {W : Type 0} → State W → ℕ
outcomes s = count is_outcome s.calls

-- `available.find((candidate) => Boolean(candidate[operation]))`
pub find_provider : Operation → List Provider → Option Provider
find_provider operation [] = none
find_provider operation (provider ∷ rest) =
    if provider.supports operation then some provider else find_provider operation rest

module _ {W : Type 0} (p : Ports W) where
  -- the `catch` block
  pub give_up : Provider → String → Action W ℕ
  unfolding record_outcome
  give_up provider code = do
    check_parent p
    record_outcome p provider.name (some code)
    tell p (Call.notify provider.name Continuation.request_failed)
        (p.notify provider.name Continuation.request_failed)
    throw (exhausted (failed code ∷ []))

  pub after_single : Provider → Raced → Action W ℕ
  unfolding record_outcome give_up
  after_single provider (resolved v) = do record_outcome p provider.name none; pure v
  after_single provider (rejected code) = give_up provider code
  after_single provider timed_out = give_up provider "timeout"

  pub ask_single : Provider → Operation → ℕ → Action W ℕ
  unfolding run_attempt after_single
  ask_single provider operation deadline_ms s =
      (run_attempt p provider operation 1 (p.now s.world + deadline_ms) >>= after_single provider)
        (fresh_controller p s)

  pub with_provider : Operation → (String → ℕ) → Option Provider → Action W ℕ
  unfolding ask_single is_open
  with_provider operation deadline_for none = throw (exhausted [])
  with_provider operation deadline_for (some provider) = do
    check_parent p
    λ s.
        if is_open p s provider.name
        then throws (exhausted (skipped provider.name ∷ [])) s
        else ask_single provider operation (deadline_for provider.name) s

  pub execute_single : Operation → (String → ℕ) → List Provider → Action W ℕ
  unfolding find_provider with_provider
  execute_single operation deadline_for available =
      with_provider operation deadline_for (find_provider operation available)

  -- A call that is not to cascade makes at most one request and records at most one outcome, and
  -- exactly one of each where it returns.
  pub execute_single-cost :
      (operation : Operation) (deadline_for : String → ℕ) (available : List Provider) (s : State W)
      → Ensures
          (λ _ t. (requests t ≡ 1 + requests s) × (outcomes t ≡ 1 + outcomes s))
          (λ _ t. (requests t ≤ 1 + requests s) × (outcomes t ≤ 1 + outcomes s))
          (execute_single operation deadline_for available s)
  unfolding execute_single
  execute_single-cost operation deadline_for available s = ground arith

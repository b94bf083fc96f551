-- ===== src/Ai/Cascade/Failover.antt =====
-- The providers that a call of the cascade of `src/ai/ai-provider-composition.ts` passes over, also
-- those whose exhausted quota should stop it.
use mathlib.Core.List.{append_assoc, append-nil}
use telegram_news_agent.Prelude.{
  ℕ, ◌≡◌, sym, ap, false, not, ◌&&◌, String, List, [], ◌∷◌, ◌++◌, arith, Bool-cases, inl, inr,
  if◌then◌else◌, All,
}
use telegram_news_agent.Ai.Cascade.Later.{prefixed, try_providers-IsLaterCall}
use telegram_news_agent.Ai.Cascade.{
  Operation, Provider, Failure, Ports, State, try_providers, execute, is_open, skipped,
}

module _ {W : Type 0} (p : Ports W) (operation : Operation) (deadline_for : String → ℕ) where
  -- The provider is not asked in the state: it cannot do it, or its breaker is open.
  abbrev pub IsPassed : State W → Provider → Type 0
  IsPassed s provider = (provider.supports operation && not (is_open p s provider.name)) ≡ false

  -- The failures that stand for the passed providers: those that could have been asked.
  abbrev pub skips : List Provider → List Failure
  skips [] = []
  skips (provider ∷ rest) =
      let later = skips rest in
      if provider.supports operation then skipped provider.name ∷ later else later

  try_providers-passed :
      (passed rest : List Provider) (errors : List Failure) (number : ℕ) (s : State W)
      → All (IsPassed s) passed
      → try_providers p operation deadline_for (passed ++ rest) errors number s
        ≡ try_providers p operation deadline_for rest (errors ++ skips passed) number s
  unfolding try_providers
  try_providers-passed [] rest errors number s h =
      ap (λ es. try_providers p operation deadline_for rest es number s) (sym (append-nil errors))
  try_providers-passed (provider ∷ passed) rest errors number s (q, h) = ground (
    arith,
    append_assoc errors (skipped provider.name ∷ []) (skips passed),
    try_providers-passed passed rest errors number s h,
    try_providers-passed passed rest (errors ++ skipped provider.name ∷ []) number s h,
  )

  -- A call passes over every provider at its head that cannot do the operation or whose breaker is
  -- open at the start of the call, whatever its traits say of an exhausted quota: it makes the same
  -- calls, ends in the same state and with the same result as a call over the providers after
  -- them, also where that is aborted. Only where all of these fail, the failure lists the skipped
  -- ones first, in their order.
  pub execute-passed :
      (passed rest : List Provider) (s : State W)
      → All (IsPassed s) passed
      → execute p operation deadline_for (passed ++ rest) s
        ≡ prefixed (skips passed) (execute p operation deadline_for rest s)
  unfolding execute
  execute-passed passed rest s h = elim (Bool-cases (p.is_parent_aborted s.world)) [
    | inl e ↦ ground (arith, e)
    | inr e ↦ ground (
      arith,
      e,
      try_providers-passed passed rest [] 0 s h,
      append-nil (skips passed),
      try_providers-IsLaterCall p (skips passed) operation deadline_for rest [] 0 s,
    )
  ]

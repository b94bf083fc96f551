-- ===== src/Telegram/Control/Guards.antt =====
-- Who may have a feature run by
-- `src/telegram/application/handle-telegram-control-update.use-case.ts`.
use telegram_news_agent.Prelude.{
  ℕ, suc, ◌≤◌, ◌≡◌, ◌≢◌, String, Bool, true, false, Option, none, some, List, [], ◌∷◌, count, arith,
}
use telegram_news_agent.Effects.{
  Outcome, returns, throws, Traced, continue, settle, resume_noted, pure, throw, ◌>>◌,
}
use telegram_news_agent.Effects.Rules.{Ensures}
use telegram_news_agent.Telegram.Updates.{Numeric}
use telegram_news_agent.Telegram.Polling.{Fault, Claim}
use telegram_news_agent.Telegram.Control.{
  Request, Call, Ports, Handled, Effect, invalid_request, validate_claim_envelope, validate_request,
  require_admin, conclude, process, settle_as, settle_error, with_token, after_claim, audit_run,
  note, execute,
}

-- The latest call asked whether the actor is an administrator of the channel, and the answer was yes.
abbrev pub Admits : String → Numeric → List Call → Type 0
Admits channel_id actor_id (Call.is_channel_admin c a (some true) ∷ calls) =
    (c ≡ channel_id) × (a ≡ actor_id)
Admits channel_id actor_id _ = ⊥

-- A feature is run only directly after such an answer.
abbrev pub IsGuarded : List Call → Type 0
IsGuarded [] = Unit
IsGuarded (Call.run_route channel_id actor_id ∷ calls) =
    Admits channel_id actor_id calls × IsGuarded calls
IsGuarded (_ ∷ calls) = IsGuarded calls

abbrev is_routed : Call → Bool
is_routed (Call.run_route _ _) = true
is_routed _ = false

abbrev pub routed : {W : Type 0} → Traced W Call → ℕ
routed s = count is_routed s.calls

module _ {W O : Type 0} (p : Ports W O) (request : Request) where
  abbrev Guarded : Traced W Call → Traced W Call → Type 0
  Guarded s t =
      IsGuarded t.calls
      × (routed t ≤ suc (routed s))
      × (invalid_request request ≢ none → routed t ≡ routed s)

  abbrev Guards : {A : Type 0} → Effect W A → Type 0
  Guards m =
      (s : Traced W Call)
      → IsGuarded s.calls
      → Ensures (λ _ t. Guarded s t) (λ _ t. Guarded s t) (m s)

  process-Guards : (token : String) → Guards (process p request token)
  unfolding process validate_request require_admin conclude
  process-Guards token s h = ground arith

  settle_error-Guards :
      (token : String) (e : Fault) (s t : Traced W Call)
      → Guarded s t
      → Ensures (λ _ u. Guarded s u) (λ _ u. Guarded s u) (settle_error p request token e t)
  unfolding settle_error settle_as
  settle_error-Guards token e s t h = ground arith

  settled-Guards :
      (token : String) (s : Traced W Call) (o : Outcome Fault (Traced W Call) (Handled O))
      → Ensures (λ _ t. Guarded s t) (λ _ t. Guarded s t) o
      → Ensures
          (λ _ t. Guarded s t)
          (λ _ t. Guarded s t)
          (settle o pure (settle_error p request token))
  settled-Guards token s (returns a t) h = h
  settled-Guards token s (throws e t) h = settle_error-Guards token e s t h

  after_claim-Guards : (claimed : Claim) → Guards (after_claim p request claimed)
  unfolding after_claim with_token
  after_claim-Guards claimed s h = go claimed.claim_token
    where
      go :
          (token : Option String)
          → Ensures
              (λ _ t. Guarded s t)
              (λ _ t. Guarded s t)
              (after_claim p request (record claimed { claim_token = token }) s)
      go none = ground arith
      go (some token) =
          ground
            (arith, settled-Guards token s (process p request token s) (process-Guards token s h))

  claimed-Guards :
      (s : Traced W Call) (o : Outcome Fault W Claim)
      → IsGuarded s.calls
      → Ensures
          (λ _ t. Guarded s t)
          (λ _ t. Guarded s t)
          (continue (resume_noted (Call.claim request.update_id) s.calls o) (after_claim p request))
  claimed-Guards s (returns claimed w) h =
      after_claim-Guards claimed
        (record { world = w; calls = Call.claim request.update_id (some claimed) ∷ s.calls }) h
  claimed-Guards s (throws e w) h = ground arith

  audited-Guards :
      (s : Traced W Call) (o : Outcome Fault (Traced W Call) (Handled O))
      → Ensures (λ _ t. Guarded s t) (λ _ t. Guarded s t) o
      → Ensures
          (λ _ t. Guarded s t)
          (λ _ t. Guarded s t)
          (settle o
            (λ handled. note p Call.audit_completed >> pure handled)
            (λ e. note p Call.audit_failed >> throw e))
  audited-Guards s (returns a t) h = ground arith
  audited-Guards s (throws e t) h = ground arith

  -- However it ends, an update has at most one feature run, and this directly after the answer that its sender is an
  -- administrator of its channel; a request that is invalid, from a chat that is not private for one, has none. No
  -- earlier run of the trace may be without such an answer.
  pub execute-IsGuarded :
      (s : Traced W Call)
      → IsGuarded s.calls
      → Ensures
          (λ _ t.
            IsGuarded t.calls
            × (routed t ≤ suc (routed s))
            × (invalid_request request ≢ none → routed t ≡ routed s))
          (λ _ t.
            IsGuarded t.calls
            × (routed t ≤ suc (routed s))
            × (invalid_request request ≢ none → routed t ≡ routed s))
          (execute p request s)
  unfolding execute validate_claim_envelope audit_run
  execute-IsGuarded s h =
      let begun : Traced W Call = record s { calls = Call.audit_started ∷ s.calls } in
      ground (
        arith,
        audited-Guards begun
            (continue
              (resume_noted (Call.claim request.update_id) begun.calls
                (p.claim request.update_id request.update_kind s.world))
              (after_claim p request))
            (claimed-Guards begun (p.claim request.update_id request.update_kind s.world) h),
      )

-- ===== src/Telegram/Control/Durable.antt =====
-- What the poller may take for granted of
-- `src/telegram/application/handle-telegram-control-update.use-case.ts`: an update that is over has been
-- finished as completed.
use telegram_news_agent.Prelude.{
  ℕ, suc, ◌≡◌, ◌⊎◌, refl, String, Bool, true, false, Option, none, some, ◌∷◌, count, arith,
  if◌then◌else◌,
}
use telegram_news_agent.Effects.{
  Outcome, returns, throws, Traced, continue, settle, resume_noted, pure, throw, ◌>>◌,
}
use telegram_news_agent.Effects.Rules.{Ensures}
use telegram_news_agent.Telegram.Polling.{Fault, Claim, is_terminal_telegram_control_error}
use telegram_news_agent.Telegram.Control.{
  Request, Call, Ports, Handled, duplicate, outcome, validate_claim_envelope, validate_request,
  require_admin, conclude, process, settle_as, settle_error, with_token, after_claim, audit_run,
  note, execute,
}

-- an answer that the update is finished as completed
abbrev is_completion : Call → Bool
is_completion (Call.finish true _ (some true)) = true
is_completion _ = false

abbrev pub completions : {W : Type 0} → Traced W Call → ℕ
completions s = count is_completion s.calls

lost_not_terminal : is_terminal_telegram_control_error (Fault.control "update_claim_lost") ≡ false
unfolding is_terminal_telegram_control_error
lost_not_terminal = refl

in_progress_not_terminal :
    is_terminal_telegram_control_error (Fault.control "update_in_progress") ≡ false
unfolding is_terminal_telegram_control_error
in_progress_not_terminal = refl

other_not_terminal : is_terminal_telegram_control_error (Fault.other false none) ≡ false
unfolding is_terminal_telegram_control_error
other_not_terminal = refl

module _ {W O : Type 0} (p : Ports W O) (request : Request) where
  -- what the database answers, or an error that is not a terminal one of the application
  abbrev pub Plain : Outcome Fault W Claim → Type 0
  Plain = Ensures (λ _ _. Unit) (λ e _. is_terminal_telegram_control_error e ≡ false)

  abbrev pub Answered : Traced W Call → Handled O → Traced W Call → Type 0
  Answered s duplicate t = completions t ≡ completions s
  Answered s (outcome o) t = completions t ≡ suc (completions s)

  abbrev Failed : Traced W Call → Fault → Traced W Call → Type 0
  Failed s e t =
      completions t
      ≡ (if is_terminal_telegram_control_error e then suc (completions s) else completions s)

  abbrev Durable : Traced W Call → Outcome Fault (Traced W Call) (Handled O) → Type 0
  Durable s = Ensures (λ r t. Answered s r t) (λ e t. Failed s e t)

  process-Answered :
      (token : String) (s : Traced W Call)
      → Ensures
          (λ r t. Answered s r t)
          (λ _ t. completions t ≡ completions s)
          (process p request token s)
  unfolding process validate_request require_admin conclude
  process-Answered token s = ground arith

  settle_as-Durable :
      (token : String) (e : Fault) (s t : Traced W Call)
      → completions t ≡ completions s
      → Durable s (settle_as p request token e t)
  unfolding settle_as
  settle_as-Durable token e s t h = ground (arith, lost_not_terminal)

  settle_error-Durable :
      (token : String) (e : Fault) (s t : Traced W Call)
      → completions t ≡ completions s
      → Durable s (settle_error p request token e t)
  unfolding settle_error
  settle_error-Durable token e s t h =
      settle_as-Durable token
        (if p.is_aborted t.world then Fault.control "update_claim_lost" else e) s t h

  settled-Durable :
      (token : String) (s : Traced W Call) (o : Outcome Fault (Traced W Call) (Handled O))
      → Ensures (λ r t. Answered s r t) (λ _ t. completions t ≡ completions s) o
      → Durable s (settle o pure (settle_error p request token))
  settled-Durable token s (returns r t) h = h
  settled-Durable token s (throws e t) h = settle_error-Durable token e s t h

  with_token-Durable :
      (token : Option String) (s : Traced W Call) → Durable s (with_token p request token s)
  unfolding with_token
  with_token-Durable none s = ground (arith, other_not_terminal)
  with_token-Durable (some token) s = ground (
    arith,
    other_not_terminal,
    settled-Durable token s (process p request token s) (process-Answered token s),
  )

  after_claim-Durable :
      (claimed : Claim) (s : Traced W Call) → Durable s (after_claim p request claimed s)
  unfolding after_claim
  after_claim-Durable claimed s =
      ground (arith, in_progress_not_terminal, with_token-Durable claimed.claim_token s)

  claimed-Durable :
      (s : Traced W Call) (o : Outcome Fault W Claim)
      → Plain o
      → Durable s
          (continue (resume_noted (Call.claim request.update_id) s.calls o) (after_claim p request))
  claimed-Durable s (returns claimed w) plain =
      after_claim-Durable claimed
        (record { world = w; calls = Call.claim request.update_id (some claimed) ∷ s.calls })
  claimed-Durable s (throws e w) plain = rw plain refl

  audited-Durable :
      (s : Traced W Call) (o : Outcome Fault (Traced W Call) (Handled O))
      → Durable s o
      → Durable s (
          settle o
            (λ handled. note p Call.audit_completed >> pure handled)
            (λ e. note p Call.audit_failed >> throw e))
  audited-Durable s (returns duplicate t) h = h
  audited-Durable s (returns (outcome o) t) h = h
  audited-Durable s (throws e t) h = h

  -- A handled update has been answered to be finished as completed exactly once, and a duplicate
  -- never. Where the handler throws, the update has been finished as completed exactly where the
  -- error is a terminal one, unless it was refused before it was claimed: then no call was made.
  -- The database's claim is assumed not to throw a terminal error of the application.
  pub execute-Durable :
      (s : Traced W Call)
      → ((w : W) → Plain (p.claim request.update_id request.update_kind w))
      → Ensures
          (λ r t. Answered s r t)
          (λ e t.
            (completions t ≡ (
              if is_terminal_telegram_control_error e then suc (completions s) else completions s))
            ⊎ (t.calls ≡ s.calls))
          (execute p request s)
  unfolding execute validate_claim_envelope audit_run
  execute-Durable s plain =
      let begun : Traced W Call = record s { calls = Call.audit_started ∷ s.calls } in
      let claimed = p.claim request.update_id request.update_kind s.world in
      ground (
        arith,
        lost_not_terminal,
        audited-Durable begun
            (continue (resume_noted (Call.claim request.update_id) begun.calls claimed)
              (after_claim p request))
            (claimed-Durable begun claimed (plain s.world)),
      )

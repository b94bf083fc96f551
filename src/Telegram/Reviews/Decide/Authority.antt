-- ===== src/Telegram/Reviews/Decide/Authority.antt =====
-- A review of `src/telegram/application/decide-telegram-review.use-case.ts` publishes only what the
-- stored decision says.
use telegram_news_agent.Prelude.{
  ℕ, suc, ◌+◌, ◌≤◌, ◌≡◌, String, Bool, true, false, ◌&&◌, Option, none, some, List, [], ◌∷◌, any,
  count, indicator, arith, str_eq, eq_refl,
}
use telegram_news_agent.Effects.{
  Outcome, returns, throws, Traced, continue, handle, resume_noted, ◌>>◌,
}
use telegram_news_agent.Effects.Rules.{Ensures}
use telegram_news_agent.Telegram.Reviews.Callback.{Action, publish, reject}
use telegram_news_agent.Telegram.Reviews.{Fault, Decision, Call}
use telegram_news_agent.Telegram.Reviews.Decide.{
  ReviewRoute, Request, ReviewOutcome, already_decided, rejected, blocked_by_policy,
  published_draft, Ports, answer, decide, decide_error, publish_draft, publish_error, conclude,
  act_on, check, with_route, execute,
}

abbrev pub is_publish : Action → Bool
is_publish publish = true
is_publish reject = false

abbrev pub is_publication : Call → Bool
is_publication (Call.publish_approved_draft _ _) = true
is_publication _ = false

abbrev pub publications : {W : Type 0} → Traced W Call → ℕ
publications s = count is_publication s.calls

-- the answer of a decision that has this draft published
abbrev pub allows : String → Call → Bool
allows draft_id (Call.decide _ _ (some d)) = is_publish d.decision && str_eq d.draft_id draft_id
allows draft_id _ = false

-- Every publication comes after the decision that allows it.
abbrev pub IsAuthorized : List Call → Type 0
IsAuthorized [] = Unit
IsAuthorized (Call.publish_approved_draft draft_id _ ∷ calls) =
    (any (allows draft_id) calls ≡ true) × IsAuthorized calls
IsAuthorized (_ ∷ calls) = IsAuthorized calls

-- whether an outcome stands for an attempt to publish
abbrev pub is_attempt : ReviewOutcome → Bool
is_attempt (already_decided _ _) = false
is_attempt (rejected _ _) = false
is_attempt (blocked_by_policy _ _ _) = true
is_attempt (published_draft _ _ _) = true

module _ {W : Type 0} (p : Ports W) where
  abbrev Concludes : Traced W Call → Outcome Fault (Traced W Call) ReviewOutcome → Type 0
  Concludes s =
      Ensures
        (λ r t. IsAuthorized t.calls × (publications t ≡ publications s + indicator (is_attempt r)))
        (λ _ t. IsAuthorized t.calls × (publications t ≤ suc (publications s)))

  act_on-Concludes :
      (request : Request) (route : ReviewRoute) (d : Decision) (s : Traced W Call)
      → IsAuthorized s.calls
      → (d.decision ≡ publish → any (allows d.draft_id) s.calls ≡ true)
      → Concludes s (act_on p request route d s)
  unfolding act_on conclude publish_draft publish_error answer
  act_on-Concludes request route d s h k = ground arith

  allows-own :
      (route : ReviewRoute) (d : Decision) (calls : List Call)
      → d.decision ≡ publish
      → any (allows d.draft_id) (Call.decide route.session_id route.action (some d) ∷ calls) ≡ true
  allows-own route d calls e = ground (arith, eq_refl d.draft_id)

  -- the decision, and what follows from it
  decided-Concludes :
      (request : Request) (route : ReviewRoute) (s : Traced W Call) (o : Outcome Fault W Decision)
      → IsAuthorized s.calls
      → Concludes s (
          continue
            (handle
              (resume_noted (Call.decide route.session_id route.action) s.calls o)
              (decide_error p))
            (act_on p request route))
  unfolding decide_error
  decided-Concludes request route s (returns d w) h =
      act_on-Concludes request route d
        (record { world = w; calls = Call.decide route.session_id route.action (some d) ∷ s.calls })
        h (allows-own route d s.calls)
  decided-Concludes request route s (throws e w) h = ground arith

  -- A review publishes at most once, and only a draft whose stored decision is to publish it; it
  -- reports a publication or a block by the policy exactly where it asked to publish. No earlier
  -- publication of the trace may be without its decision.
  pub execute-IsAuthorized :
      (request : Request) (s : Traced W Call)
      → IsAuthorized s.calls
      → Ensures
          (λ r t.
            IsAuthorized t.calls × (publications t ≡ publications s + indicator (is_attempt r)))
          (λ _ t. IsAuthorized t.calls × (publications t ≤ suc (publications s)))
          (execute p request s)
  unfolding execute with_route decide
  execute-IsAuthorized request s h = go request.route
    where
      go : (route : Option ReviewRoute) → Concludes s ((check p >> with_route p request route) s)
      go none = ground arith
      go (some route) =
          ground (arith, decided-Concludes request route s (p.decide route request s.world) h)

-- ===== src/Editorial/Publish/Gate.antt =====
-- What the steps before the delivery do: they send nothing, and a claim is for the text it names.
use telegram_news_agent.Prelude.{
  ℕ, zero, suc, ◌≡◌, refl, String, Bool, true, false, List, [], ◌∷◌, arith, count, ◌∙◌,
}
use telegram_news_agent.Effects.{Traced, perform, ◌>>=◌}
use telegram_news_agent.Effects.Rules.{Moves, Moves-bind}
use telegram_news_agent.Editorial.{
  DraftRow, PublicationPath, Settings, PolicyDecision, PolicyInput, Call, Ports, Action,
  check_signal,
}
use telegram_news_agent.Editorial.Publish.{
  Step, ignore, record_usage, evaluate_policy, screen, block_publication, claim_publication, round,
  rounds, require_settings, classify, act_on, next_round,
}

abbrev pub is_send : Call → Bool
is_send (Call.send _ _) = true
is_send _ = false

abbrev pub sends : {W : Type 0} → Traced W Call → ℕ
sends s = count is_send s.calls

-- The latest call claims the draft for the channel, by the hash of this text.
abbrev pub ClaimedFor : {W : Type 0} → Ports W → String → String → String → List Call → Type 0
ClaimedFor p draft_id channel_id text [] = ⊥
ClaimedFor p draft_id channel_id text (Call.claim input ∷ _) =
    (input.draft_id ≡ draft_id)
    × (input.channel_id ≡ channel_id)
    × (input.outbound_text_sha256 ≡ p.sha256 text)
ClaimedFor p draft_id channel_id text (_ ∷ _) = ⊥

-- Every message goes to the channel and directly follows the claim of its text.
abbrev pub IsGuarded : {W : Type 0} → Ports W → String → String → List Call → Type 0
IsGuarded p draft_id channel_id [] = Unit
IsGuarded p draft_id channel_id (Call.send channel text ∷ rest) =
    (channel ≡ channel_id)
    × ClaimedFor p draft_id channel_id text rest
    × IsGuarded p draft_id channel_id rest
IsGuarded p draft_id channel_id (_ ∷ rest) = IsGuarded p draft_id channel_id rest

module _ {W : Type 0} (p : Ports W) (draft_id channel_id : String) where
  abbrev pub SendsNothing : Traced W Call → Traced W Call → Type 0
  SendsNothing s t =
      (sends t ≡ sends s)
      × (IsGuarded p draft_id channel_id s.calls → IsGuarded p draft_id channel_id t.calls)

  SendsNothing-trans :
      (s t u : Traced W Call) → SendsNothing s t → SendsNothing t u → SendsNothing s u
  SendsNothing-trans s t u (h, g) (k, l) = (k ∙ h, λ x. l (g x))

  abbrev pub IsQuiet : {A : Type 0} → Action W A → Type 0
  IsQuiet m = Moves SendsNothing m

  quiet_refl : (s : Traced W Call) → SendsNothing s s
  quiet_refl s = (refl, λ x. x)

  -- A sequence of quiet actions is quiet.
  IsQuiet-bind :
      {A B : Type 0} (m : Action W A) (f : A → Action W B)
      → IsQuiet m
      → ((a : A) → IsQuiet (f a))
      → IsQuiet (m >>= f)
  IsQuiet-bind m f = Moves-bind SendsNothing SendsNothing-trans m f

  check_signal-IsQuiet : IsQuiet (check_signal p)
  check_signal-IsQuiet s = ground arith

  record_usage-IsQuiet :
      (events : List ℕ) (draft : DraftRow) (channel : String)
      → IsQuiet (record_usage p events draft channel)
  unfolding record_usage
  record_usage-IsQuiet [] draft channel = λ s. quiet_refl s
  record_usage-IsQuiet (e ∷ es) draft channel =
      IsQuiet-bind
        (ignore p (
          perform (Call.record_usage e channel draft.article_id)
            (p.record_usage e channel draft.article_id)))
        (λ _. record_usage p es draft channel) (λ s. ground arith)
        (λ _. record_usage-IsQuiet es draft channel)

  evaluate_policy-IsQuiet : (input : PolicyInput) → IsQuiet (evaluate_policy p input)
  unfolding evaluate_policy
  evaluate_policy-IsQuiet input s = ground arith

  classify-IsQuiet : (input : PolicyInput) (draft : DraftRow) → IsQuiet (classify p input draft)
  unfolding classify
  classify-IsQuiet input draft =
      IsQuiet-bind (evaluate_policy p input) _ (evaluate_policy-IsQuiet input) λ d.
        IsQuiet-bind (record_usage p d.usage_events draft input.channel_id) _
          (record_usage-IsQuiet d.usage_events draft input.channel_id) (λ _. λ s. ground arith)

  screen-IsQuiet :
      (settings : Settings) (draft : DraftRow)
      → IsQuiet (screen p draft_id channel_id settings draft)
  unfolding screen
  screen-IsQuiet settings draft s = grind (arith, classify-IsQuiet)

  block_publication-IsQuiet :
      (is_first : Bool) (path : PublicationPath) (settings : Settings) (draft : DraftRow)
      (decision : PolicyDecision)
      → IsQuiet (block_publication p is_first draft_id channel_id path settings draft decision)
  unfolding block_publication
  block_publication-IsQuiet is_first path settings draft decision s = ground arith

  claim_publication-IsQuiet :
      (is_first : Bool) (settings : Settings) (draft : DraftRow)
      → IsQuiet (claim_publication p is_first draft_id channel_id settings draft)
  unfolding claim_publication
  claim_publication-IsQuiet is_first settings draft s = ground arith

  act_on-IsQuiet :
      (is_first : Bool) (path : PublicationPath) (settings : Settings) (draft : DraftRow)
      (decision : PolicyDecision)
      → IsQuiet (act_on p is_first draft_id channel_id path settings draft decision)
  unfolding act_on
  act_on-IsQuiet is_first path settings draft decision s = ground (
    arith,
    block_publication-IsQuiet is_first path settings draft decision s,
    claim_publication-IsQuiet is_first settings draft s,
  )

  pub round-IsQuiet :
      (is_first : Bool) (path : PublicationPath) (draft : DraftRow)
      → IsQuiet (round p is_first draft_id channel_id path draft)
  unfolding round require_settings
  round-IsQuiet is_first path draft = IsQuiet-bind (check_signal p) _ check_signal-IsQuiet λ _.
      IsQuiet-bind (perform Call.read (p.get_settings channel_id)) _ (λ s. ground arith)
        λ found.
          IsQuiet-bind (require_settings p found) _ (λ s. ground arith)
            λ settings.
              IsQuiet-bind (screen p draft_id channel_id settings draft) _
                (screen-IsQuiet settings draft) (act_on-IsQuiet is_first path settings draft)

  pub rounds-IsQuiet :
      (left : ℕ) (is_first : Bool) (path : PublicationPath) (draft : DraftRow)
      → IsQuiet (rounds p left is_first draft_id channel_id path draft)
  unfolding rounds
  rounds-IsQuiet zero is_first path draft = λ s. quiet_refl s
  rounds-IsQuiet (suc left) is_first path draft =
      IsQuiet-bind (round p is_first draft_id channel_id path draft) _
        (round-IsQuiet is_first path draft)
        (later (rounds p left false draft_id channel_id path) (rounds-IsQuiet left false path))
    where
      later :
          (loop : DraftRow → Action W Step)
          → ((row : DraftRow) → IsQuiet (loop row))
          → (step : Step) → IsQuiet (next_round p loop step)
      later loop h (Step.again row) = h row
      later loop h (Step.done result) = λ s. quiet_refl s
      later loop h (Step.claimed row) = λ s. quiet_refl s

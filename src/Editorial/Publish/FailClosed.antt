-- ===== src/Editorial/Publish/FailClosed.antt =====
-- A policy that does not allow keeps the draft from being claimed and sent.
use telegram_news_agent.Prelude.{
  ℕ, zero, suc, ◌≡◌, ◌≢◌, refl, String, Bool, true, false, List, [], ◌∷◌, Option, none, some, arith,
  count, ◌∙◌,
}
use telegram_news_agent.Effects.{Outcome, Traced, returns, throws, perform, continue, ◌>>=◌}
use telegram_news_agent.Effects.Rules.{Ensures}
use telegram_news_agent.Editorial.{
  DraftRow, PublishedPostRow, PublicationPath, Settings, PolicyDecision, PolicyInput, Fault, Call,
  Ports, Action, check_signal,
}
use telegram_news_agent.Editorial.Publish.{
  PublishResult, Step, is_allow, evaluate_policy, record_usage, classify, screen, block_publication,
  act_on, require_settings, round, rounds, next_round, after_rounds, proceed, after_block_lookup,
  after_lookup, publish_article_published, execute, ignore,
}
use telegram_news_agent.Editorial.Publish.Gate.{sends}

abbrev pub is_claim : Call → Bool
is_claim (Call.claim _) = true
is_claim _ = false

abbrev pub claims : {W : Type 0} → Traced W Call → ℕ
claims s = count is_claim s.calls

abbrev pub DoesNotAllow : {W : Type 0} → Outcome Fault W PolicyDecision → Type 0
DoesNotAllow (returns value _) = is_allow value.decision ≡ false
DoesNotAllow (throws _ _) = Unit

abbrev pub ExcludesTopics : {W : Type 0} → Outcome Fault W (Option Settings) → Type 0
ExcludesTopics (returns (some settings) _) = settings.excluded_topic_codes ≢ []
ExcludesTopics _ = Unit

abbrev pub Untouched : {W : Type 0} → Traced W Call → Traced W Call → Type 0
Untouched s t = (sends t ≡ sends s) × (claims t ≡ claims s)

abbrev IsRefusal : PolicyDecision → Type 0
IsRefusal value = is_allow value.decision ≡ false

abbrev HasExclusions : Settings → Type 0
HasExclusions settings = settings.excluded_topic_codes ≢ []

abbrev HasSome : Option Settings → Type 0
HasSome none = Unit
HasSome (some settings) = HasExclusions settings

abbrev NotClaimed : Step → Type 0
NotClaimed (Step.claimed _) = ⊥
NotClaimed _ = Unit

module _ {W : Type 0} (p : Ports W)
    (refuses : (input : PolicyInput) (w : W) → DoesNotAllow (p.evaluate input w)) where
  -- The action leaves claims and messages as they are, and what it returns satisfies `Q`.
  abbrev Withholds : {A : Type 0} → (A → Type 0) → Action W A → Type 0
  Withholds Q m =
      (s : Traced W Call) → Ensures (λ a t. Q a × Untouched s t) (λ _ t. Untouched s t) (m s)

  withhold_bind :
      {A B : Type 0} (Q : A → Type 0) (P : B → Type 0) (m : Action W A) (f : A → Action W B)
      → Withholds Q m
      → ((a : A) → Q a → Withholds P (f a))
      → Withholds P (m >>= f)
  withhold_bind {A} {B} Q P m f h k s = first (m s) (h s)
    where
      carry :
          (t : Traced W Call) (o : Outcome Fault (Traced W Call) B)
          → Untouched s t
          → Ensures (λ b u. P b × Untouched t u) (λ _ u. Untouched t u) o
          → Ensures (λ b u. P b × Untouched s u) (λ _ u. Untouched s u) o
      carry t (returns b u) x y = (y.0, (y.1.0 ∙ x.0, y.1.1 ∙ x.1))
      carry t (throws e u) x y = (y.0 ∙ x.0, y.1 ∙ x.1)

      first :
          (o : Outcome Fault (Traced W Call) A)
          → Ensures (λ a t. Q a × Untouched s t) (λ _ t. Untouched s t) o
          → Ensures (λ b u. P b × Untouched s u) (λ _ u. Untouched s u) (continue o f)
      first (throws e t) x = x
      first (returns a t) (q, x) = carry t (f a t) x (k a q t)

  record_usage_untouched :
      (events : List ℕ) (draft : DraftRow) (channel_id : String)
      → Withholds (λ _. Unit {0}) (record_usage p events draft channel_id)
  unfolding record_usage
  record_usage_untouched [] draft channel_id = λ s. (tt, (refl, refl))
  record_usage_untouched (e ∷ es) draft channel_id =
      withhold_bind (λ _. Unit {0}) (λ _. Unit {0})
        (ignore p (
          perform (Call.record_usage e channel_id draft.article_id)
            (p.record_usage e channel_id draft.article_id)))
        (λ _. record_usage p es draft channel_id) (λ s. ground arith)
        (λ _ _. record_usage_untouched es draft channel_id)

  evaluate_policy_refuses : (input : PolicyInput) → Withholds IsRefusal (evaluate_policy p input)
  unfolding evaluate_policy
  evaluate_policy_refuses input s = ground (arith, refuses input s.world)

  classify_refuses :
      (input : PolicyInput) (draft : DraftRow) → Withholds IsRefusal (classify p input draft)
  unfolding classify
  classify_refuses input draft =
      withhold_bind IsRefusal IsRefusal (evaluate_policy p input) _ (evaluate_policy_refuses input)
        λ d q.
          withhold_bind (λ _. Unit {0}) IsRefusal
            (record_usage p d.usage_events draft input.channel_id) _
            (record_usage_untouched d.usage_events draft input.channel_id) (λ _ _ s. ground arith)

  screen_refuses :
      (draft_id channel_id : String) (settings : Settings) (draft : DraftRow)
      → settings.excluded_topic_codes ≢ []
      → Withholds IsRefusal (screen p draft_id channel_id settings draft)
  unfolding screen
  screen_refuses draft_id channel_id settings draft h s = grind (arith, classify_refuses)

  act_on_untouched :
      (is_first : Bool) (draft_id channel_id : String) (path : PublicationPath)
      (settings : Settings) (draft : DraftRow) (decision : PolicyDecision)
      → IsRefusal decision
      → Withholds NotClaimed (act_on p is_first draft_id channel_id path settings draft decision)
  unfolding act_on block_publication
  act_on_untouched is_first draft_id channel_id path settings draft decision h s = ground arith

  module _ (channel_id : String)
      (excludes : (w : W) → ExcludesTopics (p.get_settings channel_id w)) where
    round_untouched :
        (is_first : Bool) (draft_id : String) (path : PublicationPath) (draft : DraftRow)
        → Withholds NotClaimed (round p is_first draft_id channel_id path draft)
    unfolding round require_settings
    round_untouched is_first draft_id path draft =
        withhold_bind (λ _. Unit {0}) NotClaimed (check_signal p) _ (λ s. ground arith)
          λ _ _.
            withhold_bind HasSome NotClaimed (perform Call.read (p.get_settings channel_id)) _
              (λ s. ground (arith, excludes s.world))
              λ found h.
                withhold_bind HasExclusions NotClaimed (require_settings p found) _
                  (λ s. ground arith)
                  λ settings x.
                    withhold_bind IsRefusal NotClaimed (screen p draft_id channel_id settings draft)
                      _ (screen_refuses draft_id channel_id settings draft x)
                      (act_on_untouched is_first draft_id channel_id path settings draft)

    rounds_untouched :
        (left : ℕ) (is_first : Bool) (draft_id : String) (path : PublicationPath) (draft : DraftRow)
        → Withholds NotClaimed (rounds p left is_first draft_id channel_id path draft)
    unfolding rounds
    rounds_untouched zero is_first draft_id path draft = λ s. (refl, refl)
    rounds_untouched (suc left) is_first draft_id path draft =
        withhold_bind NotClaimed NotClaimed (round p is_first draft_id channel_id path draft) _
          (round_untouched is_first draft_id path draft)
          (later (rounds p left false draft_id channel_id path)
            (rounds_untouched left false draft_id path))
      where
        later :
            (loop : DraftRow → Action W Step)
            → ((row : DraftRow) → Withholds NotClaimed (loop row))
            → (step : Step) → NotClaimed step
            → Withholds NotClaimed (next_round p loop step)
        later loop h (Step.again row) _ = h row
        later loop h (Step.done result) _ = λ s. (tt, (refl, refl))
        later loop h (Step.claimed row) x = absurd x

    after_rounds_untouched :
        (draft_id : String) (path : PublicationPath) (step : Step)
        → NotClaimed step
        → Withholds (λ _. Unit {0}) (after_rounds p draft_id channel_id path step)
    unfolding after_rounds
    after_rounds_untouched draft_id path (Step.done result) _ = λ s. (tt, (refl, refl))
    after_rounds_untouched draft_id path (Step.again row) _ = λ s. (refl, refl)
    after_rounds_untouched draft_id path (Step.claimed row) x = absurd x

    proceed_untouched :
        (draft_id : String) (path : PublicationPath)
        → Withholds (λ _. Unit {0}) (proceed p draft_id channel_id path)
    unfolding proceed
    proceed_untouched draft_id path =
        withhold_bind (λ _. Unit {0}) (λ _. Unit {0}) (perform Call.read (p.get_draft draft_id)) _
          (λ s. ground arith)
          λ draft _.
            withhold_bind NotClaimed (λ _. Unit {0})
              (rounds p 2 true draft_id channel_id path draft) _
              (rounds_untouched 2 true draft_id path draft) (after_rounds_untouched draft_id path)

    after_block_lookup_untouched :
        (draft_id : String) (path : PublicationPath) (block : Option String)
        → Withholds (λ _. Unit {0}) (after_block_lookup p draft_id channel_id path block)
    unfolding after_block_lookup
    after_block_lookup_untouched draft_id path none = proceed_untouched draft_id path
    after_block_lookup_untouched draft_id path (some reason) = λ s. ground arith

    after_lookup_untouched :
        (draft_id : String) (path : PublicationPath) (existing : Option PublishedPostRow)
        → Withholds (λ _. Unit {0}) (after_lookup p draft_id channel_id path existing)
    unfolding after_lookup publish_article_published
    after_lookup_untouched draft_id path none =
        withhold_bind (λ _. Unit {0}) (λ _. Unit {0})
          (perform Call.read (p.find_block draft_id channel_id)) _ (λ s. ground arith)
          (λ block _. after_block_lookup_untouched draft_id path block)
    after_lookup_untouched draft_id path (some row) = λ s. ground arith

    -- Where the settings of the given channel exclude some topic whenever they can be read, and the
    -- topic policy never answers with an allowance (it blocks, is uncertain, gives an invalid answer
    -- or throws), an execution for that channel claims no draft and sends no message, whether it
    -- returns or throws. Nothing is asked of the settings of other channels.
    pub execute_fails_closed :
        (draft_id : String) (path : PublicationPath) (s : Traced W Call)
        → Ensures
            (λ _ t. (sends t ≡ sends s) × (claims t ≡ claims s))
            (λ _ t. (sends t ≡ sends s) × (claims t ≡ claims s))
            (execute p draft_id channel_id path s)
    unfolding execute
    execute_fails_closed draft_id path s = drop_any (execute p draft_id channel_id path s) (whole s)
      where
        whole : Withholds (λ _. Unit {0}) (execute p draft_id channel_id path)
        whole =
            withhold_bind (λ _. Unit {0}) (λ _. Unit {0}) (check_signal p) _ (λ s. ground arith)
              λ _ _.
                withhold_bind (λ _. Unit {0}) (λ _. Unit {0})
                  (perform Call.read (p.find_publication draft_id)) _ (λ s. ground arith)
                  (λ existing _. after_lookup_untouched draft_id path existing)

        drop_any :
            (o : Outcome Fault (Traced W Call) PublishResult)
            → Ensures (λ _ t. Unit {0} × Untouched s t) (λ _ t. Untouched s t) o
            → Ensures (λ _ t. Untouched s t) (λ _ t. Untouched s t) o
        drop_any (returns a t) (_, x) = x
        drop_any (throws e t) x = x

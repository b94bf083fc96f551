-- ===== src/Editorial/Publish/Safety.antt =====
-- The whole publication: at most one message, only for claimed text, and how a delivery is settled.
use telegram_news_agent.Prelude.{
  ℕ, zero, suc, ◌≤◌, ◌≡◌, String, Bool, true, false, Option, none, some, arith, eq_iff,
}
use telegram_news_agent.Effects.{Outcome, Traced, returns, throws, perform, continue, ◌>>=◌}
use telegram_news_agent.Effects.Rules.{Ensures, Ensures-continue, Ensures-skip, Moves}
use telegram_news_agent.Editorial.{
  DraftRow, PublishedPostRow, PublicationPath, Settings, PolicyDecision, Fault, Call, Ports, Action,
  check_signal,
}
use telegram_news_agent.Editorial.Publish.{
  Step, publish_article_published, block_publication, claim_publication, act_on, next_round, round,
  rounds, require_settings, screen, deliver, after_rounds, proceed, after_block_lookup,
  after_lookup, execute,
}
use telegram_news_agent.Editorial.Publish.Gate.{
  sends, ClaimedFor, IsGuarded, SendsNothing, IsQuiet, rounds-IsQuiet,
}

-- A claimed step follows the claim of the very text that it carries.
abbrev pub Granted : {W : Type 0} → Ports W → String → String → Step → Traced W Call → Type 0
Granted p draft_id channel_id (Step.claimed row) t =
    ClaimedFor p draft_id channel_id row.body t.calls
Granted p draft_id channel_id _ t = Unit

module _ {W : Type 0} (p : Ports W) (draft_id channel_id : String) where
  abbrev Grants : Action W Step → Type 0
  Grants m =
      (s : Traced W Call)
      → Ensures (λ step t. Granted p draft_id channel_id step t) (λ _ _. Unit) (m s)

  claim_publication-Granted :
      (is_first : Bool) (settings : Settings) (draft : DraftRow)
      → Grants (claim_publication p is_first draft_id channel_id settings draft)
  unfolding claim_publication
  claim_publication-Granted is_first settings draft s = grind (arith, eq_iff)

  block_publication-Granted :
      (is_first : Bool) (path : PublicationPath) (settings : Settings) (draft : DraftRow)
      (decision : PolicyDecision)
      → Grants (block_publication p is_first draft_id channel_id path settings draft decision)
  unfolding block_publication
  block_publication-Granted is_first path settings draft decision s = ground arith

  deliver-sends :
      (path : PublicationPath) (row : DraftRow) (s : Traced W Call)
      → Ensures
          (λ _ t. sends t ≡ suc (sends s))
          (λ _ t. sends t ≡ suc (sends s))
          (deliver p draft_id channel_id path row s)
  unfolding deliver
  deliver-sends path row s = ground arith

  deliver-IsGuarded :
      (path : PublicationPath) (row : DraftRow) (s : Traced W Call)
      → ClaimedFor p draft_id channel_id row.body s.calls
      → IsGuarded p draft_id channel_id s.calls
      → Ensures
          (λ _ t. IsGuarded p draft_id channel_id t.calls)
          (λ _ t. IsGuarded p draft_id channel_id t.calls)
          (deliver p draft_id channel_id path row s)
  unfolding deliver
  deliver-IsGuarded path row s claim guarded = ground arith

  act_on-Granted :
      (is_first : Bool) (path : PublicationPath) (settings : Settings) (draft : DraftRow)
      (decision : PolicyDecision)
      → Grants (act_on p is_first draft_id channel_id path settings draft decision)
  unfolding act_on
  act_on-Granted is_first path settings draft decision s = ground (
    arith,
    block_publication-Granted is_first path settings draft decision s,
    claim_publication-Granted is_first settings draft s,
  )

  skip_Grants :
      {A : Type 0} (m : Action W A) (f : A → Action W Step)
      → ((a : A) → Grants (f a))
      → Grants (m >>= f)
  skip_Grants m f h s = Ensures-skip (Granted p draft_id channel_id) (m s) f h

  round-Granted :
      (is_first : Bool) (path : PublicationPath) (draft : DraftRow)
      → Grants (round p is_first draft_id channel_id path draft)
  unfolding round
  round-Granted is_first path draft = skip_Grants (check_signal p) _ λ _.
      skip_Grants (perform Call.read (p.get_settings channel_id)) _ λ found.
        skip_Grants (require_settings p found) _ λ settings.
          skip_Grants (screen p draft_id channel_id settings draft) _
            (act_on-Granted is_first path settings draft)

  next_round-Granted :
      (loop : DraftRow → Action W Step)
      → ((row : DraftRow) → Grants (loop row))
      → (step : Step) (s : Traced W Call) → Granted p draft_id channel_id step s
      → Ensures (Granted p draft_id channel_id) (λ _ _. Unit) (next_round p loop step s)
  next_round-Granted loop h (Step.again row) s g = h row s
  next_round-Granted loop h (Step.done result) s g = tt
  next_round-Granted loop h (Step.claimed row) s g = g

  rounds-Granted :
      (left : ℕ) (is_first : Bool) (path : PublicationPath) (draft : DraftRow)
      → Grants (rounds p left is_first draft_id channel_id path draft)
  unfolding rounds
  rounds-Granted zero is_first path draft s = tt
  rounds-Granted (suc left) is_first path draft s =
      Ensures-continue (Granted p draft_id channel_id) (Granted p draft_id channel_id) (λ _ _. Unit)
        (round p is_first draft_id channel_id path draft s) _ (round-Granted is_first path draft s)
        (next_round-Granted (rounds p left false draft_id channel_id path)
          (rounds-Granted left false path))

  -- One message at most, after the claim of its text.
  abbrev pub IsSafeFrom : Traced W Call → Traced W Call → Type 0
  IsSafeFrom s t =
      (sends t ≤ suc (sends s))
      × (IsGuarded p draft_id channel_id s.calls → IsGuarded p draft_id channel_id t.calls)

  abbrev pub IsSafe : {A : Type 0} → Action W A → Type 0
  IsSafe m = Moves IsSafeFrom m

  both :
      (s : Traced W Call) (o : Outcome Fault (Traced W Call) Step) (path : PublicationPath)
      → Ensures
          (λ _ t. SendsNothing p draft_id channel_id s t)
          (λ _ t. SendsNothing p draft_id channel_id s t)
          o
      → Ensures (Granted p draft_id channel_id) (λ _ _. Unit) o
      → Ensures
          (λ _ t. IsSafeFrom s t)
          (λ _ t. IsSafeFrom s t)
          (continue o (after_rounds p draft_id channel_id path))
  unfolding after_rounds
  both s (returns (Step.done result) t) path q g = ground arith
  both s (returns (Step.again row) t) path q g = ground arith
  both s (throws e t) path q g = ground arith
  both s (returns (Step.claimed row) t) path q g =
      ground (arith, deliver-sends path row t, deliver-IsGuarded path row t)

  -- a step that sends nothing, before one that is safe
  quiet_then :
      {A B : Type 0} (m : Action W A) (f : A → Action W B)
      → IsQuiet p draft_id channel_id m
      → ((a : A) → IsSafe (f a))
      → IsSafe (m >>= f)
  quiet_then {A} {B} m f h k s = go (m s) (h s)
    where
      go :
          (o : Outcome Fault (Traced W Call) A)
          → Ensures
              (λ _ t. SendsNothing p draft_id channel_id s t)
              (λ _ t. SendsNothing p draft_id channel_id s t)
              o
          → Ensures (λ _ t. IsSafeFrom s t) (λ _ t. IsSafeFrom s t) (continue o f)
      go (throws e t) q = ground arith
      go (returns a t) q = widen (f a t) (k a t)
        where
          widen :
              (o : Outcome Fault (Traced W Call) B)
              → Ensures (λ _ u. IsSafeFrom t u) (λ _ u. IsSafeFrom t u) o
              → Ensures (λ _ u. IsSafeFrom s u) (λ _ u. IsSafeFrom s u) o
          widen (returns b u) r = ground arith
          widen (throws e u) r = ground arith

  rounds-then-IsSafe :
      (path : PublicationPath) (draft : DraftRow)
      → IsSafe (
          rounds p 2 true draft_id channel_id path draft
          >>= after_rounds p draft_id channel_id path)
  rounds-then-IsSafe path draft s =
      both s (rounds p 2 true draft_id channel_id path draft s) path
        (rounds-IsQuiet p draft_id channel_id 2 true path draft s)
        (rounds-Granted 2 true path draft s)

  proceed-IsSafe : (path : PublicationPath) → IsSafe (proceed p draft_id channel_id path)
  unfolding proceed
  proceed-IsSafe path =
      quiet_then (perform Call.read (p.get_draft draft_id)) _ (λ s. ground arith)
        (rounds-then-IsSafe path)

  after_block_lookup-IsSafe :
      (path : PublicationPath) (block : Option String)
      → IsSafe (after_block_lookup p draft_id channel_id path block)
  unfolding after_block_lookup
  after_block_lookup-IsSafe path none = proceed-IsSafe path
  after_block_lookup-IsSafe path (some reason) = λ s. ground arith

  after_lookup-IsSafe :
      (path : PublicationPath) (existing : Option PublishedPostRow)
      → IsSafe (after_lookup p draft_id channel_id path existing)
  unfolding after_lookup publish_article_published
  after_lookup-IsSafe path none =
      quiet_then (perform Call.read (p.find_block draft_id channel_id)) _ (λ s. ground arith)
        (after_block_lookup-IsSafe path)
  after_lookup-IsSafe path (some row) = λ s. ground arith

  -- An execution sends at most one message, whether it returns or throws. The message goes to the
  -- given channel, and the call just before it claims the given draft for that channel, by the
  -- hash of the text that is sent.
  pub execute-IsSafe :
      (path : PublicationPath) (s : Traced W Call)
      → Ensures
          (λ _ t. IsSafeFrom s t)
          (λ _ t. IsSafeFrom s t)
          (execute p draft_id channel_id path s)
  unfolding execute
  execute-IsSafe path =
      quiet_then (check_signal p) _ (λ s. ground arith)
        λ _.
          quiet_then (perform Call.read (p.find_publication draft_id)) _ (λ s. ground arith)
            (after_lookup-IsSafe path)

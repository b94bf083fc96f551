-- ===== src/Editorial/Publish.antt =====
-- `PublishApprovedDraftUseCase` of `src/editorial/application/publish-approved-draft.use-case.ts`.
pub mod Gate
pub mod Safety
pub mod Settlement
pub mod FailClosed
use telegram_news_agent.Prelude.{
  ℕ, zero, suc, String, Bool, true, false, ◌&&◌, ◌||◌, not, Option, none, some, List, [], ◌∷◌, ltb,
  if◌then◌else◌, get_or, head?, str_eq,
}
use telegram_news_agent.Prelude.Text.{trim, size, is_positive_safe_integer}
use telegram_news_agent.Effects.{
  Outcome, Io, Traced, pure, throw, catch, attempt, perform, ◌>>=◌, ◌>>◌,
}
use telegram_news_agent.Editorial.{
  DraftStatus, DraftRow, PublishedPostRow, PublicationPath, Classification, PolicyOutcome,
  ClaimResult, BlockResult, Settings, Verdict, PolicyDecision, DeliveryOutcome, Receipt, BlockInput,
  ClaimInput, Metadata, FinalizeInput, PolicyInput, Fault, Call, Ports, Action, check_signal,
}
use telegram_news_agent.Editorial.Identifier.{safe_identifier}

pub data PublishResult : Type 0 where
  published : PublishedPostRow → PublishResult
  already_published : PublishedPostRow → PublishResult
  blocked : String → DraftRow → PublishResult
  already_blocked : String → DraftRow → PublishResult

-- How a round of the retry loop ends: with a result, with `continue`, or with `break` on a claim.
pub data Step : Type 0 where
  done : PublishResult → Step
  again : DraftRow → Step
  claimed : DraftRow → Step

-- `JSON.parse(draft.reviewer_notes ?? "{}").editor ?? null`, null where parsing fails
pub editor_from_draft : (String → Option (Option String)) → DraftRow → Option String
editor_from_draft parse_editor draft = get_or (parse_editor (get_or draft.reviewer_notes "{}")) none

abbrev pub is_stale : PolicyOutcome → Bool
is_stale PolicyOutcome.stale_settings = true
is_stale _ = false

abbrev pub has_reason : Option String → Bool
has_reason none = false
has_reason (some reason) = ltb 0 (size (trim reason))

-- What `validatePolicyDecision` lets pass.
pub is_valid_decision : PolicyDecision → Bool
is_valid_decision value = elim value.decision [
  | Verdict.allow ↦ true
  | Verdict.unknown ↦ false
  | _ ↦ has_reason value.reason_code
]

abbrev pub allow_decision : PolicyDecision
allow_decision = record {
  decision = Verdict.allow;
  reason_code = none;
  topic_code = none;
  provider = none;
  model = none;
  prompt_version = none;
  usage_events = [];
}

abbrev pub error_decision : PolicyDecision
error_decision = record {
  decision = Verdict.error;
  reason_code = some "excluded_topic_classifier_error";
  topic_code = none;
  provider = none;
  model = none;
  prompt_version = none;
  usage_events = [];
}

abbrev pub is_allow : Verdict → Bool
is_allow Verdict.allow = true
is_allow _ = false

pub classification_of : Verdict → Classification
classification_of Verdict.block = Classification.main_subject
classification_of Verdict.uncertain = Classification.uncertain
classification_of _ = Classification.classifier_error

pub reason_of : Classification → String
reason_of Classification.main_subject = "excluded_topic_main_subject"
reason_of Classification.uncertain = "excluded_topic_uncertain"
reason_of Classification.classifier_error = "excluded_topic_classifier_error"

abbrev pub first_of_options : Option String → Option String → Option String
first_of_options (some a) b = some a
first_of_options none b = b

abbrev pub reject : DraftRow → DraftRow
reject draft = record draft { status = DraftStatus.rejected }

abbrev pub is_rejected : Fault → Bool
is_rejected (Fault.delivery DeliveryOutcome.rejected) = true
is_rejected _ = false

module _ {W : Type 0} (p : Ports W) where
  pub ignore : Action W (Unit {0}) → Action W (Unit {0})
  ignore m = catch m (λ _. pure tt)

  pub publish_article_published : PublishedPostRow → String → PublicationPath → Action W (Unit {0})
  unfolding ignore
  publish_article_published publication draft_id path = ignore (
      perform (Call.article_published draft_id path publication)
        (p.article_published draft_id path publication))

  pub record_usage : List ℕ → DraftRow → String → Action W (Unit {0})
  unfolding ignore
  record_usage [] draft channel_id = pure tt
  record_usage (event ∷ events) draft channel_id = do
    ignore (
        perform (Call.record_usage event channel_id draft.article_id)
          (p.record_usage event channel_id draft.article_id))
    record_usage events draft channel_id

  pub validate_policy_decision : PolicyDecision → Action W PolicyDecision
  validate_policy_decision value =
      if is_valid_decision value then pure value else throw Fault.invalid_decision

  pub evaluate_policy : PolicyInput → Action W PolicyDecision
  unfolding validate_policy_decision
  evaluate_policy input =
      catch
        (do
          value ← perform (Call.evaluate input) (p.evaluate input)
          validate_policy_decision value)
        (λ _. do check_signal p; pure error_decision)

  -- the classification of a draft whose settings exclude topics
  pub classify : PolicyInput → DraftRow → Action W PolicyDecision
  classify input draft = do
    decision ← evaluate_policy input
    record_usage decision.usage_events draft input.channel_id
    check_signal p
    pure decision

  pub screen : String → String → Settings → DraftRow → Action W PolicyDecision
  screen draft_id channel_id settings draft = elim settings.excluded_topic_codes [
    | [] ↦ pure allow_decision
    | _ ∷ _ ↦
        classify
          (record {
            draft_id = draft_id;
            article_id = draft.article_id;
            channel_id = channel_id;
            text = draft.body;
            version = settings.version;
            excluded_topic_codes = settings.excluded_topic_codes;
          })
          draft
  ]

  pub refetch : String → Action W Step
  refetch draft_id = do draft ← perform Call.read (p.get_draft draft_id); pure (Step.again draft)

  -- A publication that was reported, if the row can be read.
  pub published_already : String → Fault → Action W Step
  published_already draft_id otherwise = do
    publication ← perform Call.read (p.find_publication draft_id)
    elim publication [
      | some row ↦ pure (Step.done (PublishResult.already_published row))
      | none ↦ throw otherwise
    ]

  pub after_block : String → DraftRow → String → BlockResult → Action W Step
  unfolding published_already
  after_block draft_id draft reason_code result = elim result.outcome [
    | PolicyOutcome.blocked ↦
        pure
          (Step.done (PublishResult.blocked (get_or result.reason_code reason_code) (reject draft)))
    | PolicyOutcome.already_blocked ↦ pure (
        Step.done
          (PublishResult.already_blocked (get_or result.reason_code reason_code) (reject draft)))
    | PolicyOutcome.already_published ↦
        published_already draft_id (Fault.block_failed PolicyOutcome.already_published)
    | outcome ↦ throw (Fault.block_failed outcome)
  ]

  pub block_publication :
      Bool
      → String
      → String
      → PublicationPath
      → Settings
      → DraftRow
      → PolicyDecision
      → Action W Step
  unfolding refetch after_block
  block_publication is_first draft_id channel_id path settings draft decision = do
    let classification = classification_of decision.decision
    let reason_code = reason_of classification
    let input : BlockInput = record {
      draft_id = draft_id;
      channel_id = channel_id;
      path = path;
      topic_code = first_of_options decision.topic_code (head? settings.excluded_topic_codes);
      classification = classification;
      settings_version = settings.version;
      outbound_text = draft.body;
      outbound_text_sha256 = p.sha256 draft.body;
      provider = safe_identifier decision.provider;
      model = safe_identifier decision.model;
      prompt_version = safe_identifier decision.prompt_version;
      reason_code = reason_code;
    }
    result ← perform (Call.block input) (p.block input)
    if is_stale result.outcome && is_first
        then refetch draft_id
        else after_block draft_id draft reason_code result

  -- the hash of the claimed text must be that of the classified text
  pub take_claim : String → PolicyOutcome → Option DraftRow → Action W Step
  take_claim sha PolicyOutcome.claimed (some row) =
      if str_eq (p.sha256 row.body) sha
      then pure (Step.claimed row)
      else throw Fault.content_changed
  take_claim sha outcome _ = throw (Fault.claim_failed outcome)

  pub after_claim : String → String → DraftRow → ClaimResult → Action W Step
  unfolding published_already take_claim
  after_claim draft_id channel_id draft claim = elim claim.outcome [
    | PolicyOutcome.already_blocked ↦ do
      block ← perform Call.read (p.find_block draft_id channel_id)
      pure (
          Step.done (
            PublishResult.already_blocked (get_or block "excluded_topic_uncertain") (reject draft)))
    | PolicyOutcome.already_published ↦
        published_already draft_id (Fault.claim_failed PolicyOutcome.already_published)
    | outcome ↦ take_claim (p.sha256 draft.body) outcome claim.draft
  ]

  pub claim_publication : Bool → String → String → Settings → DraftRow → Action W Step
  unfolding refetch after_claim
  claim_publication is_first draft_id channel_id settings draft = do
    let input : ClaimInput = record {
      draft_id = draft_id;
      channel_id = channel_id;
      settings_version = settings.version;
      outbound_text_sha256 = p.sha256 draft.body;
    }
    claim ← perform (Call.claim input) (p.claim input)
    if is_stale claim.outcome && is_first
        then refetch draft_id
        else after_claim draft_id channel_id draft claim

  pub require_settings : Option Settings → Action W Settings
  require_settings none = throw Fault.settings_unavailable
  require_settings (some settings) = pure settings

  -- block or claim, as the decision says
  pub act_on :
      Bool
      → String
      → String
      → PublicationPath
      → Settings
      → DraftRow
      → PolicyDecision
      → Action W Step
  act_on is_first draft_id channel_id path settings draft decision =
      if not (is_allow decision.decision)
      then block_publication is_first draft_id channel_id path settings draft decision
      else claim_publication is_first draft_id channel_id settings draft

  -- the body of the loop
  pub round : Bool → String → String → PublicationPath → DraftRow → Action W Step
  round is_first draft_id channel_id path draft = do
    check_signal p
    found ← perform Call.read (p.get_settings channel_id)
    settings ← require_settings found
    decision ← screen draft_id channel_id settings draft
    act_on is_first draft_id channel_id path settings draft decision

  -- `continue` goes on with the next round, `return` and `break` leave the loop
  abbrev pub next_round : (DraftRow → Action W Step) → Step → Action W Step
  next_round loop (Step.again refetched) = loop refetched
  next_round loop (Step.done result) = pure (Step.done result)
  next_round loop (Step.claimed row) = pure (Step.claimed row)

  -- `for (attempt = 0; attempt < 2; …)`, over the rounds left
  pub rounds : ℕ → Bool → String → String → PublicationPath → DraftRow → Action W Step
  rounds zero is_first draft_id channel_id path draft = throw Fault.settings_changed
  rounds (suc left) is_first draft_id channel_id path draft = do
    step ← round is_first draft_id channel_id path draft
    next_round (λ refetched. rounds left false draft_id channel_id path refetched) step

  pub require_row : Option PublishedPostRow → Action W PublishedPostRow
  require_row none = throw Fault.not_persisted
  require_row (some row) = pure row

  pub finish : String → String → PublicationPath → DraftRow → Receipt → Action W PublishResult
  unfolding require_row publish_article_published
  finish draft_id channel_id path row receipt = do
    let input : FinalizeInput = record {
      draft_id = draft_id;
      channel_id = channel_id;
      message_id = receipt.message_id;
      message_text = row.body;
      metadata = Metadata.bot_message receipt.message_date (editor_from_draft p.parse_editor row);
    }
    catch
        (do
          found ← perform (Call.finalize input) (p.finalize input)
          publication ← require_row found
          publish_article_published publication draft_id path
          pure (PublishResult.published publication))
        (λ _. throw Fault.unresolved_after_accept)

  pub deliver : String → String → PublicationPath → DraftRow → Action W PublishResult
  unfolding finish
  deliver draft_id channel_id path row =
      attempt (perform (Call.send channel_id row.body) (p.send channel_id row.body))
        (λ receipt.
          if is_positive_safe_integer receipt.message_id
          then finish draft_id channel_id path row receipt
          else throw Fault.invalid_receipt)
        (λ error.
          if is_rejected error
          then (do
            perform (Call.release draft_id) (p.release draft_id)
            throw Fault.released_for_retry)
          else throw Fault.unresolved)

  pub after_rounds : String → String → PublicationPath → Step → Action W PublishResult
  after_rounds draft_id channel_id path (Step.done result) = pure result
  after_rounds draft_id channel_id path (Step.again _) = throw Fault.settings_changed
  after_rounds draft_id channel_id path (Step.claimed row) = deliver draft_id channel_id path row

  pub proceed : String → String → PublicationPath → Action W PublishResult
  unfolding after_rounds
  proceed draft_id channel_id path = do
    draft ← perform Call.read (p.get_draft draft_id)
    step ← rounds 2 true draft_id channel_id path draft
    after_rounds draft_id channel_id path step

  -- a block that stands already is reported
  pub after_block_lookup :
      String → String → PublicationPath → Option String → Action W PublishResult
  after_block_lookup draft_id channel_id path none = proceed draft_id channel_id path
  after_block_lookup draft_id channel_id path (some reason_code) = do
    draft ← perform Call.read (p.get_draft draft_id)
    pure (PublishResult.already_blocked reason_code draft)

  -- a publication that stands already is announced again and reported
  pub after_lookup :
      String → String → PublicationPath → Option PublishedPostRow → Action W PublishResult
  after_lookup draft_id channel_id path (some row) = do
    publish_article_published row draft_id path
    pure (PublishResult.already_published row)
  after_lookup draft_id channel_id path none = do
    block ← perform Call.read (p.find_block draft_id channel_id)
    after_block_lookup draft_id channel_id path block

  pub execute : String → String → PublicationPath → Action W PublishResult
  execute draft_id channel_id path = do
    check_signal p
    existing ← perform Call.read (p.find_publication draft_id)
    after_lookup draft_id channel_id path existing

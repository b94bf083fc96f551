-- ===== src/Editorial/Review.antt =====
-- `GenerateReviewDraftUseCase` of `src/editorial/application/generate-review-draft.use-case.ts` and
-- `ReconcilePublicationUseCase` of `src/editorial/application/reconcile-publication.use-case.ts`.
pub mod Contracts
use telegram_news_agent.Prelude.{
  ℕ, String, Bool, true, false, Option, none, some, List, [], ◌∷◌, ◌++◌, if◌then◌else◌, str_eq,
}
use telegram_news_agent.Prelude.Text.{Number, is_positive_safe_integer}
use telegram_news_agent.Effects.{
  Outcome, Io, Traced, pure, throw, catch, perform, perform_noted, ◌>>=◌, ◌>>◌,
}
use telegram_news_agent.Editorial.{
  DraftRow, PublishedPostRow, Metadata, FinalizeInput, NewDraft, Generation, Fault, Call, Ports,
  Action, check_signal,
}

pub record GenerateResult : Type 0 where
  pub draft : DraftRow
  pub generation : Generation
  pub usage_events : List ℕ

-- What an operator found out about a publication.
pub data Finding : Type 0 where
  sent : Number → Finding
  not_sent : Finding
  unknown : Finding

pub record ReconcileInput : Type 0 where
  pub draft_id : String
  pub channel_id : String
  pub outcome : Finding

pub data ReconcileResult : Type 0 where
  was_sent : Option PublishedPostRow → ReconcileResult
  was_not_sent : Option DraftRow → ReconcileResult

-- the confirmation that the database asks for
abbrev pub not_sent_code : String
not_sent_code = "TELEGRAM_NOT_SENT"

abbrev pub finalize_input : ReconcileInput → Number → DraftRow → FinalizeInput
finalize_input input message_id draft = record {
  draft_id = input.draft_id;
  channel_id = input.channel_id;
  message_id = message_id;
  message_text = draft.body;
  metadata = Metadata.operator_confirmed_sent;
}

module _ {W : Type 0} (p : Ports W) where
  -- a failure loses the event, not the draft
  pub record_event : ℕ → List ℕ → Action W (List ℕ)
  record_event event recorded =
      catch
        (do
          row ← perform (Call.record_generation_usage event) (p.record_generation_usage event)
          pure (recorded ++ row ∷ []))
        (λ _. pure recorded)

  -- the loop over the usage events
  pub record_usage : List ℕ → List ℕ → Action W (List ℕ)
  record_usage [] recorded = pure recorded
  record_usage (event ∷ events) recorded = do
    recorded ← record_event event recorded
    record_usage events recorded

  pub created : Generation → List ℕ → Option DraftRow → Action W GenerateResult
  created generation usage_events none = throw Fault.draft_not_created
  created generation usage_events (some draft) =
      pure (record { draft = draft; generation = generation; usage_events = usage_events })

  pub after_usage : String → Generation → List ℕ → Action W GenerateResult
  unfolding created
  after_usage article_id generation usage_events = do
    check_signal p
    if str_eq generation.draft.article_id article_id
        then (do
          draft ←
              perform_noted (Call.create_draft generation.draft) (p.create_draft generation.draft)
          created generation usage_events draft)
        else throw Fault.wrong_article

  pub after_generation : String → Generation → Action W GenerateResult
  after_generation article_id generation = do
    usage_events ← record_usage generation.usage_events []
    after_usage article_id generation usage_events

  pub generate : String → Action W GenerateResult
  generate article_id = do
    check_signal p
    generation ← perform (Call.generate article_id) (p.generate article_id)
    after_generation article_id generation

  pub reconcile_sent : ReconcileInput → Number → Action W ReconcileResult
  reconcile_sent input message_id =
      if is_positive_safe_integer message_id
      then (do
        draft ← perform Call.read (p.get_draft input.draft_id)
        publication ←
            perform (Call.finalize (finalize_input input message_id draft))
              (p.finalize (finalize_input input message_id draft))
        pure (was_sent publication))
      else throw Fault.message_id_required

  pub reconcile : ReconcileInput → Action W ReconcileResult
  unfolding reconcile_sent
  reconcile input = elim input.outcome [
    | sent message_id ↦ reconcile_sent input message_id
    | not_sent ↦ (do
      draft ←
          perform (Call.reset input.draft_id not_sent_code) (p.reset input.draft_id not_sent_code)
      pure (was_not_sent draft))
    | unknown ↦ throw Fault.unknown_outcome
  ]

-- ===== src/Milestones/Settlement.antt =====
-- What `src/publication-milestones/application/publication-milestones.service.ts` records of a delivery.
use telegram_news_agent.Prelude.{
  ℕ, ◌≡◌, String, Bool, true, false, List, ◌∷◌, Option, none, some, count, arith,
}
use telegram_news_agent.Effects.{Traced}
use telegram_news_agent.Effects.Rules.{Ensures}
use telegram_news_agent.Milestones.{
  Milestone, sending, Event, Thrown, root_error_message, is_rejected, Answer, gave, failed_with,
  Call, Ports, Action, render_publication_milestone_message, receipt_not_persisted, after_send,
  after_send_error, deliver_claimed, deliver, handle, retry, reconcile_not_sent_and_retry,
}

-- A message is sent, or the end of a delivery is recorded.
abbrev pub is_delivery : Call → Bool
is_delivery (Call.send _ _ _) = true
is_delivery (Call.mark_sent _ _ _ _) = true
is_delivery (Call.mark_failed _ _ _ _) = true
is_delivery (Call.mark_uncertain _ _ _ _) = true
is_delivery _ = false

abbrev pub deliveries : List Call → ℕ
deliveries calls = count is_delivery calls

module _ {W : Type 0} (p : Ports W) where
  -- The message is the one of a milestone that is being sent, to its channel and under its claim.
  abbrev pub IsOf : Milestone → String → String → String → String → Type 0
  IsOf m id token channel_id text =
      (m.id ≡ id)
      × (m.claim_token ≡ some token)
      × (m.state ≡ sending)
      × (m.channel_id ≡ channel_id)
      × (render_publication_milestone_message p m ≡ text)

  -- the same, of the milestone that the latest call has claimed or taken up again
  abbrev pub IsOfLatest : List Call → String → String → String → String → Type 0
  IsOfLatest (Call.claim _ (gave (some m)) ∷ _) = IsOf m
  IsOfLatest (Call.retry_milestone _ (gave (some m)) ∷ _) = IsOf m
  IsOfLatest _ = λ _ _ _ _. ⊥

  abbrev pub HasRow : Answer (Option Milestone) → Type 0
  HasRow (gave (some _)) = Unit
  HasRow _ = ⊥

  -- The calls of a delivery that returns, after those that held so many of its kind: either none,
  -- or a message that was accepted, and then its mark, with its number and a row as the answer.
  abbrev pub Delivers : ℕ → List Call → Type 0
  Delivers n (Call.mark_sent id token number answer ∷ Call.send channel_id text sent ∷ rest) =
      (deliveries rest ≡ n)
      × (sent ≡ gave number)
      × HasRow answer
      × IsOfLatest rest id token channel_id text
  Delivers n calls = deliveries calls ≡ n

  -- The calls of a delivery that throws `e`: none; or a message that was accepted, and a mark that
  -- gave no row or failed; or a message that failed with `f`, and the mark of a failure where `f` is
  -- a rejection, of an uncertain delivery otherwise, with the root message of `f`. What is thrown is
  -- `f`, unless that mark fails itself.
  abbrev pub IsThrown : Thrown → Answer (Option Milestone) → Thrown → Type 0
  IsThrown f (gave _) e = e ≡ f
  IsThrown f (failed_with g) e = e ≡ g

  abbrev pub IsUnmarked : Answer (Option Milestone) → Thrown → Type 0
  IsUnmarked (gave (some _)) e = ⊥
  IsUnmarked (gave none) e = e ≡ receipt_not_persisted p
  IsUnmarked (failed_with g) e = e ≡ g

  abbrev pub Fails : ℕ → Thrown → List Call → Type 0
  Fails n e (Call.mark_sent id token number answer ∷ Call.send channel_id text sent ∷ rest) =
      (deliveries rest ≡ n)
      × (sent ≡ gave number)
      × IsUnmarked answer e
      × IsOfLatest rest id token channel_id text
  Fails n e
        (Call.mark_failed id token message answer
          ∷ Call.send channel_id text (failed_with f)
          ∷ rest) =
      (deliveries rest ≡ n)
      × (is_rejected f ≡ true)
      × (message ≡ root_error_message f)
      × IsThrown f answer e
      × IsOfLatest rest id token channel_id text
  Fails n e
        (Call.mark_uncertain id token message answer
          ∷ Call.send channel_id text (failed_with f)
          ∷ rest) =
      (deliveries rest ≡ n)
      × (is_rejected f ≡ false)
      × (message ≡ root_error_message f)
      × IsThrown f answer e
      × IsOfLatest rest id token channel_id text
  Fails n e calls = deliveries calls ≡ n

  abbrev pub Settles : Action W (Unit {0}) → Type 0
  Settles m =
      (s : Traced W Call)
      → Ensures (λ _ t. Delivers (deliveries s.calls) t.calls)
          (λ e t. Fails (deliveries s.calls) e t.calls) (m s)

  handle-Settles : (editor_name : String) (event : Event) → Settles (handle p editor_name event)
  unfolding handle deliver deliver_claimed after_send after_send_error
  handle-Settles editor_name event s = ground arith

  retry-Settles : (id : String) → Settles (retry p id)
  unfolding retry deliver deliver_claimed after_send after_send_error
  retry-Settles id s = ground arith

  reconcile_not_sent_and_retry-Settles : (id : String) → Settles (reconcile_not_sent_and_retry p id)
  unfolding reconcile_not_sent_and_retry retry deliver deliver_claimed after_send after_send_error
  reconcile_not_sent_and_retry-Settles id s = ground arith

  -- Whether the service handles a published article, retries a milestone or retries one that was
  -- reconciled as not sent, it sends one message at most: that of a milestone in the state
  -- `sending`, which the call before it has claimed or taken up again, with the text rendered from
  -- it and to its channel. Where the service returns after a message, its last call is the mark as
  -- sent under the milestone's id and claim, with the number that the delivery answered, and a row
  -- came back. Where it throws after a message, its last call is the one mark that fits: as sent,
  -- which brought no row or failed, if the message was accepted; as failed, with the root message
  -- of the error, if it was rejected; as uncertain otherwise.
  pub all_deliver :
      (editor_name : String) (event : Event) (id : String)
      → Settles (handle p editor_name event)
        × Settles (retry p id)
        × Settles (reconcile_not_sent_and_retry p id)
  all_deliver editor_name event id =
      (handle-Settles editor_name event, retry-Settles id, reconcile_not_sent_and_retry-Settles id)

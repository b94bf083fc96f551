-- ===== src/Editorial/Publish/Settlement.antt =====
-- How a delivery is settled: what the gateway answered decides between release and persistence.
use telegram_news_agent.Prelude.{
  ℕ, ◌+◌, ◌≡◌, String, Bool, true, false, List, ◌∷◌, arith, count, indicator,
}
use telegram_news_agent.Prelude.Text.{is_positive_safe_integer}
use telegram_news_agent.Effects.{Outcome, Traced, returns, throws}
use telegram_news_agent.Effects.Rules.{Ensures}
use telegram_news_agent.Editorial.{DraftRow, PublicationPath, Receipt, Fault, Call, Ports}
use telegram_news_agent.Editorial.Publish.{is_rejected, deliver}

abbrev pub is_release : Call → Bool
is_release (Call.release _) = true
is_release _ = false

abbrev pub is_finalize : Call → Bool
is_finalize (Call.finalize _) = true
is_finalize _ = false

abbrev pub releases : {W : Type 0} → Traced W Call → ℕ
releases s = count is_release s.calls

abbrev pub finalizations : {W : Type 0} → Traced W Call → ℕ
finalizations s = count is_finalize s.calls

-- The gateway's answer: a definite rejection, or an acceptance with a usable message number.
abbrev pub was_rejected : {W : Type 0} → Outcome Fault W Receipt → Bool
was_rejected (returns _ _) = false
was_rejected (throws e _) = is_rejected e

abbrev pub was_accepted : {W : Type 0} → Outcome Fault W Receipt → Bool
was_accepted (returns receipt _) = is_positive_safe_integer receipt.message_id
was_accepted (throws _ _) = false

-- The text that was persisted is the text that was sent.
abbrev pub PersistedText : String → List Call → Type 0
PersistedText text (Call.article_published _ _ _ ∷ Call.finalize input ∷ Call.send _ sent ∷ _) =
    (input.message_text ≡ sent) × (sent ≡ text)
PersistedText text _ = ⊥

-- What is thrown once the message is out of the program's hands.
abbrev pub is_unsettled : Fault → Bool
is_unsettled Fault.unresolved = true
is_unsettled Fault.invalid_receipt = true
is_unsettled Fault.unresolved_after_accept = true
is_unsettled _ = false

module _ {W : Type 0} (p : Ports W) (draft_id channel_id : String) (path : PublicationPath) where
  abbrev pub Accounts : DraftRow → Traced W Call → Traced W Call → Type 0
  Accounts row s t =
      (releases t ≡ indicator (was_rejected (p.send channel_id row.body s.world)) + releases s)
      × (finalizations t
          ≡ indicator (was_accepted (p.send channel_id row.body s.world)) + finalizations s)

  -- A delivery releases the draft exactly when the gateway rejected the message, and persists a
  -- publication exactly when it accepted it with a positive safe message number. It returns only
  -- a publication that was accepted, after it persisted the very text it sent. When it throws and
  -- the gateway did not reject, the error is one of the three that ask for reconciliation.
  pub deliver_settles :
      (row : DraftRow) (s : Traced W Call)
      → Ensures
          (λ _ t.
            Accounts row s t
            × (was_accepted (p.send channel_id row.body s.world) ≡ true)
            × PersistedText row.body t.calls)
          (λ e t.
            Accounts row s t
            × (was_rejected (p.send channel_id row.body s.world) ≡ false → is_unsettled e ≡ true))
          (deliver p draft_id channel_id path row s)
  unfolding deliver
  deliver_settles row s = ground arith

-- ===== src/Editorial/Review/Contracts.antt =====
-- What the use cases of `src/editorial/application/generate-review-draft.use-case.ts` and
-- `src/editorial/application/reconcile-publication.use-case.ts` may change.
use telegram_news_agent.Prelude.{
  ℕ, suc, ◌+◌, ◌≤◌, ◌≡◌, String, Bool, true, false, not, some, List, [], ◌∷◌, ◌++◌, arith, str_eq,
  length, length-append, count, indicator,
}
use telegram_news_agent.Prelude.Text.{is_positive_safe_integer}
use telegram_news_agent.Effects.{
  Outcome, Traced, returns, throws, perform, handle, continue, resume, pure,
}
use telegram_news_agent.Effects.Rules.{Ensures, Ensures-continue}
use telegram_news_agent.Editorial.{Generation, Fault, Call, Ports, check_signal}
use telegram_news_agent.Editorial.Review.{
  GenerateResult, Finding, ReconcileInput, ReconcileResult, was_sent, was_not_sent, not_sent_code,
  record_event, record_usage, created, after_usage, after_generation, generate, reconcile_sent,
  reconcile,
}

-- What an operator's answer leads to, as the calls made.
abbrev pub Reconciles : ReconcileInput → ReconcileResult → List Call → Type 0
Reconciles input (was_sent _) (Call.finalize final ∷ Call.read ∷ _) =
    (input.outcome ≡ Finding.sent final.message_id)
    × (is_positive_safe_integer final.message_id ≡ true)
    × (final.draft_id ≡ input.draft_id)
    × (final.channel_id ≡ input.channel_id)
Reconciles input (was_not_sent _) (Call.reset draft_id code ∷ _) =
    (input.outcome ≡ Finding.not_sent) × (draft_id ≡ input.draft_id) × (code ≡ not_sent_code)
Reconciles input _ _ = ⊥

abbrev pub is_finalize : Call → Bool
is_finalize (Call.finalize _) = true
is_finalize _ = false

abbrev pub is_reset : Call → Bool
is_reset (Call.reset _ _) = true
is_reset _ = false

abbrev pub is_sent : Finding → Bool
is_sent (Finding.sent n) = is_positive_safe_integer n
is_sent _ = false

abbrev pub is_not_sent : Finding → Bool
is_not_sent Finding.not_sent = true
is_not_sent _ = false

abbrev pub is_create : Call → Bool
is_create (Call.create_draft _ _) = true
is_create _ = false

-- A draft is created for another article than the given one.
abbrev pub is_foreign : String → Call → Bool
is_foreign article_id (Call.create_draft draft _) = not (str_eq draft.article_id article_id)
is_foreign article_id _ = false

-- The latest call has created the draft that is returned, from the one that was generated.
abbrev pub IsCreatedRow : GenerateResult → List Call → Type 0
IsCreatedRow result (Call.create_draft draft (some (some row)) ∷ _) =
    (draft ≡ result.generation.draft) × (row ≡ result.draft)
IsCreatedRow result _ = ⊥

-- How often a state's calls changed the draft.
abbrev pub finals : {W : Type 0} → Traced W Call → ℕ
finals s = count is_finalize s.calls

abbrev pub resets : {W : Type 0} → Traced W Call → ℕ
resets s = count is_reset s.calls

abbrev pub creations : {W : Type 0} → Traced W Call → ℕ
creations s = count is_create s.calls

abbrev pub foreign : {W : Type 0} → String → Traced W Call → ℕ
foreign article_id s = count (is_foreign article_id) s.calls

module _ {W : Type 0} (p : Ports W) where
  abbrev pub Allowed : Finding → Traced W Call → Traced W Call → Type 0
  Allowed outcome s t =
      (finals t ≤ indicator (is_sent outcome) + finals s)
      × (resets t ≡ indicator (is_not_sent outcome) + resets s)

  -- A draft is finalized only on an operator's word that its message was sent, under a positive
  -- safe message number, and reset only on the word that it was not. What is returned names the
  -- answer, and the call that was made carries the input's draft, channel and number. On any other
  -- answer nothing is changed.
  pub reconcile_obeys :
      (input : ReconcileInput) (s : Traced W Call)
      → Ensures
          (λ result t. Reconciles input result t.calls × Allowed input.outcome s t)
          (λ _ t. Allowed input.outcome s t)
          (reconcile p input s)
  unfolding reconcile reconcile_sent
  reconcile_obeys input s = ground arith

  module _ (article_id : String) where
    abbrev Uncreated : Traced W Call → Traced W Call → Type 0
    Uncreated s t = (creations t ≡ creations s) × (foreign article_id t ≡ foreign article_id s)

    recorded_by :
        (event : ℕ) (recorded : List ℕ) (s : Traced W Call) (o : Outcome Fault W ℕ)
        → Ensures
            (λ rows t. Uncreated s t × (length rows ≤ 1 + length recorded))
            (λ _ _. ⊥)
            (handle
              (continue
                (resume (Call.record_generation_usage event ∷ s.calls) o)
                (λ row. pure (recorded ++ row ∷ [])))
              (λ _. pure recorded))
    recorded_by event recorded s (returns row w) = ground (arith, length-append recorded (row ∷ []))
    recorded_by event recorded s (throws e w) = ground arith

    record_event-Uncreated :
        (event : ℕ) (recorded : List ℕ) (s : Traced W Call)
        → Ensures
            (λ rows t. Uncreated s t × (length rows ≤ 1 + length recorded))
            (λ _ _. ⊥)
            (record_event p event recorded s)
    unfolding record_event
    record_event-Uncreated event recorded s =
        recorded_by event recorded s (p.record_generation_usage event s.world)

    -- what holds with so many events left
    abbrev Recorded : Traced W Call → ℕ → ℕ → List ℕ → Traced W Call → Type 0
    Recorded s n left rows t = Uncreated s t × (left + length rows ≤ n)

    record_event-Recorded :
        (s : Traced W Call) (n left event : ℕ) (recorded : List ℕ) (t : Traced W Call)
        → Recorded s n (suc left) recorded t
        → Ensures (Recorded s n left) (λ _ _. ⊥) (record_event p event recorded t)
    record_event-Recorded s n left event recorded t h =
        ground (arith, record_event-Uncreated event recorded t)

    record_usage-Recorded :
        (s : Traced W Call) (n : ℕ) (events recorded : List ℕ) (t : Traced W Call)
        → Recorded s n (length events) recorded t
        → Ensures (Recorded s n 0) (λ _ _. ⊥) (record_usage p events recorded t)
    unfolding record_usage
    record_usage-Recorded s n [] recorded t h = h
    record_usage-Recorded s n (event ∷ events) recorded t h =
        Ensures-continue (Recorded s n (length events)) (Recorded s n 0) (λ _ _. ⊥)
          (record_event p event recorded t) (record_usage p events)
          (record_event-Recorded s n (length events) event recorded t h)
          (record_usage-Recorded s n events)

    module _ (s : Traced W Call) where
      abbrev pub IsCreated : GenerateResult → Traced W Call → Type 0
      IsCreated result t =
          (creations t ≡ 1 + creations s)
          × (foreign article_id t ≡ foreign article_id s)
          × IsCreatedRow result t.calls
          × (length result.usage_events ≤ length result.generation.usage_events)

      abbrev pub IsLost : Traced W Call → Type 0
      IsLost t = (creations t ≤ 1 + creations s) × (foreign article_id t ≡ foreign article_id s)

      abbrev IsGenerated : Outcome Fault (Traced W Call) GenerateResult → Type 0
      IsGenerated = Ensures IsCreated (λ _ t. IsLost t)

      after_usage-IsGenerated :
          (generation : Generation) (rows : List ℕ) (t : Traced W Call)
          → Recorded s (length generation.usage_events) 0 rows t
          → IsGenerated (after_usage p article_id generation rows t)
      unfolding after_usage created
      after_usage-IsGenerated generation rows t h = ground (arith, h)

      after_generation-IsGenerated :
          (generation : Generation) (t : Traced W Call)
          → Uncreated s t
          → IsGenerated (after_generation p article_id generation t)
      unfolding after_generation
      after_generation-IsGenerated generation t h =
          weaken (record_usage p generation.usage_events [] t) (
            record_usage-Recorded s (length generation.usage_events) generation.usage_events [] t
              (ground arith))
        where
          weaken :
              (o : Outcome Fault (Traced W Call) (List ℕ))
              → Ensures (Recorded s (length generation.usage_events) 0) (λ _ _. ⊥) o
              → IsGenerated (continue o (after_usage p article_id generation))
          weaken (returns rows u) q = after_usage-IsGenerated generation rows u q
          weaken (throws e u) q = elim q [ ]

    -- Whether it returns or throws, generating a review draft creates at most one draft, and none
    -- for another article than the one that was asked for. Where it returns, it has created exactly
    -- one, by its latest call and from the generated draft; it returns the row that this call
    -- answered, and reports no more usage rows than the generation had events.
    pub generate_creates_once :
        (s : Traced W Call)
        → Ensures
            (λ result t.
              (creations t ≡ 1 + creations s)
              × (foreign article_id t ≡ foreign article_id s)
              × IsCreatedRow result t.calls
              × (length result.usage_events ≤ length result.generation.usage_events))
            (λ _ t. (creations t ≤ 1 + creations s) × (foreign article_id t ≡ foreign article_id s))
            (generate p article_id s)
    unfolding generate
    generate_creates_once s = unlocked_then (check_signal p s) _ (ground arith) λ _ u q.
        unlocked_then (perform (Call.generate article_id) (p.generate article_id) u) _
          (ground arith) (after_generation-IsGenerated s)
      where
        unlocked_then :
            {A : Type 0} (o : Outcome Fault (Traced W Call) A)
            (f : A → Traced W Call → Outcome Fault (Traced W Call) GenerateResult)
            → Ensures (λ _ t. Uncreated s t) (λ _ t. Uncreated s t) o
            → ((a : A) (t : Traced W Call) → Uncreated s t → IsGenerated s (f a t))
            → IsGenerated s (continue o f)
        unlocked_then (returns a t) f q k = k a t q
        unlocked_then (throws e t) f q k = omega arith

-- ===== src/Editorial/Corroboration/Verdicts.antt =====
-- What `corroborate` of `src/editorial/corroboration/evidence-corroboration.service.ts` concludes.
use telegram_news_agent.Prelude.{ℕ, ◌≤◌, ◌<◌, ◌≡◌, String, Bool, false, List, [], ◌++◌, any, length}
use telegram_news_agent.Editorial.Corroboration.{
  Evidence, CorroborationOutcome, not_needed, corroborated, uncorroborated, is_unverified,
  rumour_tag,
}

-- The draft layer takes the weakest status of the set.
unfoldable pub is_weak : Evidence → Bool
is_weak item = is_unverified item.verification_status

-- What an outcome says of the evidence that it was asked about.
unfoldable pub Holds : ℕ → List Evidence → List String → CorroborationOutcome → Type 0
Holds required evidence requests (not_needed e) = (requests ≡ []) × (e ≡ evidence)
Holds required evidence requests (corroborated d) =
    (required ≤ length d.strong_publishers) × (any is_weak d.evidence ≡ false)
Holds required evidence requests (uncorroborated d tag) =
    (length d.strong_publishers < required)
    × ((extra : List Evidence) × (d.evidence ≡ evidence ++ extra) × (any is_weak extra ≡ false))
    × (tag ≡ rumour_tag)

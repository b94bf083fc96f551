-- ===== src/Telegram/Updates/Terminal.antt =====
-- Which updates of `src/telegram/telegram-polling-worker.ts` are settled without being handled.
use telegram_news_agent.Prelude.{
  ℕ, String, ◌≤◌, ◌≡◌, ◌≢◌, refl, true, false, Option, none, some, arith,
}
use telegram_news_agent.Scheduler.Worker.{is_stable_code}
use telegram_news_agent.Telegram.Updates.{
  Json, malformed, Classification, Classified, throws_protocol, classified, update_id,
  present_fields, classify_body, classify_known, classify_id, callback_kind, get_field,
  classify_telegram_update,
}

-- An error code that is there is one that the failure ledger accepts.
abbrev IsStable : Option String → Type 0
IsStable none = ⊥
IsStable (some code) = is_stable_code code ≡ true

abbrev Judged : ℕ → Classification → Type 0
Judged id c =
    (c.update_id ≡ id)
    × (c.is_terminal ≡ true → (c.kind ≡ malformed) × IsStable c.error_code)
    × (c.is_terminal ≡ false → (c.kind ≢ malformed) × (c.error_code ≡ none))

callback_kind-well_formed : (data_field : Option Json) → callback_kind data_field ≢ malformed
callback_kind-well_formed none = cc
callback_kind-well_formed (some d) = ground arith

classify_body-Judged :
    (id : ℕ) (callback reaction_count reaction body : Option Json)
    → Judged id (classify_body id callback reaction_count reaction body)
unfolding classify_body is_stable_code
classify_body-Judged id (some callback) _ _ _ =
    ground (arith, callback_kind-well_formed (get_field "data" (some callback)))
classify_body-Judged id none (some reaction_count) _ _ = ground arith
classify_body-Judged id none none (some reaction) _ = ground arith
classify_body-Judged id none none none (some content) = ground arith
classify_body-Judged id none none none none = ground arith

-- What a classification says of the update: its id, and where it is not terminal, that the update has at most one body.
abbrev pub Describes : Json → Classified → Type 0
Describes update (throws_protocol code) = update_id update ≡ none
Describes update (classified c) =
    (update_id update ≡ some c.update_id)
    × (c.is_terminal ≡ true → (c.kind ≡ malformed) × IsStable c.error_code)
    × (c.is_terminal ≡ false
        → (c.kind ≢ malformed) × (c.error_code ≡ none) × (present_fields update ≤ 1))

classify_id-Describes :
    (id : Option ℕ) (update : Json)
    → update_id update ≡ id
    → Describes update (classify_id id update)
unfolding classify_id classify_known is_stable_code
classify_id-Describes none update e = e
classify_id-Describes (some id) update e =
    let h =
      classify_body-Judged id (get_field "callback_query" (some update))
        (get_field "message_reaction_count" (some update))
        (get_field "message_reaction" (some update)) (get_field "message" (some update)) in
    ground (arith, h, e)

-- Every raw update is refused exactly for want of an id, or classified under its own id: as terminal only where it is malformed, with a
-- code that the failure ledger takes, and otherwise only where it has at most one body.
pub classify_telegram_update-Describes :
    (update : Json) → Describes update (classify_telegram_update update)
unfolding classify_telegram_update
classify_telegram_update-Describes update = classify_id-Describes (update_id update) update refl

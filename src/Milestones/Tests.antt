-- ===== src/Milestones/Tests.antt =====
-- A milestone whose delivery is rejected, for
-- `src/publication-milestones/application/publication-milestones.service.ts`.
use telegram_news_agent.Prelude.{ℕ, suc, ◌≡◌, refl, some, [], ◌∷◌}
use telegram_news_agent.Effects.{Outcome, returns, throws}
use telegram_news_agent.Milestones.{
  delivery, rejected, general, Thrown, error, caused, root_error_message, sending, en, Milestone,
  enabled, Event, Ports, handle, retry, reconcile_not_sent_and_retry,
}
use telegram_news_agent.Milestones.Settlement.{Settles, all_deliver}

abbrev milestone : Milestone
milestone = record {
  id = "m1";
  channel_id = "c1";
  ordinal = 100;
  language_code = en;
  editor_name = "Ada";
  state = sending;
  claim_token = some "t1";
}

abbrev answer : {A : Type 0} → A → ℕ → Outcome Thrown ℕ A
answer a w = returns a (suc w)

abbrev too_long : Thrown
too_long = caused (delivery rejected) "not sent" (error general "message is too long")

abbrev ports : Ports ℕ
ports = record {
  get_settings = λ _. answer (some en);
  get_feature_flags =
      λ _. answer (record { feature_key = "publication_milestones"; state = enabled } ∷ []);
  claim = λ _ _ _. answer (some milestone);
  retry = λ _. answer (some milestone);
  reconcile_sent = λ _ _. answer (some milestone);
  reconcile_not_sent = λ _. answer (some milestone);
  send = λ _ _ w. throws too_long w;
  mark_sent = λ _ _ _. answer (some milestone);
  mark_failed = λ _ _ _. answer (some milestone);
  mark_uncertain = λ _ _ _. answer (some milestone);
  show = λ _. "100";
}

abbrev published : Event
published = record { publication_id = "p1"; channel_id = "c1" }

root_message : root_error_message too_long ≡ "message is too long"
unfolding root_error_message
root_message = refl

all_deliver_example :
    Settles ports (handle ports "Ada" published)
    × Settles ports (retry ports "m1")
    × Settles ports (reconcile_not_sent_and_retry ports "m1")
all_deliver_example = all_deliver ports "Ada" published "m1"

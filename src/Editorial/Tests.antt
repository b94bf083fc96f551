-- ===== src/Editorial/Tests.antt =====
-- Inputs for the editorial use cases of `src/editorial`, and the theorems at them.
use telegram_news_agent.Prelude.{
  ℕ, suc, ◌+◌, ◌≤◌, ◌≡◌, refl, arith, String, true, false, List, [], ◌∷◌, none, some, length,
}
use telegram_news_agent.Prelude.Text.{nat, all_chars, size}
use telegram_news_agent.Effects.{Outcome, Traced, returns}
use telegram_news_agent.Effects.Rules.{Ensures}
use telegram_news_agent.Editorial.{
  DraftStatus, DraftRow, PublishedPostRow, PublicationPath, PolicyOutcome, PolicyDecision, Fault,
  Call, Ports,
}
use telegram_news_agent.Editorial.Publish.{allow_decision, error_decision, execute, deliver}
use telegram_news_agent.Editorial.Publish.Gate.{sends}
use telegram_news_agent.Editorial.Publish.Safety.{IsSafeFrom, execute-IsSafe}
use telegram_news_agent.Editorial.Publish.FailClosed.{claims, execute_fails_closed}
use telegram_news_agent.Editorial.Publish.Settlement.{
  Accounts, was_accepted, was_rejected, PersistedText, is_unsettled, deliver_settles,
}
use telegram_news_agent.Editorial.Review.{Finding, ReconcileInput, generate, reconcile}
use telegram_news_agent.Editorial.Review.Contracts.{
  Reconciles, Allowed, IsCreatedRow, creations, foreign, reconcile_obeys, generate_creates_once,
}
use telegram_news_agent.Editorial.Corroboration.{
  Status, Evidence, Source, SearchResult, Options, search_all, corroborate, start, world_after,
}
use telegram_news_agent.Editorial.Corroboration as Corroboration
use telegram_news_agent.Editorial.Corroboration.SafeCode.{
  Thrown, is_log_char, keeps_numbers_short, error_code_of, error_code_of_bounds,
}
use telegram_news_agent.Editorial.Corroboration.Independence.{search_all_spends}
use telegram_news_agent.Editorial.Corroboration.Publishers.{
  IsIndependentOf, corroborate-IsIndependent,
}

abbrev draft_row : DraftRow
draft_row = record {
  id = "d1";
  article_id = "a1";
  body = "text";
  status = DraftStatus.approved;
  reviewer_notes = none;
}

abbrev post_row : PublishedPostRow
post_row = record { id = "p1"; article_id = "a1"; telegram_message_id = 7 }

-- a service where everything works; the world is a clock
abbrev answer : {A : Type 0} → A → ℕ → Outcome Fault ℕ A
answer a w = returns a (suc w)

abbrev services : PolicyDecision → Ports ℕ
services decision = record {
  is_aborted = λ _. false;
  find_publication = λ _. answer none;
  find_block = λ _ _. answer none;
  get_draft = λ _. answer draft_row;
  get_settings = λ _. answer (some (record { version = 1; excluded_topic_codes = "sport" ∷ [] }));
  evaluate = λ _. answer decision;
  record_usage = λ _ _ _. answer tt;
  block = λ _. answer (record { outcome = PolicyOutcome.blocked; reason_code = none });
  claim = λ _. answer (record { outcome = PolicyOutcome.claimed; draft = some draft_row });
  send = λ _ _. answer (record { message_id = nat 7; message_date = none });
  release = λ _. answer tt;
  finalize = λ _. answer (some post_row);
  reset = λ _ _. answer (some draft_row);
  generate = λ _.
      answer
        (record { draft = record { article_id = "a1"; body = "text" }; usage_events = 1 ∷ [] });
  record_generation_usage = λ event. answer event;
  create_draft = λ _. answer (some draft_row);
  article_published = λ _ _ _. answer tt;
  sha256 = λ text. text;
  parse_editor = λ _. none;
}

abbrev ports : Ports ℕ
ports = services allow_decision

abbrev at_start : Traced ℕ Call
at_start = record { world = 0; calls = [] }

execute-IsSafe_example :
    Ensures
      (λ _ t. IsSafeFrom ports "d1" "c1" at_start t)
      (λ _ t. IsSafeFrom ports "d1" "c1" at_start t)
      (execute ports "d1" "c1" PublicationPath.scheduler at_start)
execute-IsSafe_example = execute-IsSafe ports "d1" "c1" PublicationPath.scheduler at_start

execute_fails_closed_example :
    Ensures
      (λ _ t. (sends t ≡ 0) × (claims t ≡ 0))
      (λ _ t. (sends t ≡ 0) × (claims t ≡ 0))
      (execute (services error_decision) "d1" "c1" PublicationPath.scheduler at_start)
execute_fails_closed_example =
    execute_fails_closed (services error_decision) (λ _ _. refl) "c1" (λ _ e. ground (arith, e))
      "d1" PublicationPath.scheduler at_start

deliver_settles_example :
    Ensures
      (λ _ t.
        Accounts ports "d1" "c1" PublicationPath.scheduler draft_row at_start t
        × (was_accepted (ports.send "c1" "text" 0) ≡ true)
        × PersistedText "text" t.calls)
      (λ e t.
        Accounts ports "d1" "c1" PublicationPath.scheduler draft_row at_start t
        × (was_rejected (ports.send "c1" "text" 0) ≡ false → is_unsettled e ≡ true))
      (deliver ports "d1" "c1" PublicationPath.scheduler draft_row at_start)
deliver_settles_example =
    deliver_settles ports "d1" "c1" PublicationPath.scheduler draft_row at_start

abbrev sent_input : ReconcileInput
sent_input = record { draft_id = "d1"; channel_id = "c1"; outcome = Finding.sent (nat 7) }

reconcile_obeys_example :
    Ensures
      (λ result t.
        Reconciles sent_input result t.calls × Allowed ports (Finding.sent (nat 7)) at_start t)
      (λ _ t. Allowed ports (Finding.sent (nat 7)) at_start t)
      (reconcile ports sent_input at_start)
reconcile_obeys_example = reconcile_obeys ports sent_input at_start

generate_creates_once_example :
    Ensures
      (λ result t.
        (creations t ≡ 1)
        × (foreign "a1" t ≡ 0)
        × IsCreatedRow result t.calls
        × (length result.usage_events ≤ length result.generation.usage_events))
      (λ _ t. (creations t ≤ 1) × (foreign "a1" t ≡ 0))
      (generate ports "a1" at_start)
generate_creates_once_example = generate_creates_once ports "a1" at_start

abbrev search_ports : Corroboration.Ports ℕ
search_ports = record {
  find = λ request. λ w.
      returns
        (record {
          sources =
              record {
                url = request;
                title = some "title";
                excerpt = none;
                published_at = none;
                is_strong = true;
              }
              ∷ [];
          usage_events = [];
        })
        (suc w);
  now = λ w. w;
  hostname = λ url. some url;
  parse_date = λ _. none;
}

abbrev options : Options
options = record { required_publishers = 2; max_searches = 3; max_source_age_hours = 72 }

abbrev evidence : List Evidence
evidence =
    record {
      url = "rumour.example";
      title = none;
      text = "text";
      published_at = none;
      is_primary = false;
      verification_status = some Status.unverified_community;
    }
    ∷ []

abbrev questions : List String
questions = "a.example" ∷ "b.example" ∷ []

corroborate-IsIndependent_example :
    IsIndependentOf search_ports options evidence
      (corroborate search_ports options evidence questions 0).0
corroborate-IsIndependent_example =
    corroborate-IsIndependent search_ports options evidence questions 0

search_all_spends_example :
    ((search_all search_ports options [] questions start 0).1
      ≡ 0 + (search_all search_ports options [] questions start 0).0.searches)
    × ((search_all search_ports options [] questions start 0).0.searches ≤ 3)
    × ((search_all search_ports options [] questions start 0).0.searches ≤ 2)
    × ((search_all search_ports options [] questions start 0).0.failed_searches
        ≤ (search_all search_ports options [] questions start 0).0.searches)
search_all_spends_example =
    search_all_spends search_ports options [] (λ w. w) (λ _ _. refl) questions 0

-- a provider's error whose code is a key
abbrev leaking_error : Thrown
leaking_error = record {
  own = some (record { code = some "sk-12345678"; error_code = none; name = some "TimeoutError" });
  inner = some (record { code = some "timeout"; error_code = none; name = none }) ∷ [];
}

error_code_of_bounds_example :
    (size (error_code_of leaking_error) ≤ 200)
    × (all_chars is_log_char (error_code_of leaking_error) ≡ true)
    × (keeps_numbers_short 0 (error_code_of leaking_error) ≡ true)
error_code_of_bounds_example = error_code_of_bounds leaking_error

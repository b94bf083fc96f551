-- ===== src/Editorial/Corroboration.antt =====
-- `EvidenceCorroborationService` of `src/editorial/corroboration/evidence-corroboration.service.ts`
-- and `publisherOf` of `src/editorial/corroboration/source-policy.ts`. The search, the URL parser and
-- the date parser are parameters. The text of the reason for a rumour is left out, and the
-- clock is read once for the sources of one search.
pub mod Independence
pub mod Publishers
pub mod Verdicts
pub mod SafeCode
use Prim.Native.Char.{code}
use Prim.Native.String.{[] as empty, ◌∷◌ as push}
use telegram_news_agent.Prelude.{
  ℕ, zero, suc, ◌+◌, ◌-◌, ◌*◌, String, Bool, true, false, not, ◌&&◌, ◌||◌, Option, none, some, List,
  [], ◌∷◌, ◌++◌, map, any, length, ltb, leb, ◌==◌, if◌then◌else◌, get_or, is_some, str_eq,
}
use telegram_news_agent.Prelude.Text.{trim, is_empty}
use telegram_news_agent.Effects.{Outcome, returns, throws}

pub data Status : Type 0 where
  primary_source web_source web_search_summary unverified_community : Status

pub record Evidence : Type 0 where
  pub url : String
  pub title : Option String
  pub text : String
  pub published_at : Option String
  pub is_primary : Bool
  pub verification_status : Option Status

pub record Source : Type 0 where
  pub url : String
  pub title : Option String
  pub excerpt : Option String
  pub published_at : Option String
  pub is_strong : Bool

pub record SearchResult : Type 0 where
  pub sources : List Source
  pub usage_events : List ℕ

pub record Options : Type 0 where
  pub required_publishers : ℕ
  pub max_searches : ℕ
  pub max_source_age_hours : ℕ

-- `hostname` is the lower-case host name, none where `new URL` throws; `parse_date` is none for what is no date. A failed
-- search throws the code that `errorCodeOf` gives for its error.
pub record Ports (W : Type 0) : Type 0 where
  pub find : String → W → Outcome String W SearchResult
  pub now : W → ℕ
  pub hostname : String → Option String
  pub parse_date : String → Option ℕ

-- The variables of the two loops. `found` is a `Map` and `strong` a `Set`, in insertion order.
pub record Progress : Type 0 where
  pub found : List (String × Evidence)
  pub strong : List String
  pub usage_events : List ℕ
  pub searches : ℕ
  pub failed_searches : ℕ
  pub search_errors : List String

abbrev pub start : Progress
start = record {
  found = [];
  strong = [];
  usage_events = [];
  searches = 0;
  failed_searches = 0;
  search_errors = [];
}

pub record Details : Type 0 where
  pub evidence : List Evidence
  pub searches : ℕ
  pub publishers : List String
  pub strong_publishers : List String
  pub failed_searches : ℕ
  pub search_errors : List String
  pub usage_events : List ℕ

pub data CorroborationOutcome : Type 0 where
  not_needed : List Evidence → CorroborationOutcome
  corroborated : Details → CorroborationOutcome
  uncorroborated : Details → String → CorroborationOutcome

abbrev pub rumour_tag : String
rumour_tag = "#rumor"

-- `.replace(/^www\./, "")`
pub strip_www : String → String
strip_www (push a (push b (push c (push d rest)))) =
    if code a == b'w' && code b == b'w' && code c == b'w' && code d == b'.'
    then rest
    else push a (push b (push c (push d rest)))
strip_www host = host

-- `x || null`
abbrev pub non_empty : String → Option String
non_empty s = if is_empty s then none else some s

abbrev pub or_else : Option String → String → String
or_else none d = d
or_else (some s) d = if is_empty (trim s) then d else trim s

abbrev pub has : String → List String → Bool
has k xs = any (str_eq k) xs

-- `Set.add`
abbrev pub add : String → List String → List String
add k xs = if has k xs then xs else xs ++ k ∷ []

abbrev pub keys : List (String × Evidence) → List String
keys [] = []
keys ((k, _) ∷ rest) = k ∷ keys rest

abbrev pub values : List (String × Evidence) → List Evidence
values [] = []
values ((_, e) ∷ rest) = e ∷ values rest

-- `.map(...).filter(Boolean)`
abbrev pub some_values : List (Option String) → List String
some_values [] = []
some_values (none ∷ rest) = some_values rest
some_values (some k ∷ rest) = k ∷ some_values rest

pub is_unverified : Option Status → Bool
is_unverified none = true
is_unverified (some Status.unverified_community) = true
is_unverified (some _) = false

pub clear : Evidence → Evidence
clear item =
    if is_unverified item.verification_status
    then record item { verification_status = some Status.web_source }
    else item

abbrev pub evidence_of : Source → Evidence
evidence_of source = record {
  url = source.url;
  title = source.title;
  text = or_else source.excerpt (or_else source.title "");
  published_at = source.published_at;
  is_primary = false;
  verification_status = some Status.web_source;
}

abbrev pub world_after : {W : Type 0} → Outcome String W SearchResult → W
world_after (returns _ w) = w
world_after (throws _ w) = w

abbrev pub spend : Progress → Progress
spend progress = record progress { searches = suc progress.searches }

abbrev pub details_of : List Evidence → Progress → Details
details_of evidence progress = record {
  evidence = evidence ++ values progress.found;
  searches = progress.searches;
  publishers = keys progress.found;
  strong_publishers = progress.strong;
  failed_searches = progress.failed_searches;
  search_errors = progress.search_errors;
  usage_events = progress.usage_events;
}

module _ {W : Type 0} (p : Ports W) (options : Options) where
  pub publisher_of : String → Option String
  unfolding strip_www
  publisher_of url = elim (p.hostname url) [ none ↦ none | some host ↦ non_empty (strip_www host) ]

  -- the publishers of the evidence at hand
  pub known_publishers : List Evidence → List String
  known_publishers [] = []
  known_publishers (item ∷ rest) = some_values (publisher_of item.url ∷ []) ++ known_publishers rest

  -- older than the window by its own account; an undated source is not
  pub is_stale : Option String → ℕ → Bool
  is_stale none now = false
  is_stale (some date) now = elim (p.parse_date date) [
    | none ↦ false
    | some published ↦
        not (is_empty date) && ltb (published + options.max_source_age_hours * 60 * 60 * 1000) now
  ]

  -- a source of an independent publisher that is recent enough
  pub accept : String → Source → Progress → Progress
  accept publisher source progress = record progress {
    found = progress.found ++ (publisher, evidence_of source) ∷ [];
    strong = if source.is_strong then add publisher progress.strong else progress.strong;
  }

  pub add_source : List String → ℕ → Source → Progress → Progress
  unfolding accept
  add_source known now source progress = elim (publisher_of source.url) [
    | none ↦ progress
    | some publisher ↦
        if has publisher known || has publisher (keys progress.found)
        then progress
        else if is_stale source.published_at now
        then progress
        else accept publisher source progress
  ]

  abbrev pub is_met : Progress → Bool
  is_met progress = leb options.required_publishers (length progress.strong)

  -- the inner loop, which breaks when the threshold is met
  pub add_sources : List String → ℕ → List Source → Progress → Progress
  add_sources known now [] progress = progress
  add_sources known now (source ∷ rest) progress =
      if is_met progress
      then progress
      else add_sources known now rest (add_source known now source progress)

  pub add_result : List String → Progress → Outcome String W SearchResult → Progress
  add_result known progress (returns result w) =
      add_sources known (p.now w) result.sources
        (record progress { usage_events = progress.usage_events ++ result.usage_events })
  add_result known progress (throws code _) = record progress {
    failed_searches = suc progress.failed_searches;
    search_errors = add code progress.search_errors;
  }

  -- the outer loop, over the questions of the model
  pub search_all : List String → List String → Progress → W → Progress × W
  search_all known [] progress w = (progress, w)
  search_all known (request ∷ rest) progress w =
      if leb options.max_searches progress.searches || is_met progress
      then (progress, w)
      else search_all known rest (add_result known (spend progress) (p.find request w))
          (world_after (p.find request w))

  pub conclude : List Evidence → Progress → CorroborationOutcome
  conclude evidence progress =
      if ltb (length progress.strong) options.required_publishers
      then uncorroborated (details_of evidence progress) rumour_tag
      else corroborated (details_of (map clear evidence) progress)

  pub corroborate : List Evidence → List String → W → CorroborationOutcome × W
  corroborate evidence [] w = (not_needed evidence, w)
  corroborate evidence (request ∷ rest) w =
      let run = search_all (known_publishers evidence) (request ∷ rest) start w in
      (conclude evidence run.0, run.1)

-- ===== src/Ai/Deadlines.antt =====
-- How long a provider may take for an operation: `deadlineForOperation`,
-- `deadlineForProviderOperation` and the default tables of `src/ai/ai-provider-composition.ts`. The
-- keys that every JavaScript object inherits are left out.
use telegram_news_agent.Prelude.{
  ℕ, ◌≡◌, String, Option, none, some, List, [], ◌∷◌, arith, if◌then◌else◌, get_or, str_eq,
}
use telegram_news_agent.Prelude.Dict.{get}

abbrev pub fallback_provider_deadline_ms : ℕ
fallback_provider_deadline_ms = 60000

pub default_operation_deadlines_ms : List (String × ℕ)
default_operation_deadlines_ms =
    ("editorial_enrichment", 180000)
    ∷ ("editorial_enrichment_retry", 180000)
    ∷ ("editorial_draft", 120000)
    ∷ []

pub default_provider_operation_deadlines_ms : List (String × List (String × ℕ))
default_provider_operation_deadlines_ms = ("openai", ("feed_candidate_curation", 120000) ∷ []) ∷ []

-- `a ?? b`
abbrev or_next : Option ℕ → Option ℕ → Option ℕ
or_next none b = b
or_next (some a) b = some a

-- `semantic ? table[semantic] : undefined`; the empty name is false
abbrev find : Option String → List (String × ℕ) → Option ℕ
find none table = none
find (some name) table = if str_eq name "" then none else get name table

pub deadline_for_operation : Option String → Option ℕ
unfolding default_operation_deadlines_ms
deadline_for_operation semantic = find semantic default_operation_deadlines_ms

pub deadline_for_provider_operation : String → Option String → Option ℕ
unfolding default_provider_operation_deadlines_ms
deadline_for_provider_operation provider_name semantic =
    find semantic (get_or (get provider_name default_provider_operation_deadlines_ms) [])

-- The narrowest override wins.
pub deadline_for_provider_ms : Option String → (String → Option ℕ) → String → ℕ
unfolding deadline_for_operation deadline_for_provider_operation
deadline_for_provider_ms semantic traits_deadline name =
    get_or
      (or_next (deadline_for_provider_operation name semantic)
        (or_next (deadline_for_operation semantic) (traits_deadline name)))
      fallback_provider_deadline_ms

-- The curation of candidates has two minutes on OpenAI; every other provider keeps the deadline of
-- its traits, or one minute.
pub deadline_for_provider_ms-curation :
    (traits_deadline : String → Option ℕ) (name : String)
    → deadline_for_provider_ms (some "feed_candidate_curation") traits_deadline name
      ≡ (if str_eq "openai" name then 120000 else get_or (traits_deadline name) 60000)
unfolding deadline_for_provider_ms deadline_for_operation deadline_for_provider_operation
    default_operation_deadlines_ms default_provider_operation_deadlines_ms get
deadline_for_provider_ms-curation traits_deadline name = ground arith

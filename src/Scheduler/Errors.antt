-- ===== src/Scheduler/Errors.antt =====
-- `errorCode` of `src/scheduler/application/run-scheduled-news-once.use-case.ts`. An error is its
-- message; an `AggregateError` has the messages of its errors after its own.
use Prim.Native.Char.{Char, code}
use Prim.Native.String.{[] as empty, ◌∷◌ as push, ◌++◌}
use telegram_news_agent.Prelude.{
  ℕ, ◌+◌, String, Bool, true, false, not, ◌&&◌, ◌||◌, List, [], ◌∷◌, ◌==◌, if◌then◌else◌, ◌≡◌, refl,
}
use telegram_news_agent.Prelude.Text.{within, is_empty}

abbrev pub Fault : Type 0
Fault = List String

abbrev pub fault : String → Fault
fault message = message ∷ []

-- Without the flag `u`, `/i` folds ASCII letters only where the pattern is ASCII.
abbrev fold : ℕ → ℕ
fold c = if within b'A' b'Z' c then c + 32 else c

starts_with : String → String → Bool
starts_with empty s = true
starts_with (push p pattern) empty = false
starts_with (push p pattern) (push c s) = fold (code p) == fold (code c) && starts_with pattern s

pub includes : String → String → Bool
unfolding starts_with
includes pattern empty = is_empty pattern
includes pattern (push c s) = starts_with pattern (push c s) || includes pattern s

abbrev is_line_end : Char → Bool
is_line_end c = code c == 10 || code c == 13 || code c == 0x2028 || code c == 0x2029

-- `.*lost`
lost_on_line : String → Bool
unfolding starts_with
lost_on_line empty = false
lost_on_line (push c s) = starts_with "lost" (push c s) || not (is_line_end c) && lost_on_line s

-- `claim.*lost`; the two words have no letters to share
claim_lost : String → Bool
unfolding starts_with lost_on_line
claim_lost empty = false
claim_lost (push c s) = starts_with "claim" (push c s) && lost_on_line (push c s) || claim_lost s

-- `.join(" ")`
join : List String → String
join [] = ""
join (message ∷ []) = message
join (message ∷ next ∷ rest) = message ++ " " ++ join (next ∷ rest)

unfoldable pub error_code : Fault → String
unfolding includes claim_lost join
error_code error =
    let message = join error in
    if includes "already running" message
    then "pipeline_busy"
    else if claim_lost message || includes "ownership was lost" message
    then "claim_lost"
    else if includes "scheduled review delivery" message
    then "review_delivery_failed"
    else if includes "unresolved" message || includes "already being published" message
    then "publication_unresolved"
    else "scheduled_run_failed"

-- The message of the publication use case, and that of a lost claim.
abbrev pub unresolved_fault : Fault
unresolved_fault =
    fault
      "Publication outcome is unresolved; draft remains in publishing state for manual reconciliation"

pub error_code-unresolved_fault : error_code unresolved_fault ≡ "publication_unresolved"
unfolding error_code includes claim_lost join starts_with lost_on_line
error_code-unresolved_fault = refl

error_code-lost :
    error_code (fault "Scheduled news claim was lost before completion") ≡ "claim_lost"
unfolding error_code includes claim_lost join starts_with lost_on_line
error_code-lost = refl

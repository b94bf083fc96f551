-- ===== src/Telegram/Reviews/Callback.antt =====
-- The callback of a review button: `reviewMarkup` of `src/telegram/transport/telegram-bot-api.gateway.ts`
-- and `REVIEW_CALLBACK` of `src/telegram/transport/telegram-control-update.parser.ts`.
use Prim.Native.Char.{Char, code}
use Prim.Native.String.append.{nil, cons}
use text.Mathlib.TextEquality.{Char-path}
use text.Mathlib.TextLemmas.{cons-append}
use Prim.Native.String.{[] as empty, ◌∷◌ as push, ◌++◌}
use telegram_news_agent.Prelude.{
  String, ◌≡◌, ◌↔◌, refl, ◌∙◌, ap, Bool, true, ◌&&◌, ◌||◌, Option, none, some, arith, leb, ◌==◌,
  if◌then◌else◌,
}
use telegram_news_agent.Prelude.Text.{within, is_digit, all_chars, size}

pub data Action : Type 0 where
  publish reject : Action

abbrev letter_of : Action → String
letter_of publish = "p"
letter_of reject = "r"

-- `callback_data` of the two buttons
pub review_callback_data : Action → String → String
review_callback_data action session_id = "news:" ++ (letter_of action ++ (":" ++ session_id))

-- `[a-f0-9]`
abbrev is_hex : Char → Bool
is_hex c = within b'a' b'f' (code c) || is_digit c

-- `[a-f0-9]{32,64}`
abbrev pub is_session_id : String → Bool
is_session_id s = all_chars is_hex s && leb 32 (size s) && leb (size s) 64

-- what follows a literal text at the start
strip : String → String → Option String
strip empty s = some s
strip (push p pattern) empty = none
strip (push p pattern) (push c s) =
    let rest = strip pattern s in if code p == code c then rest else none

abbrev session_of : Action → Option String → Option (Action × String)
session_of action none = none
session_of action (some id) = if is_session_id id then some (action, id) else none

parse_action : String → Option (Action × String)
unfolding strip
parse_action empty = none
parse_action (push c s) =
    if code c == b'p'
    then session_of publish (strip ":" s)
    else if code c == b'r'
    then session_of reject (strip ":" s)
    else none

parse_after : Option String → Option (Action × String)
unfolding parse_action
parse_after none = none
parse_after (some rest) = parse_action rest

-- `REVIEW_CALLBACK.exec(data)`
pub parse_review_callback : String → Option (Action × String)
unfolding parse_after strip
parse_review_callback s = parse_after (strip "news:" s)

strip-append : (pattern s : String) → strip pattern (pattern ++ s) ≡ some s
unfolding strip
strip-append empty s = ap some (λ i. nil s i)
strip-append (push p pattern) s =
    ap (strip (push p pattern)) (λ i. cons p pattern s i) ∙ ground (arith, strip-append pattern s)

nil-append : (s : String) → "" ++ s ≡ s
nil-append s = λ i. nil s i

letter-append : (c : Char) (s : String) → push c empty ++ s ≡ push c s
letter-append c s = (λ i. cons c empty s i) ∙ ap (push c) (λ i. nil s i)

parse_action-letter :
    (action : Action) (id : String)
    → parse_action (letter_of action ++ (":" ++ id)) ≡ session_of action (some id)
unfolding parse_action
parse_action-letter publish id =
    ap parse_action (letter-append "p" (":" ++ id)) ∙ ap (session_of publish) (strip-append ":" id)
parse_action-letter reject id =
    ap parse_action (letter-append "r" (":" ++ id)) ∙ ap (session_of reject) (strip-append ":" id)

strip-some : (pattern s rest : String) → strip pattern s ≡ some rest → s ≡ pattern ++ rest
unfolding strip
strip-some empty s rest h = ground (arith, nil-append rest)
strip-some (push p pattern) empty rest h = ground arith
strip-some (push p pattern) (push c s) rest h =
    rw (cons-append p pattern rest) (ground (arith, strip-some pattern s rest, Char-path p c))

parse_action-some :
    (action : Action) (id s : String)
    → parse_action s ≡ some (action, id)
    → (s ≡ letter_of action ++ (":" ++ id)) × (is_session_id id ≡ true)
unfolding parse_action
parse_action-some action id empty h = ground arith
parse_action-some publish id (push c s) h =
    rw (letter-append "p" (":" ++ id)) (ground (arith, strip-some ":" s id, Char-path c "p"))
parse_action-some reject id (push c s) h =
    rw (letter-append "r" (":" ++ id)) (ground (arith, strip-some ":" s id, Char-path c "r"))

parse-data :
    (action : Action) (id : String)
    → is_session_id id ≡ true
    → parse_review_callback (review_callback_data action id) ≡ some (action, id)
unfolding parse_review_callback review_callback_data parse_after
parse-data action id h =
    ap parse_after (strip-append "news:" (letter_of action ++ (":" ++ id)))
    ∙ parse_action-letter action id
    ∙ rw h refl

parse_after-some :
    (action : Action) (data_text id : String) (rest : Option String)
    → strip "news:" data_text ≡ rest
    → parse_after rest ≡ some (action, id)
    → (data_text ≡ review_callback_data action id) × (is_session_id id ≡ true)
unfolding parse_after review_callback_data
parse_after-some action data_text id none e h = ground arith
parse_after-some action data_text id (some rest) e h =
    let (f, valid) = parse_action-some action id rest h in
    (rw (← f) (strip-some "news:" data_text rest e), valid)

-- A callback is read as a decision on a session exactly where it is the data of that button for
-- that session, and the session's id is one of 32 to 64 hexadecimal digits.
pub parse_review_callback-data :
    (action : Action) (data_text id : String)
    → (parse_review_callback data_text ≡ some (action, id))
      ↔ ((data_text ≡ review_callback_data action id) × (is_session_id id ≡ true))
parse_review_callback-data action data_text id = (
  λ h.
      unfold parse_review_callback in
      parse_after-some action data_text id (strip "news:" data_text) refl h,
  λ k. rw (k.0) (parse-data action id k.1),
)

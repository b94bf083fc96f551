-- ===== src/Editorial/Identifier.antt =====
-- `safeIdentifier` of `src/editorial/application/publish-approved-draft.use-case.ts`.
use Prim.Native.Char.{Char, code}
use telegram_news_agent.Prelude.{
  ◌≤◌, String, ◌≡◌, Bool, true, ◌&&◌, ◌||◌, Option, none, some, arith, ltb, leb, ◌==◌,
  if◌then◌else◌, get_or,
}
use telegram_news_agent.Prelude.Text.{trim, all_chars, size, is_letter, is_digit}

-- `[A-Za-z0-9._:/-]`
abbrev pub is_identifier_char : Char → Bool
is_identifier_char c =
    is_letter c
    || is_digit c
    || code c == b'.'
    || code c == b'_'
    || code c == b':'
    || code c == b'/'
    || code c == b'-'

-- `SAFE_IDENTIFIER.test`
unfoldable pub is_safe_identifier : String → Bool
is_safe_identifier s = all_chars is_identifier_char s && ltb 0 (size s) && leb (size s) 100

unfoldable pub safe_identifier : Option String → Option String
unfolding is_safe_identifier
safe_identifier value =
    let normalized = trim (get_or value "") in
    if is_safe_identifier normalized then some normalized else none

-- What passes is the trimmed value, has 1 to 100 characters, and each is a letter, a digit or one
-- of `. _ : / -`.
pub safe_identifier_bounds :
    (value : Option String) (out : String)
    → safe_identifier value ≡ some out
    → (out ≡ trim (get_or value ""))
      × (all_chars is_identifier_char out ≡ true)
      × (1 ≤ size out)
      × (size out ≤ 100)
unfolding safe_identifier
safe_identifier_bounds value out h = ground arith

-- ===== src/Editorial/Corroboration/SafeCode.antt =====
-- `errorCodeOf` of `src/editorial/corroboration/error-code.ts`: the short name of a failure that may
-- go to the logs. An error is an object by its `code`, `errorCode` and `name` where they are texts;
-- an `AggregateError` has the errors inside.
use Prim.Native.Char.{Char, code}
use Prim.Native.String.{[] as empty, ◌∷◌ as push, ◌++◌ as append}
use Prim.Native.String.append.{nil, cons}
use telegram_news_agent.Prelude.{
  ℕ, zero, suc, ◌+◌, ◌≤◌, ◌≡◌, refl, String, Bool, true, false, ◌&&◌, ◌||◌, Option, none, some,
  List, [], ◌∷◌, any, arith, leb, ◌==◌, if◌then◌else◌, str_eq, All,
}
use telegram_news_agent.Prelude.Text.{all_chars, size, is_letter, is_digit}

pub record ErrorObject : Type 0 where
  pub code : Option String
  pub error_code : Option String
  pub name : Option String

-- `none` is for a thrown value that is no object
pub record Thrown : Type 0 where
  pub own : Option ErrorObject
  pub inner : List (Option ErrorObject)

-- `[A-Za-z0-9_.-]`
abbrev pub is_code_char : Char → Bool
is_code_char c = is_letter c || is_digit c || code c == b'_' || code c == b'.' || code c == b'-'

-- `value.match(/[0-9]/g)?.length ?? 0`
abbrev digits : String → ℕ
digits empty = 0
digits (push c s) = let rest = digits s in if is_digit c then suc rest else rest

-- `SAFE_CODE`: a letter and up to 47 more characters
abbrev matches_safe_code : String → Bool
matches_safe_code empty = false
matches_safe_code (push c s) = is_letter c && all_chars is_code_char s && leb (size s) 47

unfoldable pub is_safe_code : String → Bool
is_safe_code value = matches_safe_code value && leb (digits value) 3

-- the first candidate that is a text and safe
abbrev first_safe : List (Option String) → String → String
first_safe [] otherwise = otherwise
first_safe (none ∷ rest) otherwise = first_safe rest otherwise
first_safe (some s ∷ rest) otherwise = if is_safe_code s then s else first_safe rest otherwise

-- a bare `Error` says nothing
abbrev safe_name : Option String → Option String
safe_name none = none
safe_name (some s) = if str_eq s "Error" then none else some s

pub code_or_name : Option ErrorObject → String
code_or_name none = "error"
code_or_name (some e) = first_safe (e.code ∷ e.error_code ∷ safe_name e.name ∷ []) "error"

abbrev has : String → List String → Bool
has k xs = any (str_eq k) xs

-- `[...new Set(errors.map(codeOrName).filter((code) => code !== "error"))]`
pub inner_codes : List String → List (Option ErrorObject) → List String
unfolding code_or_name
inner_codes seen [] = []
inner_codes seen (e ∷ rest) =
    if str_eq (code_or_name e) "error" || has (code_or_name e) seen
    then inner_codes seen rest
    else code_or_name e ∷ inner_codes (code_or_name e ∷ seen) rest

-- `.join(",")`
join : List String → String
join [] = ""
join (s ∷ []) = s
join (s ∷ next ∷ rest) = append s (append "," (join (next ∷ rest)))

-- `.slice(0, n)`; what is sliced is ASCII, one code unit to a character
slice : ℕ → String → String
slice zero s = ""
slice (suc n) empty = ""
slice (suc n) (push c s) = push c (slice n s)

abbrev with_inner : String → List String → String
with_inner own [] = own
with_inner own (c ∷ codes) = slice 200 (append own (append ":" (join (c ∷ codes))))

unfoldable pub error_code_of : Thrown → String
unfolding code_or_name inner_codes join slice
error_code_of error = with_inner (code_or_name error.own) (inner_codes [] error.inner)

abbrev pub is_separator : Char → Bool
is_separator c = code c == b':' || code c == b','

-- What a log line may hold: a code's characters and the two separators.
abbrev pub is_log_char : Char → Bool
is_log_char c = is_code_char c || is_separator c

-- the digits since the last separator, one character on
abbrev digits_after : ℕ → Char → ℕ
digits_after n c = if is_separator c then 0 else if is_digit c then suc n else n

-- No more than three digits stand between two separators, where `n` were seen since the last.
abbrev pub keeps_numbers_short : ℕ → String → Bool
keeps_numbers_short n empty = true
keeps_numbers_short n (push c s) =
    leb (digits_after n c) 3 && keeps_numbers_short (digits_after n c) s

all_chars-log : (s : String) → all_chars is_code_char s ≡ true → all_chars is_log_char s ≡ true
all_chars-log empty h = refl
all_chars-log (push c s) h = ground (arith, all_chars-log s)

append_nil : (t : String) → append "" t ≡ t
append_nil t = λ i. nil t i

append_cons : (c : Char) (s t : String) → append (push c s) t ≡ push c (append s t)
append_cons c s t = λ i. cons c s t i

all_chars-append :
    (s t : String)
    → all_chars is_log_char s ≡ true
    → all_chars is_log_char t ≡ true
    → all_chars is_log_char (append s t) ≡ true
all_chars-append empty t h k = rw (append_nil t) k
all_chars-append (push c s) t h k = rw (append_cons c s t) (ground (arith, all_chars-append s t))

all_chars-slice :
    (n : ℕ) (s : String) → all_chars is_log_char s ≡ true → all_chars is_log_char (slice n s) ≡ true
unfolding slice
all_chars-slice zero s h = refl
all_chars-slice (suc n) empty h = refl
all_chars-slice (suc n) (push c s) h = ground (arith, all_chars-slice n s)

slice-size : (n : ℕ) (s : String) → size (slice n s) ≤ n
unfolding slice
slice-size zero s = omega arith
slice-size (suc n) empty = omega arith
slice-size (suc n) (push c s) = omega (arith, slice-size n s)

code_char-not-separator : (c : Char) → is_code_char c ≡ true → is_separator c ≡ false
code_char-not-separator c h = ground arith

-- A safe code, and then nothing or a separator with what may follow one.
keeps-code :
    (n : ℕ) (s : String)
    → all_chars is_code_char s ≡ true
    → n + digits s ≤ 3
    → keeps_numbers_short n s ≡ true
keeps-code n empty h k = refl
keeps-code n (push c s) h k =
    ground (arith, code_char-not-separator c, keeps-code (digits_after n c) s)

keeps-append :
    (n : ℕ) (s : String) (c : Char) (t : String)
    → is_separator c ≡ true
    → keeps_numbers_short n s ≡ true
    → keeps_numbers_short 0 t ≡ true
    → keeps_numbers_short n (append s (push c t)) ≡ true
keeps-append n empty c t e h k = rw (append_nil (push c t)) (ground arith)
keeps-append n (push d s) c t e h k =
    rw (append_cons d s (push c t)) (ground (arith, keeps-append (digits_after n d) s c t))

keeps-slice :
    (n k : ℕ) (s : String)
    → keeps_numbers_short n s ≡ true
    → keeps_numbers_short n (slice k s) ≡ true
unfolding slice
keeps-slice n zero s h = refl
keeps-slice n (suc k) empty h = refl
keeps-slice n (suc k) (push c s) h = ground (arith, keeps-slice (digits_after n c) k s)

-- Short enough, of permitted characters, and with few digits.
abbrev IsTame : String → Type 0
IsTame s = (size s ≤ 48) × (all_chars is_log_char s ≡ true) × (keeps_numbers_short 0 s ≡ true)

is_safe_code-IsTame : (s : String) → is_safe_code s ≡ true → IsTame s
unfolding is_safe_code
is_safe_code-IsTame empty h = (omega arith, refl, refl)
is_safe_code-IsTame (push c s) h = ground (arith, all_chars-log s, keeps-code 0 (push c s))

first_safe-IsTame : (candidates : List (Option String)) → IsTame (first_safe candidates "error")
first_safe-IsTame [] = (omega arith, refl, refl)
first_safe-IsTame (none ∷ rest) = first_safe-IsTame rest
first_safe-IsTame (some s ∷ rest) = ground (arith, is_safe_code-IsTame s, first_safe-IsTame rest)

code_or_name-IsTame : (e : Option ErrorObject) → IsTame (code_or_name e)
unfolding code_or_name
code_or_name-IsTame none = (omega arith, refl, refl)
code_or_name-IsTame (some e) = first_safe-IsTame (e.code ∷ e.error_code ∷ safe_name e.name ∷ [])

abbrev IsLoggable : String → Type 0
IsLoggable s = (all_chars is_log_char s ≡ true) × (keeps_numbers_short 0 s ≡ true)

abbrev AllTame : List String → Type 0
AllTame codes = All IsLoggable codes

-- a code joins the others or is left out
unless_tame :
    (is_left_out : Bool) (code : String) (without others : List String)
    → IsTame code
    → AllTame without
    → AllTame others
    → AllTame (if is_left_out then without else code ∷ others)
unless_tame true code without others h k l = k
unless_tame false code without others (_, h, g) k l = ((h, g), l)

inner_codes-tame :
    (seen : List String) (errors : List (Option ErrorObject)) → AllTame (inner_codes seen errors)
unfolding inner_codes
inner_codes-tame seen [] = tt
inner_codes-tame seen (e ∷ rest) =
    unless_tame (str_eq (code_or_name e) "error" || has (code_or_name e) seen) (code_or_name e) _ _
      (code_or_name-IsTame e) (inner_codes-tame seen rest)
      (inner_codes-tame (code_or_name e ∷ seen) rest)

-- two loggable texts around a separator
separated :
    (s : String) (c : Char) (t : String)
    → is_separator c ≡ true
    → IsLoggable s
    → IsLoggable t
    → IsLoggable (append s (append (push c empty) t))
separated s c t e (h, k) (l, m) =
    rw (append_cons c empty t, append_nil t)
      (all_chars-append s (push c t) h (ground arith), keeps-append 0 s c t e k m)

join-tame : (codes : List String) → AllTame codes → IsLoggable (join codes)
unfolding join
join-tame [] h = (refl, refl)
join-tame (s ∷ []) (h, _) = h
join-tame (s ∷ next ∷ rest) (h, k) =
    separated s "," (join (next ∷ rest)) refl h (join-tame (next ∷ rest) k)

with_inner-tame :
    (own : String) (codes : List String)
    → IsTame own
    → AllTame codes
    → (size (with_inner own codes) ≤ 200)
      × (all_chars is_log_char (with_inner own codes) ≡ true)
      × (keeps_numbers_short 0 (with_inner own codes) ≡ true)
with_inner-tame own [] h k = ground arith
with_inner-tame own (c ∷ codes) (_, h, g) k =
    let line : String = append own (append ":" (join (c ∷ codes))) in
    let (chars, numbers) =
      separated own ":" (join (c ∷ codes)) refl (h, g) (join-tame (c ∷ codes) k) in
    (slice-size 200 line, all_chars-slice 200 line chars, keeps-slice 0 200 line numbers)

-- Whatever an error holds, its code has at most 200 characters, each of them is an ASCII letter, a
-- digit or one of `_ . - : ,`, and at most three digits stand between two of the separators `:` and
-- `,`, or before the first or after the last. The code can still be a word or a host name that the
-- error gave as its code.
pub error_code_of_bounds :
    (error : Thrown)
    → (size (error_code_of error) ≤ 200)
      × (all_chars is_log_char (error_code_of error) ≡ true)
      × (keeps_numbers_short 0 (error_code_of error) ≡ true)
unfolding error_code_of
error_code_of_bounds error =
    with_inner-tame (code_or_name error.own) (inner_codes [] error.inner)
      (code_or_name-IsTame error.own) (inner_codes-tame [] error.inner)

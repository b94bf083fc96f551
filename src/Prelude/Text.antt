-- ===== src/Prelude/Text.antt =====
-- JavaScript's `trim`, regular character classes and number checks.
use Prim.Native.Nat.{ℕ, suc}
use Prim.Native.Char.{Char, code}
use Prim.Native.String.{String, [], ◌∷◌}
use mathlib.Core.Bool.{Bool, true, false, ◌&&◌, ◌||◌}
use telegram_news_agent.Prelude.Tests.{ltb, leb, ◌==◌, if◌then◌else◌}

abbrev pub within : ℕ → ℕ → ℕ → Bool
within lo hi c = leb lo c && leb c hi

-- White space and line ends of ECMAScript.
pub is_white : Char → Bool
is_white c =
    within 9 13 (code c)
    || code c == 32
    || code c == 160
    || code c == 0x1680
    || within 0x2000 0x200a (code c)
    || within 0x2028 0x2029 (code c)
    || code c == 0x202f
    || code c == 0x205f
    || code c == 0x3000
    || code c == 0xfeff

abbrev pub is_empty : String → Bool
is_empty [] = true
is_empty (_ ∷ _) = false

trim_start : String → String
trim_start [] = []
trim_start (c ∷ s) = let rest = trim_start s in if is_white c then rest else c ∷ s

trim_end : String → String
trim_end [] = []
trim_end (c ∷ s) = let rest = trim_end s in if is_white c && is_empty rest then [] else c ∷ rest

unfoldable pub trim : String → String
unfolding trim_start trim_end is_white
trim s = trim_end (trim_start s)

abbrev pub all_chars : (Char → Bool) → String → Bool
all_chars p [] = true
all_chars p (c ∷ s) = p c && all_chars p s

-- How many characters; the classes tested with it hold ASCII only, one code unit each.
abbrev pub size : String → ℕ
size [] = 0
size (c ∷ s) = suc (size s)

abbrev pub is_letter : Char → Bool
is_letter c = within b'A' b'Z' (code c) || within b'a' b'z' (code c)

abbrev pub is_digit : Char → Bool
is_digit c = within b'0' b'9' (code c)

-- A JavaScript number as far as the code asks: a natural number, or a negative, fractional or
-- missing one.
pub data Number : Type 0 where
  nat : ℕ → Number
  other : Number

abbrev pub max_safe_integer : ℕ
max_safe_integer = 9007199254740991

-- `Number.isSafeInteger(n) && n > 0`
unfoldable pub is_positive_safe_integer : Number → Bool
is_positive_safe_integer (nat n) = ltb 0 n && leb n max_safe_integer
is_positive_safe_integer other = false

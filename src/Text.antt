-- ===== src/Text.antt =====
-- The text tests that tasks.rs, assessment.rs, planner.rs, agent.rs and branch.rs share. A text is
-- a native `String`; `len` counts the bytes of its UTF-8, as `str::len` does, and `chars` is the
-- list of its code points. A byte test such as `is_ascii_hexdigit` rejects every byte of a
-- character beyond ASCII, so it is the same test on the code points.
use Prim.Native.Char.{code}
use Prim.Native.String.{len}
use Prim.Native.String
use text.Mathlib.Text.{◌==◌ as str_eq}
use text.Mathlib.TextEquality.{eq_iff}
use alfredo.Base.{
  ℕ, suc, zero, ◌/◌, ◌%◌, String, ◌≡◌, refl, Bool, true, false, not, ◌&&◌, ◌||◌, List, [], ◌∷◌,
  ◌++◌, leb, ◌==◌, if◌then◌else◌, any, all, is_empty, dec_of,
}

-- A text that is walked is the list of its code points.
abbrev pub Chars : Type 0
Chars = List ℕ

abbrev pub chars : String → List ℕ
chars String.[] = []
chars (String.◌∷◌ c s) = code c ∷ chars s

abbrev pub between : ℕ → ℕ → ℕ → Bool
between lo hi c = leb lo c && leb c hi

-- `char::is_control`, the category Cc.
abbrev pub is_control : ℕ → Bool
is_control c = leb c 0x1f || between 0x7f 0x9f c

-- `char::is_whitespace`, the property White_Space, which `str::trim` strips.
abbrev pub is_whitespace : ℕ → Bool
is_whitespace c =
    between 0x09 0x0d c
    || c == 0x20
    || c == 0x85
    || c == 0xa0
    || c == 0x1680
    || between 0x2000 0x200a c
    || c == 0x2028
    || c == 0x2029
    || c == 0x202f
    || c == 0x205f
    || c == 0x3000

abbrev pub is_digit : ℕ → Bool
is_digit = between b'0' b'9'

abbrev pub is_hexdigit : ℕ → Bool
is_hexdigit c = is_digit c || between b'a' b'f' c || between b'A' b'F' c

abbrev pub is_alphanumeric : ℕ → Bool
is_alphanumeric c = is_digit c || between b'a' b'z' c || between b'A' b'Z' c

-- `s.trim().is_empty()`
abbrev pub is_blank : String → Bool
is_blank s = all is_whitespace (chars s)

-- `text_valid` of tasks.rs, and the closure `text` of assessment.rs and planner.rs.
unfoldable pub text_valid : String → ℕ → Bool
text_valid s limit = not (is_blank s) && leb (len s) limit && not (any is_control (chars s))

-- `s.len() == n && s.bytes().all(|b| b.is_ascii_hexdigit())`
unfoldable pub is_hex : ℕ → String → Bool
is_hex n s = (len s == n) && all is_hexdigit (chars s)

-- `trim`, on code points.
unfoldable pub trim_start : List ℕ → List ℕ
trim_start [] = []
trim_start (c ∷ s) = let rest = trim_start s in if is_whitespace c then rest else c ∷ s

unfoldable pub trim_end : List ℕ → List ℕ
trim_end [] = []
trim_end (c ∷ s) =
    let rest = trim_end s in if is_empty rest && is_whitespace c then [] else c ∷ rest

unfoldable pub trim : List ℕ → List ℕ
unfolding trim_start trim_end
trim s = trim_end (trim_start s)

unfoldable pub codes_eq : List ℕ → List ℕ → Bool
codes_eq [] [] = true
codes_eq (c ∷ s) (d ∷ t) = (c == d) && codes_eq s t
codes_eq _ _ = false

-- `starts_with` on code points.
unfoldable pub starts_with : List ℕ → List ℕ → Bool
starts_with s [] = true
starts_with [] (d ∷ t) = false
starts_with (c ∷ s) (d ∷ t) = (c == d) && starts_with s t

-- `split('/')`: never empty, the parts between the slashes.
split_on : ℕ → List ℕ → List ℕ → List (List ℕ)
split_on sep part [] = part ∷ []
split_on sep part (c ∷ s) =
    let rest = split_on sep (if c == sep then [] else part ++ c ∷ []) s in
    if c == sep then part ∷ rest else rest

unfoldable pub split : ℕ → List ℕ → List (List ℕ)
unfolding split_on
split sep s = split_on sep [] s

digit : ℕ → String
digit n =
    if n == 0
    then "0"
    else if n == 1
    then "1"
    else if n == 2
    then "2"
    else if n == 3
    then "3"
    else if n == 4
    then "4"
    else if n == 5
    then "5"
    else if n == 6
    then "6"
    else if n == 7
    then "7"
    else if n == 8
    then "8"
    else "9"

-- Decimal digits, the last one first; `fuel` bounds their number.
show_digits : ℕ → ℕ → String → String
unfolding digit
show_digits zero n text = text
show_digits (suc fuel) n text =
    let more = show_digits fuel (n / 10) (String.◌++◌ (digit (n % 10)) text) in
    if n / 10 == 0 then String.◌++◌ (digit n) text else more

-- `Display` of an unsigned integer. A `u64` has at most twenty digits.
unfoldable pub show : ℕ → String
unfolding show_digits
show n = show_digits 20 n ""

infixr 65 ◌+++◌
abbrev pub ◌+++◌ : String → String → String
s +++ t = String.◌++◌ s t

unfoldable pub String-discrete : Discrete String
String-discrete s t = dec_of (str_eq s t) (eq_iff s t)

test_show : show 1205 ≡ "1205"
unfolding show
test_show = refl

test_split : split b'/' (chars "a//b") ≡ chars "a" ∷ [] ∷ chars "b" ∷ []
unfolding split
test_split = refl

test_trim : trim (chars "  a b ") ≡ chars "a b"
unfolding trim
test_trim = refl

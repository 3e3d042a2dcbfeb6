-- ===== src/Text.antt =====
-- Python's text and bytes: a `str` is the list of its code points, a `bytes` the list of its bytes.
-- The comparisons, prefixes and character classes that the program writes, and UTF-8 as its
-- `.encode()` and `.decode("utf-8")` use it.
pub mod Utf8
pub mod Fails
use mathlib.Core.List.{reverse}
use Prim.Native.Char.{code}
use Prim.Native.String.{String}
use gardena_matter_mqtt_brid.Base.{
  ℕ, zero, suc, ◌+◌, ◌-◌, ◌*◌, ◌/◌, ◌%◌, ◌≡◌, refl, ◌↔◌, Bool, true, false, ◌&&◌, ◌||◌, Option,
  none, some, List, [], ◌∷◌, arith, ◌==◌, leb, ltb, if◌then◌else◌,
}

abbrev pub Str : Type 0
Str = List ℕ

-- A literal of the source. It stays shut, so that proofs see it as one constant.
unfoldable pub str : String → Str
str String.[] = []
str (String.◌∷◌ c s) = code c ∷ str s

-- `a == b` on texts, and on bytes.
unfoldable pub str_eq : Str → Str → Bool
str_eq [] [] = true
str_eq [] (b ∷ bs) = false
str_eq (a ∷ as') [] = false
str_eq (a ∷ as') (b ∷ bs) = (a == b) && str_eq as' bs

pub str_eq→eq : (a b : Str) → str_eq a b ≡ true → a ≡ b
unfolding str_eq
str_eq→eq [] [] h = refl
str_eq→eq [] (b ∷ bs) h = cc
str_eq→eq (a ∷ as') [] h = cc
str_eq→eq (a ∷ as') (b ∷ bs) h = ground (arith, str_eq→eq as' bs)

pub str_eq_refl : (a : Str) → str_eq a a ≡ true
unfolding str_eq
str_eq_refl [] = refl
str_eq_refl (a ∷ as') = ground (arith, str_eq_refl as')

pub str_eq_iff : (a b : Str) → (str_eq a b ≡ true) ↔ (a ≡ b)
str_eq_iff a b = (str_eq→eq a b, λ e. rw e (str_eq_refl b))

-- `a in texts`
unfoldable pub contains : List Str → Str → Bool
contains [] a = false
contains (t ∷ ts) a = str_eq t a || contains ts a

-- `text.startswith(prefix)`
unfoldable pub starts_with : Str → Str → Bool
starts_with s [] = true
starts_with [] (p ∷ ps) = false
starts_with (c ∷ s) (p ∷ ps) = (c == p) && starts_with s ps

-- `text.removeprefix(prefix)` of a text that starts so
unfoldable pub without_prefix : Str → Str → Option Str
without_prefix s [] = some s
without_prefix [] (p ∷ ps) = none
without_prefix (c ∷ s) (p ∷ ps) = if c == p then without_prefix s ps else none

-- `c in text`, `any(c in text for c in chars)`, and a class that every character has.
unfoldable pub has_char : Str → ℕ → Bool
has_char [] c = false
has_char (d ∷ s) c = (d == c) || has_char s c

unfoldable pub all_chars : (ℕ → Bool) → Str → Bool
all_chars p [] = true
all_chars p (c ∷ s) = p c && all_chars p s

unfoldable pub any_char : (ℕ → Bool) → Str → Bool
any_char p [] = false
any_char p (c ∷ s) = p c || any_char p s

-- The classes of the regular expressions.
unfoldable pub is_digit : ℕ → Bool
is_digit c = leb b'0' c && leb c b'9'

unfoldable pub is_lower : ℕ → Bool
is_lower c = leb b'a' c && leb c b'z'

unfoldable pub is_upper : ℕ → Bool
is_upper c = leb b'A' c && leb c b'Z'

unfoldable pub is_alnum : ℕ → Bool
unfolding is_digit is_lower is_upper
is_alnum c = is_digit c || (is_lower c || is_upper c)

unfoldable pub is_hex : ℕ → Bool
unfolding is_digit
is_hex c = is_digit c || (leb b'a' c && leb c b'f')

-- `text.split("/")`: one part more than there are slashes.
abbrev add_char : ℕ → List Str → List Str
add_char c [] = (c ∷ []) ∷ []
add_char c (p ∷ ps) = (c ∷ p) ∷ ps

unfoldable pub split_slash : Str → List Str
split_slash [] = [] ∷ []
split_slash (c ∷ s) = let rest = split_slash s in if c == b'/' then [] ∷ rest else add_char c rest

-- `str(n)` of a natural number, lowest digit first, and in reading order; `suc n` rounds are enough.
digits_up : ℕ → ℕ → Str
digits_up zero n = []
digits_up (suc fuel) n =
    let rest = digits_up fuel (n / 10) in
    if ltb n 10 then (b'0' + n) ∷ [] else (b'0' + n % 10) ∷ rest

unfoldable pub decimal : ℕ → Str
unfolding digits_up
decimal n = reverse (digits_up (suc n) n)

-- `base64.b64encode(data).decode()`
abbrev base64_char : ℕ → ℕ
base64_char n =
    if ltb n 26
    then b'A' + n
    else if ltb n 52
    then b'a' + (n - 26)
    else if ltb n 62
    then b'0' + (n - 52)
    else if n == 62
    then b'+'
    else b'/'

unfoldable pub base64 : List ℕ → Str
base64 [] = []
base64 (a ∷ []) = base64_char (a / 4) ∷ base64_char (a % 4 * 16) ∷ b'=' ∷ b'=' ∷ []
base64 (a ∷ b ∷ []) =
    base64_char (a / 4) ∷ base64_char (a % 4 * 16 + b / 16) ∷ base64_char (b % 16 * 4) ∷ b'=' ∷ []
base64 (a ∷ b ∷ c ∷ rest) =
    base64_char (a / 4)
    ∷ base64_char (a % 4 * 16 + b / 16)
    ∷ base64_char (b % 16 * 4 + c / 64)
    ∷ base64_char (c % 64)
    ∷ base64 rest

-- ===== src/Text.antt =====
-- What the program uses of Rust's `char` and `str`: a text is the list of its code points, and
-- `utf8` gives its bytes.
use zbus.Prelude.{
  ℕ, ◌+◌, ◌/◌, ◌%◌, ◌<◌, ◌≡◌, refl, Bool, ◌&&◌, ◌||◌, List, [], ◌∷◌, ◌++◌, arith, leb, ltb, ◌==◌,
  ==_refl, ==_iff, ◌↔◌, true, false, Option, none, some, ◌*◌, ◌-◌, if◌then◌else◌, All, length,
}
use Prim.Native.Char.{code}
use Prim.Native.String.{String}

abbrev pub codes : String → List ℕ
codes String.[] = []
codes (String.◌∷◌ c s) = code c ∷ codes s

abbrev pub IsByte : ℕ → Type 0
IsByte b = b < 256

abbrev pub IsAscii : ℕ → Type 0
IsAscii c = c < 128

abbrev pub between : ℕ → ℕ → ℕ → Bool
between lo hi c = leb lo c && leb c hi

abbrev pub is_ascii_digit : ℕ → Bool
is_ascii_digit c = between b'0' b'9' c

abbrev pub is_ascii_alphabetic : ℕ → Bool
is_ascii_alphabetic c = between b'A' b'Z' c || between b'a' b'z' c

abbrev pub is_ascii_alphanumeric : ℕ → Bool
is_ascii_alphanumeric c = is_ascii_digit c || is_ascii_alphabetic c

abbrev pub is_ascii_hexdigit : ℕ → Bool
is_ascii_hexdigit c = is_ascii_digit c || (between b'A' b'F' c || between b'a' b'f' c)

-- The UTF-8 encoding of one code point.
unfoldable pub utf8_char : ℕ → List ℕ
utf8_char c =
    if ltb c 0x80
    then c ∷ []
    else if ltb c 0x800
    then (0xc0 + c / 64) ∷ (0x80 + c % 64) ∷ []
    else if ltb c 0x1_0000
    then (0xe0 + c / 4096) ∷ (0x80 + c / 64 % 64) ∷ (0x80 + c % 64) ∷ []
    else (0xf0 + c / 262144) ∷ (0x80 + c / 4096 % 64) ∷ (0x80 + c / 64 % 64) ∷ (0x80 + c % 64) ∷ []

-- `str::as_bytes`
unfoldable pub utf8 : List ℕ → List ℕ
unfolding utf8_char
utf8 [] = []
utf8 (c ∷ cs) = utf8_char c ++ utf8 cs

-- `str::len`: the number of bytes
unfoldable pub str_len : List ℕ → ℕ
unfolding utf8
str_len s = length (utf8 s)

pub utf8_char_ascii : (c : ℕ) → IsAscii c → utf8_char c ≡ c ∷ []
unfolding utf8_char
utf8_char_ascii c h = ground arith

pub utf8-cons_ascii : (c : ℕ) (s : List ℕ) → IsAscii c → utf8 (c ∷ s) ≡ c ∷ utf8 s
unfolding utf8
utf8-cons_ascii c s h = rw (utf8_char_ascii c h)

pub utf8_ascii : (s : List ℕ) → All IsAscii s → utf8 s ≡ s
unfolding utf8
utf8_ascii [] h = refl
utf8_ascii (c ∷ cs) (hc, hcs) = ground (arith, utf8_char_ascii c hc, utf8_ascii cs hcs)

abbrev pub cons_first : ℕ → List (List ℕ) → List (List ℕ)
cons_first c [] = (c ∷ []) ∷ []
cons_first c (p ∷ ps) = (c ∷ p) ∷ ps

-- `str::split` at a character
unfoldable pub split : ℕ → List ℕ → List (List ℕ)
split sep [] = [] ∷ []
split sep (c ∷ s) = let rest = split sep s in if c == sep then [] ∷ rest else cons_first c rest

-- A text without the separator, before it or at the end.
pub split-separator :
    (sep : ℕ) (w s : List ℕ)
    → All (λ c. (c == sep) ≡ false) w
    → split sep (w ++ (sep ∷ s)) ≡ w ∷ split sep s
unfolding split
split-separator sep [] s h = rw (==_refl sep) refl
split-separator sep (c ∷ w) s (h, hs) = rw (split-separator sep w s hs, h) refl

pub split-last : (sep : ℕ) (w : List ℕ) → All (λ c. (c == sep) ≡ false) w → split sep w ≡ w ∷ []
unfolding split
split-last sep [] h = refl
split-last sep (c ∷ w) (h, hs) = rw (split-last sep w hs, h) refl

-- `==` of texts
abbrev pub eq_text : List ℕ → List ℕ → Bool
eq_text [] [] = true
eq_text [] (d ∷ ds) = false
eq_text (c ∷ cs) [] = false
eq_text (c ∷ cs) (d ∷ ds) = (c == d) && eq_text cs ds

pub eq_text_iff : (s t : List ℕ) → (eq_text s t ≡ true) ↔ (s ≡ t)
eq_text_iff [] [] = ((λ h. refl), λ h. refl)
eq_text_iff [] (d ∷ ds) = ((λ h. absurd (cc h)), λ h. absurd (cc h))
eq_text_iff (c ∷ cs) [] = ((λ h. absurd (cc h)), λ h. absurd (cc h))
eq_text_iff (c ∷ cs) (d ∷ ds) = grind (arith, ==_iff c d, eq_text_iff cs ds)

pub eq_text_refl : (k : List ℕ) → eq_text k k ≡ true
eq_text_refl k = (eq_text_iff k k).1 refl

-- `str::starts_with` a text
abbrev pub starts_with : List ℕ → List ℕ → Bool
starts_with [] s = true
starts_with (p ∷ ps) [] = false
starts_with (p ∷ ps) (c ∷ s) = (c == p) && starts_with ps s

-- The digits of `str::parse` of an unsigned integer, which is below a limit, after the number so
-- far.
unfoldable pub parse_digits : ℕ → ℕ → List ℕ → Option ℕ
parse_digits limit n [] = some n
parse_digits limit n (c ∷ s) = elim (is_ascii_digit c && ltb (n * 10 + (c - b'0')) limit) [
  | true ↦ parse_digits limit (n * 10 + (c - b'0')) s
  | false ↦ none
]

-- `str::parse` of an unsigned integer: an optional `+` and at least one digit.
unfoldable pub parse_uint : ℕ → List ℕ → Option ℕ
parse_uint limit [] = none
parse_uint limit (c ∷ []) = if is_ascii_digit c then some (c - b'0') else none
parse_uint limit (c ∷ d ∷ s) =
    if c == b'+' then parse_digits limit 0 (d ∷ s) else parse_digits limit 0 (c ∷ d ∷ s)

-- ===== src/MatchRule/Splitting.antt =====
-- A component in the text of a match rule of zbus/src/match_rule/mod.rs, found and read again.
use zbus.Prelude.{
  ℕ, suc, ◌+◌, ◌-◌, ◌≤◌, ◌≡◌, ◌≢◌, refl, ap, ◌∙◌, true, false, some, List, [], ◌∷◌, ◌++◌, ◌==◌, ltb,
  ge→ltb, length, take, All, length-append, take-append, arith, Bool-cases, inl, inr,
}
use zbus.Text.{str_len, utf8, utf8_char, utf8-cons_ascii}
use zbus.MatchRule.{MatchRule}
use zbus.MatchRule.Reading.{
  split_once, ends_with, unquoted, is_quoted, read_component, read_key, set,
}
use zbus.MatchRule.Decimal.{is_plain}

abbrev pub HasNoComma : List ℕ → Type 0
HasNoComma s = All (λ c. (c == b',') ≡ false) s

-- The characters of a key.
plain-parts :
    (c : ℕ) (key : List ℕ)
    → is_plain (c ∷ key) ≡ true
    → ((c == b',') ≡ false) × ((c == b'=') ≡ false) × (is_plain key ≡ true)
plain-parts c key h = elim (Bool-cases (c == b',')) [
  | inl t ↦ absurd (cc (rw t at h))
  | inr comma ↦ elim (Bool-cases (c == b'=')) [
    | inl t ↦ absurd (cc (rw (comma, t) at h))
    | inr equals ↦ (comma, equals, rw (comma, equals) at h)
  ]
]

pub plain-HasNoComma : (key : List ℕ) → is_plain key ≡ true → HasNoComma key
plain-HasNoComma [] h = tt
plain-HasNoComma (c ∷ key) h =
    let (comma, _, rest) = plain-parts c key h in (comma, plain-HasNoComma key rest)

pub split_once-key :
    (key s : List ℕ) → is_plain key ≡ true → split_once b'=' (key ++ (b'=' ∷ s)) ≡ some (key, s)
unfolding split_once
split_once-key [] s h = refl
split_once-key (c ∷ key) s h =
    let (_, equals, rest) = plain-parts c key h in rw (split_once-key key s rest, equals) refl

abbrev pub quoted : List ℕ → List ℕ
quoted value = b'\'' ∷ (value ++ (b'\'' ∷ []))

pub unquoted-quoted : (value : List ℕ) → unquoted (quoted value) ≡ value
unquoted-quoted value =
    let more : length (value ++ (b'\'' ∷ [])) ≡ length value + 1 =
      length-append value (b'\'' ∷ []) in
    let len : suc (length (value ++ (b'\'' ∷ []))) - 2 ≡ length value = omega arith in
    ap (λ n. take n (value ++ (b'\'' ∷ []))) len ∙ take-append value (b'\'' ∷ [])

ends_with-last : (c d : ℕ) (s : List ℕ) → ends_with c (d ∷ (s ++ (c ∷ []))) ≡ true
ends_with-last c d [] = ground arith
ends_with-last c d (e ∷ s) = ends_with-last c e s

utf8-filled : (s : List ℕ) (c : ℕ) → 1 ≤ length (utf8 (s ++ (c ∷ [])))
unfolding utf8 utf8_char
utf8-filled [] c = ground arith
utf8-filled (d ∷ s) c =
    let rest = utf8-filled s c in
    let sum = length-append (utf8_char d) (utf8 (s ++ (c ∷ []))) in omega arith

is_quoted-quoted : (value : List ℕ) → is_quoted (quoted value) ≡ true
unfolding str_len
is_quoted-quoted value =
    let filled = utf8-filled value b'\'' in
    let len : length (utf8 (quoted value)) ≡ suc (length (utf8 (value ++ (b'\'' ∷ [])))) =
      ap length (utf8-cons_ascii b'\'' (value ++ (b'\'' ∷ [])) (omega arith)) in
    let long : ltb (length (utf8 (quoted value))) 2 ≡ false =
      ge→ltb (length (utf8 (quoted value))) 2 (omega arith) in
    rw (long, ends_with-last b'\'' b'\'' value) refl

-- A key and its value, as they are written.
abbrev pub component : List ℕ × List ℕ → List ℕ
component (key, value) = key ++ (b'=' ∷ quoted value)

abbrev pub IsKey : List ℕ → Type 0
IsKey key = (key ≢ []) × (is_plain key ≡ true)

pub read_component-component :
    (key value : List ℕ) (rule : MatchRule)
    → IsKey key
    → read_component (component (key, value)) rule ≡ set (read_key key) value rule
unfolding read_component
read_component-component [] value rule (filled, plain) = absurd (filled refl)
read_component-component (c ∷ key) value rule (filled, plain) =
    rw
      (split_once-key (c ∷ key) (quoted value) plain, is_quoted-quoted value, unquoted-quoted value)
      refl

-- ===== src/Signature/Equality/Slices.antt =====
-- Slices of ASCII strings, as the equality of signatures with strings takes them
-- (zvariant_utils/src/signature/mod.rs).
use zbus.Prelude.{
  ℕ, zero, suc, ◌+◌, ◌-◌, ◌≤◌, ◌≡◌, ◌∙◌, ap, ap, refl, Option, none, Bool, true, false, some, List,
  [], ◌∷◌, ◌++◌, length, take, drop, get_elem?, All, arith, length-append, take-append, drop-append,
}
use zbus.Text.{IsAscii}
use zbus.Signature.Equality.{starts_char, str_slice, fields_str, equals, equals_fields}
use zbus.Signature.{Signature, Fields, string_len}

starts_char_ascii : (s : List ℕ) (i : ℕ) → All IsAscii s → starts_char (get_elem? s i) ≡ true
starts_char_ascii [] i h = refl
starts_char_ascii (c ∷ s) zero (h, hs) = ground arith
starts_char_ascii (c ∷ s) (suc i) (h, hs) = starts_char_ascii s i hs

pub str_slice_ascii :
    (start end : ℕ) (s : List ℕ)
    → All IsAscii s
    → start ≤ end
    → end ≤ length s
    → str_slice start end s ≡ some (take (end - start) (drop start s))
unfolding str_slice
str_slice_ascii start end s ascii ordered inside =
    ground (arith, starts_char_ascii s start ascii, starts_char_ascii s end ascii)

pub take-IsAscii : (n : ℕ) (s : List ℕ) → All IsAscii s → All IsAscii (take n s)
take-IsAscii zero s h = tt
take-IsAscii (suc n) [] h = tt
take-IsAscii (suc n) (c ∷ s) (h, hs) = (h, take-IsAscii n s hs)

pub drop-IsAscii : (n : ℕ) (s : List ℕ) → All IsAscii s → All IsAscii (drop n s)
drop-IsAscii zero s h = h
drop-IsAscii (suc n) [] h = tt
drop-IsAscii (suc n) (c ∷ s) (h, hs) = drop-IsAscii n s hs

-- The middle one of three parts.
pub str_slice-append :
    (before part after : List ℕ)
    → All IsAscii (before ++ (part ++ after))
    → str_slice (length before) (length before + length part) (before ++ (part ++ after))
      ≡ some part
str_slice-append before part after ascii =
    let whole = length-append before (part ++ after) in
    let rest = length-append part after in
    let size : (length before + length part) - length before ≡ length part = omega arith in
    str_slice_ascii (length before) (length before + length part) (before ++ (part ++ after)) ascii
      (omega arith) (omega arith)
    ∙ rw (size, drop-append before (part ++ after), take-append part after) refl

take_all : (s : List ℕ) → take (length s) s ≡ s
take_all [] = refl
take_all (c ∷ s) = ap (λ t. c ∷ t) (take_all s)

-- All but the first character.
pub str_slice-tail :
    (c : ℕ) (s : List ℕ) → All IsAscii (c ∷ s) → str_slice 1 (length (c ∷ s)) (c ∷ s) ≡ some s
str_slice-tail c s ascii =
    let size : length (c ∷ s) - 1 ≡ length s = omega arith in
    str_slice_ascii 1 (length (c ∷ s)) (c ∷ s) ascii (omega arith) (omega arith)
    ∙ rw (size, take_all s) refl

-- The first one of two parts.
pub str_slice-first :
    (part after : List ℕ)
    → All IsAscii (part ++ after)
    → str_slice 0 (length part) (part ++ after) ≡ some part
str_slice-first part after ascii =
    let size : length part - 0 ≡ length part = omega arith in
    str_slice_ascii 0 (length part) (part ++ after) ascii (omega arith)
      (omega (arith, length-append part after))
    ∙ rw (size, take-append part after) refl

-- The comparison with a structure goes by the string of its fields.
pub equals-structure :
    (fs : Fields) (other : List ℕ) (o : Option (Option (List ℕ)))
    → fields_str (string_len (Signature.structure fs)) other ≡ o
    → equals (Signature.structure fs) other ≡ elim o as (λ x. Option Bool) [
      | none ↦ none
      | some none ↦ some false
      | some (some s) ↦ equals_fields fs s 0
    ]
unfolding equals
equals-structure fs other o inner =
    ap
      (λ r. elim r as (λ x. Option Bool) [
        | none ↦ none
        | some none ↦ some false
        | some (some s) ↦ equals_fields fs s 0
      ])
      inner

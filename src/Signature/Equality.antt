-- ===== src/Signature/Equality.antt =====
-- The equality and the order of signatures, and their equality with strings:
-- zvariant_utils/src/signature/mod.rs. A string is its bytes.
pub mod Slices
pub mod Shown
pub mod Safe
pub mod Order
use zbus.Prelude.{
  ℕ, ◌+◌, ◌-◌, Bool, true, false, not, ◌&&◌, ◌||◌, Option, none, some, List, [], ◌∷◌, ltb, leb,
  ◌==◌, if◌then◌else◌, length, take, drop, get_elem?,
}
use Prim.Native.Nat.{Ordering}
use zbus.Text.{codes, eq_text, between, starts_with}
use zbus.Signature.{Signature, Fields, no_fields, field, string_len}

-- `PartialEq` of signatures.
unfoldable mutual
  pub same : Signature → Signature → Bool
  same Signature.unit Signature.unit = true
  same Signature.u8 Signature.u8 = true
  same Signature.bool Signature.bool = true
  same Signature.i16 Signature.i16 = true
  same Signature.u16 Signature.u16 = true
  same Signature.i32 Signature.i32 = true
  same Signature.u32 Signature.u32 = true
  same Signature.i64 Signature.i64 = true
  same Signature.u64 Signature.u64 = true
  same Signature.f64 Signature.f64 = true
  same Signature.str Signature.str = true
  same Signature.signature Signature.signature = true
  same Signature.object_path Signature.object_path = true
  same Signature.variant Signature.variant = true
  same Signature.fd Signature.fd = true
  same (Signature.array a) (Signature.array b) = same a b
  same (Signature.dict key_a value_a) (Signature.dict key_b value_b) =
      same key_a key_b && same value_a value_b
  same (Signature.structure a) (Signature.structure b) = all_same a b
  same (Signature.maybe a) (Signature.maybe b) = same a b
  same a b = false

  pub all_same : Fields → Fields → Bool
  all_same no_fields no_fields = true
  all_same (field a fs) (field b gs) = same a b && all_same fs gs
  all_same fs gs = false

abbrev pub then_with : Ordering → Ordering → Ordering
then_with Ordering.lt other = Ordering.lt
then_with Ordering.eq other = other
then_with Ordering.gt other = Ordering.gt

-- `Ord::cmp`, whose arms for the simple types say the same as the last one.
unfoldable mutual
  pub cmp : Signature → Signature → Ordering
  cmp (Signature.array a) (Signature.array b) = cmp a b
  cmp (Signature.dict key_a value_a) (Signature.dict key_b value_b) =
      then_with (cmp key_a key_b) (cmp value_a value_b)
  cmp (Signature.structure a) (Signature.structure b) = cmp_fields a b
  cmp (Signature.maybe a) (Signature.maybe b) = cmp a b
  cmp a b = Ordering.eq

  -- `Iterator::cmp`
  pub cmp_fields : Fields → Fields → Ordering
  cmp_fields no_fields no_fields = Ordering.eq
  cmp_fields no_fields (field b gs) = Ordering.lt
  cmp_fields (field a fs) no_fields = Ordering.gt
  cmp_fields (field a fs) (field b gs) = then_with (cmp a b) (cmp_fields fs gs)

-- `is_char_boundary`: not before a continuation byte.
abbrev pub starts_char : Option ℕ → Bool
starts_char none = true
starts_char (some b) = not (between 0x80 0xbf b)

-- `&s[start..end]`, which panics out of range or inside a character.
unfoldable pub str_slice : ℕ → ℕ → List ℕ → Option (List ℕ)
str_slice start end s =
    if leb start end
      && (leb end (length s) && (starts_char (get_elem? s start) && starts_char (get_elem? s end)))
    then some (take (end - start) (drop start s))
    else none

abbrev pub ends_with_brace : List ℕ → Bool
ends_with_brace s = eq_text (drop (length s - 1) s) (codes "}")

-- The string of the fields, without the outer parentheses, if there are any.
unfoldable pub fields_str : ℕ → List ℕ → Option (Option (List ℕ))
fields_str string_len other =
    if ltb string_len (length other)
      || (not (string_len == length other) && not (string_len == length other + 2))
    then some none
    else if string_len == length other
    then elim (str_slice 1 (length other - 1) other) [ none ↦ none | some s ↦ some (some s) ]
    else if length other == 0
    then some none
    else some (some other)

-- `PartialEq<&str>`; `none` is a panic.
unfoldable mutual
  pub equals : Signature → List ℕ → Option Bool
  equals Signature.unit other = some (length other == 0)
  equals Signature.bool other = some (eq_text other (codes "b"))
  equals Signature.u8 other = some (eq_text other (codes "y"))
  equals Signature.i16 other = some (eq_text other (codes "n"))
  equals Signature.u16 other = some (eq_text other (codes "q"))
  equals Signature.i32 other = some (eq_text other (codes "i"))
  equals Signature.u32 other = some (eq_text other (codes "u"))
  equals Signature.i64 other = some (eq_text other (codes "x"))
  equals Signature.u64 other = some (eq_text other (codes "t"))
  equals Signature.f64 other = some (eq_text other (codes "d"))
  equals Signature.str other = some (eq_text other (codes "s"))
  equals Signature.signature other = some (eq_text other (codes "g"))
  equals Signature.object_path other = some (eq_text other (codes "o"))
  equals Signature.variant other = some (eq_text other (codes "v"))
  equals Signature.fd other = some (eq_text other (codes "h"))
  equals (Signature.array child) other =
      if ltb (length other) 2 || not (starts_with (codes "a") other)
      then some false
      else elim (str_slice 1 (length other) other) [ none ↦ none | some s ↦ equals child s ]
  equals (Signature.dict key value) other =
      if ltb (length other) 4
        || (not (starts_with (codes "a{") other) || not (ends_with_brace other))
      then some false
      else elim (str_slice 2 (length other - 1) other) [
        | none ↦ none
        | some s ↦ elim (str_slice 0 1 s) [
          | none ↦ none
          | some key_str ↦ elim (equals key key_str) [
            | none ↦ none
            | some false ↦ some false
            | some true ↦ equals value (drop 1 s)
          ]
        ]
      ]
  equals (Signature.structure fields) other =
      elim (fields_str (string_len (Signature.structure fields)) other) [
        | none ↦ none
        | some none ↦ some false
        | some (some s) ↦ equals_fields fields s 0
      ]
  equals (Signature.maybe child) other =
      if ltb (length other) 2 || not (starts_with (codes "m") other)
      then some false
      else elim (str_slice 1 (length other) other) [ none ↦ none | some s ↦ equals child s ]

  -- The loop over the fields.
  pub equals_fields : Fields → List ℕ → ℕ → Option Bool
  equals_fields no_fields s start = some true
  equals_fields (field sig sigs) s start =
      if ltb (length s) (start + string_len sig)
      then some false
      else elim (str_slice start (start + string_len sig) s) [
        | none ↦ none
        | some part ↦ elim (equals sig part) [
          | none ↦ none
          | some false ↦ some false
          | some true ↦ equals_fields sigs s (start + string_len sig)
        ]
      ]

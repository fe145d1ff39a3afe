-- ===== src/Signature/Layout.antt =====
-- Lengths and alignments of signatures (zvariant_utils/src/signature/mod.rs).
use Prim.Native.Nat.{max}
use zbus.Prelude.{ℕ, ◌+◌, ◌≡◌, refl, ◌⊎◌, inl, true, some, List, ◌++◌, length, length-append, arith}
use zbus.Signature.{
  Signature, Fields, u8, unit, array, dict, structure, maybe, no_fields, field, string_len,
  string_len_fields, write_as_string, write_fields, alignment_dbus, alignment_gvariant,
  alignment_fields,
}

length-append_bytes : (xs ys : List ℕ) → length (xs ++ ys) ≡ length xs + length ys
length-append_bytes = length-append

ruleset lengths = (arith, length-append_bytes)

mutual
  unfolding string_len write_as_string

  pub string_len-length : (s : Signature) → string_len s ≡ length (write_as_string s true)
  string_len-length unit = refl
  string_len-length (array child) = omega (arith, string_len-length child)
  string_len-length (maybe child) = omega (arith, string_len-length child)
  string_len-length (dict key value) =
      omega (lengths, string_len-length key, string_len-length value)
  string_len-length (structure fields) = omega (lengths, string_len_fields-length fields)
  string_len-length _ = refl

  pub string_len_fields-length : (fs : Fields) → string_len_fields fs ≡ length (write_fields fs)
  string_len_fields-length no_fields = refl
  string_len_fields-length (field s fs) =
      omega (lengths, string_len-length s, string_len_fields-length fs)

abbrev pub IsAlignment : ℕ → Type 0
IsAlignment a = (a ≡ 1) ⊎ ((a ≡ 2) ⊎ ((a ≡ 4) ⊎ (a ≡ 8)))

pub alignment_dbus-IsAlignment : (s : Signature) (a : ℕ) → alignment_dbus s ≡ some a → IsAlignment a
unfolding alignment_dbus
alignment_dbus-IsAlignment s a h = ground arith

max-IsAlignment : (a b : ℕ) → IsAlignment a → IsAlignment b → IsAlignment (max a b)
max-IsAlignment a b ha hb = ground arith

mutual
  unfolding alignment_gvariant

  alignment_gvariant_cases : (s : Signature) → IsAlignment (alignment_gvariant s)
  alignment_gvariant_cases (array child) = alignment_gvariant_cases child
  alignment_gvariant_cases (maybe child) = alignment_gvariant_cases child
  alignment_gvariant_cases (dict key value) =
      max-IsAlignment _ _ (alignment_gvariant_cases key) (alignment_gvariant_cases value)
  alignment_gvariant_cases (structure fields) = alignment_fields_cases fields
  alignment_gvariant_cases u8 = inl refl
  alignment_gvariant_cases _ = ground arith

  alignment_fields_cases : (fs : Fields) → IsAlignment (alignment_fields fs)
  alignment_fields_cases no_fields = inl refl
  alignment_fields_cases (field s no_fields) = alignment_gvariant_cases s
  alignment_fields_cases (field s (field t fs)) =
      max-IsAlignment _ _ (alignment_gvariant_cases s) (alignment_fields_cases (field t fs))

pub alignment_gvariant-IsAlignment : (s : Signature) → IsAlignment (alignment_gvariant s)
alignment_gvariant-IsAlignment = alignment_gvariant_cases

-- ===== src/Signature/Runs.antt =====
-- The signature parser on concrete texts, and its theorems at concrete inputs
-- (zvariant_utils/src/signature/mod.rs and signature/tests.rs).
use zbus.Prelude.{◌≡◌, refl, ◌↔◌, false, true, none, some, Bool, [], ◌∷◌, arith}
use zbus.Text.{codes}
use Prim.Native.Nat.{Ordering}
use zbus.Signature.Equality.{same, cmp, equals, str_slice, fields_str}
use zbus.Signature.Equality.Shown.{HasShortKeys, equals-display}
use zbus.Signature.Equality.Safe.{equals-gives}
use zbus.Signature.Equality.Order.{HasNoStructure, cmp-HasNoStructure}
use zbus.Signature.{
  string_len, to_string_no_parens, Signature, no_fields, field, u8, str, variant, dict, structure,
  IsComplete, display, write_as_string,
}
use zbus.Signature.Nom.Reference.{reference}
use zbus.Signature.Parser.{parse, validate}
use zbus.Signature.Parser.TopLevel.{IsTopLevel, parse-eq-some_iff}
use zbus.Signature.Parser.CheckOnly.{validate_iff}

abbrev entries : Signature
entries = dict str variant

-- (ya{sv})
abbrev nested : Signature
nested = structure (field u8 (field entries no_fields))

parse-nested : parse reference (codes "(ya{sv})") false ≡ some nested
unfolding parse reference
parse-nested = refl

parse_sequence : parse reference (codes "ya{sv}") false ≡ some nested
unfolding parse reference
parse_sequence = refl

parse_empty_structure : parse reference (codes "()") false ≡ none
unfolding parse reference
parse_empty_structure = refl

validate_lone_entry : validate reference (codes "a{y}") ≡ none
unfolding validate reference
validate_lone_entry = refl

nested-IsComplete : IsComplete nested
unfolding IsComplete
nested-IsComplete = (tt, ((tt, tt), tt))

parse-eq-some_iff_example :
    (parse reference (codes "ya{sv}") false ≡ some nested) ↔ IsTopLevel (codes "ya{sv}") nested
parse-eq-some_iff_example = parse-eq-some_iff reference (codes "ya{sv}") nested

validate_iff_example :
    (validate reference (codes "a{y}") ≡ some tt)
    ↔ ((x : Signature) × (parse reference (codes "a{y}") false ≡ some x))
validate_iff_example = validate_iff reference (codes "a{y}")

nested-HasShortKeys : HasShortKeys nested
unfolding HasShortKeys write_as_string
nested-HasShortKeys = (tt, ((refl, tt, tt), tt))

equals-display_example :
    (equals nested (display nested) ≡ some true)
    × (equals nested (to_string_no_parens nested) ≡ some true)
equals-display_example = equals-display nested nested-IsComplete nested-HasShortKeys

equals-gives_example : (b : Bool) × (equals entries (codes "a{sv}") ≡ some b)
equals-gives_example =
    equals-gives entries (codes "a{sv}")
      (omega arith, (omega arith, (omega arith, (omega arith, (omega arith, tt)))))

-- A character that a slice cuts.
equals_cut : equals entries (b'a' ∷ b'{' ∷ 0xc3 ∷ 0xa9 ∷ b'}' ∷ []) ≡ none
unfolding equals str_slice
equals_cut = refl

-- The outer characters of a structure are not looked at.
equals_outer : equals (structure (field u8 (field u8 no_fields))) (codes "xyyx") ≡ some true
unfolding equals str_slice fields_str string_len
equals_outer = refl

entries-HasNoStructure : HasNoStructure entries
unfolding HasNoStructure
entries-HasNoStructure = (tt, tt)

cmp-HasNoStructure_example :
    (cmp entries (dict str u8) ≡ Ordering.eq)
    × (cmp (structure (field u8 no_fields)) nested ≡ Ordering.lt)
unfolding HasNoStructure
cmp-HasNoStructure_example =
    cmp-HasNoStructure entries (dict str u8) (field u8 no_fields)
      (field u8 (field entries no_fields)) entries-HasNoStructure (tt, tt)

entries_differ : same entries (dict str u8) ≡ false
unfolding same
entries_differ = refl

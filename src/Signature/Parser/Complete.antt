-- ===== src/Signature/Parser/Complete.antt =====
-- The signature parser reads back the text of every complete signature
-- (zvariant_utils/src/signature/mod.rs).
use zbus.Prelude.{
  ℕ, zero, suc, ◌+◌, ◌≤◌, ◌≡◌, refl, ◌∙◌, Bool, false, none, some, List, [], ◌∷◌, ◌++◌,
  append_assoc, length, length-append, arith,
}
use zbus.Signature.{
  Signature, Fields, no_fields, field, u8, array, dict, maybe, write_as_string, write_fields,
  display, IsComplete, AllComplete,
}
use zbus.Signature.Nom.{Nom}
use zbus.Signature.Parser.{simple_types, parse_signature}
use zbus.Signature.Parser.Forms.{
  ReadsBack, AllReadBack, display_head, array_type-some, maybe_type-some, dict_type-some,
  array_type-none, maybe_type-none, structure_type-none, dict_type-none, dict_type_array,
  dict_type_nil, array_type_nil, maybe_type_nil, structure_type_nil, structure-ReadBack,
}
use zbus.Signature.Parser.Steps.{
  lookup_byte, simple_type_nil, simple_type_cons, parse_signature-suc,
}

length-append_bytes : (xs ys : List ℕ) → length (xs ++ ys) ≡ length xs + length ys
length-append_bytes = length-append

ruleset lengths = (arith, length-append_bytes)

module _ (nom : Nom) where
  -- No signature begins with a closing parenthesis or brace.
  pub parse_signature_paren :
      (fuel : ℕ) (check_only : Bool) (r : List ℕ)
      → parse_signature nom fuel check_only (b')' ∷ r) ≡ none
  parse_signature_paren zero check_only r = unfold parse_signature in refl
  parse_signature_paren (suc fuel) check_only r =
      let p = parse_signature nom fuel check_only in
      parse_signature-suc nom fuel check_only _
      ∙ rw (simple_type_cons nom b')' r, dict_type-none nom p check_only b')' r refl)
          (rw
            (
              array_type-none nom p check_only b')' r refl,
              structure_type-none nom p check_only b')' r refl,
            )
            (maybe_type-none nom p check_only b')' r refl))

  pub parse_signature_nil :
      (fuel : ℕ) (check_only : Bool) → parse_signature nom fuel check_only [] ≡ none
  parse_signature_nil zero check_only = unfold parse_signature in refl
  parse_signature_nil (suc fuel) check_only =
      let p = parse_signature nom fuel check_only in
      parse_signature-suc nom fuel check_only []
      ∙ rw (simple_type_nil nom, dict_type_nil nom p check_only)
          (rw (array_type_nil nom p check_only, structure_type_nil nom p check_only)
            (maybe_type_nil nom p check_only))

  simple-ReadBack :
      (fuel c : ℕ) (x : Signature)
      → lookup_byte c simple_types ≡ some x
      → (r : List ℕ) → parse_signature nom (suc fuel) false (c ∷ r) ≡ some (r, x)
  simple-ReadBack fuel c x e r =
      parse_signature-suc nom fuel false _ ∙ rw (simple_type_cons nom c r, e)

  module _ (fuel : ℕ) where
    array-ReadBack :
        (x : Signature)
        → IsComplete x
        → ReadsBack (parse_signature nom fuel false) x
        → ReadsBack (parse_signature nom (suc fuel) false) (array x)
    unfolding write_as_string
    array-ReadBack x h back r =
        let p = parse_signature nom fuel false in
        let (c, t, text, other) = display_head x h in
        parse_signature-suc nom fuel false _
        ∙ rw (simple_type_cons nom b'a' (display x ++ r), array_type-some nom p _ r x (back r))
            (rw text (rw (dict_type_array nom p false c (t ++ r) other)))

    maybe-ReadBack :
        (x : Signature)
        → IsComplete x
        → ReadsBack (parse_signature nom fuel false) x
        → ReadsBack (parse_signature nom (suc fuel) false) (maybe x)
    unfolding write_as_string
    maybe-ReadBack x h back r =
        let p = parse_signature nom fuel false in
        let s = display x ++ r in
        parse_signature-suc nom fuel false _
        ∙ rw (simple_type_cons nom b'm' s, dict_type-none nom p false b'm' s refl)
            (rw
              (array_type-none nom p false b'm' s refl, structure_type-none nom p false b'm' s refl)
              (maybe_type-some nom p _ r x (back r)))

    dict-ReadBack :
        (x y : Signature)
        → ReadsBack (parse_signature nom fuel false) x
        → ReadsBack (parse_signature nom fuel false) y
        → ReadsBack (parse_signature nom (suc fuel) false) (dict x y)
    unfolding write_as_string
    dict-ReadBack x y bx by r =
        let p = parse_signature nom fuel false in
        let rest = display y ++ b'}' ∷ r in
        let text : (display x ++ (display y ++ b'}' ∷ [])) ++ r ≡ display x ++ rest =
          simp append_assoc in
        rw text (
          parse_signature-suc nom fuel false _
          ∙ rw (simple_type_cons nom b'a' (b'{' ∷ (display x ++ rest)))
              (rw (dict_type-some nom p _ rest r x y (bx rest) (by (b'}' ∷ r)))))

    fields-ReadBack :
        (x : Signature) (fs : Fields)
        → IsComplete x
        → AllComplete fs
        → AllReadBack (parse_signature nom fuel false) (field x fs)
        → ReadsBack (parse_signature nom (suc fuel) false) (Signature.structure (field x fs))
    fields-ReadBack x fs hx hfs back r =
        let p = parse_signature nom fuel false in
        let s = write_fields (field x fs) ++ b')' ∷ r in
        let text : display (Signature.structure (field x fs)) ++ r ≡ b'(' ∷ s =
          unfold write_as_string in simp append_assoc in
        rw text (
          parse_signature-suc nom fuel false _
          ∙ rw (simple_type_cons nom b'(' s, dict_type-none nom p false b'(' s refl)
              (rw (array_type-none nom p false b'(' s refl) (
                rw (
                  structure-ReadBack nom p x fs hx hfs back (parse_signature_paren fuel false) r))))

-- Fuel of the length of the text is enough, at every level of nesting.
mutual
  unfolding write_as_string IsComplete

  pub signature-ReadBack :
      (nom : Nom) (x : Signature) (fuel : ℕ)
      → IsComplete x
      → length (display x) ≤ fuel
      → ReadsBack (parse_signature nom fuel false) x
  signature-ReadBack nom Signature.unit fuel h enough r = absurd h
  signature-ReadBack nom (array x) zero h enough r = absurd (omega arith)
  signature-ReadBack nom (array x) (suc fuel) h enough r =
      array-ReadBack nom fuel x h (signature-ReadBack nom x fuel h (omega arith)) r
  signature-ReadBack nom (maybe x) zero h enough r = absurd (omega arith)
  signature-ReadBack nom (maybe x) (suc fuel) h enough r =
      maybe-ReadBack nom fuel x h (signature-ReadBack nom x fuel h (omega arith)) r
  signature-ReadBack nom (dict x y) zero h enough r = absurd (omega arith)
  signature-ReadBack nom (dict x y) (suc fuel) h enough r =
      dict-ReadBack nom fuel x y (signature-ReadBack nom x fuel h.0 (omega lengths))
        (signature-ReadBack nom y fuel h.1 (omega lengths)) r
  signature-ReadBack nom (Signature.structure fs) zero h enough r = absurd (omega arith)
  signature-ReadBack nom (Signature.structure no_fields) (suc fuel) h enough r = absurd h
  signature-ReadBack nom (Signature.structure (field x fs)) (suc fuel) h enough r =
      fields-ReadBack nom fuel x fs h.0 h.1 (all-ReadBack nom (field x fs) fuel h (omega lengths)) r
  signature-ReadBack nom u8 zero h enough r = absurd (omega arith)
  signature-ReadBack nom u8 (suc fuel) h enough r = simple-ReadBack nom fuel _ _ refl r
  signature-ReadBack nom _ zero h enough r = absurd (omega arith)
  signature-ReadBack nom _ (suc fuel) h enough r = simple-ReadBack nom fuel _ _ refl r

  pub all-ReadBack :
      (nom : Nom) (fs : Fields) (fuel : ℕ)
      → AllComplete fs
      → length (write_fields fs) ≤ fuel
      → AllReadBack (parse_signature nom fuel false) fs
  all-ReadBack nom no_fields fuel h enough = tt
  all-ReadBack nom (field x fs) fuel h enough = (
    signature-ReadBack nom x fuel h.0 (omega lengths),
    all-ReadBack nom fs fuel h.1 (omega lengths),
  )

-- `parse_signature` reads every complete signature back from its text, whatever follows.
pub parse_signature-display :
    (nom : Nom) (x : Signature) (fuel : ℕ)
    → IsComplete x
    → length (display x) ≤ fuel
    → (r : List ℕ) → parse_signature nom fuel false (display x ++ r) ≡ some (r, x)
parse_signature-display = signature-ReadBack

-- ===== src/Signature/Parser/TopLevel.antt =====
-- `parse` accepts exactly the texts of signatures (zvariant_utils/src/signature/mod.rs).
use zbus.Prelude.{
  ℕ, ◌+◌, ◌<◌, ◌≡◌, refl, ap, sym, ◌∙◌, ◌↔◌, Bool, true, false, Option, none, some, List, [], ◌∷◌,
  ◌++◌, append-nil, length, arith,
}
use zbus.Signature.{
  Signature, Fields, no_fields, field, write_as_string, write_fields, display, to_string_no_parens,
  IsComplete, AllComplete,
}
use zbus.Signature.Nom.{Nom, Parser, and_then}
use zbus.Signature.Parser.{SignatureList, add_signature, from_list, many, parse_signature, parse}
use zbus.Signature.Parser.Fold.{fold_fields, fold_fields-top}
use zbus.Signature.Parser.Forms.{AllReadBack, fold-ReadBack}
use zbus.Signature.Parser.Sound.{display-length, many-Sound, parse_signature-Sound}
use zbus.Signature.Parser.Complete.{all-ReadBack, parse_signature_nil}

-- The texts that `parse` takes, with their signatures: no text at all, one complete signature,
-- or two and more in a row, which stand for a structure without its parentheses.
pub data IsTopLevel (bytes : List ℕ) (x : Signature) : Type 0 where
  empty : bytes ≡ [] → x ≡ Signature.unit → IsTopLevel bytes x
  single : IsComplete x → bytes ≡ display x → IsTopLevel bytes x
  sequence :
      (s t : Signature) (fs : Fields)
      → IsComplete x
      → x ≡ Signature.structure (field s (field t fs))
      → bytes ≡ to_string_no_parens x
      → IsTopLevel bytes x

-- What is left of the input when the first type has been read.
abbrev pub finished : List ℕ × Signature → Option Signature
finished ([], x) = some x
finished (_ ∷ _, x) = none

finish_lem :
    (o : Option (List ℕ × Signature))
    → and_then
        (and_then {B = List ℕ × Signature} o (λ x. elim x.0 [ [] ↦ some ([], x.1) | _ ∷ _ ↦ none ]))
        (λ x. some x.1)
      ≡ and_then o finished
finish_lem none = refl
finish_lem (some ([], x)) = refl
finish_lem (some (_ ∷ _, x)) = refl

finished-eq-some :
    (o : Option (List ℕ × Signature)) (x : Signature)
    → and_then o finished ≡ some x
    → o ≡ some ([], x)
finished-eq-some none x h = cc
finished-eq-some (some ([], y)) x h = ap (λ t. some ([], t)) (cc h)
finished-eq-some (some (_ ∷ _, y)) x h = cc

fields_pos :
    (bytes : List ℕ) (y : Signature) (fs : Fields)
    → IsComplete y
    → bytes ≡ write_fields (field y fs)
    → 0 < length bytes
unfolding write_as_string
fields_pos bytes y fs h text = omega (arith, display-length (write_fields fs) y text h)

module _ (nom : Nom) where
  pub parse_nil : (check_only : Bool) → parse nom [] check_only ≡ some Signature.unit
  unfolding parse
  parse_nil check_only =
      rw (nom.all_consuming_lem _ [], nom.alt_more _ _ _ [], nom.map_lem nom.eof _ [], nom.eof_nil)

  pub parse_cons :
      (c : ℕ) (s : List ℕ) (check_only : Bool)
      → let p = parse_signature nom (length (c ∷ s) + 1) check_only in
        parse nom (c ∷ s) check_only ≡ and_then (many nom p check_only true (c ∷ s)) finished
  unfolding parse
  parse_cons c s check_only =
      rw
        (
          nom.all_consuming_lem _ (c ∷ s),
          nom.alt_more _ _ _ (c ∷ s),
          nom.map_lem nom.eof _ (c ∷ s),
          nom.eof_cons c s,
        )
        (rw (nom.alt_last _ (c ∷ s)) (finish_lem _))

  -- One signature stands for itself, and several for a structure.
  from_list-fold :
      (bytes : List ℕ) (y : Signature) (fs : Fields) (x : Signature)
      → IsComplete y
      → AllComplete fs
      → bytes ≡ write_fields (field y fs) ++ []
      → x ≡ from_list (fold_fields true SignatureList.unit (field y fs))
      → IsTopLevel bytes x
  unfolding write_as_string IsComplete to_string_no_parens from_list fold_fields add_signature
  from_list-fold bytes y no_fields x hy hfs text e =
      single (rw e hy) (text ∙ rw (append-nil, append-nil, e))
  from_list-fold bytes y (field z fs) x hy hfs text e =
      let made = e ∙ ap from_list (fold_fields-top y z fs) in
      sequence y z fs (rw made (hy, hfs)) made (text ∙ rw made)

  pub parse_sound :
      (bytes : List ℕ) (x : Signature) → parse nom bytes false ≡ some x → IsTopLevel bytes x
  parse_sound [] x h = empty refl (cc (parse_nil false))
  parse_sound (c ∷ s) x h =
      let fuel = length (c ∷ s) + 1 in
      let run = finished-eq-some _ x (sym (parse_cons c s false) ∙ h) in
      let (y, fs, hy, hfs, text, e) =
        many-Sound nom (parse_signature nom fuel false) (parse_signature-Sound nom fuel) true
          (c ∷ s) [] x run in
      from_list-fold (c ∷ s) y fs x hy hfs text e

  many-ReadBack :
      (p : Parser Signature) (bytes : List ℕ) (y : Signature) (fs : Fields)
      → IsComplete y
      → AllComplete fs
      → AllReadBack p (field y fs)
      → p [] ≡ none
      → bytes ≡ write_fields (field y fs)
      → many nom p false true bytes
        ≡ some ([], from_list (fold_fields true SignatureList.unit (field y fs)))
  unfolding many
  many-ReadBack p bytes y fs hy hfs back stop text = rw (text ∙ sym (append-nil _)) (
      nom.map_lem _ _ _ ∙ rw (fold-ReadBack nom p true SignatureList.unit y fs [] hy hfs back stop))

  parse-fields :
      (bytes : List ℕ) (y : Signature) (fs : Fields)
      → IsComplete y
      → AllComplete fs
      → bytes ≡ write_fields (field y fs)
      → parse nom bytes false ≡ some (from_list (fold_fields true SignatureList.unit (field y fs)))
  parse-fields [] y fs hy hfs text = absurd (omega (arith, fields_pos [] y fs hy text))
  parse-fields (c ∷ s) y fs hy hfs text =
      let fuel = length (c ∷ s) + 1 in
      let both : AllComplete (field y fs) = unfold IsComplete in (hy, hfs) in
      let back = all-ReadBack nom (field y fs) fuel both (omega (arith, ap length text)) in
      parse_cons c s false
      ∙ rw (
          many-ReadBack (parse_signature nom fuel false) (c ∷ s) y fs hy hfs back
            (parse_signature_nil nom fuel false) text)

  pub parse_complete :
      (bytes : List ℕ) (x : Signature) → IsTopLevel bytes x → parse nom bytes false ≡ some x
  unfolding write_as_string IsComplete to_string_no_parens from_list fold_fields add_signature
  parse_complete bytes x (empty none_left e) = rw (none_left, e) (parse_nil false)
  parse_complete bytes x (single h e) =
      parse-fields bytes x no_fields h tt (e ∙ sym (append-nil (display x)))
  parse_complete bytes x (sequence s t fs h made e) =
      let both : IsComplete s × AllComplete (field t fs) = rw made at h in
      parse-fields bytes s (field t fs) both.0 both.1 (e ∙ rw (made, append-nil))
      ∙ ap (λ l. some (from_list l)) (fold_fields-top s t fs)
      ∙ ap some (sym made)

  -- `parse` without `check_only`, as the constructors call it, returns a signature exactly where
  -- the bytes are empty (the unit signature), or the text of that complete signature, or the text
  -- of two or more complete types in a row that are the fields of that structure. On all other
  -- bytes it fails.
  pub parse-eq-some_iff :
      (bytes : List ℕ) (x : Signature) → (parse nom bytes false ≡ some x) ↔ IsTopLevel bytes x
  parse-eq-some_iff bytes x = (parse_sound bytes x, parse_complete bytes x)

  -- The text that `Display` writes for a complete signature parses back to that signature.
  pub parse-display : (x : Signature) → IsComplete x → parse nom (display x) false ≡ some x
  parse-display x h = parse_complete (display x) x (single h refl)

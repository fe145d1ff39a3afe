-- ===== src/Signature/Parser/Forms.antt =====
-- What each alternative of the signature parser does with the text of a signature
-- (zvariant_utils/src/signature/mod.rs).
use zbus.Prelude.{
  ℕ, ◌≡◌, refl, ap, ◌∙◌, Bool, false, none, some, List, [], ◌∷◌, ◌++◌, append_assoc, ◌==◌,
}
use zbus.Signature.{
  Signature, Fields, no_fields, field, array, dict, maybe, write_as_string, write_fields, display,
  IsComplete, AllComplete,
}
use zbus.Signature.Nom.{Nom, Parser}
use zbus.Signature.Parser.{
  SignatureList, add_signature, from_list, byte, many, dict_type, array_type, structure_type,
  maybe_type,
}
use zbus.Signature.Parser.Fold.{fold_fields, fold_fields-nested}
use zbus.Signature.Parser.Sound.{display-length}
use zbus.Signature.Parser.Steps.{byte_nil, byte_cons, byte_self}

-- `p` reads `x` off the front of any input that begins with its text.
abbrev pub ReadsBack : Parser Signature → Signature → Type 0
ReadsBack p x = (r : List ℕ) → p (display x ++ r) ≡ some (r, x)

abbrev pub AllReadBack : Parser Signature → Fields → Type 0
AllReadBack p no_fields = Unit
AllReadBack p (field x fs) = ReadsBack p x × AllReadBack p fs

-- Neither a closing parenthesis nor an opening brace begins a signature.
pub display_head :
    (x : Signature)
    → IsComplete x
    → (c : ℕ) × (t : List ℕ) × (display x ≡ c ∷ t) × ((c == b'{') ≡ false)
unfolding write_as_string IsComplete
display_head Signature.unit h = absurd h
display_head (Signature.structure fs) h = (_, _, refl, refl)
display_head (array x) h = (_, _, refl, refl)
display_head (maybe x) h = (_, _, refl, refl)
display_head (dict x y) h = (_, _, refl, refl)
display_head _ h = (_, _, refl, refl)

fields_text :
    (x : Signature) (fs : Fields) (r : List ℕ)
    → write_fields (field x fs) ++ r ≡ display x ++ (write_fields fs ++ r)
unfolding write_as_string
fields_text x fs r = append_assoc (display x) (write_fields fs) r

module _ (nom : Nom) (p : Parser Signature) where
  pub array_type-some :
      (m r : List ℕ) (x : Signature)
      → p m ≡ some (r, x)
      → array_type nom p false (b'a' ∷ m) ≡ some (r, array x)
  unfolding array_type
  array_type-some m r x e =
      nom.map_lem _ _ _ ∙ rw (nom.pair_lem (byte nom b'a') p (b'a' ∷ m), byte_self nom b'a' m, e)

  pub maybe_type-some :
      (m r : List ℕ) (x : Signature)
      → p m ≡ some (r, x)
      → maybe_type nom p false (b'm' ∷ m) ≡ some (r, maybe x)
  unfolding maybe_type
  maybe_type-some m r x e =
      nom.map_lem _ _ _ ∙ rw (nom.pair_lem (byte nom b'm') p (b'm' ∷ m), byte_self nom b'm' m, e)

  pub dict_type-some :
      (m m' r : List ℕ) (x y : Signature)
      → p m ≡ some (m', x)
      → p m' ≡ some (b'}' ∷ r, y)
      → dict_type nom p false (b'a' ∷ b'{' ∷ m) ≡ some (r, dict x y)
  unfolding dict_type
  dict_type-some m m' r x y ex ey =
      nom.map_lem _ _ _
      ∙ rw (nom.pair_lem (byte nom b'a') _ (b'a' ∷ b'{' ∷ m), byte_self nom b'a' (b'{' ∷ m))
          (rw
            (
              nom.delimited_lem (byte nom b'{') (nom.pair p p) (byte nom b'}') (b'{' ∷ m),
              byte_self nom b'{' m,
            )
            (rw (nom.pair_lem p p m, ex, ey, byte_self nom b'}' r)))

  structure_type-some :
      (m r : List ℕ) (x : Signature)
      → many nom p false false m ≡ some (b')' ∷ r, x)
      → structure_type nom p false (b'(' ∷ m) ≡ some (r, x)
  unfolding structure_type
  structure_type-some m r x e =
      nom.delimited_lem _ _ _ _ ∙ rw (byte_self nom b'(' m, e, byte_self nom b')' r)

  tag_none :
      {A : Type 0} (b c : ℕ) (q : Parser A) (s : List ℕ)
      → (c == b) ≡ false
      → nom.pair (byte nom b) q (c ∷ s) ≡ none
  tag_none b c q s e = nom.pair_lem _ _ _ ∙ rw (byte_cons nom b c s, e)

  pub array_type-none :
      (check_only : Bool) (c : ℕ) (s : List ℕ)
      → (c == b'a') ≡ false
      → array_type nom p check_only (c ∷ s) ≡ none
  unfolding array_type
  array_type-none check_only c s e = nom.map_lem _ _ _ ∙ rw (tag_none b'a' c p s e)

  pub maybe_type-none :
      (check_only : Bool) (c : ℕ) (s : List ℕ)
      → (c == b'm') ≡ false
      → maybe_type nom p check_only (c ∷ s) ≡ none
  unfolding maybe_type
  maybe_type-none check_only c s e = nom.map_lem _ _ _ ∙ rw (tag_none b'm' c p s e)

  pub structure_type-none :
      (check_only : Bool) (c : ℕ) (s : List ℕ)
      → (c == b'(') ≡ false
      → structure_type nom p check_only (c ∷ s) ≡ none
  unfolding structure_type
  structure_type-none check_only c s e = nom.delimited_lem _ _ _ _ ∙ rw (byte_cons nom b'(' c s, e)

  pub dict_type-none :
      (check_only : Bool) (c : ℕ) (s : List ℕ)
      → (c == b'a') ≡ false
      → dict_type nom p check_only (c ∷ s) ≡ none
  unfolding dict_type
  dict_type-none check_only c s e = nom.map_lem _ _ _ ∙ rw (tag_none b'a' c _ s e)

  pub array_type_nil : (check_only : Bool) → array_type nom p check_only [] ≡ none
  unfolding array_type
  array_type_nil check_only =
      nom.map_lem _ _ _ ∙ rw (nom.pair_lem (byte nom b'a') p [], byte_nil nom b'a')

  pub maybe_type_nil : (check_only : Bool) → maybe_type nom p check_only [] ≡ none
  unfolding maybe_type
  maybe_type_nil check_only =
      nom.map_lem _ _ _ ∙ rw (nom.pair_lem (byte nom b'm') p [], byte_nil nom b'm')

  pub structure_type_nil : (check_only : Bool) → structure_type nom p check_only [] ≡ none
  unfolding structure_type
  structure_type_nil check_only = nom.delimited_lem _ _ _ _ ∙ rw (byte_nil nom b'(')

  pub dict_type_nil : (check_only : Bool) → dict_type nom p check_only [] ≡ none
  unfolding dict_type
  dict_type_nil check_only =
      nom.map_lem _ _ _ ∙ rw (nom.pair_lem (byte nom b'a') _ [], byte_nil nom b'a')

  -- An array of anything else is no dictionary.
  pub dict_type_array :
      (check_only : Bool) (c : ℕ) (s : List ℕ)
      → (c == b'{') ≡ false
      → dict_type nom p check_only (b'a' ∷ c ∷ s) ≡ none
  unfolding dict_type
  dict_type_array check_only c s e =
      nom.map_lem _ _ _
      ∙ rw (nom.pair_lem (byte nom b'a') _ (b'a' ∷ c ∷ s), byte_self nom b'a' (c ∷ s))
          (rw (
            nom.delimited_lem (byte nom b'{') (nom.pair p p) (byte nom b'}') (c ∷ s),
            byte_cons nom b'{' c s,
            e,
          ))

  pub fold-ReadBack :
      (top : Bool) (acc : SignatureList) (x : Signature) (fs : Fields) (r : List ℕ)
      → IsComplete x
      → AllComplete fs
      → AllReadBack p (field x fs)
      → p r ≡ none
      → nom.fold_many1 p acc (add_signature top) (write_fields (field x fs) ++ r)
        ≡ some (r, fold_fields top acc (field x fs))
  unfolding fold_fields
  fold-ReadBack top acc x no_fields r hx hfs back stop =
      let text : write_fields (field x no_fields) ++ r ≡ display x ++ r =
        fields_text x no_fields r ∙ unfold write_as_string in refl in
      rw text (nom.many1_last p acc (add_signature top) (display x ++ r) r x (back.0 r) stop)
  fold-ReadBack top acc x (field y fs) r hx hfs back stop =
      let rest = write_fields (field y fs) ++ r in
      let text : rest ≡ display y ++ (write_fields fs ++ r) = fields_text y fs r in
      let both : IsComplete y × AllComplete fs = unfold IsComplete in hfs in
      let second : p rest ≡ some (write_fields fs ++ r, y) =
        rw text (back.1.0 (write_fields fs ++ r)) in
      let shorter = display-length (write_fields fs ++ r) y text both.0 in
      rw (fields_text x (field y fs) r) (
        nom.many1_more p acc (add_signature top) _ rest _ x y (back.0 rest) second shorter
        ∙ fold-ReadBack top (add_signature top acc x) y fs r both.0 both.1 back.1 stop)

  pub structure-ReadBack :
      (x : Signature) (fs : Fields)
      → IsComplete x
      → AllComplete fs
      → AllReadBack p (field x fs)
      → ((r : List ℕ) → p (b')' ∷ r) ≡ none)
      → (r : List ℕ)
      → structure_type nom p false (b'(' ∷ (write_fields (field x fs) ++ b')' ∷ r))
        ≡ some (r, Signature.structure (field x fs))
  unfolding many
  structure-ReadBack x fs hx hfs back stop r = structure_type-some _ r _ (
      nom.map_lem _ from_list _
      ∙ rw (fold-ReadBack false SignatureList.unit x fs (b')' ∷ r) hx hfs back (stop r))
          (unfold from_list in ap (λ l. some (b')' ∷ r, from_list l)) (fold_fields-nested x fs)))

-- ===== src/Signature/Parser/Sound.antt =====
-- What the signature parser accepts is the text of a complete signature
-- (zvariant_utils/src/signature/mod.rs).
use zbus.Prelude.{
  ℕ, zero, suc, ◌≤◌, ◌<◌, ◌≡◌, refl, ap, sym, ◌∙◌, inl, inr, Bool, false, Option, none, some, List,
  [], ◌∷◌, ◌++◌, append_assoc, All, length, length-append, arith, ◌==◌, ==_iff, Option-cases,
  Bool-cases,
}
use mathlib.Core.Path.{subst₂}
use zbus.Signature.{
  Signature, Fields, field, write_as_string, write_fields, display, IsComplete, AllComplete,
}
use zbus.Signature.Nom.{Nom, Parser, or_else}
use zbus.Signature.Parser.{
  SignatureList, add_signature, from_list, many, simple_types, simple_type, dict_type, array_type,
  structure_type, maybe_type, parse_signature,
}
use zbus.Signature.Parser.Fold.{
  FoldReads, FoldReads-one, FoldReads-more, fold_fields, fold_fields-nested,
}
use zbus.Signature.Parser.Steps.{
  parse_signature-suc, lookup_byte, byte-eq-some, map-eq-some, pair-eq-some, delimited-eq-some,
  simple_type_nil, simple_type_cons, with_rest,
}

-- A success on `s` has read the text of a complete signature off its front.
abbrev Reads : List ℕ → Option (List ℕ × Signature) → Type 0
Reads s o = (r : List ℕ) (x : Signature) → o ≡ some (r, x) → (s ≡ display x ++ r) × IsComplete x

Reads-or_else :
    (s : List ℕ) (o p : Option (List ℕ × Signature)) → Reads s o → Reads s p → Reads s (or_else o p)
Reads-or_else s none p ho hp = hp
Reads-or_else s (some a) p ho hp = ho

abbrev pub Sound : Parser Signature → Type 0
Sound p = (s : List ℕ) → Reads s (p s)

abbrev IsSimple : ℕ × Signature → Type 0
IsSimple (b, x) = (display x ≡ b ∷ []) × IsComplete x

simple_types-IsSimple : All IsSimple simple_types
unfolding write_as_string IsComplete
simple_types-IsSimple = (
  (refl, tt),
  (
    (refl, tt),
    (
      (refl, tt),
      (
        (refl, tt),
        (
          (refl, tt),
          (
            (refl, tt),
            (
              (refl, tt),
              (
                (refl, tt),
                (
                  (refl, tt),
                  ((refl, tt), ((refl, tt), ((refl, tt), ((refl, tt), ((refl, tt), tt))))),
                ),
              ),
            ),
          ),
        ),
      ),
    ),
  ),
)

lookup_byte-IsSimple :
    (c : ℕ) (table : List (ℕ × Signature)) (x : Signature)
    → All IsSimple table
    → lookup_byte c table ≡ some x
    → IsSimple (c, x)
lookup_byte-IsSimple c [] x h e = cc
lookup_byte-IsSimple c ((b, y) ∷ table) x (hy, h) e = elim (Bool-cases (c == b)) [
  | inl same ↦
      let found : y ≡ x = cc (rw same at e) in
      let this : c ≡ b = (==_iff c b).0 same in subst₂ (λ k z. IsSimple (k, z)) (sym this) found hy
  | inr other ↦ lookup_byte-IsSimple c table x h (rw other at e)
]

with_rest-eq-some :
    (s r : List ℕ) (o : Option Signature) {x : Signature}
    → with_rest s o ≡ some (r, x)
    → (s ≡ r) × (o ≡ some x)
with_rest-eq-some s r none h = cc
with_rest-eq-some s r (some y) h = (cc, cc)

display_pos : (x : Signature) → IsComplete x → 0 < length (display x)
unfolding write_as_string IsComplete
display_pos Signature.unit h = absurd h
display_pos (Signature.structure fs) h = omega arith
display_pos _ h = omega arith

parens_text :
    {s m m' r : List ℕ} (fs : List ℕ)
    → s ≡ b'(' ∷ m
    → m ≡ fs ++ m'
    → m' ≡ b')' ∷ r
    → s ≡ b'(' ∷ ((fs ++ b')' ∷ []) ++ r)
parens_text fs e1 e2 e3 = simp (e1, e2, e3, append_assoc)

dict_text :
    {s m m1 m2 m3 r : List ℕ} (k v : List ℕ)
    → s ≡ b'a' ∷ m
    → m ≡ b'{' ∷ m1
    → m1 ≡ k ++ m3
    → m3 ≡ v ++ m2
    → m2 ≡ b'}' ∷ r
    → s ≡ b'a' ∷ b'{' ∷ ((k ++ (v ++ b'}' ∷ [])) ++ r)
dict_text k v e1 e2 e3 e4 e5 = simp (e1, e2, e3, e4, e5, append_assoc)

pub display-length :
    {s : List ℕ} (r : List ℕ) (x : Signature)
    → s ≡ display x ++ r
    → IsComplete x
    → length r < length s
display-length r x e h = rw (e, length-append) (omega (arith, display_pos x h))

module _ (nom : Nom) where
  simple_type-Sound : Sound (simple_type nom)
  simple_type-Sound [] r x h = cc (simple_type_nil nom)
  simple_type-Sound (c ∷ s) r x h =
      let (same, found) =
        with_rest-eq-some s r (lookup_byte c simple_types) (sym (simple_type_cons nom c s) ∙ h) in
      let (text, complete) = lookup_byte-IsSimple c simple_types x simple_types-IsSimple found in
      (rw (text, same), complete)

  module _ (p : Parser Signature) (sound : Sound p) where
    array_type-Sound : Sound (array_type nom p false)
    unfolding array_type IsComplete write_as_string
    array_type-Sound s r x h =
        let ((t, y), e, made) = map-eq-some nom _ _ s r x h in
        let (m, tag, child) = pair-eq-some nom _ _ s r (t, y) e in
        let (text, complete) = sound m r y child in
        rw made (byte-eq-some nom _ s m t tag ∙ ap (λ z. b'a' ∷ z) text, complete)

    maybe_type-Sound : Sound (maybe_type nom p false)
    unfolding maybe_type IsComplete write_as_string
    maybe_type-Sound s r x h =
        let ((t, y), e, made) = map-eq-some nom _ _ s r x h in
        let (m, tag, child) = pair-eq-some nom _ _ s r (t, y) e in
        let (text, complete) = sound m r y child in
        rw made (byte-eq-some nom _ s m t tag ∙ ap (λ z. b'm' ∷ z) text, complete)

    dict_type-Sound : Sound (dict_type nom p false)
    unfolding dict_type IsComplete write_as_string
    dict_type-Sound s r x h =
        let ((t, kv), e, made) = map-eq-some nom _ _ s r x h in
        let (m, tag, body) = pair-eq-some nom _ _ s r (t, kv) e in
        let (m1, m2, b, c, opening, both, closing) = delimited-eq-some nom _ _ _ m r kv body in
        let (m3, key, value) = pair-eq-some nom _ _ m1 m2 kv both in
        let (key_text, key_complete) = sound m1 m3 kv.0 key in
        let (value_text, value_complete) = sound m3 m2 kv.1 value in
        rw made (
          dict_text _ _ (byte-eq-some nom _ s m t tag) (byte-eq-some nom _ m m1 b opening) key_text
              value_text (byte-eq-some nom _ m2 r c closing),
          (key_complete, value_complete),
        )

    fold_step :
        (top : Bool) (acc out : SignatureList) (s r m : List ℕ) (x : Signature)
        → p s ≡ some (m, x)
        → nom.fold_many1 p acc (add_signature top) s ≡ some (r, out)
        → (nom.fold_many1 p (add_signature top acc x) (add_signature top) m ≡ some (r, out)
            → FoldReads top (add_signature top acc x) out m r)
        → FoldReads top acc out s r
    fold_step top acc out s r m x first h ih =
        let (text, complete) = sound s m x first in
        elim (Option-cases (p m)) [
          | inl stops ↦
              let last = nom.many1_last p acc (add_signature top) s m x first stops in
              FoldReads-one top acc out s r x complete (text ∙ ap (λ t. display x ++ t) (cc last))
                (cc last)
          | inr ((m', y), second) ↦
              let shorter = display-length m' y (sound m m' y second).0 (sound m m' y second).1 in
              let more = nom.many1_more p acc (add_signature top) s m m' x y first second shorter in
              FoldReads-more top acc out s r m x complete text (ih (sym more ∙ h))
        ]

    -- Recursion on a bound of the input's length.
    fold-Sound :
        (top : Bool) (n : ℕ) (acc out : SignatureList) (s r : List ℕ)
        → length s ≤ n
        → nom.fold_many1 p acc (add_signature top) s ≡ some (r, out)
        → FoldReads top acc out s r
    fold-Sound top zero acc out s r bound h = elim (Option-cases (p s)) [
      | inl fails ↦ absurd (cc (nom.many1_none p acc (add_signature top) s fails))
      | inr ((m, x), first) ↦
          let (text, complete) = sound s m x first in
          absurd (omega (arith, display-length m x text complete))
    ]
    fold-Sound top (suc n) acc out s r bound h = elim (Option-cases (p s)) [
      | inl fails ↦ absurd (cc (nom.many1_none p acc (add_signature top) s fails))
      | inr ((m, x), first) ↦
          let (text, complete) = sound s m x first in
          fold_step top acc out s r m x first h
            (fold-Sound top n _ out m r (omega (arith, display-length m x text complete)))
    ]

    pub many-Sound :
        (top : Bool) (s r : List ℕ) (x : Signature)
        → many nom p false top s ≡ some (r, x)
        → (y : Signature) × (fs : Fields) × IsComplete y
          × AllComplete fs
          × (s ≡ write_fields (field y fs) ++ r)
          × (x ≡ from_list (fold_fields top SignatureList.unit (field y fs)))
    unfolding many
    many-Sound top s r x h =
        let (out, e, made) = map-eq-some nom _ from_list s r x h in
        let (y, fs, hy, hfs, text, folded) = fold-Sound top (length s) _ out s r (omega arith) e in
        (y, fs, hy, hfs, text, made ∙ ap from_list folded)

    structure_type-Sound : Sound (structure_type nom p false)
    unfolding structure_type IsComplete write_as_string
    structure_type-Sound s r x h =
        let (m, m', t, t', opening, body, closing) = delimited-eq-some nom _ _ _ s r x h in
        let (y, fs, hy, hfs, text, made) = many-Sound false m m' x body in
        rw (made ∙ ap from_list (fold_fields-nested y fs)) (
          parens_text _ (byte-eq-some nom _ s m t opening) text
              (byte-eq-some nom _ m' r t' closing),
          (hy, hfs),
        )

  -- Whatever `parse_signature` reads off the front of its input, on any fuel, is the text of the
  -- complete signature that it returns.
  pub parse_signature-Sound : (fuel : ℕ) → Sound (parse_signature nom fuel false)
  parse_signature-Sound zero s r x h = absurd (unfold parse_signature in cc h)
  parse_signature-Sound (suc fuel) s r x h =
      let p = parse_signature nom fuel false in
      let ih = parse_signature-Sound fuel in
      Reads-or_else s _ _ (simple_type-Sound s)
        (Reads-or_else s _ _ (dict_type-Sound p ih s) (
          Reads-or_else s _ _ (array_type-Sound p ih s)
            (Reads-or_else s _ _ (structure_type-Sound p ih s) (maybe_type-Sound p ih s))))
        r x (sym (parse_signature-suc nom fuel false s) ∙ h)

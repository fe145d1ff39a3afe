-- ===== src/Signature/Parser/Steps.antt =====
-- The alternatives of the signature parser in plain form: what each reads off its input
-- (zvariant_utils/src/signature/mod.rs).
use zbus.Prelude.{
  ℕ, suc, ◌≡◌, refl, sym, ◌∙◌, ◌⊎◌, inl, inr, Bool, Option, none, some, List, [], ◌∷◌, arith, ◌==◌,
  ==_refl, if◌then◌else◌,
}
use zbus.Signature.{Signature, u8}
use zbus.Signature.Nom.{Nom, Parser, and_then, or_else}
use zbus.Signature.Parser.{
  byte, simple_alternatives, simple_types, simple_type, dict_type, array_type, structure_type,
  maybe_type, parse_signature,
}

pub and_then-eq-some {ℓ κ} :
    {A : Type ℓ} {B : Type κ} (o : Option A) (f : A → Option B) {b : B}
    → and_then o f ≡ some b
    → (a : A) × (o ≡ some a) × (f a ≡ some b)
and_then-eq-some none f h = cc
and_then-eq-some (some a) f h = (a, refl, h)

pub or_else-eq-some {ℓ} :
    {A : Type ℓ} (o p : Option A) {a : A} → or_else o p ≡ some a → (o ≡ some a) ⊎ (p ≡ some a)
or_else-eq-some none p h = inr h
or_else-eq-some (some a) p h = inl h

abbrev pub lookup_byte : ℕ → List (ℕ × Signature) → Option Signature
lookup_byte c [] = none
lookup_byte c ((b, s) ∷ table) = if c == b then some s else lookup_byte c table

abbrev pub with_rest : List ℕ → Option Signature → Option (List ℕ × Signature)
with_rest r none = none
with_rest r (some s) = some (r, s)

abbrev later : List (ℕ × Signature) → List (ℕ × Signature)
later [] = []
later (entry ∷ table) = table

module _ (nom : Nom) where
  pub byte_nil : (b : ℕ) → byte nom b [] ≡ none
  unfolding byte
  byte_nil b = nom.tag_nil b

  pub byte_cons :
      (b c : ℕ) (s : List ℕ) → byte nom b (c ∷ s) ≡ (if c == b then some (s, b ∷ []) else none)
  unfolding byte
  byte_cons b c s = nom.tag_cons b c s

  pub byte_self : (b : ℕ) (s : List ℕ) → byte nom b (b ∷ s) ≡ some (s, b ∷ [])
  byte_self b s = byte_cons b b s ∙ rw (==_refl b)

  pub byte-eq-some : (b : ℕ) (s r t : List ℕ) → byte nom b s ≡ some (r, t) → s ≡ b ∷ r
  byte-eq-some b [] r t h = cc (byte_nil b)
  byte-eq-some b (c ∷ s) r t h = ground (arith, byte_cons b c s)

  pub map-eq-some :
      {A B : Type 0} (p : Parser A) (f : A → B) (s r : List ℕ) (b : B)
      → nom.map p f s ≡ some (r, b)
      → (a : A) × (p s ≡ some (r, a)) × (b ≡ f a)
  map-eq-some p f s r b h =
      let ((r', a), e, q) = and_then-eq-some (p s) _ (sym (nom.map_lem p f s) ∙ h) in (a, cc, cc)

  pub pair-eq-some :
      {A B : Type 0} (p : Parser A) (q : Parser B) (s r : List ℕ) (x : A × B)
      → nom.pair p q s ≡ some (r, x)
      → (m : List ℕ) × (p s ≡ some (m, x.0)) × (q m ≡ some (r, x.1))
  pair-eq-some p q s r x h =
      let ((m, a), e, k) = and_then-eq-some (p s) _ (sym (nom.pair_lem p q s) ∙ h) in
      let ((r', b), e', k') = and_then-eq-some (q m) _ k in (m, cc, cc)

  pub delimited-eq-some :
      {A B C : Type 0} (p : Parser A) (q : Parser B) (o : Parser C) (s r : List ℕ) (b : B)
      → nom.delimited p q o s ≡ some (r, b)
      → (m m' : List ℕ) × (a : A) × (c : C) × (p s ≡ some (m, a))
        × (q m ≡ some (m', b))
        × (o m' ≡ some (r, c))
  delimited-eq-some p q o s r b h =
      let ((m, a), e, k) = and_then-eq-some (p s) _ (sym (nom.delimited_lem p q o s) ∙ h) in
      let ((m', b'), e', k') = and_then-eq-some (q m) _ k in
      let ((r', c), e'', k'') = and_then-eq-some (o m') _ k' in (m, m', a, c, e, cc, cc)

  entry_nil : (b : ℕ) (s : Signature) → nom.map (byte nom b) (λ _. s) [] ≡ none
  entry_nil b s = nom.map_lem _ _ [] ∙ rw (byte_nil b)

  entry_cons :
      (b c : ℕ) (s : Signature) (bytes : List ℕ)
      → nom.map (byte nom b) (λ _. s) (c ∷ bytes) ≡ (if c == b then some (bytes, s) else none)
  entry_cons b c s bytes = nom.map_lem _ _ (c ∷ bytes) ∙ ground (arith, byte_cons b c bytes)

  alternatives_nil :
      (b : ℕ) (s : Signature) (table : List (ℕ × Signature))
      → nom.alt (simple_alternatives nom ((b, s) ∷ table)) [] ≡ none
  unfolding simple_alternatives
  alternatives_nil b s [] = nom.alt_last _ [] ∙ entry_nil b s
  alternatives_nil b s ((b', s') ∷ table) =
      nom.alt_more _ _ _ [] ∙ rw (entry_nil b s) (alternatives_nil b' s' table)

  alternatives_cons :
      (b : ℕ) (s : Signature) (table : List (ℕ × Signature)) (c : ℕ) (bytes : List ℕ)
      → nom.alt (simple_alternatives nom ((b, s) ∷ table)) (c ∷ bytes)
        ≡ with_rest bytes (lookup_byte c ((b, s) ∷ table))
  unfolding simple_alternatives
  alternatives_cons b s [] c bytes = nom.alt_last _ _ ∙ ground (arith, entry_cons b c s bytes)
  alternatives_cons b s ((b', s') ∷ table) c bytes =
      nom.alt_more _ _ _ _
      ∙ ground (arith, entry_cons b c s bytes, alternatives_cons b' s' table c bytes)

  pub simple_type_nil : simple_type nom [] ≡ none
  unfolding simple_type
  simple_type_nil = alternatives_nil b'y' u8 (later simple_types)

  pub simple_type_cons :
      (c : ℕ) (bytes : List ℕ)
      → simple_type nom (c ∷ bytes) ≡ with_rest bytes (lookup_byte c simple_types)
  unfolding simple_type
  simple_type_cons c bytes = alternatives_cons b'y' u8 (later simple_types) c bytes

  alt_five :
      {A : Type 0} (a b c d e : Parser A) (s : List ℕ)
      → nom.alt (a ∷ b ∷ c ∷ d ∷ e ∷ []) s
        ≡ or_else (a s) (or_else (b s) (or_else (c s) (or_else (d s) (e s))))
  alt_five a b c d e s =
      rw (nom.alt_more a b (c ∷ d ∷ e ∷ []) s, nom.alt_more b c (d ∷ e ∷ []) s)
        (rw (nom.alt_more c d (e ∷ []) s, nom.alt_more d e [] s, nom.alt_last e s))

  pub parse_signature-suc :
      (fuel : ℕ) (check_only : Bool) (s : List ℕ)
      → let p = parse_signature nom fuel check_only in
        parse_signature nom (suc fuel) check_only s
        ≡ or_else (simple_type nom s) (
            or_else (dict_type nom p check_only s) (
              or_else
                (array_type nom p check_only s)
                (or_else (structure_type nom p check_only s) (maybe_type nom p check_only s))))
  unfolding parse_signature
  parse_signature-suc fuel check_only s = alt_five _ _ _ _ _ s

-- ===== src/Signature/Parser/CheckOnly.antt =====
-- With `check_only` the parser reads the same input, and returns a dummy
-- (zvariant_utils/src/signature/mod.rs).
use zbus.Prelude.{
  ℕ, zero, suc, ◌+◌, ◌≤◌, ◌<◌, ◌≡◌, refl, ap, sym, ◌↔◌, inl, inr, Bool, true, false, Option, none,
  some, List, [], ◌∷◌, length, arith, Option-cases,
}
use zbus.Signature.{Signature}
use zbus.Signature.Nom.{Nom, Parser, or_else, and_then}
use zbus.Signature.Parser.{
  SignatureList, add_signature, many, simple_type, dict_type, array_type, structure_type,
  maybe_type, parse_signature, parse, validate,
}
use zbus.Signature.Parser.Steps.{parse_signature-suc}
use zbus.Signature.Parser.Sound.{display-length, parse_signature-Sound}
use zbus.Signature.Parser.TopLevel.{finished, parse_nil, parse_cons}

-- What a run leaves of its input, if it succeeds.
abbrev left {ℓ} : {A : Type ℓ} → Option (List ℕ × A) → Option (List ℕ)
left none = none
left (some (r, a)) = some r

left-eq-none {ℓ κ} :
    {A : Type ℓ} {B : Type κ} (o : Option (List ℕ × A)) (o' : Option (List ℕ × B))
    → left o ≡ left o'
    → o' ≡ none
    → o ≡ none
left-eq-none none o' h e = refl
left-eq-none (some a) none h e = cc
left-eq-none (some a) (some b) h e = cc

left-eq-some {ℓ κ} :
    {A : Type ℓ} {B : Type κ} (o : Option (List ℕ × A)) (o' : Option (List ℕ × B)) (r : List ℕ)
    (b : B)
    → left o ≡ left o'
    → o' ≡ some (r, b)
    → (a : A) × (o ≡ some (r, a))
left-eq-some none o' r b h e = cc (ap left e)
left-eq-some (some (r', a)) o' r b h e = (a, cc (ap left e))

found :
    (o : Option Signature)
    → (and_then o (λ _. some (tt {0})) ≡ some tt) ↔ ((x : Signature) × (o ≡ some x))
found none = (λ h. absurd (cc h), λ (x, e). absurd (cc e))
found (some x) = (λ _. (x, refl), λ _. refl)

-- `p` and `q` fail on the same inputs, and leave the same where they succeed.
abbrev SameRest : {A B : Type 0} → Parser A → Parser B → Type 0
SameRest p q = (s : List ℕ) → left (p s) ≡ left (q s)

left-or_else :
    {A B : Type 0} (o p : Option (List ℕ × A)) (o' p' : Option (List ℕ × B))
    → left o ≡ left o'
    → left p ≡ left p'
    → left (or_else o p) ≡ left (or_else o' p')
left-or_else none p none p' h k = k
left-or_else none p (some b) p' h k = cc
left-or_else (some a) p none p' h k = cc
left-or_else (some a) p (some b) p' h k = h

left-and_then :
    {A B C D : Type 0} (o : Option (List ℕ × A)) (o' : Option (List ℕ × B))
    (f : List ℕ × A → Option (List ℕ × C)) (g : List ℕ × B → Option (List ℕ × D))
    → left o ≡ left o'
    → ((r : List ℕ) (a : A) (b : B) → left (f (r, a)) ≡ left (g (r, b)))
    → left (and_then o f) ≡ left (and_then o' g)
left-and_then none none f g h k = refl
left-and_then none (some b) f g h k = cc
left-and_then (some a) none f g h k = cc
left-and_then (some (r, a)) (some (r', b)) f g h k = let same : r ≡ r' = cc h in rw same (k r' a b)

module _ (nom : Nom) where
  left-map :
      {A B C D : Type 0} (p : Parser A) (q : Parser B) (f : A → C) (g : B → D)
      → SameRest p q
      → SameRest (nom.map p f) (nom.map q g)
  left-map p q f g h s =
      rw (nom.map_lem p f s, nom.map_lem q g s)
        (left-and_then (p s) (q s) _ _ (h s) (λ r a b. refl))

  left-pair :
      {A B C D : Type 0} (p : Parser A) (q : Parser B) (p' : Parser C) (q' : Parser D)
      → SameRest p q
      → SameRest p' q'
      → SameRest (nom.pair p p') (nom.pair q q')
  left-pair p q p' q' h h' s =
      rw (nom.pair_lem p p' s, nom.pair_lem q q' s)
        (left-and_then (p s) (q s) _ _ (h s)
          (λ r a b. left-and_then (p' r) (q' r) _ _ (h' r) (λ _ _ _. refl)))

  left-delimited :
      {A B C D : Type 0} (o : Parser A) (p : Parser B) (q : Parser C) (c : Parser D)
      → SameRest p q
      → SameRest (nom.delimited o p c) (nom.delimited o q c)
  left-delimited o p q c h s =
      rw (nom.delimited_lem o p c s, nom.delimited_lem o q c s)
        (left-and_then (o s) (o s) _ _ refl (λ r _ _.
          left-and_then (p r) (q r) _ _ (h r)
            (λ r' _ _. left-and_then (c r') (c r') _ _ refl (λ _ _ _. refl))))

  -- A parser that reads something whenever it succeeds.
  abbrev Shrinks : {A : Type 0} → Parser A → Type 0
  Shrinks {A} p = (s r : List ℕ) (a : A) → p s ≡ some (r, a) → length r < length s

  module _ (p q : Parser Signature) (same : SameRest p q) (shrinks : Shrinks q) where
    left-fold_none :
        {B C : Type 0} (acc : B) (g : B → Signature → B) (acc' : C) (g' : C → Signature → C)
        (s : List ℕ)
        → q s ≡ none
        → left (nom.fold_many1 p acc g s) ≡ left (nom.fold_many1 q acc' g' s)
    left-fold_none acc g acc' g' s fails =
        rw (nom.many1_none q acc' g' s fails)
          (rw (nom.many1_none p acc g s (left-eq-none (p s) (q s) (same s) fails)) refl)

    left-fold_step :
        {B C : Type 0} (acc : B) (g : B → Signature → B) (acc' : C) (g' : C → Signature → C)
        (s m : List ℕ) (x : Signature)
        → q s ≡ some (m, x)
        → ((acc : B) (acc' : C)
            → left (nom.fold_many1 p acc g m) ≡ left (nom.fold_many1 q acc' g' m))
        → left (nom.fold_many1 p acc g s) ≡ left (nom.fold_many1 q acc' g' s)
    left-fold_step acc g acc' g' s m x first ih =
        let (x', first') = left-eq-some (p s) (q s) m x (same s) first in
        elim (Option-cases (q m)) [
          | inl stops ↦ rw (nom.many1_last q acc' g' s m x first stops) (
              rw (nom.many1_last p acc g s m x' first' (left-eq-none (p m) (q m) (same m) stops))
                refl)
          | inr ((m', y), second) ↦
              let (y', second') = left-eq-some (p m) (q m) m' y (same m) second in
              let less = shrinks m m' y second in
              rw (nom.many1_more q acc' g' s m m' x y first second less)
                (rw (nom.many1_more p acc g s m m' x' y' first' second' less) (ih _ _))
        ]

    left-fold :
        {B C : Type 0} (n : ℕ) (acc : B) (g : B → Signature → B) (acc' : C) (g' : C → Signature → C)
        (s : List ℕ)
        → length s ≤ n
        → left (nom.fold_many1 p acc g s) ≡ left (nom.fold_many1 q acc' g' s)
    left-fold zero acc g acc' g' s bound = elim (Option-cases (q s)) [
      | inl fails ↦ left-fold_none acc g acc' g' s fails
      | inr ((m, x), first) ↦ absurd (omega (arith, shrinks s m x first))
    ]
    left-fold (suc n) acc g acc' g' s bound = elim (Option-cases (q s)) [
      | inl fails ↦ left-fold_none acc g acc' g' s fails
      | inr ((m, x), first) ↦
          left-fold_step acc g acc' g' s m x first
            (λ a a'. left-fold n a g a' g' m (omega (arith, shrinks s m x first)))
    ]

    left-many : (top : Bool) → SameRest (many nom p true top) (many nom q false top)
    unfolding many
    left-many top =
        left-map (nom.many1_count p) (nom.fold_many1 q SignatureList.unit (add_signature top)) _ _
          (λ s. rw (nom.many1_count_lem p s) (left-fold (length s) _ _ _ _ s (omega arith)))

    left-array : SameRest (array_type nom p true) (array_type nom q false)
    unfolding array_type
    left-array = left-map _ _ _ _ (left-pair _ _ _ _ (λ s. refl) same)

    left-maybe : SameRest (maybe_type nom p true) (maybe_type nom q false)
    unfolding maybe_type
    left-maybe = left-map _ _ _ _ (left-pair _ _ _ _ (λ s. refl) same)

    left-dict : SameRest (dict_type nom p true) (dict_type nom q false)
    unfolding dict_type
    left-dict =
        left-map _ _ _ _
          (left-pair _ _ _ _ (λ s. refl) (left-delimited _ _ _ _ (left-pair _ _ _ _ same same)))

    left-structure : SameRest (structure_type nom p true) (structure_type nom q false)
    unfolding structure_type
    left-structure = left-delimited _ _ _ _ (left-many false)

  parse_signature-Shrinks : (fuel : ℕ) → Shrinks (parse_signature nom fuel false)
  parse_signature-Shrinks fuel s r x h =
      let (text, complete) = parse_signature-Sound nom fuel s r x h in
      display-length r x text complete

  pub left-parse_signature :
      (fuel : ℕ) → SameRest (parse_signature nom fuel true) (parse_signature nom fuel false)
  left-parse_signature zero s = unfold parse_signature in refl
  left-parse_signature (suc fuel) s =
      let p = parse_signature nom fuel true in
      let q = parse_signature nom fuel false in
      let same = left-parse_signature fuel in
      let shrinks = parse_signature-Shrinks fuel in
      rw (parse_signature-suc nom fuel true s, parse_signature-suc nom fuel false s)
        (left-or_else (simple_type nom s) _ (simple_type nom s) _ refl (
          left-or_else _ _ _ _ (left-dict p q same shrinks s) (
            left-or_else _ _ _ _ (left-array p q same shrinks s) (
              left-or_else _ _ _ _ (left-structure p q same shrinks s)
                (left-maybe p q same shrinks s)))))

  abbrev Finishes : Option (List ℕ × Signature) → Type 0
  Finishes o = (x : Signature) × (and_then o finished ≡ some x)

  Finishes-left : (o o' : Option (List ℕ × Signature)) → left o ≡ left o' → Finishes o → Finishes o'
  Finishes-left none none h f = f
  Finishes-left none (some b) h (x, e) = absurd (cc e)
  Finishes-left (some a) none h f = absurd (cc h)
  Finishes-left (some ([], x)) (some ([], y)) h f = (y, refl)
  Finishes-left (some ([], x)) (some (c ∷ r, y)) h f = absurd (cc h)
  Finishes-left (some (c ∷ r, x)) o h (y, e) = absurd (cc e)

  -- Both settings of `check_only` accept the same texts.
  pub parse_check_only :
      (bytes : List ℕ)
      → ((x : Signature) × (parse nom bytes true ≡ some x))
        ↔ ((x : Signature) × (parse nom bytes false ≡ some x))
  parse_check_only [] =
      (λ _. (Signature.unit, parse_nil nom false), λ _. (Signature.unit, parse_nil nom true))
  parse_check_only (c ∷ s) =
      let fuel = length (c ∷ s) + 1 in
      let same =
        left-many (parse_signature nom fuel true) (parse_signature nom fuel false)
          (left-parse_signature fuel) (parse_signature-Shrinks fuel) true (c ∷ s) in
      rw (parse_cons nom c s true, parse_cons nom c s false)
        (Finishes-left _ _ same, Finishes-left _ _ (sym same))

  validate-eq-some :
      (bytes : List ℕ)
      → (validate nom bytes ≡ some tt) ↔ ((x : Signature) × (parse nom bytes true ≡ some x))
  unfolding validate
  validate-eq-some bytes = found (parse nom bytes true)

  -- `validate` accepts exactly the texts that `parse` gives a signature for.
  pub validate_iff :
      (bytes : List ℕ)
      → (validate nom bytes ≡ some tt) ↔ ((x : Signature) × (parse nom bytes false ≡ some x))
  validate_iff bytes =
      let (here, back) = validate-eq-some bytes in
      let (to, from) = parse_check_only bytes in (λ h. to (here h), λ h. back (from h))

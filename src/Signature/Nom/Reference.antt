-- ===== src/Signature/Nom/Reference.antt =====
-- The combinators of `nom` that the signature parser calls, as their documentation describes
-- them: the laws of the interface can be met.
use zbus.Prelude.{
  ℕ, zero, suc, ◌<◌, ◌≡◌, refl, sym, ◌∙◌, inl, inr, true, false, none, some, List, [], ◌∷◌, ◌==◌,
  ltb, if◌then◌else◌, length, arith, Option-cases, Bool-cases, lt→ltb,
}
use zbus.Signature.Nom.{Nom, Parser, and_then, or_else}

abbrev tag : List ℕ → Parser (List ℕ)
tag [] s = some (s, [])
tag (b ∷ t) [] = none
tag (b ∷ t) (c ∷ s) = if c == b then and_then (tag t s) (λ (r, u). some (r, b ∷ u)) else none

abbrev alt : {A : Type 0} → List (Parser A) → Parser A
alt [] s = none
alt (p ∷ []) s = p s
alt (p ∷ q ∷ ps) s = or_else (p s) (alt (q ∷ ps) s)

abbrev eof : Parser (List ℕ)
eof [] = some ([], [])
eof (c ∷ s) = none

-- The loop of `fold_many1` behind its first success. It stops where the parser fails, and fails
-- itself where the parser reads nothing.
pub fold_rest : {A B : Type 0} → ℕ → Parser A → B → (B → A → B) → Parser B
fold_rest zero p acc g s = some (s, acc)
fold_rest (suc fuel) p acc g s = elim (p s) [
  | none ↦ some (s, acc)
  | some (r, a) ↦ elim (ltb (length r) (length s)) [
    | true ↦ fold_rest fuel p (g acc a) g r
    | false ↦ none
  ]
]

pub fold_many1 : {A B : Type 0} → Parser A → B → (B → A → B) → Parser B
fold_many1 p acc g s = and_then (p s) (λ (r, a). fold_rest (suc (length r)) p (g acc a) g r)

module _ {A B : Type 0} (p : Parser A) (g : B → A → B) where
  pub fold_rest_stop :
      (n : ℕ) (acc : B) (s : List ℕ) → p s ≡ none → fold_rest (suc n) p acc g s ≡ some (s, acc)
  unfolding fold_rest
  fold_rest_stop n acc s e = rw (e, fold_rest)

  fold_rest_go :
      (n : ℕ) (acc : B) (s r : List ℕ) (a : A)
      → p s ≡ some (r, a)
      → ltb (length r) (length s) ≡ true
      → fold_rest (suc n) p acc g s ≡ fold_rest n p (g acc a) g r
  unfolding fold_rest
  fold_rest_go n acc s r a e h = rw (e, fold_rest) (rw h)

  fold_rest_stuck :
      (n : ℕ) (acc : B) (s r : List ℕ) (a : A)
      → p s ≡ some (r, a)
      → ltb (length r) (length s) ≡ false
      → fold_rest (suc n) p acc g s ≡ none
  unfolding fold_rest
  fold_rest_stuck n acc s r a e h = rw (e, fold_rest) (rw h)

  fold_rest_fuel :
      (n m : ℕ) (acc : B) (s : List ℕ)
      → length s < n
      → length s < m
      → fold_rest n p acc g s ≡ fold_rest m p acc g s
  fold_rest_fuel zero m acc s h k = absurd (omega arith)
  fold_rest_fuel (suc n) zero acc s h k = absurd (omega arith)
  fold_rest_fuel (suc n) (suc m) acc s h k = elim (Option-cases (p s)) [
    | inl fails ↦ fold_rest_stop n acc s fails ∙ sym (fold_rest_stop m acc s fails)
    | inr ((r, a), e) ↦ elim (Bool-cases (ltb (length r) (length s))) [
      | inl less ↦
          fold_rest_go n acc s r a e less
          ∙ fold_rest_fuel n m (g acc a) r (ground arith) (ground arith)
          ∙ sym (fold_rest_go m acc s r a e less)
      | inr same ↦ fold_rest_stuck n acc s r a e same ∙ sym (fold_rest_stuck m acc s r a e same)
    ]
  ]

  pub fold_many1_none : (acc : B) (s : List ℕ) → p s ≡ none → fold_many1 p acc g s ≡ none
  unfolding fold_many1
  fold_many1_none acc s e = rw e

  pub fold_many1_first :
      (acc : B) (s r : List ℕ) (a : A)
      → p s ≡ some (r, a)
      → fold_many1 p acc g s ≡ fold_rest (suc (length r)) p (g acc a) g r
  unfolding fold_many1
  fold_many1_first acc s r a e = rw e

  pub fold_many1_more :
      (acc : B) (s r r' : List ℕ) (a b : A)
      → p s ≡ some (r, a)
      → p r ≡ some (r', b)
      → length r' < length r
      → fold_many1 p acc g s ≡ fold_many1 p (g acc a) g r
  fold_many1_more acc s r r' a b e e' h =
      fold_many1_first acc s r a e
      ∙ fold_rest_go (length r) (g acc a) r r' b e' (lt→ltb (length r') (length r) h)
      ∙ fold_rest_fuel (length r) (suc (length r')) _ r' h (omega arith)
      ∙ sym (fold_many1_first (g acc a) r r' b e')

unfoldable pub reference : Nom
unfolding fold_many1 fold_rest
reference = record {
  tag = tag;
  alt = alt;
  map = λ p f s. and_then (p s) (λ (r, a). some (r, f a));
  pair = λ p q s. and_then (p s) (λ (r, a). and_then (q r) (λ (r', b). some (r', (a, b))));
  delimited = λ p q o s.
      and_then (p s)
        (λ (r, a). and_then (q r) (λ (r', b). and_then (o r') (λ (r'', c). some (r'', b))));
  eof = eof;
  all_consuming = λ p s. and_then (p s) (λ (r, a). elim r [ [] ↦ some ([], a) | _ ∷ _ ↦ none ]);
  fold_many1 = fold_many1;
  many1_count = λ p s. fold_many1 p 0 (λ n _. suc n) s;
  tag_nil = λ b. refl;
  tag_cons = λ b c s. refl;
  alt_last = λ p s. refl;
  alt_more = λ p q ps s. refl;
  map_lem = λ p f s. refl;
  pair_lem = λ p q s. refl;
  delimited_lem = λ p q o s. refl;
  eof_nil = refl;
  eof_cons = λ c s. refl;
  all_consuming_lem = λ p s. refl;
  many1_none = λ p acc g s e. fold_many1_none p g acc s e;
  many1_last = λ p acc g s r a e e'.
      fold_many1_first p g acc s r a e ∙ fold_rest_stop p g (length r) (g acc a) r e';
  many1_more = λ p acc g s r r' a b e e' h. fold_many1_more p g acc s r r' a b e e' h;
  many1_count_lem = λ p s. refl;
}

-- ===== src/Signature/Nom.antt =====
-- The combinators of the `nom` crate that the signature parser calls, as an interface. They are
-- not part of the repository: the laws state their documented behaviour on complete input.
pub mod Reference
use zbus.Prelude.{
  ℕ, suc, ◌+◌, ◌<◌, ◌≡◌, Bool, Option, none, some, List, [], ◌∷◌, ◌==◌, if◌then◌else◌, length,
}

-- `IResult<&[u8], A>`: the input that is left and a value, or `none` for `Err::Error`. The
-- parsers used here are complete ones, which never answer `Incomplete` or `Failure`.
abbrev pub Parser : Type 0 → Type 0
Parser A = List ℕ → Option (List ℕ × A)

abbrev pub and_then {ℓ κ} : {A : Type ℓ} {B : Type κ} → Option A → (A → Option B) → Option B
and_then none f = none
and_then (some a) f = f a

abbrev pub or_else {ℓ} : {A : Type ℓ} → Option A → Option A → Option A
or_else none q = q
or_else (some a) q = some a

pub record Nom : Type 1 where
  pub tag : List ℕ → Parser (List ℕ)
  pub alt : {A : Type 0} → List (Parser A) → Parser A
  pub map : {A B : Type 0} → Parser A → (A → B) → Parser B
  pub pair : {A B : Type 0} → Parser A → Parser B → Parser (A × B)
  pub delimited : {A B C : Type 0} → Parser A → Parser B → Parser C → Parser B
  pub eof : Parser (List ℕ)
  pub all_consuming : {A : Type 0} → Parser A → Parser A
  pub fold_many1 : {A B : Type 0} → Parser A → B → (B → A → B) → Parser B
  pub many1_count : {A : Type 0} → Parser A → Parser ℕ
  -- A tag of one byte.
  pub tag_nil : (b : ℕ) → tag (b ∷ []) [] ≡ none
  pub tag_cons :
      (b c : ℕ) (s : List ℕ) → tag (b ∷ []) (c ∷ s) ≡ (if c == b then some (s, b ∷ []) else none)
  -- The alternatives are tried in order.
  pub alt_last : {A : Type 0} (p : Parser A) (s : List ℕ) → alt (p ∷ []) s ≡ p s
  pub alt_more :
      {A : Type 0} (p q : Parser A) (ps : List (Parser A)) (s : List ℕ)
      → alt (p ∷ q ∷ ps) s ≡ or_else (p s) (alt (q ∷ ps) s)
  pub map_lem :
      {A B : Type 0} (p : Parser A) (f : A → B) (s : List ℕ)
      → map p f s ≡ and_then (p s) (λ (r, a). some (r, f a))
  pub pair_lem :
      {A B : Type 0} (p : Parser A) (q : Parser B) (s : List ℕ)
      → pair p q s ≡ and_then (p s) (λ (r, a). and_then (q r) (λ (r', b). some (r', (a, b))))
  pub delimited_lem :
      {A B C : Type 0} (p : Parser A) (q : Parser B) (o : Parser C) (s : List ℕ)
      → delimited p q o s
        ≡ and_then
            (p s)
            (λ (r, a). and_then (q r) (λ (r', b). and_then (o r') (λ (r'', c). some (r'', b))))
  pub eof_nil : eof [] ≡ some ([], [])
  pub eof_cons : (c : ℕ) (s : List ℕ) → eof (c ∷ s) ≡ none
  pub all_consuming_lem :
      {A : Type 0} (p : Parser A) (s : List ℕ)
      → all_consuming p s ≡ and_then (p s) (λ (r, a). elim r [ [] ↦ some ([], a) | _ ∷ _ ↦ none ])
  -- `fold_many1` wants one success, and goes on until the parser fails.
  pub many1_none :
      {A B : Type 0} (p : Parser A) (acc : B) (g : B → A → B) (s : List ℕ)
      → p s ≡ none
      → fold_many1 p acc g s ≡ none
  pub many1_last :
      {A B : Type 0} (p : Parser A) (acc : B) (g : B → A → B) (s r : List ℕ) (a : A)
      → p s ≡ some (r, a)
      → p r ≡ none
      → fold_many1 p acc g s ≡ some (r, g acc a)
  pub many1_more :
      {A B : Type 0} (p : Parser A) (acc : B) (g : B → A → B) (s r r' : List ℕ) (a b : A)
      → p s ≡ some (r, a)
      → p r ≡ some (r', b)
      → length r' < length r
      → fold_many1 p acc g s ≡ fold_many1 p (g acc a) g r
  pub many1_count_lem :
      {A : Type 0} (p : Parser A) (s : List ℕ) → many1_count p s ≡ fold_many1 p 0 (λ n _. suc n) s

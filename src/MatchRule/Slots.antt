-- ===== src/MatchRule/Slots.antt =====
-- The arguments of a rule by their indices, in order: the vectors that the builder of
-- zbus/src/match_rule/builder.rs keeps sorted by a binary search.
use zbus.Prelude.{
  ℕ, zero, suc, ◌≤◌, ◌<◌, ◌≡◌, ◌≢◌, refl, sym, subst, ◌⊎◌, ap, ◌∙◌, Bool, true, false, Option, none,
  some, List, [], ◌∷◌, ◌++◌, Result, ok, err, ltb, ◌==◌, ==_iff, ge→ltb, lt→ltb, if◌then◌else◌, All,
  Bool-cases, inl, inr, arith,
}

-- `slice::binary_search_by` with `Ord::cmp` on the index, as it is documented for sorted slices:
-- the place of the element, or the place where it can be inserted.
abbrev shift : Result ℕ ℕ → Result ℕ ℕ
shift (err i) = err (suc i)
shift (ok i) = ok (suc i)

module _ {A : Type 0} where
  unfoldable pub binary_search : ℕ → List (ℕ × A) → Result ℕ ℕ
  binary_search idx [] = err 0
  binary_search idx ((i, v) ∷ slots) =
      let rest = binary_search idx slots in
      if ltb i idx then shift rest else if i == idx then ok 0 else err 0

  -- `Vec::remove` and `Vec::insert`
  abbrev pub remove : ℕ → List A → List A
  remove i [] = []
  remove zero (x ∷ xs) = xs
  remove (suc i) (x ∷ xs) = x ∷ remove i xs

  abbrev pub insert : ℕ → A → List A → List A
  insert zero v xs = v ∷ xs
  insert (suc i) v [] = v ∷ []
  insert (suc i) v (x ∷ xs) = x ∷ insert i v xs

compare-cases : (a b : ℕ) → (a < b) ⊎ ((a ≡ b) ⊎ (b < a))
compare-cases a b = ground arith

module _ {A : Type 0} where
  abbrev place_at : Result ℕ ℕ → ℕ × A → List (ℕ × A) → List (ℕ × A)
  place_at (ok i) value slots = insert i value (remove i slots)
  place_at (err i) value slots = insert i value slots

  -- The end of `arg` and of `arg_path`: the new slot replaces the one of its index, or goes
  -- between its neighbours.
  unfoldable pub place : ℕ → A → List (ℕ × A) → List (ℕ × A)
  place idx v slots = place_at (binary_search idx slots) (idx, v) slots

  -- The indices rise, from at least `lo`, and stay below `hi`.
  abbrev pub Ascending : ℕ → ℕ → List (ℕ × A) → Type 0
  Ascending lo hi [] = Unit {0}
  Ascending lo hi ((i, v) ∷ slots) = (lo ≤ i) × (i < hi) × Ascending (suc i) hi slots

  abbrev pub slot : ℕ → List (ℕ × A) → Option A
  slot idx [] = none
  slot idx ((i, v) ∷ slots) = if i == idx then some v else slot idx slots

  pub place-nil : (idx : ℕ) (v : A) → place idx v [] ≡ (idx, v) ∷ []
  unfolding place binary_search
  place-nil idx v = refl

  place_at-shift :
      (r : Result ℕ ℕ) (x value : ℕ × A) (slots : List (ℕ × A))
      → place_at (shift r) value (x ∷ slots) ≡ x ∷ place_at r value slots
  place_at-shift (err i) x value slots = refl
  place_at-shift (ok i) x value slots = refl

  -- The three cases of `place`.
  place-after :
      (idx i : ℕ) (v w : A) (slots : List (ℕ × A))
      → i < idx
      → place idx v ((i, w) ∷ slots) ≡ (i, w) ∷ place idx v slots
  unfolding place binary_search
  place-after idx i v w slots h =
      rw (lt→ltb i idx h) (place_at-shift (binary_search idx slots) (i, w) (idx, v) slots)

  place-here :
      (idx : ℕ) (v w : A) (slots : List (ℕ × A)) → place idx v ((idx, w) ∷ slots) ≡ (idx, v) ∷ slots
  unfolding place binary_search
  place-here idx v w slots =
      let here : (idx == idx) ≡ true = ground arith in rw (ge→ltb idx idx (omega arith), here) refl

  place-before :
      (idx i : ℕ) (v w : A) (slots : List (ℕ × A))
      → idx < i
      → place idx v ((i, w) ∷ slots) ≡ (idx, v) ∷ (i, w) ∷ slots
  unfolding place binary_search
  place-before idx i v w slots h =
      let other : (i == idx) ≡ false = ground arith in rw (ge→ltb i idx (omega arith), other) refl

  lower :
      (lo lo' hi : ℕ) (slots : List (ℕ × A))
      → lo' ≤ lo
      → Ascending lo hi slots
      → Ascending lo' hi slots
  lower lo lo' hi [] h up = tt
  lower lo lo' hi ((i, v) ∷ slots) h (a, b, up) = (omega arith, b, up)

  pub place-Ascending :
      (idx lo hi : ℕ) (v : A) (slots : List (ℕ × A))
      → lo ≤ idx
      → idx < hi
      → Ascending lo hi slots
      → Ascending lo hi (place idx v slots)
  place-Ascending idx lo hi v [] a b up = subst (Ascending lo hi) (sym (place-nil idx v)) (a, b, tt)
  place-Ascending idx lo hi v ((i, w) ∷ slots) a b (c, d, up) = elim (compare-cases i idx) [
    | inl before ↦
        subst (Ascending lo hi) (sym (place-after idx i v w slots before))
          (c, d, place-Ascending idx (suc i) hi v slots (omega arith) b up)
    | inr (inl same) ↦
        subst (Ascending lo hi)
          (sym (ap (λ i. place idx v ((i, w) ∷ slots)) same ∙ place-here idx v w slots))
          (a, b, subst (λ i. Ascending (suc i) hi slots) same up)
    | inr (inr after) ↦
        subst (Ascending lo hi) (sym (place-before idx i v w slots after))
          (a, b, (omega arith, d, up))
  ]

  slot-above :
      (idx lo hi : ℕ) (slots : List (ℕ × A))
      → idx < lo
      → Ascending lo hi slots
      → slot idx slots ≡ none
  slot-above idx lo hi [] h up = refl
  slot-above idx lo hi ((i, v) ∷ slots) h (a, b, up) =
      let other : (i == idx) ≡ false = ground arith in
      rw other (slot-above idx (suc i) hi slots (omega arith) up)

  -- The slot of the index holds the new value, and the other slots are as they were.
  pub slot-place :
      (idx j lo hi : ℕ) (v : A) (slots : List (ℕ × A))
      → Ascending lo hi slots
      → slot j (place idx v slots) ≡ (if idx == j then some v else slot j slots)
  slot-place idx j lo hi v [] up = ap (slot j) (place-nil idx v)
  slot-place idx j lo hi v ((i, w) ∷ slots) (a, b, up) = elim (compare-cases i idx) [
    | inl before ↦
        ap (slot j) (place-after idx i v w slots before)
        ∙ ap (λ s. if i == j then some w else s) (slot-place idx j (suc i) hi v slots up)
        ∙ apart (ne i j before) (slot j slots)
    | inr (inl same) ↦
        ap (λ i. slot j (place idx v ((i, w) ∷ slots))) same
        ∙ ap (slot j) (place-here idx v w slots)
        ∙ again same
    | inr (inr after) ↦ ap (slot j) (place-before idx i v w slots after)
  ]
    where
      ne : (i j : ℕ) → i < idx → ((i == j) ≡ false) ⊎ ((idx == j) ≡ false)
      ne i j h = elim (Bool-cases (i == j)) [
        | inl e ↦ let same = (==_iff i j).0 e in inr (ground arith)
        | inr e ↦ inl e
      ]

      apart :
          ((i == j) ≡ false) ⊎ ((idx == j) ≡ false)
          → (rest : Option A)
          → (if i == j then some w else (if idx == j then some v else rest))
            ≡ (if idx == j then some v else (if i == j then some w else rest))
      apart (inl e) rest = rw e refl
      apart (inr e) rest = rw e refl

      again :
          i ≡ idx
          → (if idx == j then some v else slot j slots)
            ≡ (if idx == j then some v else (if i == j then some w else slot j slots))
      again same = rw same (twice (idx == j) (slot j slots))
        where
          twice :
              (b : Bool) (rest : Option A)
              → (if b then some v else rest) ≡ (if b then some v else (if b then some w else rest))
          twice true rest = refl
          twice false rest = refl

  abbrev pub IsBelow : ℕ → List (ℕ × A) → Type 0
  IsBelow hi [] = Unit {0}
  IsBelow hi ((i, v) ∷ slots) = (i < hi) × IsBelow hi slots

  -- A slot above all others goes to the end.
  pub place-last :
      (idx : ℕ) (v : A) (slots : List (ℕ × A))
      → IsBelow idx slots
      → place idx v slots ≡ slots ++ ((idx, v) ∷ [])
  place-last idx v [] h = place-nil idx v
  place-last idx v ((i, w) ∷ slots) (h, hs) =
      place-after idx i v w slots h ∙ ap (λ s. (i, w) ∷ s) (place-last idx v slots hs)

  pub place-All :
      (P : A → Type 0) (idx : ℕ) (v : A) (slots : List (ℕ × A))
      → P v
      → All (λ s. P s.1) slots
      → All (λ s. P s.1) (place idx v slots)
  place-All P idx v [] h hs = subst (All (λ s. P s.1)) (sym (place-nil idx v)) (h, tt)
  place-All P idx v ((i, w) ∷ slots) h (k, ks) = elim (compare-cases i idx) [
    | inl before ↦
        subst (All (λ s. P s.1)) (sym (place-after idx i v w slots before))
          (k, place-All P idx v slots h ks)
    | inr (inl same) ↦
        subst (All (λ s. P s.1))
          (sym (ap (λ i. place idx v ((i, w) ∷ slots)) same ∙ place-here idx v w slots)) (h, ks)
    | inr (inr after) ↦
        subst (All (λ s. P s.1)) (sym (place-before idx i v w slots after)) (h, (k, ks))
  ]

  pub place-filled : (idx : ℕ) (v : A) (slots : List (ℕ × A)) → place idx v slots ≢ []
  place-filled idx v [] e = absurd (cc (place-nil idx v, e))
  place-filled idx v ((i, w) ∷ slots) e = elim (compare-cases i idx) [
    | inl before ↦ absurd (cc (place-after idx i v w slots before, e))
    | inr (inl same) ↦
        let here = ap (λ i. place idx v ((i, w) ∷ slots)) same ∙ place-here idx v w slots in
        absurd (cc (here, e))
    | inr (inr after) ↦ absurd (cc (place-before idx i v w slots after, e))
  ]

-- ===== src/Names/Scan.antt =====
-- What a loop over the elements of a name accepts.
use zbus.Prelude.{
  ℕ, ◌≡◌, ◌≢◌, refl, ap, ◌∙◌, ◌↔◌, inl, inr, Bool, true, false, Option, none, some, List, [], ◌∷◌,
  ◌++◌, ◌==◌, ==_iff, if◌then◌else◌, Bool-cases,
}

-- Elements with dots between them.
abbrev pub join : List ℕ → List (List ℕ) → List ℕ
join p [] = p
join p (q ∷ qs) = p ++ (b'.' ∷ join q qs)

infixl 5 ◌>>=?◌
abbrev pub ◌>>=?◌ : Option Bool → (Bool → Option Bool) → Option Bool
none >>=? f = none
some b >>=? f = f b

abbrev pub round : (Bool → ℕ → Bool) → Bool → Bool → ℕ → Option Bool
round fits start no_dot c =
    if c == b'.'
    then if start then none else some false
    else if fits start c
    then some no_dot
    else none

-- A loop that keeps whether it stands at the start of an element, and whether it has seen no dot;
-- `fits` tests a character, by its place.
unfoldable pub scan : (Bool → ℕ → Bool) → Bool → Bool → List ℕ → Option Bool
scan fits start no_dot [] = some no_dot
scan fits start no_dot (c ∷ chars) =
    round fits start no_dot c >>=? λ no_dot. scan fits (c == b'.') no_dot chars

abbrev dots : Bool → List (List ℕ) → Bool
dots no_dot [] = no_dot
dots no_dot (q ∷ qs) = false

module _ (fits : Bool → ℕ → Bool) where
  -- The characters of an element, the first of them at its start or not.
  abbrev pub IsElement : Bool → List ℕ → Type 0
  IsElement start [] = Unit {0}
  IsElement start (c ∷ cs) = (fits start c ≡ true) × IsElement false cs

  abbrev pub IsLongEnough : Bool → List ℕ → Type 0
  IsLongEnough start p = (start ≡ true) → p ≢ []

  -- An element that a dot follows is not empty.
  abbrev pub AreElements : Bool → List ℕ → List (List ℕ) → Type 0
  AreElements start p [] = IsElement start p
  AreElements start p (q ∷ qs) = IsLongEnough start p × IsElement start p × AreElements true q qs

  abbrev Parts : Bool → Bool → List ℕ → Bool → Type 0
  Parts start no_dot s r =
      (p : List ℕ) × (qs : List (List ℕ)) × (s ≡ join p qs)
      × AreElements start p qs
      × (r ≡ dots no_dot qs)

module _ (fits : Bool → ℕ → Bool) (no_dots : (b : Bool) → fits b b'.' ≡ false) where
  not_dot : (start : Bool) (c : ℕ) → fits start c ≡ true → (c == b'.') ≡ false
  not_dot start c h = elim (Bool-cases (c == b'.')) [
    | inl dot ↦ let e = (==_iff c b'.').0 dot in absurd (cc (rw e at h, no_dots start))
    | inr word ↦ word
  ]

  seen_dot : (qs : List (List ℕ)) → dots false qs ≡ false
  seen_dot [] = refl
  seen_dot (q ∷ qs) = refl

  at_dot :
      (start : Bool) (c : ℕ) (no_dot : Bool) (chars : List ℕ) (r : Bool)
      → (c == b'.') ≡ true
      → (scan fits true false chars ≡ some r → Parts fits true false chars r)
      → scan fits start no_dot (c ∷ chars) ≡ some r
      → Parts fits start no_dot (c ∷ chars) r
  unfolding scan
  at_dot true c no_dot chars r dot rest h = absurd (cc (rw dot at h))
  at_dot false c no_dot chars r dot rest h =
      let (p, qs, split, elements, e) = rest (rw dot at h) in
      let c_dot = (==_iff c b'.').0 dot in
      ([], p ∷ qs, cc, ((λ f. absurd (cc f)), tt, elements), e ∙ seen_dot qs)

  scan_sound :
      (start no_dot : Bool) (s : List ℕ) (r : Bool)
      → scan fits start no_dot s ≡ some r
      → Parts fits start no_dot s r
  unfolding scan
  scan_sound start no_dot [] r h = ([], [], refl, tt, cc)
  scan_sound start no_dot (c ∷ chars) r h = elim (Bool-cases (c == b'.')) [
    | inl dot ↦ at_dot start c no_dot chars r dot (scan_sound true false chars r) h
    | inr word ↦ elim (Bool-cases (fits start c)) [
      | inl fine ↦ at_word fine (scan_sound false no_dot chars r (rw (word, fine) at h))
      | inr bad ↦ absurd (cc (rw (word, bad) at h))
    ]
  ]
    where
      at_word :
          fits start c ≡ true
          → Parts fits false no_dot chars r
          → Parts fits start no_dot (c ∷ chars) r
      at_word fine (p, [], split, elements, e) =
          (c ∷ p, [], ap (λ t. c ∷ t) split, (fine, elements), e)
      at_word fine (p, q ∷ qs, split, (_, element, elements), e) = (
        c ∷ p,
        q ∷ qs,
        ap (λ t. c ∷ t) split,
        ((λ _ empty. absurd (cc empty)), (fine, element), elements),
        e,
      )

  scan-word :
      (start no_dot : Bool) (c : ℕ) (s : List ℕ)
      → fits start c ≡ true
      → scan fits start no_dot (c ∷ s) ≡ scan fits false no_dot s
  unfolding scan
  scan-word start no_dot c s h = rw (not_dot start c h, h) refl

  scan_complete :
      (start no_dot : Bool) (p : List ℕ) (qs : List (List ℕ))
      → AreElements fits start p qs
      → scan fits start no_dot (join p qs) ≡ some (dots no_dot qs)
  unfolding scan
  scan_complete start no_dot [] [] h = refl
  scan_complete start no_dot (c ∷ cs) [] (hc, hcs) =
      scan-word start no_dot c cs hc ∙ scan_complete false no_dot cs [] hcs
  scan_complete true no_dot [] (q ∷ qs) (long, h, hs) = absurd (long refl refl)
  scan_complete false no_dot [] (q ∷ qs) (long, h, hs) =
      scan_complete true false q qs hs ∙ ap some (seen_dot qs)
  scan_complete start no_dot (c ∷ cs) (q ∷ qs) (long, (hc, hcs), hs) =
      scan-word start no_dot c (cs ++ (b'.' ∷ join q qs)) hc
      ∙ scan_complete false no_dot cs (q ∷ qs) ((λ f. absurd (cc f)), hcs, hs)

  -- Where the loop ends with a dot seen, the text is elements with at least one dot between them.
  pub scan_iff :
      (start : Bool) (s : List ℕ)
      → (scan fits start true s ≡ some false) ↔ (
          (p q : List ℕ) × (qs : List (List ℕ)) × (s ≡ join p (q ∷ qs))
          × AreElements fits start p (q ∷ qs))
  scan_iff start s = (
    (λ h. at_least_two (scan_sound start true s false h)),
    λ (p, q, qs, split, elements). rw split (scan_complete start true p (q ∷ qs) elements),
  )
    where
      at_least_two :
          Parts fits start true s false
          → (p q : List ℕ) × (qs : List (List ℕ)) × (s ≡ join p (q ∷ qs))
            × AreElements fits start p (q ∷ qs)
      at_least_two (p, [], split, elements, e) = absurd (cc e)
      at_least_two (p, q ∷ qs, split, elements, e) = (p, q, qs, split, elements)

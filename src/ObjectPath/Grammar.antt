-- ===== src/ObjectPath/Grammar.antt =====
-- The object paths that the validator of zvariant/src/object_path.rs accepts.
use zbus.Prelude.{
  ℕ, suc, ◌+◌, ◌-◌, ◌≤◌, ◌≡◌, ◌≢◌, refl, sym, ap, ◌∙◌, ◌↔◌, ◌⊎◌, inl, inr, Bool, true, false, not,
  ◌&&◌, ◌||◌, List, [], ◌∷◌, ◌++◌, Result, ok, err, ◌>>=◌, ◌==◌, ==_iff, ltb, if◌then◌else◌, length,
  All, Bool-cases, arith,
}
use zbus.Text.{is_ascii_alphanumeric}
use zbus.ObjectPath.{PathError, path_step, path_loop, ensure_correct_object_path_str}

abbrev pub is_path_char : ℕ → Bool
is_path_char c = is_ascii_alphanumeric c || (c == b'_')

-- A non-empty element of letters, digits and `_`.
abbrev pub IsPathElement : List ℕ → Type 0
IsPathElement e = (e ≢ []) × All (λ c. is_path_char c ≡ true) e

-- Elements, each after a `/`.
abbrev pub path_text : List (List ℕ) → List ℕ
path_text [] = []
path_text (e ∷ es) = b'/' ∷ (e ++ path_text es)

-- `/`, or one or more elements, each after a `/`.
abbrev pub IsObjectPath : List ℕ → Type 0
IsObjectPath path =
    (path ≡ b'/' ∷ [])
    ⊎ ((e : List ℕ) × (es : List (List ℕ)) × (path ≡ path_text (e ∷ es))
        × All IsPathElement (e ∷ es))

abbrev is_ok : Result PathError (Unit {0}) → Bool
is_ok (err e) = false
is_ok (ok tt) = true

is_ok_iff : (r : Result PathError (Unit {0})) → (is_ok r ≡ true) ↔ (r ≡ ok tt)
is_ok_iff (err e) = ((λ h. absurd (cc h)), λ h. absurd (cc h))
is_ok_iff (ok tt) = ((λ h. refl), λ h. refl)

is_ok-bind :
    (r : Result PathError (Unit {0})) (next : Result PathError (Unit {0}))
    → is_ok (r >>= λ _. next) ≡ (is_ok r && is_ok next)
is_ok-bind (err e) next = refl
is_ok-bind (ok tt) next = refl

-- What a round accepts after the first: a slash that follows none and is not last, or a character.
abbrev accepts : Bool → Bool → Bool → Bool → Bool
accepts slash after_slash last word = if slash then not after_slash && not last else word

path_step-accepts :
    (len i prev c : ℕ)
    → 1 ≤ i
    → is_ok (path_step len i prev c)
      ≡ accepts (c == b'/') (prev == b'/') (ltb 1 len && (i == len - 1)) (is_path_char c)
unfolding path_step
path_step-accepts len i prev c h =
    let later : (i == 0) ≡ false = ground arith in
    rw later (
      tests (c == b'/') (prev == b'/') (ltb 1 len) (i == len - 1) (is_ascii_alphanumeric c)
        (c == b'_'))
  where
    tests :
        (slash after_slash long last word under : Bool)
        → is_ok (
            if slash && after_slash
            then err PathError.double_slash
            else if long && (last && slash)
            then err (PathError.trailing_slash c)
            else if not word && (not slash && not under)
            then err (PathError.unexpected_char c)
            else ok tt)
          ≡ accepts slash after_slash (long && last) (word || under)
    tests true true long last word under = refl
    tests true false true true word under = refl
    tests true false true false true under = refl
    tests true false true false false under = refl
    tests true false false last true under = refl
    tests true false false last false under = refl
    tests false after_slash true true true under = refl
    tests false after_slash true true false true = refl
    tests false after_slash true true false false = refl
    tests false after_slash true false true under = refl
    tests false after_slash true false false true = refl
    tests false after_slash true false false false = refl
    tests false after_slash false last true under = refl
    tests false after_slash false last false true = refl
    tests false after_slash false last false false = refl

-- The rest of a path, after a slash or not.
abbrev IsRest : Bool → List ℕ → Type 0
IsRest after_slash s =
    (p : List ℕ) × (es : List (List ℕ)) × (s ≡ p ++ path_text es)
    × ((after_slash ≡ true) → p ≢ [])
    × All (λ c. is_path_char c ≡ true) p
    × All IsPathElement es

abbrev is_nil : List ℕ → Bool
is_nil [] = true
is_nil (c ∷ s) = false

-- The loop after its first round, without indices.
rest_ok : Bool → List ℕ → Bool
rest_ok after_slash [] = true
rest_ok after_slash (c ∷ s) =
    accepts (c == b'/') after_slash (is_nil s) (is_path_char c) && rest_ok (c == b'/') s

path_loop-rest :
    (len i prev : ℕ) (s : List ℕ)
    → 1 ≤ i
    → len ≡ i + length s
    → is_ok (path_loop len i prev s) ≡ rest_ok (prev == b'/') s
unfolding path_loop rest_ok
path_loop-rest len i prev [] h e = refl
path_loop-rest len i prev (c ∷ s) h e =
    is_ok-bind (path_step len i prev c) (path_loop len (i + 1) c s)
    ∙ ap (λ b. b && is_ok (path_loop len (i + 1) c s)) (path_step-accepts len i prev c h)
    ∙ ap
        (λ last.
          accepts (c == b'/') (prev == b'/') last (is_path_char c)
          && is_ok (path_loop len (i + 1) c s))
        (place s e)
    ∙ ap (λ b. accepts (c == b'/') (prev == b'/') (is_nil s) (is_path_char c) && b)
        (path_loop-rest len (i + 1) c s (omega arith) (omega arith))
  where
    place : (s : List ℕ) → len ≡ i + length (c ∷ s) → (ltb 1 len && (i == len - 1)) ≡ is_nil s
    place [] e = ground arith
    place (d ∷ s) e = ground arith

rest_ok_sound :
    (after_slash : Bool) (c : ℕ) (s : List ℕ)
    → rest_ok after_slash (c ∷ s) ≡ true
    → IsRest after_slash (c ∷ s)
unfolding rest_ok
rest_ok_sound after_slash c [] h = elim (Bool-cases (c == b'/')) [
  | inl slash ↦ absurd (never after_slash (rw slash at h))
  | inr other ↦ elim (Bool-cases (is_path_char c)) [
    | inl word ↦ (c ∷ [], [], refl, (λ _ e. absurd (cc e)), (word, tt), tt)
    | inr bad ↦ absurd (cc (rw (other, bad) at h))
  ]
]
  where
    never : (b : Bool) → ((not b && false) && true) ≢ true
    never true e = cc e
    never false e = cc e
rest_ok_sound after_slash c (d ∷ s) h = elim (Bool-cases (c == b'/')) [
  | inl slash ↦
      let (first, rest) = after after_slash (rest_ok true (d ∷ s)) (rw slash at h) in
      let (p, es, split, long, words, elements) = rest_ok_sound true d s rest in
      let c_slash = (==_iff c b'/').0 slash in
      ([], p ∷ es, cc, (λ b. absurd (cc (b, first))), tt, ((long refl, words), elements))
  | inr other ↦ elim (Bool-cases (is_path_char c)) [
    | inl word ↦
        let (p, es, split, long, words, elements) =
          rest_ok_sound false d s (rw (other, word) at h) in
        (c ∷ p, es, ap (λ t. c ∷ t) split, (λ _ e. absurd (cc e)), (word, words), elements)
    | inr bad ↦ absurd (cc (rw (other, bad) at h))
  ]
]
  where
    after : (b r : Bool) → ((not b && true) && r) ≡ true → (b ≡ false) × (r ≡ true)
    after true r e = absurd (cc e)
    after false r e = (refl, e)

word_no_slash : (c : ℕ) → is_path_char c ≡ true → (c == b'/') ≡ false
word_no_slash c h = elim (Bool-cases (c == b'/')) [
  | inl slash ↦ let e = (==_iff c b'/').0 slash in absurd (cc (rw e at h))
  | inr other ↦ other
]

rest_ok_complete :
    (after_slash : Bool) (p : List ℕ) (es : List (List ℕ))
    → ((after_slash ≡ true) → p ≢ [])
    → All (λ c. is_path_char c ≡ true) p
    → All IsPathElement es
    → rest_ok after_slash (p ++ path_text es) ≡ true
unfolding rest_ok
rest_ok_complete after_slash [] [] long words elements = refl
rest_ok_complete true [] (e ∷ es) long words elements = absurd (long refl refl)
rest_ok_complete false [] ([] ∷ es) long words ((filled, _), elements) = absurd (filled refl)
rest_ok_complete false [] ((x ∷ e) ∷ es) long words ((filled, letters), elements) =
    rest_ok_complete true (x ∷ e) es (λ _. filled) letters elements
rest_ok_complete after_slash (c ∷ cs) es long (word, words) elements =
    rw (word_no_slash c word, word)
      (rest_ok_complete false cs es (λ f. absurd (cc f)) words elements)

-- The first round wants a slash.
first_slash : (n : ℕ) → path_step (suc n) 0 0 b'/' ≡ ok tt
unfolding path_step
first_slash n =
    let not_last : (ltb 1 (suc n) && ((0 == suc n - 1) && true)) ≡ false = ground arith in
    rw not_last refl

first_other :
    (n c : ℕ) → (c == b'/') ≡ false → path_step (suc n) 0 0 c ≡ err (PathError.no_slash_first c)
unfolding path_step
first_other n c h = rw h refl

after_first :
    (bytes : List ℕ)
    → (is_ok (path_loop (suc (length bytes)) 1 b'/' bytes) ≡ true) ↔ IsObjectPath (b'/' ∷ bytes)
unfolding rest_ok
after_first [] =
    let e = path_loop-rest 1 1 b'/' [] (omega arith) (omega arith) in ((λ h. inl refl), λ h. e)
after_first (d ∷ s) =
    let e = path_loop-rest (suc (length (d ∷ s))) 1 b'/' (d ∷ s) (omega arith) (omega arith) in
    (
      (λ h.
          let (p, es, split, long, words, elements) = rest_ok_sound true d s (sym e ∙ h) in
          inr (p, es, ap (λ t. b'/' ∷ t) split, ((long refl, words), elements))),
      λ h. e ∙ elim h [
        | inl short ↦ absurd (cc short)
        | inr (p, es, split, ((filled, words), elements)) ↦
            ap (rest_ok true) (tail_of split)
            ∙ rest_ok_complete true p es (λ _. filled) words elements
      ],
    )
  where
    tail_of : {t : List ℕ} → (b'/' ∷ d ∷ s) ≡ (b'/' ∷ t) → (d ∷ s) ≡ t
    tail_of e = cc e

-- A path is accepted exactly when it is `/`, or one or more non-empty elements of letters, digits
-- and `_`, each after a `/`.
pub ensure_correct_object_path_str_iff :
    (path : List ℕ) → (ensure_correct_object_path_str path ≡ ok tt) ↔ IsObjectPath path
unfolding ensure_correct_object_path_str path_loop
ensure_correct_object_path_str_iff [] =
    ((λ h. absurd (cc h)), λ h. absurd (elim h [ inl e ↦ cc e | inr (e, es, split, _) ↦ cc split ]))
ensure_correct_object_path_str_iff (c ∷ bytes) =
    let (to, from) = after_first bytes in
    let (fine, fine') = is_ok_iff (path_loop (suc (length bytes)) 1 b'/' bytes) in
    elim (Bool-cases (c == b'/')) [
      | inl slash ↦
          let e = (==_iff c b'/').0 slash in
          rw (e, first_slash (length bytes)) ((λ h. to (fine' h)), λ h. fine (from h))
      | inr other ↦ rw (first_other (length bytes) c other) (
        (λ h. absurd (cc h)),
        λ h. absurd (
            cc (
              other,
              (==_iff c b'/').1
                  (elim h [ inl e ↦ head_of e | inr (e, es, split, _) ↦ head_of split ]),
            )),
      )
    ]
  where
    head_of : {t : List ℕ} → (c ∷ bytes) ≡ (b'/' ∷ t) → c ≡ b'/'
    head_of e = cc e

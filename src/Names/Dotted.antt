-- ===== src/Names/Dotted.antt =====
-- The loops of the validators of zbus_names, as the scan of elements.
use zbus.Prelude.{
  ℕ, ◌≡◌, refl, sym, ap, ◌∙◌, ◌↔◌, Bool, true, false, not, ◌&&◌, Option, none, some, List, [], ◌∷◌,
  Result, ok, err, ◌>>=◌, ◌==◌, if◌then◌else◌,
}
use zbus.Text.{is_ascii_digit}
use zbus.Names.{
  Reason, double_dot, leading_digit, lacks_dot, not_allowed, is_dashed_char, at_start, dotted_step,
  dotted_loop, dotted, unique_step, unique_loop,
}
use zbus.Names.Scan.{scan, round, ◌>>=?◌}

abbrev value : Result Reason Bool → Option Bool
value (err r) = none
value (ok b) = some b

value-bind :
    (r : Result Reason Bool) (f : Bool → Result Reason Bool)
    → value (r >>= f) ≡ (value r >>=? λ b. value (f b))
value-bind (err r) f = refl
value-bind (ok b) f = refl

-- What an element takes: its characters, and no digit at its start.
abbrev pub dotted_fits : (ℕ → Bool) → Bool → ℕ → Bool
dotted_fits is_allowed start c = is_allowed c && not (is_ascii_digit c && start)

abbrev pub unique_fits : Bool → ℕ → Bool
unique_fits start c = is_dashed_char c

dotted_step-value :
    (is_allowed : ℕ → Bool) (prev : Option ℕ) (no_dot : Bool) (c : ℕ)
    → value (dotted_step is_allowed prev no_dot c)
      ≡ round (dotted_fits is_allowed) (at_start prev) no_dot c
unfolding dotted_step
dotted_step-value is_allowed prev no_dot c =
    tests (c == b'.') (at_start prev) (is_ascii_digit c) (is_allowed c)
  where
    tests :
        (dot start digit allowed : Bool)
        → value (
            if dot
            then if start then err double_dot else ok false
            else if digit && start
            then err leading_digit
            else if not allowed
            then err (not_allowed c)
            else ok no_dot)
          ≡ (if dot
              then if start then none else some false
              else if allowed && not (digit && start)
              then some no_dot
              else none)
    tests true true digit allowed = refl
    tests true false digit allowed = refl
    tests false true true true = refl
    tests false true true false = refl
    tests false true false true = refl
    tests false true false false = refl
    tests false false true true = refl
    tests false false true false = refl
    tests false false false true = refl
    tests false false false false = refl

dotted_loop-value :
    (is_allowed : ℕ → Bool) (prev : Option ℕ) (no_dot : Bool) (s : List ℕ)
    → value (dotted_loop is_allowed prev no_dot s)
      ≡ scan (dotted_fits is_allowed) (at_start prev) no_dot s
unfolding dotted_loop scan
dotted_loop-value is_allowed prev no_dot [] = refl
dotted_loop-value is_allowed prev no_dot (c ∷ chars) =
    value-bind (dotted_step is_allowed prev no_dot c)
      (λ nd. dotted_loop is_allowed (some c) nd chars)
    ∙ ap (λ r. r >>=? λ nd. value (dotted_loop is_allowed (some c) nd chars))
        (dotted_step-value is_allowed prev no_dot c)
    ∙ rest (round (dotted_fits is_allowed) (at_start prev) no_dot c)
        (λ nd. dotted_loop-value is_allowed (some c) nd chars)
  where
    rest :
        (r : Option Bool)
        → ((nd : Bool)
            → value (dotted_loop is_allowed (some c) nd chars)
              ≡ scan (dotted_fits is_allowed) (c == b'.') nd chars)
        → (r >>=? λ nd. value (dotted_loop is_allowed (some c) nd chars))
          ≡ (r >>=? λ nd. scan (dotted_fits is_allowed) (c == b'.') nd chars)
    rest none h = refl
    rest (some nd) h = h nd

unique_step-value :
    (prev : ℕ) (no_dot : Bool) (c : ℕ)
    → value (unique_step prev no_dot c) ≡ round unique_fits (prev == b'.') no_dot c
unfolding unique_step
unique_step-value prev no_dot c = tests (c == b'.') (prev == b'.') (is_dashed_char c)
  where
    tests :
        (dot start allowed : Bool)
        → value (
            if dot
            then if start then err double_dot else ok false
            else if not allowed
            then err (not_allowed c)
            else ok no_dot)
          ≡ (if dot
              then if start then none else some false
              else if allowed
              then some no_dot
              else none)
    tests true true allowed = refl
    tests true false allowed = refl
    tests false start true = refl
    tests false start false = refl

unique_loop-value :
    (prev : ℕ) (no_dot : Bool) (s : List ℕ)
    → value (unique_loop prev no_dot s) ≡ scan unique_fits (prev == b'.') no_dot s
unfolding unique_loop scan
unique_loop-value prev no_dot [] = refl
unique_loop-value prev no_dot (c ∷ chars) =
    value-bind (unique_step prev no_dot c) (λ nd. unique_loop c nd chars)
    ∙ ap (λ r. r >>=? λ nd. value (unique_loop c nd chars)) (unique_step-value prev no_dot c)
    ∙ rest (round unique_fits (prev == b'.') no_dot c) (λ nd. unique_loop-value c nd chars)
  where
    rest :
        (r : Option Bool)
        → ((nd : Bool) → value (unique_loop c nd chars) ≡ scan unique_fits (c == b'.') nd chars)
        → (r >>=? λ nd. value (unique_loop c nd chars))
          ≡ (r >>=? λ nd. scan unique_fits (c == b'.') nd chars)
    rest none h = refl
    rest (some nd) h = h nd

-- A check that a dot has been seen, after a loop.
abbrev pub ends_with_dot : Result Reason Bool → Result Reason (Unit {0})
ends_with_dot r = r >>= λ no_dot. if no_dot then err lacks_dot else ok tt

ends_with_dot_iff : (r : Result Reason Bool) → (ends_with_dot r ≡ ok tt) ↔ (value r ≡ some false)
ends_with_dot_iff (err e) = ((λ h. absurd (cc h)), λ h. absurd (cc h))
ends_with_dot_iff (ok true) = ((λ h. absurd (cc h)), λ h. absurd (cc h))
ends_with_dot_iff (ok false) = ((λ h. refl), λ h. refl)

pub dotted_iff :
    (is_allowed : ℕ → Bool) (s : List ℕ)
    → (dotted is_allowed s ≡ ok tt) ↔ (scan (dotted_fits is_allowed) true true s ≡ some false)
unfolding dotted
dotted_iff is_allowed s =
    let (to, from) = ends_with_dot_iff (dotted_loop is_allowed none true s) in
    let e = dotted_loop-value is_allowed none true s in ((λ h. sym e ∙ to h), λ h. from (e ∙ h))

pub unique_loop_iff :
    (s : List ℕ)
    → (ends_with_dot (unique_loop b':' true s) ≡ ok tt)
      ↔ (scan unique_fits false true s ≡ some false)
unique_loop_iff s =
    let (to, from) = ends_with_dot_iff (unique_loop b':' true s) in
    let e = unique_loop-value b':' true s in ((λ h. sym e ∙ to h), λ h. from (e ∙ h))

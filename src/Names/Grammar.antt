-- ===== src/Names/Grammar.antt =====
-- The names that the validators of zbus_names accept.
use zbus.Prelude.{
  ℕ, ◌≤◌, ◌≡◌, ◌≢◌, refl, ◌↔◌, ◌⊎◌, inl, inr, Bool, true, false, List, [], ◌∷◌, Result, ok, err,
  ltb, ltb-cases, ◌==◌, ==_iff, if◌then◌else◌, All, Bool-cases, arith,
}
use zbus.Text.{str_len, utf8, eq_text, eq_text_iff}
use zbus.Names.{
  Reason, Error, Check, relabel, is_word_char, is_dashed_char, dotted, unique_rest, member_loop,
  starts_with_digit, bus_own_name, ensure_correct_well_known_name, ensure_correct_interface_name,
  ensure_correct_error_name, ensure_correct_unique_name, ensure_correct_member_name, max_name_len,
}
use zbus.Names.Scan.{join, AreElements, scan_iff}
use zbus.Names.Dotted.{dotted_fits, unique_fits, dotted_iff, unique_loop_iff}

-- Two or more elements with dots between them: of allowed characters, not starting with a digit,
-- and not empty, but that the last one may be.
abbrev pub IsDotted : (ℕ → Bool) → List ℕ → Type 0
IsDotted is_allowed name =
    (p q : List ℕ) × (qs : List (List ℕ)) × (name ≡ join p (q ∷ qs))
    × AreElements (dotted_fits is_allowed) true p (q ∷ qs)

-- A `:`, then such elements with no rule on digits, the first of which may be empty as well.
abbrev pub IsUnique : List ℕ → Type 0
IsUnique name =
    (p q : List ℕ) × (qs : List (List ℕ)) × (name ≡ b':' ∷ join p (q ∷ qs))
    × AreElements unique_fits false p (q ∷ qs)

relabel_iff :
    (f : Reason → Error) (r : Result Reason (Unit {0})) → (relabel f r ≡ ok tt) ↔ (r ≡ ok tt)
relabel_iff f (err e) = ((λ h. absurd (cc h)), λ h. absurd (cc h))
relabel_iff f (ok tt) = ((λ h. refl), λ h. refl)

-- The tests of length, and what follows them.
bounds_iff :
    (name : List ℕ) (short long : Error) (rest : Check)
    → ((if ltb (str_len name) 3
          then err short
          else if ltb max_name_len (str_len name)
          then err long
          else rest)
        ≡ ok tt)
      ↔ ((3 ≤ str_len name) × (str_len name ≤ 255) × (rest ≡ ok tt))
bounds_iff name short long rest = elim (ltb-cases (str_len name) 3) [
  | inl (t, lt) ↦ ((λ h. absurd (cc (rw t at h))), λ (a, _, _). absurd (omega arith))
  | inr (t, ge) ↦ elim (ltb-cases max_name_len (str_len name)) [
    | inl (t', gt) ↦ ((λ h. absurd (cc (rw (t, t') at h))), λ (_, b, _). absurd (omega arith))
    | inr (t', le) ↦ ((λ h. (ge, le, rw (t, t') at h)), λ (_, _, h). rw (t, t') h)
  ]
]

names_iff :
    (name : List ℕ) (is_allowed : ℕ → Bool) (f : Reason → Error) (short long : Error)
    → is_allowed b'.' ≡ false
    → ((if ltb (str_len name) 3
          then err short
          else if ltb max_name_len (str_len name)
          then err long
          else relabel f (dotted is_allowed name))
        ≡ ok tt)
      ↔ ((3 ≤ str_len name) × (str_len name ≤ 255) × IsDotted is_allowed name)
names_iff name is_allowed f short long no_dot =
    let (to, from) = bounds_iff name short long (relabel f (dotted is_allowed name)) in
    let (plain, labelled) = relabel_iff f (dotted is_allowed name) in
    let (scanned, unscanned) = dotted_iff is_allowed name in
    let (split, joined) = scan_iff (dotted_fits is_allowed) (λ start. rw no_dot refl) true name in
    (
      (λ h. let (a, b, r) = to h in (a, b, split (scanned (plain r)))),
      λ (a, b, d). from (a, b, labelled (unscanned (joined d))),
    )

-- A well-known name is accepted exactly when it has 3 to 255 bytes and is two or more elements of
-- letters, digits, `_` and `-` with dots between them, none of which starts with a digit, and none
-- of which but the last is empty.
pub ensure_correct_well_known_name_iff :
    (name : List ℕ)
    → (ensure_correct_well_known_name name ≡ ok tt)
      ↔ ((3 ≤ str_len name) × (str_len name ≤ 255) × IsDotted is_dashed_char name)
unfolding ensure_correct_well_known_name str_len utf8
ensure_correct_well_known_name_iff [] = ((λ h. absurd (cc h)), λ (a, _, _). absurd (omega arith))
ensure_correct_well_known_name_iff (c ∷ cs) = names_iff (c ∷ cs) is_dashed_char _ _ _ refl

-- An interface name is accepted exactly when it has 3 to 255 bytes and is two or more elements of
-- letters, digits and `_` with dots between them, none of which starts with a digit, and none of
-- which but the last is empty; and an error name is accepted exactly when an interface name is.
pub ensure_correct_interface_name_iff :
    (name : List ℕ)
    → ((ensure_correct_interface_name name ≡ ok tt)
        ↔ ((3 ≤ str_len name) × (str_len name ≤ 255) × IsDotted is_word_char name))
      × ((ensure_correct_error_name name ≡ ok tt) ↔ (ensure_correct_interface_name name ≡ ok tt))
unfolding ensure_correct_interface_name ensure_correct_error_name
ensure_correct_interface_name_iff name =
    let (to, from) = names_iff name is_word_char Error.invalid_interface_name _ _ refl in
    let (to_error, from_error) = names_iff name is_word_char Error.invalid_error_name _ _ refl in
    ((to, from), ((λ h. from (to_error h)), λ h. from_error (to h)))

unique_rest_iff : (name : List ℕ) → (unique_rest name ≡ ok tt) ↔ IsUnique name
unfolding unique_rest
unique_rest_iff [] = ((λ h. absurd (cc h)), λ (p, q, qs, e, _). absurd (cc e))
unique_rest_iff (c ∷ cs) =
    let (scanned, unscanned) = unique_loop_iff cs in
    let (split, joined) = scan_iff unique_fits (λ start. refl) false cs in
    elim (Bool-cases (c == b':')) [
      | inl fine ↦
          let colon = (==_iff c b':').0 fine in
          (
            (λ h.
                let (p, q, qs, e, elements) = split (scanned (rw (fine, colon) at h)) in
                (p, q, qs, cc, elements)),
            λ (p, q, qs, e, elements).
                rw (fine, colon) (unscanned (joined (p, q, qs, tail_of e, elements))),
          )
      | inr bad ↦ (
        (λ h. absurd (cc (rw bad at h))),
        λ (p, q, qs, e, _).
            let colon : (c == b':') ≡ true = (==_iff c b':').1 (head_of e) in
            absurd (cc (bad, colon)),
      )
    ]
  where
    head_of : {t : List ℕ} → (c ∷ cs) ≡ (b':' ∷ t) → c ≡ b':'
    head_of e = cc e

    tail_of : {t : List ℕ} → (c ∷ cs) ≡ (b':' ∷ t) → cs ≡ t
    tail_of e = cc e

-- A unique name is accepted exactly when it has at most 255 bytes and is `org.freedesktop.DBus`
-- or a `:` and two or more elements of letters, digits, `_` and `-` with dots between them, none
-- of which but the first and the last is empty.
pub ensure_correct_unique_name_iff :
    (name : List ℕ)
    → (ensure_correct_unique_name name ≡ ok tt)
      ↔ ((str_len name ≤ 255) × ((name ≡ bus_own_name) ⊎ IsUnique name))
unfolding ensure_correct_unique_name
ensure_correct_unique_name_iff [] =
    ((λ h. absurd (cc h)), λ (_, e). absurd (elim e [ inl e ↦ cc e | inr (p, q, qs, e, _) ↦ cc e ]))
ensure_correct_unique_name_iff (c ∷ cs) =
    let name = c ∷ cs in
    let (plain, labelled) = relabel_iff Error.invalid_unique_name (unique_rest name) in
    let (accepted, accepts) = unique_rest_iff name in
    elim (ltb-cases max_name_len (str_len name)) [
      | inl (t, gt) ↦ ((λ h. absurd (cc (rw t at h))), λ (le, _). absurd (omega arith))
      | inr (t, le) ↦ elim (Bool-cases (eq_text name bus_own_name)) [
        | inl own ↦
            ((λ h. (le, inl ((eq_text_iff name bus_own_name).0 own))), λ _. rw (t, own) refl)
        | inr other ↦ (
          (λ h. (le, inr (accepted (plain (rw (t, other) at h))))),
          λ (_, e).
              rw (t, other)
                (elim e [
                  | inl same ↦ absurd (cc (other, (eq_text_iff name bus_own_name).1 same))
                  | inr u ↦ labelled (accepts u)
                ]),
        )
      ]
    ]

member_loop_iff : (s : List ℕ) → (member_loop s ≡ ok tt) ↔ All (λ c. is_word_char c ≡ true) s
unfolding member_loop
member_loop_iff [] = ((λ h. tt), λ h. refl)
member_loop_iff (c ∷ cs) =
    let (to, from) = member_loop_iff cs in
    elim (Bool-cases (is_word_char c)) [
      | inl fine ↦ ((λ h. (fine, to (rw fine at h))), λ (_, hs). rw fine (from hs))
      | inr bad ↦ ((λ h. absurd (cc (rw bad at h))), λ (h, _). absurd (cc (bad, h)))
    ]

-- A member name is accepted exactly when it has 1 to 255 bytes, is of letters, digits and `_` and
-- does not start with a digit.
pub ensure_correct_member_name_iff :
    (name : List ℕ)
    → (ensure_correct_member_name name ≡ ok tt) ↔ (
        (name ≢ [])
        × (str_len name ≤ 255)
        × (starts_with_digit name ≡ false)
        × All (λ c. is_word_char c ≡ true) name)
unfolding ensure_correct_member_name
ensure_correct_member_name_iff [] =
    ((λ h. absurd (cc h)), λ (filled, _, _, _). absurd (filled refl))
ensure_correct_member_name_iff (c ∷ cs) =
    let name = c ∷ cs in
    let (plain, labelled) = relabel_iff Error.invalid_member_name (member_loop name) in
    let (to, from) = member_loop_iff name in
    elim (ltb-cases max_name_len (str_len name)) [
      | inl (t, gt) ↦ ((λ h. absurd (cc (rw t at h))), λ (_, le, _, _). absurd (omega arith))
      | inr (t, le) ↦ elim (Bool-cases (starts_with_digit name)) [
        | inl digit ↦
            ((λ h. absurd (cc (rw (t, digit) at h))), λ (_, _, bad, _). absurd (cc (digit, bad)))
        | inr bad ↦ (
          (λ h. ((λ e. absurd (cc e)), le, bad, to (plain (rw (t, bad) at h)))),
          λ (_, _, _, hs). rw (t, bad) (labelled (from hs)),
        )
      ]
    ]

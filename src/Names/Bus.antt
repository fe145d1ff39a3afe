-- ===== src/Names/Bus.antt =====
-- The choice between unique and well-known names: zbus_names/src/bus_name.rs.
use zbus.Prelude.{
  ℕ, ◌≡◌, ◌≢◌, refl, ap, ◌∙◌, ◌↔◌, ◌⊎◌, inl, inr, Bool, true, false, ◌||◌, List, [], ◌∷◌, ok,
  bind_ok, ◌==◌, ==_iff, Bool-cases,
}
use zbus.Text.{eq_text, eq_text_iff}
use zbus.Names.{
  BusName, bus_name, unique, well_known, starts_with, bus_own_name, is_dashed_char,
  ensure_correct_unique_name, ensure_correct_well_known_name,
}
use zbus.Names.Grammar.{
  IsDotted, IsUnique, ensure_correct_unique_name_iff, ensure_correct_well_known_name_iff,
}

-- An element that a dot follows starts with a character that it allows.
dotted-starts : (name : List ℕ) → IsDotted is_dashed_char name → starts_with b':' name ≡ false
dotted-starts name ([], q, qs, split, (long, _, _)) = absurd (long refl refl)
dotted-starts name (c ∷ cs, q, qs, split, (long, (fits, _), _)) = elim (Bool-cases (c == b':')) [
  | inl colon ↦ let e = (==_iff c b':').0 colon in absurd (cc (rw e at fits))
  | inr other ↦ ap (starts_with b':') split ∙ other
]

unique-starts :
    (name : List ℕ)
    → (name ≡ bus_own_name) ⊎ IsUnique name
    → (starts_with b':' name || eq_text name bus_own_name) ≡ true
unique-starts name (inl own) =
    or_true (starts_with b':' name) (eq_text name bus_own_name)
      ((eq_text_iff name bus_own_name).1 own)
  where
    or_true : (a b : Bool) → b ≡ true → (a || b) ≡ true
    or_true true b h = refl
    or_true false b h = h
unique-starts name (inr (p, q, qs, split, _)) = rw split refl

-- `BusName::try_from` gives a unique name exactly where the text is a valid unique name, which
-- `org.freedesktop.DBus` is, and a well-known name exactly where it is another valid well-known
-- name; it refuses all other texts.
pub bus_name-eq-ok_iff :
    (value : List ℕ) (name : BusName)
    → (bus_name value ≡ ok name) ↔ (
        ((name ≡ unique value) × (ensure_correct_unique_name value ≡ ok tt))
        ⊎ ((name ≡ well_known value)
            × (ensure_correct_well_known_name value ≡ ok tt)
            × (value ≢ bus_own_name)))
unfolding bus_name
bus_name-eq-ok_iff value name =
    elim (Bool-cases (starts_with b':' value || eq_text value bus_own_name)) [
      | inl here ↦ (
        (λ h.
            let (u, valid, e) =
              bind_ok (ensure_correct_unique_name value) (λ _. ok (unique value)) (rw here at h) in
            inl (cc, valid)),
        λ h. rw here (elim h [
          | inl (same, valid) ↦ rw (valid, same) refl
          | inr (same, valid, other) ↦
              let (_, _, d) = (ensure_correct_well_known_name_iff value).0 valid in
              absurd (elsewhere (dotted-starts value d) other here)
        ]),
      )
      | inr there ↦ (
        (λ h.
            let (u, valid, e) =
              bind_ok (ensure_correct_well_known_name value) (λ _. ok (well_known value))
                (rw there at h) in
            inr (cc, valid, not_own there)),
        λ h. rw there (elim h [
          | inl (same, valid) ↦
              let (_, u) = (ensure_correct_unique_name_iff value).0 valid in
              absurd (cc (there, unique-starts value u))
          | inr (same, valid, other) ↦ rw (valid, same) refl
        ]),
      )
    ]
  where
    elsewhere :
        starts_with b':' value ≡ false
        → value ≢ bus_own_name
        → (starts_with b':' value || eq_text value bus_own_name) ≢ true
    elsewhere plain other here = other ((eq_text_iff value bus_own_name).0 (rw plain at here))

    not_own : (starts_with b':' value || eq_text value bus_own_name) ≡ false → value ≢ bus_own_name
    not_own there own = absurd (cc (there, unique-starts value (inl own)))

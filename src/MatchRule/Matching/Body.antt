-- ===== src/MatchRule/Matching/Body.antt =====
-- What `MatchRule::matches` in zbus/src/match_rule/mod.rs asks of the fields of a body.
use zbus.Prelude.{
  ℕ, ◌≡◌, refl, sym, ap, ◌∙◌, ◌↔◌, inl, inr, Bool, true, Option, none, some, List, [], ◌∷◌, and_iff,
  get_elem?, All, Bool-cases,
}
use zbus.Text.{eq_text_iff}
use zbus.MatchRule.Matching.{
  Field, str, object_path, other, eq_str, eq_path, args_check, body_check, fields_check,
}
use zbus.MatchRule.Matching.Checks.{some_injective}

-- A field of the body, if it has so many.
abbrev pub HasField : Option (List Field) → ℕ → Field → Type 0
HasField fields i f = (fs : List Field) × (fields ≡ some fs) × (get_elem? fs i ≡ some f)

-- The checks of the body, for either kind of arguments.
module _ (eq : List ℕ → Option Field → Bool) (kind : List ℕ → Field)
    (eq_iff : (a : List ℕ) (o : Option Field) → (eq a o ≡ true) ↔ (o ≡ some (kind a))) where
  args_check_iff :
      (args : List (ℕ × List ℕ)) (fields : List Field)
      → (args_check eq args fields ≡ true)
        ↔ All (λ slot. HasField (some fields) slot.0 (kind slot.1)) args
  unfolding args_check
  args_check_iff [] fields = ((λ h. tt), λ h. refl)
  args_check_iff ((i, a) ∷ args) fields =
      let (to, from) = args_check_iff args fields in
      elim (Bool-cases (eq a (get_elem? fields i))) [
        | inl fine ↦ (
          (λ h. ((fields, refl, (eq_iff a (get_elem? fields i)).0 fine), to (rw fine at h))),
          λ (_, h). rw fine (from h),
        )
        | inr bad ↦ (
          (λ h. absurd (cc (rw bad at h))),
          λ ((fs, e, here), _).
              let same = ap (λ fs. get_elem? fs i) (some_injective e) in
              absurd (cc ((eq_iff a (get_elem? fields i)).1 (same ∙ here), bad)),
        )
      ]

eq_str_iff : (a : List ℕ) (o : Option Field) → (eq_str a o ≡ true) ↔ (o ≡ some (str a))
eq_str_iff a none = ((λ h. absurd (cc h)), λ e. absurd (cc e))
eq_str_iff a (some (object_path q)) = ((λ h. absurd (cc h)), λ e. absurd (cc e))
eq_str_iff a (some other) = ((λ h. absurd (cc h)), λ e. absurd (cc e))
eq_str_iff a (some (str s)) = (
  (λ h. ap (λ s. some (str s)) (sym ((eq_text_iff a s).0 h))),
  λ e. let same : a ≡ s = cc e in (eq_text_iff a s).1 same,
)

eq_path_iff : (a : List ℕ) (o : Option Field) → (eq_path a o ≡ true) ↔ (o ≡ some (object_path a))
eq_path_iff a none = ((λ h. absurd (cc h)), λ e. absurd (cc e))
eq_path_iff a (some (str q)) = ((λ h. absurd (cc h)), λ e. absurd (cc e))
eq_path_iff a (some other) = ((λ h. absurd (cc h)), λ e. absurd (cc e))
eq_path_iff a (some (object_path s)) = (
  (λ h. ap (λ s. some (object_path s)) (sym ((eq_text_iff a s).0 h))),
  λ e. let same : a ≡ s = cc e in (eq_text_iff a s).1 same,
)

abbrev HaveFields : (List ℕ → Field) → Option (List Field) → List (ℕ × List ℕ) → Type 0
HaveFields kind fields args = All (λ slot. HasField fields slot.0 (kind slot.1)) args

fields_check_iff :
    (args paths : List (ℕ × List ℕ)) (fields : List Field)
    → (fields_check args paths (some fields) ≡ true)
      ↔ (HaveFields str (some fields) args × HaveFields object_path (some fields) paths)
fields_check_iff args paths fields =
    let (to, from) = args_check_iff eq_str str eq_str_iff args fields in
    let (to', from') = args_check_iff eq_path object_path eq_path_iff paths fields in
    let (split, join) = and_iff (args_check eq_str args fields) (args_check eq_path paths fields) in
    ((λ h. let (a, b) = split h in (to a, to' b)), λ (a, b). join (from a, from' b))

pub body_check_iff :
    (args paths : List (ℕ × List ℕ)) (fields : Option (List Field))
    → (body_check args paths fields ≡ true)
      ↔ (HaveFields str fields args × HaveFields object_path fields paths)
unfolding body_check
body_check_iff [] [] fields = ((λ h. (tt, tt)), λ h. refl)
body_check_iff [] (p ∷ ps) none = ((λ h. absurd (cc h)), λ (_, ((fs, e, _), _)). absurd (cc e))
body_check_iff [] (p ∷ ps) (some fields) = fields_check_iff [] (p ∷ ps) fields
body_check_iff (a ∷ args) ps none = ((λ h. absurd (cc h)), λ (((fs, e, _), _), _). absurd (cc e))
body_check_iff (a ∷ args) ps (some fields) = fields_check_iff (a ∷ args) ps fields

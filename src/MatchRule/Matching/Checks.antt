-- ===== src/MatchRule/Matching/Checks.antt =====
-- What the checks of `MatchRule::matches` in zbus/src/match_rule/mod.rs ask of a header.
use zbus.Prelude.{
  ℕ, ◌≡◌, refl, sym, ap, subst, ◌∙◌, ◌↔◌, ◌⊎◌, inl, inr, true, Option, none, some, List, [], ◌∷◌,
  ◌++◌, ◌==◌, ==_iff, ==_refl, if◌then◌else◌, Bool-cases, arith, append-nil,
}
use zbus.Text.{eq_text_iff, starts_with}
use zbus.Names.{BusName, unique, well_known}
use zbus.MatchRule.{
  MessageType, method_call, method_return, error, signal, PathSpec, path, path_namespace,
}
use zbus.MatchRule.Printing.{as_str}
use zbus.MatchRule.Matching.{
  discriminant, eq_type, type_check, sender_check, text_check, destination_check, path_check,
  strip_prefix, arg0ns_check, eq_some, is_boundary,
}

-- A text and what follows it: nothing, or a dot and more.
abbrev pub IsWithin : List ℕ → List ℕ → Type 0
IsWithin ns name = (name ≡ ns) ⊎ ((rest : List ℕ) × (name ≡ ns ++ (b'.' ∷ rest)))

-- A type by its discriminant.
numbered : ℕ → MessageType
numbered n =
    if n == 1
    then method_call
    else if n == 2
    then method_return
    else if n == 3
    then error
    else signal

numbered-discriminant : (t : MessageType) → numbered (discriminant t) ≡ t
unfolding numbered
numbered-discriminant method_call = refl
numbered-discriminant method_return = refl
numbered-discriminant error = refl
numbered-discriminant signal = refl

eq_type_iff : (s t : MessageType) → (eq_type s t ≡ true) ↔ (t ≡ s)
eq_type_iff s t = (
  (λ h.
      sym (numbered-discriminant t)
      ∙ ap numbered (sym ((==_iff (discriminant s) (discriminant t)).0 h))
      ∙ numbered-discriminant s),
  λ e. rw e (==_refl (discriminant s)),
)

pub some_injective {ℓ} : {A : Type ℓ} {a b : A} → some a ≡ some b → a ≡ b
some_injective e = cc e

eq_some_iff : (a : List ℕ) (o : Option (List ℕ)) → (eq_some a o ≡ true) ↔ (o ≡ some a)
eq_some_iff a none = ((λ h. absurd (cc h)), λ e. absurd (cc e))
eq_some_iff a (some b) = (
  (λ h. ap some (sym ((eq_text_iff a b).0 h))),
  λ e. (eq_text_iff a b).1 (sym (some_injective e)),
)

pub type_check_iff :
    (o : Option MessageType) (t' : MessageType)
    → (type_check o t' ≡ true) ↔ ((t : MessageType) → o ≡ some t → t' ≡ t)
unfolding type_check
type_check_iff none t' = ((λ h t e. absurd (cc e)), λ h. refl)
type_check_iff (some s) t' =
    ((λ h t e. (eq_type_iff s t').0 h ∙ some_injective e), λ h. (eq_type_iff s t').1 (h s refl))

pub sender_check_iff :
    (o : Option BusName) (m : Option (List ℕ))
    → (sender_check o m ≡ true) ↔ ((name : List ℕ) → o ≡ some (unique name) → m ≡ some name)
unfolding sender_check
sender_check_iff none m = ((λ h t e. absurd (cc e)), λ h. refl)
sender_check_iff (some (unique s)) m =
    ((λ h t e. (eq_some_iff s m).0 h ∙ injective e), λ h. (eq_some_iff s m).1 (h s refl))
  where
    injective : {t : List ℕ} → some (unique s) ≡ some (unique t) → some s ≡ some t
    injective e = cc e
sender_check_iff (some (well_known s)) m = ((λ h t e. absurd (cc e)), λ h. refl)

pub text_check_iff :
    (o m : Option (List ℕ))
    → (text_check o m ≡ true) ↔ ((name : List ℕ) → o ≡ some name → m ≡ some name)
unfolding text_check
text_check_iff none m = ((λ h t e. absurd (cc e)), λ h. refl)
text_check_iff (some s) m =
    ((λ h t e. (eq_some_iff s m).0 h ∙ e), λ h. (eq_some_iff s m).1 (h s refl))

pub destination_check_iff :
    (o : Option (List ℕ)) (m : Option BusName)
    → (destination_check o m ≡ true)
      ↔ ((name to : List ℕ) → o ≡ some name → m ≡ some (unique to) → to ≡ name)
unfolding destination_check
destination_check_iff none m = ((λ h t u e f. absurd (cc e)), λ h. refl)
destination_check_iff (some s) none = ((λ h t u e f. absurd (cc f)), λ h. refl)
destination_check_iff (some s) (some (well_known n)) = ((λ h t u e f. absurd (cc f)), λ h. refl)
destination_check_iff (some s) (some (unique n)) = (
  (λ h t u e f. sym (injective f) ∙ sym ((eq_text_iff s n).0 h) ∙ some_injective e),
  λ h. (eq_text_iff s n).1 (sym (h s n refl refl)),
)
  where
    injective : {u : List ℕ} → some (unique n) ≡ some (unique u) → n ≡ u
    injective e = cc e

-- `starts_with` by `strip_prefix`, and what that says.
strip_prefix_iff : (p s rest : List ℕ) → (strip_prefix p s ≡ some rest) ↔ (s ≡ p ++ rest)
unfolding strip_prefix
strip_prefix_iff [] s rest = (some_injective, ap some)
strip_prefix_iff (p ∷ ps) [] rest = ((λ h. absurd (cc h)), λ h. absurd (cc h))
strip_prefix_iff (p ∷ ps) (c ∷ s) rest = grind (arith, ==_iff c p, strip_prefix_iff ps s rest)

starts_with_iff : (p s : List ℕ) → (starts_with p s ≡ true) ↔ ((rest : List ℕ) × (s ≡ p ++ rest))
starts_with_iff [] s = ((λ h. (s, refl)), λ h. refl)
starts_with_iff (p ∷ ps) [] = ((λ h. absurd (cc h)), λ (rest, h). absurd (cc h))
starts_with_iff (p ∷ ps) (c ∷ s) = elim (Bool-cases (c == p)) [
  | inl same ↦ (
    (λ h.
        let (rest, e) = (starts_with_iff ps s).0 (rw same at h) in
        (rest, let c_p = (==_iff c p).0 same in cc)),
    λ (rest, e). rw same ((starts_with_iff ps s).1 (rest, cc e)),
  )
  | inr apart ↦ (
    (λ h. absurd (cc (rw apart at h))),
    λ (rest, e). let c_p = (==_iff c p).1 (cc e) in absurd (cc (c_p, apart)),
  )
]

pub path_check_iff :
    (o : Option PathSpec) (m : Option (List ℕ))
    → (path_check o m ≡ true) ↔ (
        ((p : List ℕ) → o ≡ some (path p) → m ≡ some p)
        × ((ns : List ℕ)
            → o ≡ some (path_namespace ns)
            → (rest : List ℕ) × (m ≡ some (ns ++ rest))))
unfolding path_check
path_check_iff none m = ((λ h. ((λ p e. absurd (cc e)), λ p e. absurd (cc e))), λ h. refl)
path_check_iff (some (path p)) none = ((λ h. absurd (cc h)), λ (f, g). absurd (cc (f p refl)))
path_check_iff (some (path_namespace p)) none =
    ((λ h. absurd (cc h)), λ (f, g). let (rest, e) = g p refl in absurd (cc e))
path_check_iff (some (path p)) (some m) = (
  (λ h. ((λ q e. ap some (sym ((eq_text_iff p m).0 h)) ∙ injective e), λ q e. absurd (cc e))),
  λ (f, g). (eq_text_iff p m).1 (sym (some_injective (f p refl))),
)
  where
    injective : {q : List ℕ} → some (path p) ≡ some (path q) → some p ≡ some q
    injective e = cc e
path_check_iff (some (path_namespace p)) (some m) = (
  (λ h.
      let (rest, split) = (starts_with_iff p m).0 h in
      ((λ q e. absurd (cc e)), λ q e. (rest, ap some split ∙ injective rest e))),
  λ (f, g). let (rest, e) = g p refl in (starts_with_iff p m).1 (rest, some_injective e),
)
  where
    injective :
        (rest : List ℕ) {q : List ℕ}
        → some (path_namespace p) ≡ some (path_namespace q)
        → some (p ++ rest) ≡ some (q ++ rest)
    injective rest {q = q} e = let same : p ≡ q = cc e in ap (λ t. some (t ++ rest)) same

is_boundary_iff : (ns s : List ℕ) → (is_boundary (strip_prefix ns s) ≡ true) ↔ IsWithin ns s
is_boundary_iff ns s = (to (strip_prefix ns s) refl, from)
  where
    to : (o : Option (List ℕ)) → strip_prefix ns s ≡ o → is_boundary o ≡ true → IsWithin ns s
    to none e h = absurd (cc h)
    to (some []) e h = inl ((strip_prefix_iff ns s []).0 e ∙ append-nil ns)
    to (some (c ∷ rest)) e h =
        let dot = (==_iff c b'.').0 h in
        inr (rest, (strip_prefix_iff ns s (c ∷ rest)).0 e ∙ ap (λ c. ns ++ (c ∷ rest)) dot)

    from : IsWithin ns s → is_boundary (strip_prefix ns s) ≡ true
    from (inl e) = ap is_boundary ((strip_prefix_iff ns s []).1 (e ∙ sym (append-nil ns)))
    from (inr (rest, e)) = ap is_boundary ((strip_prefix_iff ns s (b'.' ∷ rest)).1 e)

pub arg0ns_check_iff :
    (o : Option (List ℕ)) (m : Option BusName)
    → (arg0ns_check o m ≡ true) ↔ (
        (ns : List ℕ)
        → o ≡ some ns
        → (name : BusName) × (m ≡ some name) × IsWithin ns (as_str name))
unfolding arg0ns_check
arg0ns_check_iff none m = ((λ h ns e. absurd (cc e)), λ h. refl)
arg0ns_check_iff (some s) none =
    ((λ h ns e. absurd (cc h)), λ h. let (n, e, _) = h s refl in absurd (cc e))
arg0ns_check_iff (some s) (some name) = (
  (λ h ns e. (
    name,
    refl,
    subst (λ s. IsWithin s (as_str name)) (some_injective e)
        ((is_boundary_iff s (as_str name)).0 h),
  )),
  λ h.
      let (n, e, within) = h s refl in
      (is_boundary_iff s (as_str name)).1
        (subst (λ n. IsWithin s (as_str n)) (sym (some_injective e)) within),
)

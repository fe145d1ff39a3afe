-- ===== src/MatchRule/Commas.antt =====
-- Valid names and paths have no comma, so that the text of a rule of zbus/src/match_rule/mod.rs
-- can be split at its commas.
use zbus.Prelude.{
  ℕ, ◌≡◌, refl, sym, subst, ap, ◌⊎◌, inl, inr, Bool, true, false, List, [], ◌∷◌, ◌==◌, and_iff,
  ==_iff, all, All, All-append, Bool-cases,
}
use zbus.Names.{BusName, bus_own_name, is_word_char, is_dashed_char}
use zbus.Names.Scan.{join, IsElement, AreElements}
use zbus.Names.Dotted.{dotted_fits, unique_fits}
use zbus.Names.Grammar.{
  IsDotted, IsUnique, ensure_correct_unique_name_iff, ensure_correct_well_known_name_iff,
  ensure_correct_interface_name_iff, ensure_correct_member_name_iff,
}
use zbus.Names.Bus.{bus_name-eq-ok_iff}
use zbus.ObjectPath.Grammar.{
  IsPathElement, path_text, is_path_char, ensure_correct_object_path_str_iff,
}
use zbus.MatchRule.Builder.{is_namespace, is_namespace_char, valid_first_char}
use zbus.MatchRule.Printing.{as_str}
use zbus.MatchRule.Splitting.{HasNoComma, plain-HasNoComma}
use zbus.MatchRule.Validity.{IsBusName, IsInterface, IsMember, IsUniqueName, IsPath, IsNamespace}

not_comma : (fits : ℕ → Bool) → fits b',' ≡ false → (c : ℕ) → fits c ≡ true → (c == b',') ≡ false
not_comma fits h c fine = elim (Bool-cases (c == b',')) [
  | inl comma ↦ let e = (==_iff c b',').0 comma in absurd (cc (h, ap fits e, fine))
  | inr other ↦ other
]

clean_text :
    (fits : ℕ → Bool) → fits b',' ≡ false → (s : List ℕ) → All (λ c. fits c ≡ true) s → HasNoComma s
clean_text fits h [] hs = tt
clean_text fits h (c ∷ s) (fine, hs) = (not_comma fits h c fine, clean_text fits h s hs)

module _ (fits : Bool → ℕ → Bool) (h : (start : Bool) → fits start b',' ≡ false) where
  clean_element : (start : Bool) (s : List ℕ) → IsElement fits start s → HasNoComma s
  clean_element start [] e = tt
  clean_element start (c ∷ s) (fine, e) =
      (not_comma (fits start) (h start) c fine, clean_element false s e)

  clean_join :
      (start : Bool) (p : List ℕ) (qs : List (List ℕ))
      → AreElements fits start p qs
      → HasNoComma (join p qs)
  clean_join start p [] e = clean_element start p e
  clean_join start p (q ∷ qs) (_, e, es) =
      All-append (λ c. (c == b',') ≡ false) p (b'.' ∷ join q qs) (clean_element start p e)
        (refl, clean_join true q qs es)

clean_dotted :
    (is_allowed : ℕ → Bool)
    → is_allowed b',' ≡ false
    → (name : List ℕ) → IsDotted is_allowed name
    → HasNoComma name
clean_dotted is_allowed h name (p, q, qs, split, es) =
    subst HasNoComma (sym split)
      (clean_join (dotted_fits is_allowed) (λ start. rw h refl) true p (q ∷ qs) es)

clean_unique : (name : List ℕ) → (name ≡ bus_own_name) ⊎ IsUnique name → HasNoComma name
clean_unique name (inl own) = subst HasNoComma (sym own) (plain-HasNoComma bus_own_name refl)
clean_unique name (inr (p, q, qs, split, es)) =
    subst HasNoComma (sym split) (refl, clean_join unique_fits (λ start. refl) false p (q ∷ qs) es)

pub clean_unique_name : (name : List ℕ) → IsUniqueName name → HasNoComma name
clean_unique_name name h = clean_unique name ((ensure_correct_unique_name_iff name).0 h).1

pub clean_bus_name : (name : BusName) → IsBusName name → HasNoComma (as_str name)
clean_bus_name name h = elim ((bus_name-eq-ok_iff (as_str name) name).0 h) [
  | inl (_, valid) ↦ clean_unique_name (as_str name) valid
  | inr (_, valid, _) ↦
      let (_, _, dotted) = (ensure_correct_well_known_name_iff (as_str name)).0 valid in
      clean_dotted is_dashed_char refl (as_str name) dotted
]

pub clean_interface : (name : List ℕ) → IsInterface name → HasNoComma name
clean_interface name h =
    let (_, _, dotted) = (ensure_correct_interface_name_iff name).0.0 h in
    clean_dotted is_word_char refl name dotted

pub clean_member : (name : List ℕ) → IsMember name → HasNoComma name
clean_member name h =
    let (_, _, _, words) = (ensure_correct_member_name_iff name).0 h in
    clean_text is_word_char refl name words

clean_path_text : (es : List (List ℕ)) → All IsPathElement es → HasNoComma (path_text es)
clean_path_text [] h = tt
clean_path_text (e ∷ es) ((_, words), hs) = (
  refl,
  All-append (λ c. (c == b',') ≡ false) e (path_text es) (clean_text is_path_char refl e words)
      (clean_path_text es hs),
)

pub clean_path : (p : List ℕ) → IsPath p → HasNoComma p
clean_path p h = elim ((ensure_correct_object_path_str_iff p).0 h) [
  | inl root ↦ subst HasNoComma (sym root) (refl, tt)
  | inr (e, es, split, words) ↦ subst HasNoComma (sym split) (clean_path_text (e ∷ es) words)
]

all_sound : (p : ℕ → Bool) (s : List ℕ) → all p s ≡ true → All (λ c. p c ≡ true) s
all_sound p [] h = tt
all_sound p (c ∷ s) h =
    let (fine, rest) = (and_iff (p c) (all p s)).0 h in (fine, all_sound p s rest)

clean_stripped : (b : Bool) (s : List ℕ) → is_namespace (b, s) ≡ true → HasNoComma s
unfolding is_namespace
clean_stripped b s h =
    let (_, rest) = (and_iff (valid_first_char b s) _).0 h in
    let (_, chars) = (and_iff _ (all is_namespace_char s)).0 rest in
    clean_text is_namespace_char refl s (all_sound is_namespace_char s chars)

pub clean_namespace : (ns : List ℕ) → IsNamespace ns → HasNoComma ns
clean_namespace [] h = tt
clean_namespace (c ∷ s) (_, _, h) = elim (Bool-cases (c == b':')) [
  | inl colon ↦
      (ap (λ c. c == b',') ((==_iff c b':').0 colon), clean_stripped true s (rw colon at h))
  | inr other ↦ clean_stripped false (c ∷ s) (rw other at h)
]

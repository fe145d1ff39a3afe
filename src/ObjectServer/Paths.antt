-- ===== src/ObjectServer/Paths.antt =====
-- The elements of an object path, which lead through the tree of zbus/src/object_server/node.rs.
use zbus.Prelude.{
  ℕ, ◌≡◌, ◌≢◌, refl, sym, ap, ◌∙◌, ◌⊎◌, inl, inr, true, false, List, [], ◌∷◌, ◌++◌, ok, ◌==◌,
  ==_iff, drop, All, All-append, append_assoc, append-nil, Bool-cases,
}
use zbus.Text.{split, split-separator, split-last}
use zbus.ObjectPath.{ensure_correct_object_path_str}
use zbus.ObjectPath.Grammar.{
  IsPathElement, path_text, is_path_char, ensure_correct_object_path_str_iff,
}
use zbus.ObjectServer.{elements, filled}

abbrev pub IsPath : List ℕ → Type 0
IsPath p = ensure_correct_object_path_str p ≡ ok tt

no_slash : (e : List ℕ) → All (λ c. is_path_char c ≡ true) e → All (λ c. (c == b'/') ≡ false) e
no_slash [] h = tt
no_slash (c ∷ e) (h, hs) = (word, no_slash e hs)
  where
    word : (c == b'/') ≡ false
    word = elim (Bool-cases (c == b'/')) [
      | inl slash ↦ let same = (==_iff c b'/').0 slash in absurd (cc (ap is_path_char same, h))
      | inr other ↦ other
    ]

split-path_text :
    (e : List ℕ) (es : List (List ℕ))
    → All IsPathElement (e ∷ es)
    → split b'/' (e ++ path_text es) ≡ e ∷ es
split-path_text e [] ((_, h), _) = ap (split b'/') (append-nil e) ∙ split-last b'/' e (no_slash e h)
split-path_text e (f ∷ es) ((_, h), hs) =
    split-separator b'/' e (f ++ path_text es) (no_slash e h)
    ∙ ap (λ ws. e ∷ ws) (split-path_text f es hs)

filled-elements : (es : List (List ℕ)) → All IsPathElement es → filled es ≡ es
filled-elements [] h = refl
filled-elements ([] ∷ es) ((h, _), hs) = absurd (h refl)
filled-elements ((c ∷ e) ∷ es) (h, hs) = ap (λ es. (c ∷ e) ∷ es) (filled-elements es hs)

pub filled-split :
    (e : List ℕ) (es : List (List ℕ))
    → All IsPathElement (e ∷ es)
    → filled (split b'/' (path_text (e ∷ es))) ≡ e ∷ es
filled-split e es h =
    ap filled (split-separator b'/' [] (e ++ path_text es) tt)
    ∙ ap filled (split-path_text e es h)
    ∙ filled-elements (e ∷ es) h

pub elements-path_text : (es : List (List ℕ)) → All IsPathElement es → elements (path_text es) ≡ es
unfolding elements split
elements-path_text [] h = refl
elements-path_text (e ∷ es) h =
    ap (λ ws. filled (drop 1 ws)) (split-separator b'/' [] (e ++ path_text es) tt)
    ∙ ap filled (split-path_text e es h)
    ∙ filled-elements (e ∷ es) h

-- A path is `/`, or the text of its elements, of which there are some.
pub path-elements :
    (p : List ℕ)
    → IsPath p
    → All IsPathElement (elements p)
      × (((p ≡ b'/' ∷ []) × (elements p ≡ [])) ⊎ ((p ≡ path_text (elements p)) × (elements p ≢ [])))
unfolding elements split
path-elements p h = elim ((ensure_correct_object_path_str_iff p).0 h) [
  | inl root ↦ rw root (tt, inl (refl, refl))
  | inr (e, es, split, words) ↦
      let same : elements p ≡ e ∷ es = ap elements split ∙ elements-path_text (e ∷ es) words in
      rw same (words, inr (split, λ e. absurd (cc e)))
]

pub path-injective : (p q : List ℕ) → IsPath p → IsPath q → elements p ≡ elements q → p ≡ q
path-injective p q hp hq e = cases (path-elements p hp).1 (path-elements q hq).1
  where
    cases :
        ((p ≡ b'/' ∷ []) × (elements p ≡ [])) ⊎ ((p ≡ path_text (elements p)) × (elements p ≢ []))
        → ((q ≡ b'/' ∷ []) × (elements q ≡ [])) ⊎ ((q ≡ path_text (elements q)) × (elements q ≢ []))
        → p ≡ q
    cases (inl (a, _)) (inl (b, _)) = a ∙ sym b
    cases (inl (_, a)) (inr (_, b)) = absurd (b (sym e ∙ a))
    cases (inr (_, a)) (inl (_, b)) = absurd (a (e ∙ b))
    cases (inr (a, _)) (inr (b, _)) = a ∙ ap path_text e ∙ sym b

-- Each path on the way is valid.
pub prefix-IsPath :
    (done : List (List ℕ)) (e : List ℕ)
    → All IsPathElement done
    → IsPathElement e
    → IsPath (path_text (done ++ (e ∷ [])))
prefix-IsPath [] e h k = (ensure_correct_object_path_str_iff _).1 (inr (e, [], refl, (k, tt)))
prefix-IsPath (d ∷ done) e h k =
    (ensure_correct_object_path_str_iff _).1
      (inr (d, done ++ (e ∷ []), refl, All-append IsPathElement (d ∷ done) (e ∷ []) h (k, tt)))

pub path_text-append : (ds es : List (List ℕ)) → path_text (ds ++ es) ≡ path_text ds ++ path_text es
path_text-append [] es = refl
path_text-append (d ∷ ds) es =
    ap (λ t. b'/' ∷ (d ++ t)) (path_text-append ds es)
    ∙ ap (λ t. b'/' ∷ t) (sym (append_assoc d (path_text ds) (path_text es)))

-- ===== src/ObjectServer/Empty.antt =====
-- The nodes that zbus/src/object_server/node.rs takes for empty, and the parent of a path as
-- zbus/src/object_server/mod.rs finds it.
use zbus.Prelude.{
  ℕ, ◌≡◌, refl, ap, ◌∙◌, ◌↔◌, inl, inr, Bool, true, false, not, ◌||◌, none, List, [], ◌∷◌, ◌++◌,
  any, All, Bool-cases,
}
use zbus.Text.{eq_text, eq_text_iff, eq_text_refl}
use zbus.ObjectPath.Grammar.{IsPathElement, path_text}
use zbus.ObjectServer.{is_standard, get, Node, node, interfaces, is_empty}
use zbus.ObjectServer.Calls.{parent}

module _ {A : Type 0} where
  abbrev users : List (List ℕ × A) → Bool
  users is = any (λ entry. not (is_standard entry.0)) is

  users-get :
      (is : List (List ℕ × A)) (name : List ℕ)
      → users is ≡ false
      → is_standard name ≡ false
      → get name is ≡ none
  users-get [] name h user = refl
  users-get ((j, a) ∷ is) name h user = elim (Bool-cases (eq_text j name)) [
    | inl same ↦
        let e = (eq_text_iff j name).0 same in
        let j_user : is_standard j ≡ false = ap is_standard e ∙ user in absurd (cc (rw j_user at h))
    | inr apart ↦ rw apart (users-get is name (rest (not (is_standard j)) (users is) h) user)
  ]
    where
      rest : (a b : Bool) → (a || b) ≡ false → b ≡ false
      rest true b h = absurd (cc h)
      rest false b h = h

  get-users :
      (is : List (List ℕ × A))
      → ((name : List ℕ) → is_standard name ≡ false → get name is ≡ none)
      → users is ≡ false
  get-users [] h = refl
  get-users ((j, a) ∷ is) h = elim (Bool-cases (is_standard j)) [
    | inl standard ↦ rw standard (get-users is (λ name user. later name user (h name user)))
    | inr user ↦ absurd (cc (rw (eq_text_refl j) at (h j user)))
  ]
    where
      later :
          (name : List ℕ)
          → is_standard name ≡ false
          → get name ((j, a) ∷ is) ≡ none
          → get name is ≡ none
      later name user e = elim (Bool-cases (eq_text j name)) [
        | inl same ↦ absurd (cc (rw same at e))
        | inr apart ↦ rw apart at e
      ]

-- A node is empty exactly when it has no interface of a user.
pub is_empty_iff :
    {Iface : Type 0} (n : Node Iface)
    → (is_empty n ≡ true)
      ↔ ((name : List ℕ) → is_standard name ≡ false → get name (interfaces n) ≡ none)
unfolding is_empty
is_empty_iff (node p cs is) =
    ((λ h name user. users-get is name (denied (users is) h) user), λ h. ap not (get-users is h))
  where
    denied : (b : Bool) → not b ≡ true → b ≡ false
    denied true h = absurd (cc h)
    denied false h = refl

-- The elements before the last one, and the last one.
pub parent-split :
    (p : List ℕ) (ps : List (List ℕ))
    → All IsPathElement (p ∷ ps)
    → (init : List (List ℕ)) × ((p ∷ ps) ≡ init ++ ((parent p ps).1 ∷ []))
      × ((parent p ps).0 ≡ path_text init)
      × All IsPathElement init
unfolding parent
parent-split p [] h = ([], refl, refl, tt)
parent-split p (q ∷ qs) (h, hs) =
    let (init, split, text, fine) = parent-split q qs hs in
    (p ∷ init, ap (λ t. p ∷ t) split, ap (λ t. b'/' ∷ (p ++ t)) text, (h, fine))

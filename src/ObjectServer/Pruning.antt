-- ===== src/ObjectServer/Pruning.antt =====
-- A removed node of zbus/src/object_server/node.rs, and a removed interface.
use zbus.Prelude.{
  ℕ, ◌≡◌, ◌≢◌, refl, sym, ap, ◌∙◌, inl, inr, none, some, List, [], ◌∷◌, ◌++◌, Option-cases,
}
use zbus.ObjectServer.{
  get, Node, node, children, interfaces, get_entry, remove_interface, remove_node, is_some,
}
use zbus.ObjectServer.Tree.{walk}
use zbus.ObjectServer.Entries.{
  get-remove_key, get-remove_key_ne, get_entry-remove_entry, get_entry-remove_entry_ne,
}
use zbus.ObjectServer.Elsewhere.{look, Avoids}
use zbus.ObjectServer.Reached.{walk-entry}

-- What is below a removed node is gone, and the rest is not.
abbrev pub IsPast : List ℕ → List (List ℕ) → Type 0
IsPast last [] = Unit {0}
IsPast last (q ∷ qs) = last ≢ q

module _ {Iface : Type 0} where
  pub walk-append :
      (ps qs : List (List ℕ)) (n t : Node Iface)
      → walk ps n ≡ some t
      → walk (ps ++ qs) n ≡ walk qs t
  unfolding walk
  walk-append [] qs n t h = let same : n ≡ t = cc h in ap (walk qs) same
  walk-append (p ∷ ps) qs n t h = elim (Option-cases (get_entry p (children n))) [
    | inl vacant ↦ absurd (cc (rw (walk, vacant) at h))
    | inr (c, entry) ↦
        walk-entry p (ps ++ qs) c n entry
        ∙ walk-append ps qs c t (sym (walk-entry p ps c n entry) ∙ h)
  ]

  pub walk-prefix :
      (ps qs : List (List ℕ)) (n t : Node Iface)
      → walk (ps ++ qs) n ≡ some t
      → (m : Node Iface) × (walk ps n ≡ some m)
  unfolding walk
  walk-prefix [] qs n t h = (n, refl)
  walk-prefix (p ∷ ps) qs n t h = elim (Option-cases (get_entry p (children n))) [
    | inl vacant ↦ absurd (cc (rw (walk, vacant) at h))
    | inr (c, entry) ↦
        let (m, there) = walk-prefix ps qs c t (sym (walk-entry p (ps ++ qs) c n entry) ∙ h) in
        (m, walk-entry p ps c n entry ∙ there)
  ]

  pub remove_interface-get :
      (name : List ℕ) (t : Node Iface)
      → ((remove_interface name t).1 ≡ is_some (get name (interfaces t)))
        × (get name (interfaces (remove_interface name t).0) ≡ none)
        × (children (remove_interface name t).0 ≡ children t)
  unfolding remove_interface
  remove_interface-get name (node p cs is) = (refl, get-remove_key name is, refl)

  pub remove_interface_ne :
      (name other : List ℕ) (t : Node Iface)
      → name ≢ other
      → get other (interfaces (remove_interface name t).0) ≡ get other (interfaces t)
  unfolding remove_interface
  remove_interface_ne name other (node p cs is) h = get-remove_key_ne name other is h

  pub remove_node-look :
      (last : List ℕ) (qs : List (List ℕ)) (name : List ℕ) (t : Node Iface)
      → look (last ∷ qs) name (remove_node last t).0 ≡ none
  unfolding remove_node walk
  remove_node-look last qs name (node p cs is) = rw (walk, get_entry-remove_entry last cs) refl

  pub remove_node-look_ne :
      (last : List ℕ) (qs : List (List ℕ)) (name : List ℕ) (t : Node Iface)
      → IsPast last qs
      → look qs name (remove_node last t).0 ≡ look qs name t
  unfolding remove_node walk
  remove_node-look_ne last [] name (node p cs is) h = refl
  remove_node-look_ne last (q ∷ qs) name (node p cs is) h =
      rw (walk, get_entry-remove_entry_ne last q cs h) refl

pub IsPast-Avoids :
    (init : List (List ℕ)) (last : List ℕ) (qs : List (List ℕ))
    → ((more : List (List ℕ)) → qs ≢ (init ++ (last ∷ [])) ++ more)
    → Avoids (IsPast last) init qs
IsPast-Avoids [] last [] h = tt
IsPast-Avoids [] last (q ∷ qs) h = λ e. h qs (ap (λ q. q ∷ qs) (sym e))
IsPast-Avoids (i ∷ init) last [] h = tt
IsPast-Avoids (i ∷ init) last (q ∷ qs) h =
    λ e. IsPast-Avoids init last qs (λ more f. h more (cc (e, f)))

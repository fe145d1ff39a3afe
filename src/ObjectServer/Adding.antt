-- ===== src/ObjectServer/Adding.antt =====
-- What `at` of zbus/src/object_server/mod.rs does to the interfaces of objects.
use zbus.Prelude.{
  ℕ, ◌≡◌, ◌≢◌, refl, sym, subst, ap, ◌∙◌, ◌⊎◌, inl, inr, Bool, true, false, Option, none, some,
  List, [], ◌∷◌, Result, ok, ◌>>=◌, Option-cases, Bool-cases,
}
use zbus.Text.{eq_text, eq_text_iff}
use zbus.ObjectServer.{
  Failure, object_manager_name, is_standard, get, Node, node, Standard, children, interfaces,
  add_arc_interface, add_vacant, elements,
}
use zbus.ObjectServer.Tree.{walk, new, get_child, get_child_mut}
use zbus.ObjectServer.Calls.{Notice, one_added, added_result, add_at, at, interface, lock}
use zbus.ObjectServer.Entries.{get-append, get-append_ne}
use zbus.ObjectServer.Elsewhere.{look, look-new, look-walk_mut, IsFilled, ne-Avoids}
use zbus.ObjectServer.Paths.{IsPath, path-elements, path-injective}
use zbus.ObjectServer.Reached.{Changes, closest, walk_mut-found, walk_mut-fresh, elements-AreValid}

-- A user's interface is not the object manager.
manager_apart :
    (name : List ℕ) → is_standard name ≡ false → eq_text name object_manager_name ≡ false
manager_apart name user = elim (Bool-cases (eq_text name object_manager_name)) [
  | inr apart ↦ apart
  | inl same ↦
      let e = (eq_text_iff name object_manager_name).0 same in absurd (cc (ap is_standard e, user))
]

-- An object's interface, added or there before.
abbrev pub IsAdded : {Iface : Type 0} → Iface → Option Iface → Bool → Option Iface → Type 0
IsAdded iface before added after =
    ((before ≡ none) × (added ≡ true) × (after ≡ some iface))
    ⊎ ((old : _) × (before ≡ some old) × (added ≡ false) × (after ≡ some old))

module _ {Iface : Type 0} where
  -- At the node itself.
  add_arc_interface-IsAdded :
      (name : List ℕ) (iface : Iface) (t : Node Iface)
      → IsAdded iface
          (get name (interfaces t))
          (add_arc_interface name iface t).1
          (get name (interfaces (add_arc_interface name iface t).0))
  unfolding add_arc_interface
  add_arc_interface-IsAdded name iface (node p cs is) = elim (Option-cases (get name is)) [
    | inl vacant ↦ inl (
      vacant,
      rw (add_vacant, vacant) refl,
      rw (add_vacant, vacant) (get-append name iface is vacant),
    )
    | inr (old, there) ↦ inr (old, there, rw (add_vacant, there) refl, rw (add_vacant, there) there)
  ]

  add_arc_interface_ne :
      (name other : List ℕ) (iface : Iface) (t : Node Iface)
      → name ≢ other
      → get other (interfaces (add_arc_interface name iface t).0) ≡ get other (interfaces t)
  unfolding add_arc_interface
  add_arc_interface_ne name other iface (node p cs is) h = elim (Option-cases (get name is)) [
    | inl vacant ↦ rw (add_vacant, vacant) (get-append_ne name other iface is h)
    | inr (old, there) ↦ rw (add_vacant, there) refl
  ]

  add_arc_interface-children :
      (name : List ℕ) (iface : Iface) (t : Node Iface)
      → children (add_arc_interface name iface t).0 ≡ children t
  unfolding add_arc_interface
  add_arc_interface-children name iface (node p cs is) = elim (Option-cases (get name is)) [
    | inl vacant ↦ rw (add_vacant, vacant) refl
    | inr (old, there) ↦ rw (add_vacant, there) refl
  ]

  pub look-children :
      (q : List ℕ) (qs : List (List ℕ)) (name : List ℕ) (m n : Node Iface)
      → children m ≡ children n
      → look (q ∷ qs) name m ≡ look (q ∷ qs) name n
  unfolding walk
  look-children q qs name m n h = rw (walk, h) refl

  pub interface-look :
      (path name : List ℕ) (root : Node Iface)
      → interface path name root ≡ look (elements path) name root
  unfolding interface get_child
  interface-look path name root = refl

  pub look-there :
      (es : List (List ℕ)) (name : List ℕ) (n t : Node Iface)
      → walk es n ≡ some t
      → look es name n ≡ get name (interfaces t)
  look-there es name n t h = ap (lock name) h

  pub look-absent :
      (es : List (List ℕ)) (name : List ℕ) (n : Node Iface)
      → walk es n ≡ none
      → look es name n ≡ none
  look-absent es name n h = ap (lock name) h

module _ {Iface : Type 0} (std : Standard Iface)
    (send : Notice → Node Iface → Result Failure (Unit {0})) (path name : List ℕ) (iface : Iface)
    (root : Node Iface) where
  -- What the call returns, with the tree after it and the closest object manager above.
  abbrev pub Reported : Node Iface → Bool → Option (List ℕ) → Result Failure Bool → Type 0
  Reported root' false above result = result ≡ ok false
  Reported root' true none result = result ≡ ok true
  Reported root' true (some manager) result =
      result ≡ (send (one_added manager path name) root' >>= λ _. ok true)

  -- What `at` gives, with the interface at its place and all others of users as they were.
  abbrev pub AddsOne : Type 0
  AddsOne =
      (root' : Node Iface) × (added : Bool) × (result : Result Failure Bool) × (at std send path
          name iface root
        ≡ ok (root', result))
      × Reported root' added (closest (elements path) none root) result
      × IsAdded iface (interface path name root) added (interface path name root')
      × ((path' name' : List ℕ)
          → IsPath path'
          → is_standard name' ≡ false
          → (path' ≢ path) ⊎ (name' ≢ name)
          → interface path' name' root' ≡ interface path' name' root)

  add_at_elsewhere :
      (above : Option (List ℕ)) (n : Node Iface) (other : List ℕ) (qs : List (List ℕ))
      → IsFilled qs
      → look qs other (add_at std name iface above n).0 ≡ look qs other n
  add_at_elsewhere above n other [] h = absurd (h refl)
  add_at_elsewhere above n other (q ∷ qs) h =
      look-children q qs other (add_arc_interface name iface n).0 n
        (add_arc_interface-children name iface n)

  module _ (valid : IsPath path) (t : Node Iface)
      (before : (other : List ℕ)
        → is_standard other ≡ false
        → look (elements path) other root ≡ get other (interfaces t)) where
    adds_one :
        is_standard name ≡ false
        → Changes std true (add_at std name iface) (elements path) [] none root t
        → AddsOne
    unfolding at get_child_mut
    adds_one user (root', above', made, there, above_path) = (
      root',
      (add_arc_interface name iface t).1,
      added_result send path name root' (add_arc_interface name iface t).1 above',
      rw (valid, made) refl,
      subst
          (λ above.
            Reported root' (add_arc_interface name iface t).1 above
              (added_result send path name root' (add_arc_interface name iface t).1 above'))
          above_path (reported (add_arc_interface name iface t).1 above'),
      here,
      elsewhere,
    )
      where
        reported :
            (added : Bool) (above : Option (List ℕ))
            → Reported root' added above (added_result send path name root' added above)
        reported false above = refl
        reported true none = rw (manager_apart name user) refl
        reported true (some manager) = rw (manager_apart name user) refl

        here :
            IsAdded iface
              (interface path name root)
              (add_arc_interface name iface t).1
              (interface path name root')
        here =
            subst
              (λ b. IsAdded iface b (add_arc_interface name iface t).1 (interface path name root'))
              (sym (interface-look path name root ∙ before name user))
              (subst (IsAdded iface (get name (interfaces t)) (add_arc_interface name iface t).1)
                (sym (
                  interface-look path name root'
                  ∙ look-there (elements path) name root' (add_arc_interface name iface t).0 there))
                (add_arc_interface-IsAdded name iface t))

        another_path :
            (path' name' : List ℕ)
            → IsPath path'
            → is_standard name' ≡ false
            → path' ≢ path
            → interface path' name' root' ≡ interface path' name' root
        another_path path' name' valid' user' apart =
            interface-look path' name' root'
            ∙ look-walk_mut std true (add_at std name iface) IsFilled name' user'
                (λ above n qs. add_at_elsewhere above n name' qs) (elements path) [] none root root'
                (some ((add_arc_interface name iface t).1, above')) (elements path') made
                (ne-Avoids (elements path) (elements path')
                  (λ e. apart (path-injective path' path valid' valid e)))
            ∙ sym (interface-look path' name' root)

        elsewhere :
            (path' name' : List ℕ)
            → IsPath path'
            → is_standard name' ≡ false
            → (path' ≢ path) ⊎ (name' ≢ name)
            → interface path' name' root' ≡ interface path' name' root
        elsewhere path' name' valid' user' (inl apart) = another_path path' name' valid' user' apart
        elsewhere path' name' valid' user' (inr apart) = elim (Bool-cases (eq_text path' path)) [
          | inr other ↦
              another_path path' name' valid' user'
                (λ e. absurd (cc (other, (eq_text_iff path' path).1 e)))
          | inl same ↦
              let e = (eq_text_iff path' path).0 same in
              ap (λ p. interface p name' root') e
              ∙ interface-look path name' root'
              ∙ look-there (elements path) name' root' (add_arc_interface name iface t).0 there
              ∙ add_arc_interface_ne name name' iface t (λ f. apart (sym f))
              ∙ sym (before name' user')
              ∙ sym (interface-look path name' root)
              ∙ ap (λ p. interface p name' root) (sym e)
        ]

  -- At a valid path, adding a user's interface changes the tree: it is there afterwards, unless the
  -- object had one of that name, which stays; all other interfaces of users at valid paths stay as
  -- they were. The call returns false if the object had one of that name. If not, and no node on
  -- the way to the object has an object manager, it returns true; otherwise the closest one of them
  -- signals the interface, and the call returns true, or the error that this comes to.
  pub at-AddsOne : IsPath path → is_standard name ≡ false → AddsOne
  unfolding new walk
  at-AddsOne valid user = elim (Option-cases (walk (elements path) root)) [
    | inr (t, found) ↦
        adds_one valid t (λ other _. look-there (elements path) other root t found) user
          (walk_mut-found std true (add_at std name iface) (elements path) [] none root t found)
    | inl absent ↦
        let (elements_fine, _) = path-elements path valid in
        let (p, made) =
          walk_mut-fresh std (add_at std name iface) (elements path) [] none root absent
            (elements-AreValid (elements path) elements_fine) in
        adds_one valid (new std p)
          (λ other user'.
            look-absent (elements path) other root absent ∙ sym (look-new std [] other p user'))
          user made
  ]

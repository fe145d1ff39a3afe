-- ===== src/ObjectServer/Removing.antt =====
-- What `remove` of zbus/src/object_server/mod.rs does to the interfaces of objects.
use zbus.Prelude.{
  ℕ, ◌≡◌, ◌≢◌, refl, sym, ap, subst, ◌∙◌, ◌↔◌, ◌⊎◌, inl, inr, Bool, true, false, Option, none, some,
  List, [], ◌∷◌, ◌++◌, Result, ok, err, Option-cases, Bool-cases, All, append_assoc, append-nil,
}
use zbus.Text.{eq_text, eq_text_iff, split}
use zbus.ObjectPath.Grammar.{IsPathElement, path_text}
use zbus.ObjectServer.{
  is_standard, get, remove_key, Node, node, Failure, interface_not_found, panic, Standard, children,
  interfaces, get_entry, remove_interface, remove_node, remove_entry, is_empty, is_some, elements,
  filled,
}
use zbus.ObjectServer
use zbus.ObjectServer.Tree.{walk, walk_mut, get_child_mut}
use zbus.ObjectServer.Calls.{
  Notice, one_removed, removed_notice, signalled, emptied, removed_from, remove_at, without, parent,
  prune, remove, interface, lock,
}
use zbus.ObjectServer.Elsewhere.{look, look-walk_mut, IsFilled, ne-Avoids}
use zbus.ObjectServer.Paths.{
  IsPath, path-elements, path-injective, elements-path_text, filled-split,
}
use zbus.ObjectServer.Reached.{closest, walk_mut-found, walk_mut-absent}
use zbus.ObjectServer.Adding.{look-children, look-there, look-absent, interface-look}
use zbus.ObjectServer.Empty.{is_empty_iff, parent-split}
use zbus.ObjectServer.Pruning.{
  IsPast, walk-append, walk-prefix, remove_interface-get, remove_interface_ne, remove_node-look,
  remove_node-look_ne, IsPast-Avoids,
}

module _ {Iface : Type 0} (std : Standard Iface)
    (send : Notice → Node Iface → Result Failure (Unit {0})) (path name : List ℕ)
    (root : Node Iface) where
  -- The other interfaces of users at valid paths are as they were: at all places, or at those that
  -- are not at the path nor below it, where none is left.
  abbrev pub Others : Bool → Node Iface → Type 0
  Others false root' =
      (path' name' : List ℕ)
      → IsPath path'
      → is_standard name' ≡ false
      → (path' ≢ path) ⊎ (name' ≢ name)
      → interface path' name' root' ≡ interface path' name' root
  Others true root' =
      (path' name' : List ℕ)
      → is_standard name' ≡ false
      → ((more : List (List ℕ))
          → elements path' ≡ elements path ++ more
          → interface path' name' root' ≡ none)
        × (((more : List (List ℕ)) → elements path' ≢ elements path ++ more)
            → interface path' name' root' ≡ interface path' name' root)

  -- The interface was the only one of users at its object.
  abbrev pub IsLast : Bool → Type 0
  IsLast last = (last ≡ true) ↔ (
      (name' : List ℕ)
      → is_standard name' ≡ false
      → name' ≢ name
      → interface path name' root ≡ none)

  -- The signal, in a tree, by the closest object manager above.
  abbrev pub Announced : Option (List ℕ) → Node Iface → Result Failure (Unit {0}) → Type 0
  Announced none root1 result = result ≡ ok tt
  Announced (some manager) root1 result = result ≡ send (one_removed manager path name) root1

  -- Where the signal succeeds.
  abbrev pub Outcome : Bool → Type 0
  Outcome last =
      ((last ≡ true) × (path ≡ b'/' ∷ []) × (remove std send path name root ≡ err panic))
      ⊎ ((root' : Node Iface) × (remove std send path name root ≡ ok (root', ok last))
          × (interface path name root' ≡ none)
          × Others last root')

  abbrev pub Ends : Bool → Node Iface → Result Failure (Unit {0}) → Type 0
  Ends last root1 (err e) = remove std send path name root ≡ ok (root1, err e)
  Ends last root1 (ok u) = Outcome last

  abbrev pub Removes : Type 0
  Removes =
      ((interface path name root ≡ none)
        × (remove std send path name root ≡ err interface_not_found))
      ⊎ ((interface path name root ≢ none)
          × (last : Bool) × IsLast last
          × (root1 : Node Iface) × (interface path name root1 ≡ none)
          × Others false root1
          × (announced : Result Failure (Unit {0})) × Announced (closest (elements path) none root)
              root1 announced
          × Ends last root1 announced)

  remove_at_elsewhere :
      (above : Option (List ℕ)) (n : Node Iface) (other : List ℕ) (qs : List (List ℕ))
      → IsFilled qs
      → look qs other (remove_at std name above n).0 ≡ look qs other n
  remove_at_elsewhere above n other [] h = absurd (h refl)
  remove_at_elsewhere above n other (q ∷ qs) h =
      look-children q qs other (remove_interface name n).0 n (remove_interface-get name n).2

  module _ (valid : IsPath path) (user : is_standard name ≡ false) (t : Node Iface)
      (found : walk (elements path) root ≡ some t) (old : Iface)
      (there : get name (interfaces t) ≡ some old) where
    before : (other : List ℕ) → interface path other root ≡ get other (interfaces t)
    before other = interface-look path other root ∙ look-there (elements path) other root t found

    is_last : IsLast (is_empty (remove_interface name t).0)
    is_last =
        let (to, from) = is_empty_iff (remove_interface name t).0 in
        (
          (λ h name' user' apart.
              before name'
              ∙ sym (remove_interface_ne name name' t (λ e. apart (sym e)))
              ∙ to h name' user'),
          λ h. from (λ name' user'. elim (Bool-cases (eq_text name' name)) [
            | inl same ↦
                ap (λ n. get n (interfaces (remove_interface name t).0))
                  ((eq_text_iff name' name).0 same)
                ∙ (remove_interface-get name t).1
            | inr other ↦
                let apart : name' ≢ name = λ e. absurd (cc (other, (eq_text_iff name' name).1 e)) in
                remove_interface_ne name name' t (λ e. apart (sym e))
                ∙ sym (before name')
                ∙ h name' user' apart
          ]),
        )

    module _ (root1 : Node Iface) (above' : Option (List ℕ))
        (made : walk_mut std false (remove_at std name) (elements path) [] none root
          ≡ ok (root1, some (remove_at std name above' t).1))
        (gone : walk (elements path) root1 ≡ some (remove_at std name above' t).0) where
      abbrev announced : Result Failure (Unit {0})
      announced = signalled send root1 (removed_notice path name above')

      removed_by :
          (last : Bool) (result : Result Failure (Unit {0}))
          → is_empty (remove_interface name t).0 ≡ last
          → announced ≡ result
          → remove std send path name root ≡ removed_from std path root1 last result
      unfolding remove get_child_mut
      removed_by last result e sent =
          let was_there : (remove_interface name t).1 ≡ true =
            (remove_interface-get name t).0 ∙ ap is_some there in
          rw (valid, made, was_there, e) (ap (removed_from std path root1 last) sent)

      elsewhere :
          (qs : List (List ℕ)) (name' : List ℕ)
          → is_standard name' ≡ false
          → qs ≢ elements path
          → look qs name' root1 ≡ look qs name' root
      elsewhere qs name' user' apart =
          look-walk_mut std false (remove_at std name) IsFilled name' user'
            (λ above n qs. remove_at_elsewhere above n name' qs) (elements path) [] none root root1
            _ qs made (ne-Avoids (elements path) qs apart)

      here :
          (other : List ℕ)
          → interface path other root1 ≡ get other (interfaces (remove_interface name t).0)
      here other =
          interface-look path other root1
          ∙ look-there (elements path) other root1 (remove_interface name t).0 gone

      Others-false : Others false root1
      Others-false path' name' valid' user' apart = elim (Bool-cases (eq_text path' path)) [
        | inr other ↦
            interface-look path' name' root1
            ∙ elsewhere (elements path') name' user' (λ e.
              absurd
                (cc (other, (eq_text_iff path' path).1 (path-injective path' path valid' valid e))))
            ∙ sym (interface-look path' name' root)
        | inl same ↦
            let e = (eq_text_iff path' path).0 same in
            elim apart [
              | inl f ↦ absurd (f e)
              | inr f ↦
                  ap (λ p. interface p name' root1) e
                  ∙ here name'
                  ∙ remove_interface_ne name name' t (λ g. f (sym g))
                  ∙ sym (before name')
                  ∙ ap (λ p. interface p name' root) (sym e)
            ]
      ]

      -- The removal of the node, at its parent.
      pruned :
          (es : List (List ℕ))
          → elements path ≡ es
          → All IsPathElement es
          → path ≡ path_text es
          → es ≢ []
          → is_empty (remove_interface name t).0 ≡ true
          → announced ≡ ok tt
          → Outcome true
      unfolding prune get_child_mut
      pruned [] same fine text filled e sent = absurd (filled refl)
      pruned (p ∷ ps) same fine text filled e sent =
          let (init, split, above_text, init_fine) = parent-split p ps fine in
          let last = (parent p ps).1 in
          let on_way = same ∙ split in
          let there1 : walk (init ++ (last ∷ [])) root1 ≡ some (remove_interface name t).0 =
            ap (λ es. walk es root1) (sym on_way) ∙ gone in
          let (m, parent_there) = walk-prefix init (last ∷ []) root1 _ there1 in
          let (root2, above2, made2, there2, _) =
            walk_mut-found std false (without std last) init [] none root1 m parent_there in
          let to_parent : elements (parent p ps).0 ≡ init =
            ap elements above_text ∙ elements-path_text init init_fine in
          let pieces = ap (λ p. filled_of p) text ∙ filled-split p ps fine in
          let below : (qs more : List (List ℕ)) (name' : List ℕ)
              → qs ≡ elements path ++ more
              → look qs name' root2 ≡ none =
            λ qs more name' e.
              ap (λ qs. look qs name' root2)
                (e ∙ ap (λ es. es ++ more) on_way ∙ append_assoc init (last ∷ []) more)
              ∙ ap (lock name') (walk-append init (last ∷ more) root2 (remove_node last m).0 there2)
              ∙ remove_node-look last more name' m in
          inr (
            root2,
            removed_by true (ok tt) e sent ∙ rw (pieces, to_parent, made2) refl,
            interface-look path name root2
                ∙ below (elements path) [] name (sym (append-nil (elements path))),
            λ path' name' user'. (
              (λ more e. interface-look path' name' root2 ∙ below (elements path') more name' e),
              λ apart.
                  interface-look path' name' root2
                  ∙ look-walk_mut std false (without std last) (IsPast last) name' user'
                      (λ above n qs. remove_node-look_ne last qs name' n) init [] none root1 root2 _
                      (elements path') made2
                      (IsPast-Avoids init last (elements path')
                        (λ more e. apart more (e ∙ ap (λ es. es ++ more) (sym on_way))))
                  ∙ elsewhere (elements path') name' user'
                      (λ e. apart [] (e ∙ sym (append-nil (elements path))))
                  ∙ sym (interface-look path' name' root),
            ),
          )
        where
          filled_of : List ℕ → List (List ℕ)
          filled_of p = ObjectServer.filled (split b'/' p)

      root_pruned :
          path ≡ b'/' ∷ []
          → is_empty (remove_interface name t).0 ≡ true
          → announced ≡ ok tt
          → Outcome true
      unfolding prune split
      root_pruned at_root e sent = inl (
        refl,
        at_root,
        removed_by true (ok tt) e sent ∙ ap (λ p. emptied std p root1 true) at_root,
      )

      outcome :
          (last : Bool)
          → is_empty (remove_interface name t).0 ≡ last
          → announced ≡ ok tt
          → Outcome last
      outcome false e sent = inr (
        root1,
        removed_by false (ok tt) e sent,
        here name ∙ (remove_interface-get name t).1,
        Others-false,
      )
      outcome true e sent =
          let (fine, shape) = path-elements path valid in
          elim shape [
            | inl (at_root, _) ↦ root_pruned at_root e sent
            | inr (text, filled) ↦ pruned (elements path) refl fine text filled e sent
          ]

      ends :
          (last : Bool) (result : Result Failure (Unit {0}))
          → is_empty (remove_interface name t).0 ≡ last
          → announced ≡ result
          → Ends last root1 result
      ends last (err failure) e sent = removed_by last (err failure) e sent
      ends last (ok u) e sent = outcome last e sent

      signalled-Announced :
          (above : Option (List ℕ))
          → Announced above root1 (signalled send root1 (removed_notice path name above))
      signalled-Announced none = refl
      signalled-Announced (some manager) = refl

  -- Removing a user's interface at a valid path fails if it is not there. Otherwise it is gone from
  -- its object, and the closest object manager on the way there, if one is above, signals this. An
  -- error of the signal ends the call with only the interface removed. Without one, the call returns
  -- whether the interface was the last of users at its object: if it was, the node is gone
  -- with all that is below, but at `/` the call panics; if not, only the interface is gone. All
  -- other interfaces of users stay as they were.
  pub remove-Removes : IsPath path → is_standard name ≡ false → Removes
  unfolding remove get_child_mut
  remove-Removes valid user = elim (Option-cases (walk (elements path) root)) [
    | inl absent ↦
        let (root1, made) =
          walk_mut-absent std (remove_at std name) (elements path) [] none root absent in
        inl (
          interface-look path name root ∙ look-absent (elements path) name root absent,
          rw (valid, made) refl,
        )
    | inr (t, found) ↦
        let (root1, above', made, gone, above_path) =
          walk_mut-found std false (remove_at std name) (elements path) [] none root t found in
        let seen = interface-look path name root ∙ look-there (elements path) name root t found in
        elim (Option-cases (get name (interfaces t))) [
          | inl vacant ↦
              let was_not : (remove_interface name t).1 ≡ false =
                (remove_interface-get name t).0 ∙ ap is_some vacant in
              inl (seen ∙ vacant, rw (valid, made, was_not) refl)
          | inr (old, there) ↦ inr (
            (λ e. absurd (cc (seen, there, e))),
            is_empty (remove_interface name t).0,
            is_last valid user t found old there,
            root1,
            here valid user t found old there root1 above' made gone name
                ∙ (remove_interface-get name t).1,
            Others-false valid user t found old there root1 above' made gone,
            announced valid user t found old there root1 above' made gone,
            subst
                (λ above.
                  Announced above root1 (signalled send root1 (removed_notice path name above')))
                above_path
                (signalled-Announced valid user t found old there root1 above' made gone above'),
            ends valid user t found old there root1 above' made gone
                (is_empty (remove_interface name t).0) _ refl refl,
          )
        ]
  ]

-- ===== src/ObjectServer/Reached.antt =====
-- The node that `get_child_mut` of zbus/src/object_server/node.rs refers to.
use zbus.Prelude.{
  ℕ, ◌≡◌, refl, sym, subst, ap, ◌∙◌, inl, inr, Bool, true, false, Option, none, some, List, [], ◌∷◌,
  ◌++◌, ok, ◌>>=◌, Option-cases, All, append-nil,
}
use zbus.ObjectPath.Grammar.{IsPathElement, path_text}
use zbus.ObjectServer.{Node, node, Standard, children, get_entry, add_arc_interface}
use zbus.ObjectServer.Tree.{walk, insert_child, manager, new, new_checked, walk_mut, put_back}
use zbus.ObjectServer.Entries.{get_entry-insert_entry}
use zbus.ObjectServer.Paths.{IsPath, prefix-IsPath, path_text-append}

-- The paths of the nodes on the way.
abbrev pub AreValid : List ℕ → List (List ℕ) → Type 0
AreValid node_path [] = Unit {0}
AreValid node_path (i ∷ ps) =
    IsPath (node_path ++ (b'/' ∷ i)) × AreValid (node_path ++ (b'/' ∷ i)) ps

elements-AreValid_from :
    (done ps : List (List ℕ))
    → All IsPathElement done
    → All IsPathElement ps
    → AreValid (path_text done) ps
elements-AreValid_from done [] h k = tt
elements-AreValid_from done (i ∷ ps) h (ki, ks) =
    let grown =
      path_text-append done (i ∷ []) ∙ ap (λ t. path_text done ++ (b'/' ∷ t)) (append-nil i) in
    (
      subst IsPath grown (prefix-IsPath done i h ki),
      subst (λ p. AreValid p ps) grown
          (elements-AreValid_from (done ++ (i ∷ [])) ps (both done h) ks),
    )
  where
    both : (ds : List (List ℕ)) → All IsPathElement ds → All IsPathElement (ds ++ (i ∷ []))
    both [] h = (ki, tt)
    both (d ∷ ds) (h, hs) = (h, both ds hs)

pub elements-AreValid : (ps : List (List ℕ)) → All IsPathElement ps → AreValid [] ps
elements-AreValid ps h = elements-AreValid_from [] ps tt h

module _ {Iface : Type 0} where
  -- The path of the last node on the way, before the end, that has an object manager.
  abbrev pub closest : List (List ℕ) → Option (List ℕ) → Node Iface → Option (List ℕ)
  closest [] above n = above
  closest (i ∷ ps) above n = elim (get_entry i (children n)) [
    | none ↦ manager above n
    | some c ↦ closest ps (manager above n) c
  ]

  walk-insert_child :
      (i : List ℕ) (ps : List (List ℕ)) (c n : Node Iface)
      → walk (i ∷ ps) (insert_child i c n) ≡ walk ps c
  unfolding walk
  walk-insert_child i ps c (node p cs is) = rw (walk, get_entry-insert_entry i c cs) refl

  pub walk-entry :
      (i : List ℕ) (ps : List (List ℕ)) (c n : Node Iface)
      → get_entry i (children n) ≡ some c
      → walk (i ∷ ps) n ≡ walk ps c
  unfolding walk
  walk-entry i ps c n h = rw (walk, h) refl

module _ {Iface : Type 0} (std : Standard Iface) {R : Type 0} where
  module _ (create : Bool) (change : Option (List ℕ) → Node Iface → Node Iface × R) where
    -- The change has been made at the node `t`, which stands at `ps`.
    abbrev pub Changes : List (List ℕ) → List ℕ → Option (List ℕ) → Node Iface → Node Iface → Type 0
    Changes ps node_path above n t =
        (n' : Node Iface) × (above' : Option (List ℕ)) × (walk_mut std create change ps node_path
            above n
          ≡ ok (n', some (change above' t).1))
        × (walk ps n' ≡ some (change above' t).0)
        × (above' ≡ closest ps above n)

    Changes-step :
        (i : List ℕ) (ps : List (List ℕ)) (node_path path' : List ℕ)
        (above above' : Option (List ℕ)) (n c t : Node Iface)
        → walk_mut std create change (i ∷ ps) node_path above n
          ≡ (walk_mut std create change ps path' above' c >>= put_back std create change i n)
        → Changes ps path' above' c t
        → closest ps above' c ≡ closest (i ∷ ps) above n
        → Changes (i ∷ ps) node_path above n t
    Changes-step i ps node_path path' above above' n c t e (c', above'', made, there, last) on = (
      insert_child i c' n,
      above'',
      e ∙ ap (λ r. r >>= put_back std create change i n) made,
      walk-insert_child i ps c' n ∙ there,
      last ∙ on,
    )

    -- A node that is there is the one that changes.
    pub walk_mut-found :
        (ps : List (List ℕ)) (node_path : List ℕ) (above : Option (List ℕ)) (n t : Node Iface)
        → walk ps n ≡ some t
        → Changes ps node_path above n t
    unfolding walk_mut walk
    walk_mut-found [] node_path above n t h =
        let same : n ≡ t = cc h in
        subst (λ t. Changes [] node_path above n t) same
          ((change above n).0, above, refl, refl, refl)
    walk_mut-found (i ∷ ps) node_path above n t h = elim (Option-cases (get_entry i (children n))) [
      | inl vacant ↦ absurd (cc (rw (walk, vacant) at h))
      | inr (c, entry) ↦
          Changes-step i ps node_path (node_path ++ (b'/' ∷ i)) above (manager above n) n c t
            (rw (walk_mut, entry) refl)
            (walk_mut-found ps (node_path ++ (b'/' ∷ i)) (manager above n) c t
              (sym (walk-entry i ps c n entry) ∙ h))
            (rw (closest, entry) refl)
    ]

  module _ (change : Option (List ℕ) → Node Iface → Node Iface × R) where
    -- Where there is none, nothing changes if none is to be created.
    pub walk_mut-absent :
        (ps : List (List ℕ)) (node_path : List ℕ) (above : Option (List ℕ)) (n : Node Iface)
        → walk ps n ≡ none
        → (n' : Node Iface) × (walk_mut std false change ps node_path above n ≡ ok (n', none))
    unfolding walk_mut walk
    walk_mut-absent [] node_path above n h = absurd (cc h)
    walk_mut-absent (i ∷ ps) node_path above n h = elim (Option-cases (get_entry i (children n))) [
      | inl vacant ↦ (n, rw (walk_mut, vacant) refl)
      | inr (c, entry) ↦
          let (c', made) =
            walk_mut-absent ps (node_path ++ (b'/' ∷ i)) (manager above n) c
              (sym (walk-entry i ps c n entry) ∙ h) in
          (insert_child i c' n, rw (walk_mut, entry, made) refl)
    ]

    new_checked-valid : (p : List ℕ) → IsPath p → new_checked std p ≡ ok (new std p)
    unfolding new_checked
    new_checked-valid p h = rw (new_checked, h) refl

    closest-new :
        (ps : List (List ℕ)) (above : Option (List ℕ)) (p : List ℕ)
        → closest ps above (new std p) ≡ above
    unfolding new add_arc_interface get_entry
    closest-new [] above p = refl
    closest-new (j ∷ js) above p = refl

    -- Otherwise it is a new one.
    pub walk_mut-fresh :
        (ps : List (List ℕ)) (node_path : List ℕ) (above : Option (List ℕ)) (n : Node Iface)
        → walk ps n ≡ none
        → AreValid node_path ps
        → (p : List ℕ) × Changes true change ps node_path above n (new std p)
    unfolding walk_mut walk new add_arc_interface get_entry
    walk_mut-fresh [] node_path above n h valid = absurd (cc h)
    walk_mut-fresh (i ∷ ps) node_path above n h (valid, rest) =
        let path' = node_path ++ (b'/' ∷ i) in
        elim (Option-cases (get_entry i (children n))) [
          | inr (c, entry) ↦
              let (p, made) =
                walk_mut-fresh ps path' (manager above n) c (sym (walk-entry i ps c n entry) ∙ h)
                  rest in
              (
                p,
                Changes-step true change i ps node_path path' above (manager above n) n c
                    (new std p) (rw (walk_mut, entry) refl) made (rw (closest, entry) refl),
              )
          | inl vacant ↦
              let (p, made) =
                inside ps path' (manager above n) rest
                  (λ h. walk_mut-fresh ps path' (manager above n) (new std path') h rest) in
              (
                p,
                Changes-step true change i ps node_path path' above (manager above n) n
                    (new std path') (new std p)
                    (rw (walk_mut, vacant, new_checked-valid path' valid) refl) made
                    (closest-new ps (manager above n) path' ∙ rw (closest, vacant) refl),
              )
        ]
      where
        inside :
            (ps : List (List ℕ)) (path' : List ℕ) (above : Option (List ℕ))
            → AreValid path' ps
            → (walk ps (new std path') ≡ none
                → (p : List ℕ) × Changes true change ps path' above (new std path') (new std p))
            → (p : List ℕ) × Changes true change ps path' above (new std path') (new std p)
        inside [] path' above rest later =
            (path', ((change above (new std path')).0, above, refl, refl, refl))
        inside (j ∷ js) path' above rest later = later refl

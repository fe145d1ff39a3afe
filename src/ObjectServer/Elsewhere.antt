-- ===== src/ObjectServer/Elsewhere.antt =====
-- What a change of one node leaves as it was: zbus/src/object_server/node.rs.
use zbus.Prelude.{
  ℕ, ◌≡◌, ◌≢◌, refl, sym, subst, ap, ◌∙◌, ◌⊎◌, inl, inr, Bool, true, false, ◌||◌, Option, none,
  some, List, [], ◌∷◌, ◌++◌, Result, ok, err, ◌>>=◌, bind_ok, Bool-cases, Option-cases,
}
use zbus.Text.{eq_text, eq_text_iff}
use zbus.ObjectPath.{PathError, ensure_correct_object_path_str}
use zbus.ObjectServer.{
  peer_name, introspectable_name, properties_name, is_standard, Node, node, Failure, panic,
  Standard, children, get_entry, add_arc_interface,
}
use zbus.ObjectServer.Tree.{walk, insert_child, manager, new, new_checked, walk_mut, put_back}
use zbus.ObjectServer.Calls.{lock}
use zbus.ObjectServer.Entries.{eq_text_ne, get_entry-insert_entry, get_entry-insert_entry_ne}

-- The interface of an object, by the elements of its path.
abbrev pub look : {Iface : Type 0} → List (List ℕ) → List ℕ → Node Iface → Option Iface
look qs name n = lock name (walk qs n)

-- `qs` does not lead to what is changed at `ps`: it goes another way, or on from there by elements
-- that are apart from the change.
abbrev pub Avoids : (List (List ℕ) → Type 0) → List (List ℕ) → List (List ℕ) → Type 0
Avoids IsApart [] qs = IsApart qs
Avoids IsApart (p ∷ ps) [] = Unit {0}
Avoids IsApart (p ∷ ps) (q ∷ qs) = p ≡ q → Avoids IsApart ps qs

abbrev pub IsFilled : List (List ℕ) → Type 0
IsFilled qs = qs ≢ []

pub ne-Avoids : (ps qs : List (List ℕ)) → qs ≢ ps → Avoids IsFilled ps qs
ne-Avoids [] qs h = h
ne-Avoids (p ∷ ps) [] h = tt
ne-Avoids (p ∷ ps) (q ∷ qs) h = λ e. ne-Avoids ps qs (λ f. h (cc (e, f)))

-- The three interfaces that a new node has are no users'.
is_standard-false :
    (name : List ℕ)
    → is_standard name ≡ false
    → (eq_text peer_name name ≡ false)
      × (eq_text introspectable_name name ≡ false)
      × (eq_text properties_name name ≡ false)
is_standard-false name h =
    let (a, rest) = or_false (eq_text name peer_name) _ h in
    let (b, rest) = or_false (eq_text name introspectable_name) _ rest in
    let (c, _) = or_false (eq_text name properties_name) _ rest in
    (other name peer_name a, other name introspectable_name b, other name properties_name c)
  where
    or_false : (a b : Bool) → (a || b) ≡ false → (a ≡ false) × (b ≡ false)
    or_false true b h = absurd (cc h)
    or_false false b h = (refl, h)

    other : (j k : List ℕ) → eq_text j k ≡ false → eq_text k j ≡ false
    other j k h = eq_text_ne k j (λ e. absurd (cc (h, (eq_text_iff j k).1 (sym e))))

module _ {Iface : Type 0} (std : Standard Iface) where
  pub look-new :
      (qs : List (List ℕ)) (name p : List ℕ)
      → is_standard name ≡ false
      → look qs name (new std p) ≡ none
  unfolding walk new add_arc_interface get_entry
  look-new [] name p h = let (a, b, c) = is_standard-false name h in rw (a, b, c) refl
  look-new (q ∷ qs) name p h = refl

  look-insert_child :
      (i : List ℕ) (qs : List (List ℕ)) (name : List ℕ) (c n : Node Iface)
      → look (i ∷ qs) name (insert_child i c n) ≡ look qs name c
  unfolding walk
  look-insert_child i qs name c (node p cs is) = rw (walk, get_entry-insert_entry i c cs) refl

  look-insert_child_ne :
      (i j : List ℕ) (qs : List (List ℕ)) (name : List ℕ) (c n : Node Iface)
      → i ≢ j
      → look (j ∷ qs) name (insert_child i c n) ≡ look (j ∷ qs) name n
  unfolding walk
  look-insert_child_ne i j qs name c (node p cs is) h =
      rw (walk, get_entry-insert_entry_ne i j c cs h) refl

  look-entry :
      (i : List ℕ) (qs : List (List ℕ)) (name : List ℕ) (c n : Node Iface)
      → get_entry i (children n) ≡ some c
      → look (i ∷ qs) name n ≡ look qs name c
  unfolding walk
  look-entry i qs name c n h = rw (walk, h) refl

  look-vacant :
      (i : List ℕ) (qs : List (List ℕ)) (name : List ℕ) (n : Node Iface)
      → get_entry i (children n) ≡ none
      → look (i ∷ qs) name n ≡ none
  unfolding walk
  look-vacant i qs name n h = rw (walk, h) refl

  made_of :
      (p : List ℕ) (c : Node Iface) (r : Result PathError (Unit {0}))
      → Path
          (Result Failure (Node Iface))
          (elim r [ err e ↦ err panic | ok u ↦ ok (new std p) ])
          (ok c)
      → c ≡ new std p
  made_of p c (err e) h = absurd (cc h)
  made_of p c (ok u) h = cc h

  pub new_checked-ok : (p : List ℕ) (c : Node Iface) → new_checked std p ≡ ok c → c ≡ new std p
  unfolding new_checked
  new_checked-ok p c h = made_of p c (ensure_correct_object_path_str p) h

  -- A child goes back in its place.
  child_step :
      (IsApart : List (List ℕ) → Type 0) (name i : List ℕ) (ps : List (List ℕ))
      (c c' n : Node Iface)
      → ((js : List (List ℕ)) → Avoids IsApart ps js → look js name c' ≡ look js name c)
      → ((js : List (List ℕ)) → look (i ∷ js) name n ≡ look js name c)
      → (qs : List (List ℕ)) → Avoids IsApart (i ∷ ps) qs
      → look qs name (insert_child i c' n) ≡ look qs name n
  unfolding walk
  child_step IsApart name i ps c c' (node p cs is) inner into [] h = refl
  child_step IsApart name i ps c c' n inner into (j ∷ js) h = elim (Bool-cases (eq_text i j)) [
    | inl same ↦
        let e = (eq_text_iff i j).0 same in
        subst (λ j. look (j ∷ js) name (insert_child i c' n) ≡ look (j ∷ js) name n) e
          (look-insert_child i js name c' n ∙ inner js (h e) ∙ sym (into js))
    | inr other ↦
        look-insert_child_ne i j js name c' n (λ e. absurd (cc (other, (eq_text_iff i j).1 e)))
  ]

  module _ {R : Type 0} (create : Bool) (change : Option (List ℕ) → Node Iface → Node Iface × R)
      (IsApart : List (List ℕ) → Type 0) (name : List ℕ) (user : is_standard name ≡ false)
      (keeps : (above : Option (List ℕ)) (n : Node Iface) (qs : List (List ℕ))
        → IsApart qs
        → look qs name (change above n).0 ≡ look qs name n) where
    abbrev Leaves : List (List ℕ) → List ℕ → Option (List ℕ) → Node Iface → Type 0
    Leaves ps node_path above n =
        (n' : Node Iface) (r : Option R) (qs : List (List ℕ))
        → walk_mut std create change ps node_path above n ≡ ok (n', r)
        → Avoids IsApart ps qs
        → look qs name n' ≡ look qs name n

    put_back_step :
        (i : List ℕ) (ps : List (List ℕ)) (node_path : List ℕ) (above : Option (List ℕ))
        (c n : Node Iface)
        → Leaves ps node_path above c
        → ((js : List (List ℕ)) → look (i ∷ js) name n ≡ look js name c)
        → (n' : Node Iface) (r : Option R) (qs : List (List ℕ))
        → (walk_mut std create change ps node_path above c >>= put_back std create change i n)
          ≡ ok (n', r)
        → Avoids IsApart (i ∷ ps) qs
        → look qs name n' ≡ look qs name n
    put_back_step i ps node_path above c n leaves into n' r qs h apart =
        let ((c', r'), inner, outer) =
          bind_ok (walk_mut std create change ps node_path above c) (put_back std create change i n)
            h in
        let same : insert_child i c' n ≡ n' = cc outer in
        subst (λ n'. look qs name n' ≡ look qs name n) same
          (child_step IsApart name i ps c c' n (λ js. leaves c' r' js inner) into qs apart)

    create_cases :
        (b : Bool) (n n' : Node Iface) (r : Option R)
        (rest : Result Failure (Node Iface × Option R))
        → Path
            (Result Failure (Node Iface × Option R))
            (elim b [ false ↦ ok (n, none) | true ↦ rest ])
            (ok (n', r))
        → (n ≡ n') ⊎ (rest ≡ ok (n', r))
    create_cases true n n' r rest h = inr h
    create_cases false n n' r rest h = inl (cc h)

    -- A change at `ps` leaves the users' interfaces elsewhere as they were.
    pub look-walk_mut :
        (ps : List (List ℕ)) (node_path : List ℕ) (above : Option (List ℕ)) (n : Node Iface)
        → Leaves ps node_path above n
    unfolding walk_mut
    look-walk_mut [] node_path above n n' r qs h apart =
        let same : (change above n).0 ≡ n' = cc h in
        subst (λ n'. look qs name n' ≡ look qs name n) same (keeps above n qs apart)
    look-walk_mut (i ∷ ps) node_path above n n' r qs h apart =
        elim (Option-cases (get_entry i (children n))) [
          | inr (c, there) ↦
              put_back_step i ps (node_path ++ (b'/' ∷ i)) (manager above n) c n
                (look-walk_mut ps (node_path ++ (b'/' ∷ i)) (manager above n) c)
                (λ js. look-entry i js name c n there) n' r qs (rw (walk_mut, there) at h) apart
          | inl vacant ↦ elim (create_cases create n n' r _ (rw (walk_mut, vacant) at h)) [
            | inl same ↦ ap (look qs name) (sym same)
            | inr h ↦
                let (c, fresh, h) = bind_ok (new_checked std (node_path ++ (b'/' ∷ i))) _ h in
                let e = new_checked-ok (node_path ++ (b'/' ∷ i)) c fresh in
                put_back_step i ps (node_path ++ (b'/' ∷ i)) (manager above n) c n
                  (look-walk_mut ps (node_path ++ (b'/' ∷ i)) (manager above n) c)
                  (λ js.
                    look-vacant i js name n vacant
                    ∙ sym (look-new js name (node_path ++ (b'/' ∷ i)) user)
                    ∙ ap (look js name) (sym e))
                  n' r qs h apart
          ]
        ]

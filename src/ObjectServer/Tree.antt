-- ===== src/ObjectServer/Tree.antt =====
-- Finding a node and making it: zbus/src/object_server/node.rs. A reference to a node, which the
-- caller changes, is a function of what the caller does with it.
use zbus.Prelude.{
  ℕ, Bool, true, false, Option, none, some, List, [], ◌∷◌, ◌++◌, Result, ok, err, ◌>>=◌,
}
use zbus.ObjectPath.{ensure_correct_object_path_str}
use zbus.ObjectServer.{
  peer_name, introspectable_name, properties_name, object_manager_name, get, Node, node, no_child,
  Failure, panic, Standard, path, children, interfaces, get_entry, insert_entry, add_arc_interface,
  elements,
}

module _ {Iface : Type 0} where
  -- `get_child`, from its elements on.
  unfoldable pub walk : List (List ℕ) → Node Iface → Option (Node Iface)
  walk [] n = some n
  walk (i ∷ rest) n = elim (get_entry i (children n)) [ none ↦ none | some c ↦ walk rest c ]

  unfoldable pub get_child : List ℕ → Node Iface → Option (Node Iface)
  get_child p n = walk (elements p) n

  abbrev pub insert_child : List ℕ → Node Iface → Node Iface → Node Iface
  insert_child i c (node p cs is) = node p (insert_entry i c cs) is

  -- The closest node above that implements ObjectManager, so far.
  abbrev pub manager : Option (List ℕ) → Node Iface → Option (List ℕ)
  manager above n = elim (get object_manager_name (interfaces n)) [
    | none ↦ above
    | some i ↦ some (path n)
  ]

module _ {Iface : Type 0} (std : Standard Iface) where
  -- `Node::new`; the three assertions hold.
  unfoldable pub new : List ℕ → Node Iface
  new p =
      (add_arc_interface properties_name std.properties
        (add_arc_interface introspectable_name std.introspectable
          (add_arc_interface peer_name std.peer (node p no_child [])).0).0).0

  -- `node_path.try_into().expect(…)`, and the new node.
  unfoldable pub new_checked : List ℕ → Result Failure (Node Iface)
  new_checked p = elim (ensure_correct_object_path_str p) [ err e ↦ err panic | ok u ↦ ok (new p) ]

  module _ {R : Type 0} (create : Bool)
      (change : Option (List ℕ) → Node Iface → Node Iface × R) where
    abbrev pub put_back :
        List ℕ → Node Iface → Node Iface × Option R → Result Failure (Node Iface × Option R)
    put_back i n (c, result) = ok (insert_child i c n, result)

    -- The loop of `get_child_mut`: the node with the change in it, and its result where the node
    -- is there.
    unfoldable pub walk_mut :
        List (List ℕ)
        → List ℕ
        → Option (List ℕ)
        → Node Iface
        → Result Failure (Node Iface × Option R)
    walk_mut [] node_path above n =
        let (changed, result) = change above n in ok (changed, some result)
    walk_mut (i ∷ rest) node_path above n = elim (get_entry i (children n)) [
      | some c ↦ walk_mut rest (node_path ++ (b'/' ∷ i)) (manager above n) c >>= put_back i n
      | none ↦ elim create [
        | false ↦ ok (n, none)
        | true ↦ new_checked (node_path ++ (b'/' ∷ i)) >>= λ c.
            walk_mut rest (node_path ++ (b'/' ∷ i)) (manager above n) c >>= put_back i n
      ]
    ]

    unfoldable pub get_child_mut : List ℕ → Node Iface → Result Failure (Node Iface × Option R)
    get_child_mut p n = walk_mut (elements p) [] none n

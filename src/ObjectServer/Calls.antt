-- ===== src/ObjectServer/Calls.antt =====
-- Adding and removing the interfaces of objects: zbus/src/object_server/mod.rs.
use zbus.Prelude.{
  ℕ, Bool, true, false, Option, none, some, List, [], ◌∷◌, ◌++◌, Result, ok, err, ◌>>=◌,
  if◌then◌else◌,
}
use zbus.Text.{eq_text, split}
use zbus.ObjectPath.{PathError, ensure_correct_object_path_str}
use zbus.ObjectServer.{
  object_manager_name, get, Node, Failure, invalid_path, interface_not_found, panic, Standard,
  interfaces, add_arc_interface, remove_interface, is_empty, remove_node, filled,
}
use zbus.ObjectServer.Tree.{get_child, get_child_mut}

-- The signals of a call: `InterfacesAdded` for all objects under a manager, `InterfacesAdded` and
-- `InterfacesRemoved` by a manager for an interface of an object.
pub data Notice : Type 0 where
  all_added : List ℕ → Notice
  one_added one_removed : List ℕ → List ℕ → List ℕ → Notice

abbrev pub checked : Result PathError (Unit {0}) → Result Failure (Unit {0})
checked (err e) = err (invalid_path e)
checked (ok u) = ok tt

abbrev pub added_notice : List ℕ → List ℕ → Option (List ℕ) → Option Notice
added_notice path name manager_path =
    if eq_text name object_manager_name
    then some (all_added path)
    else elim manager_path [ none ↦ none | some manager ↦ some (one_added manager path name) ]

abbrev pub removed_notice : List ℕ → List ℕ → Option (List ℕ) → Option Notice
removed_notice path name none = none
removed_notice path name (some manager_path) = some (one_removed manager_path path name)

-- The last element of a path, and the path of the others before it.
unfoldable pub parent : List ℕ → List (List ℕ) → List ℕ × List ℕ
parent p [] = ([], p)
parent p (q ∷ qs) = let (above, last) = parent q qs in (b'/' ∷ (p ++ above), last)

module _ {Iface : Type 0} where
  -- `ObjectServer::interface`, up to the type of the interface.
  abbrev pub lock : List ℕ → Option (Node Iface) → Option Iface
  lock name none = none
  lock name (some n) = get name (interfaces n)

  unfoldable pub interface : List ℕ → List ℕ → Node Iface → Option Iface
  interface path name root = lock name (get_child path root)

module _ {Iface : Type 0} (std : Standard Iface) where
  abbrev pub add_at :
      List ℕ → Iface → Option (List ℕ) → Node Iface → Node Iface × (Bool × Option (List ℕ))
  add_at name iface manager_path n =
      let (n, added) = add_arc_interface name iface n in (n, (added, manager_path))

  -- What `remove` finds at the node: whether the interface was there, and whether the node is then
  -- empty.
  abbrev pub remove_at :
      List ℕ → Option (List ℕ) → Node Iface → Node Iface × (Bool × Bool × Option (List ℕ))
  remove_at name manager_path n =
      let (n, removed) = remove_interface name n in (n, (removed, is_empty n, manager_path))

  abbrev pub without : List ℕ → Option (List ℕ) → Node Iface → Node Iface × Bool
  without name manager_path n = remove_node name n

  abbrev pub unwrapped : Node Iface × Option Bool → Result Failure (Node Iface)
  unwrapped (root, none) = err panic
  unwrapped (root, some removed) = ok root

  -- `path_parts.next().unwrap()`, and the removal of the node.
  unfoldable pub prune : List (List ℕ) → Node Iface → Result Failure (Node Iface)
  prune [] root = err panic
  prune (p ∷ ps) root =
      let (above, last) = parent p ps in
      get_child_mut std false (without last) above root >>= unwrapped

  -- After the signal: whether the node is empty.
  abbrev pub emptied :
      List ℕ → Node Iface → Bool → Result Failure (Node Iface × Result Failure Bool)
  emptied path root false = ok (root, ok false)
  emptied path root true = prune (filled (split b'/' path)) root >>= λ root. ok (root, ok true)

  -- After the removal at the node; an error of the signal leaves the node where it is.
  abbrev pub removed_from :
      List ℕ
      → Node Iface
      → Bool
      → Result Failure (Unit {0})
      → Result Failure (Node Iface × Result Failure Bool)
  removed_from path root empty (err e) = ok (root, err e)
  removed_from path root empty (ok u) = emptied path root empty

-- What becomes of a signal in a tree: an error may come of the emitter, of the properties of the
-- interfaces, of their conversion to values, or of the connection.
module _ {Iface : Type 0} (send : Notice → Node Iface → Result Failure (Unit {0})) where
  abbrev pub signalled : Node Iface → Option Notice → Result Failure (Unit {0})
  signalled root none = ok tt
  signalled root (some notice) = send notice root

  -- `if added`, with the signals.
  abbrev pub added_result :
      List ℕ → List ℕ → Node Iface → Bool → Option (List ℕ) → Result Failure Bool
  added_result path name root false manager_path = ok false
  added_result path name root true manager_path =
      signalled root (added_notice path name manager_path) >>= λ _. ok true

  abbrev pub added_out :
      List ℕ
      → List ℕ
      → Node Iface × Option (Bool × Option (List ℕ))
      → Result Failure (Node Iface × Result Failure Bool)
  added_out path name (root, none) = err panic
  added_out path name (root, some (added, manager_path)) =
      ok (root, added_result path name root added manager_path)

module _ {Iface : Type 0} (std : Standard Iface)
    (send : Notice → Node Iface → Result Failure (Unit {0})) where
  -- `ObjectServer::add_arc_interface`, which `at` calls: an error before the tree is changed, or a
  -- panic; or the tree, and what the call returns.
  unfoldable pub at :
      List ℕ → List ℕ → Iface → Node Iface → Result Failure (Node Iface × Result Failure Bool)
  at path name iface root = checked (ensure_correct_object_path_str path) >>= λ _.
      get_child_mut std true (add_at std name iface) path root >>= added_out send path name

  abbrev pub removed_out :
      List ℕ
      → List ℕ
      → Node Iface × Option (Bool × Bool × Option (List ℕ))
      → Result Failure (Node Iface × Result Failure Bool)
  removed_out path name (root, none) = err interface_not_found
  removed_out path name (root, some (false, empty, manager_path)) = err interface_not_found
  removed_out path name (root, some (true, empty, manager_path)) =
      removed_from std path root empty (signalled send root (removed_notice path name manager_path))

  -- `ObjectServer::remove`, as `at`: without an error in the result, whether the node is gone.
  unfoldable pub remove :
      List ℕ → List ℕ → Node Iface → Result Failure (Node Iface × Result Failure Bool)
  remove path name root = checked (ensure_correct_object_path_str path) >>= λ _.
      get_child_mut std false (remove_at std name) path root >>= removed_out path name

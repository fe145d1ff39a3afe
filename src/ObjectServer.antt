-- ===== src/ObjectServer.antt =====
-- The tree of objects that a connection serves: zbus/src/object_server/node.rs, and what mod.rs
-- does with it. Locks and tasks are left out, and what becomes of a signal is a parameter.
pub mod Tree
pub mod Calls
pub mod Entries
pub mod Elsewhere
pub mod Paths
pub mod Reached
pub mod Adding
pub mod Empty
pub mod Pruning
pub mod Removing
mod Runs
use zbus.Prelude.{
  ℕ, ◌≡◌, Bool, true, false, not, ◌&&◌, ◌||◌, Option, none, some, List, [], ◌∷◌, ◌++◌, Result, ok,
  err, ◌>>=◌, if◌then◌else◌, any, all, drop,
}
use zbus.Text.{codes, eq_text, split}
use zbus.ObjectPath.{PathError, ensure_correct_object_path_str}

abbrev pub peer_name : List ℕ
peer_name = codes "org.freedesktop.DBus.Peer"

abbrev pub introspectable_name : List ℕ
introspectable_name = codes "org.freedesktop.DBus.Introspectable"

abbrev pub properties_name : List ℕ
properties_name = codes "org.freedesktop.DBus.Properties"

abbrev pub object_manager_name : List ℕ
object_manager_name = codes "org.freedesktop.DBus.ObjectManager"

abbrev pub is_standard : List ℕ → Bool
is_standard name =
    eq_text name peer_name
    || (eq_text name introspectable_name
        || (eq_text name properties_name || eq_text name object_manager_name))

-- A map with texts as keys, which has each key once.
module _ {A : Type 0} where
  abbrev pub get : List ℕ → List (List ℕ × A) → Option A
  get k [] = none
  get k ((j, a) ∷ entries) = if eq_text j k then some a else get k entries

  abbrev pub remove_key : List ℕ → List (List ℕ × A) → List (List ℕ × A)
  remove_key k [] = []
  remove_key k ((j, a) ∷ entries) =
      let rest = remove_key k entries in if eq_text j k then rest else (j, a) ∷ rest

-- A path, the children by their names, and the interfaces by theirs.
mutual
  pub data Node (Iface : Type 0) : Type 0 where
    node : List ℕ → Children Iface → List (List ℕ × Iface) → Node Iface

  pub data Children (Iface : Type 0) : Type 0 where
    no_child : Children Iface
    child : List ℕ → Node Iface → Children Iface → Children Iface

-- `panic` is that of `expect("Invalid Object Path")` and of `unwrap`, and `not_signalled` an error
-- on the way to a signal or in sending it.
pub data Failure : Type 0 where
  invalid_path : PathError → Failure
  interface_not_found : Failure
  not_signalled : Failure
  panic : Failure

-- The interfaces that every node has.
pub record Standard (Iface : Type 0) : Type 0 where
  pub peer : Iface
  pub introspectable : Iface
  pub properties : Iface

module _ {Iface : Type 0} where
  abbrev pub path : Node Iface → List ℕ
  path (node p cs is) = p

  abbrev pub children : Node Iface → Children Iface
  children (node p cs is) = cs

  abbrev pub interfaces : Node Iface → List (List ℕ × Iface)
  interfaces (node p cs is) = is

  -- `HashMap::get`, `insert` and `remove` of the children
  unfoldable pub get_entry : List ℕ → Children Iface → Option (Node Iface)
  get_entry k no_child = none
  get_entry k (child j n rest) =
      let later = get_entry k rest in if eq_text j k then some n else later

  unfoldable pub insert_entry : List ℕ → Node Iface → Children Iface → Children Iface
  insert_entry k new no_child = child k new no_child
  insert_entry k new (child j n rest) =
      let later = insert_entry k new rest in
      if eq_text j k then child k new rest else child j n later

  unfoldable pub remove_entry : List ℕ → Children Iface → Children Iface
  remove_entry k no_child = no_child
  remove_entry k (child j n rest) =
      let later = remove_entry k rest in if eq_text j k then later else child j n later

  abbrev pub is_some : Option Iface → Bool
  is_some none = false
  is_some (some a) = true

  -- `add_arc_interface`: whether it was added, too.
  abbrev pub add_vacant : List ℕ → Iface → Node Iface → Option Iface → Node Iface × Bool
  add_vacant name iface (node p cs is) none = (node p cs (is ++ ((name, iface) ∷ [])), true)
  add_vacant name iface n (some old) = (n, false)

  unfoldable pub add_arc_interface : List ℕ → Iface → Node Iface → Node Iface × Bool
  add_arc_interface name iface n = add_vacant name iface n (get name (interfaces n))

  unfoldable pub remove_interface : List ℕ → Node Iface → Node Iface × Bool
  remove_interface name (node p cs is) = (node p cs (remove_key name is), is_some (get name is))

  unfoldable pub is_empty : Node Iface → Bool
  is_empty n = not (any (λ entry. not (is_standard entry.0)) (interfaces n))

  unfoldable pub remove_node : List ℕ → Node Iface → Node Iface × Bool
  remove_node name (node p cs is) =
      (node p (remove_entry name cs) is, elim (get_entry name cs) [ none ↦ false | some n ↦ true ])

abbrev keep : List ℕ → List (List ℕ) → List (List ℕ)
keep [] rest = rest
keep (c ∷ s) rest = (c ∷ s) ∷ rest

abbrev pub filled : List (List ℕ) → List (List ℕ)
filled [] = []
filled (p ∷ ps) = keep p (filled ps)

-- The elements of a path: `path.split('/').skip(1)`, without the empty ones.
unfoldable pub elements : List ℕ → List (List ℕ)
elements p = filled (drop 1 (split b'/' p))

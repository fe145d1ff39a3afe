-- ===== src/ObjectServer/Runs.antt =====
-- Runs of the object server on concrete trees, with numbers for the interfaces.
use zbus.Prelude.{ℕ, ◌≡◌, refl, true, List, [], ◌∷◌, Result, ok, err}
use zbus.Text.{codes, split}
use zbus.ObjectPath.{ensure_correct_object_path_str, path_loop, path_step}
use zbus.ObjectServer.{
  Node, node, Children, no_child, child, not_signalled, panic, Failure, Standard, get_entry,
  insert_entry, add_arc_interface, remove_interface, is_empty, elements,
}
use zbus.ObjectServer.Tree.{new, new_checked, walk_mut, get_child_mut}
use zbus.ObjectServer.Calls.{Notice, at, remove, prune, parent}
use zbus.ObjectServer.Paths.{IsPath}
use zbus.ObjectServer.Adding.{AddsOne, at-AddsOne}
use zbus.ObjectServer.Removing.{Removes, remove-Removes}

abbrev numbers : Standard ℕ
numbers = record { peer = 0; introspectable = 1; properties = 2 }

abbrev clock : List ℕ
clock = codes "org.zbus.Clock"

abbrev bare : List ℕ → Node ℕ
bare p = node p no_child (
    (codes "org.freedesktop.DBus.Peer", 0)
    ∷ (codes "org.freedesktop.DBus.Introspectable", 1)
    ∷ (codes "org.freedesktop.DBus.Properties", 2)
    ∷ [])

abbrev clocked : List ℕ → Node ℕ
clocked p = node p no_child (
    (codes "org.freedesktop.DBus.Peer", 0)
    ∷ (codes "org.freedesktop.DBus.Introspectable", 1)
    ∷ (codes "org.freedesktop.DBus.Properties", 2)
    ∷ (clock, 7)
    ∷ [])

-- A connection that is closed: no signal is sent.
abbrev closed : Notice → Node ℕ → Result Failure (Unit {0})
closed notice root = err not_signalled

new-root : new numbers (codes "/") ≡ bare (codes "/")
unfolding new add_arc_interface
new-root = refl

at-root :
    at numbers closed (codes "/") clock 7 (bare (codes "/")) ≡ ok (clocked (codes "/"), ok true)
unfolding at get_child_mut walk_mut new new_checked add_arc_interface get_entry insert_entry
    elements split ensure_correct_object_path_str path_loop path_step
at-root = refl

remove-root : remove numbers closed (codes "/") clock (clocked (codes "/")) ≡ err panic
unfolding remove get_child_mut walk_mut remove_interface get_entry insert_entry elements split
    is_empty prune parent ensure_correct_object_path_str path_loop path_step
remove-root = refl

-- A root with an object manager, and an object below it.
abbrev managed : Children ℕ → Node ℕ
managed cs = node (codes "/") cs ((codes "org.freedesktop.DBus.ObjectManager", 3) ∷ [])

-- The interface is in the tree though the call fails.
at-managed :
    at numbers closed (codes "/a") clock 7 (managed no_child)
    ≡ ok (managed (child (codes "a") (clocked (codes "/a")) no_child), err not_signalled)
unfolding at get_child_mut walk_mut new new_checked add_arc_interface get_entry insert_entry
    elements split ensure_correct_object_path_str path_loop path_step
at-managed = refl

-- The empty node stays where the signal fails.
remove-managed :
    remove numbers closed
      (codes "/a")
      clock
      (managed (child (codes "a") (clocked (codes "/a")) no_child))
    ≡ ok (managed (child (codes "a") (bare (codes "/a")) no_child), err not_signalled)
unfolding remove get_child_mut walk_mut remove_interface get_entry insert_entry elements split
    is_empty prune parent ensure_correct_object_path_str path_loop path_step
remove-managed = refl

a-IsPath : IsPath (codes "/a")
unfolding ensure_correct_object_path_str path_loop path_step
a-IsPath = refl

at-AddsOne_example : AddsOne numbers closed (codes "/a") clock 7 (managed no_child)
at-AddsOne_example = at-AddsOne numbers closed (codes "/a") clock 7 (managed no_child) a-IsPath refl

remove-Removes_example :
    Removes numbers closed
      (codes "/a")
      clock
      (managed (child (codes "a") (clocked (codes "/a")) no_child))
remove-Removes_example =
    remove-Removes numbers closed (codes "/a") clock
      (managed (child (codes "a") (clocked (codes "/a")) no_child)) a-IsPath refl

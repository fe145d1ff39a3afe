-- ===== src/MatchRule/Validity.antt =====
-- The match rules that the builder of zbus/src/match_rule/builder.rs can make.
pub mod Kept
use zbus.Prelude.{
  ℕ, ◌%◌, ◌^◌, ◌<◌, ◌≤◌, ◌≡◌, refl, sym, subst, ap, ◌∙◌, Bool, true, false, not, ◌&&◌, ◌||◌, Option,
  none, some, List, [], ◌∷◌, Result, ok, err, ◌>>=◌, bind_ok, ltb, leb, leb-cases, ltb-cases, inl,
  inr, if◌then◌else◌, length, All, Bool-cases, arith,
}
use zbus.Text.{str_len}
use zbus.Names.{
  BusName, unique, well_known, bus_name, ensure_correct_interface_name, ensure_correct_member_name,
  ensure_correct_unique_name,
}
use zbus.Names
use zbus.Names.Bus.{bus_name-eq-ok_iff}
use zbus.ObjectPath.{PathError, ensure_correct_object_path_str}
use zbus.MatchRule.{MessageType, PathSpec, path, path_namespace, MatchRule, RuleError}
use zbus.MatchRule.Slots.{place, Ascending, place-Ascending, place-All}
use zbus.MatchRule.Printing.{as_str}
use zbus.MatchRule.Builder.{new, max_args, checked_name, checked_path, is_namespace, strip_colon}
use zbus.MatchRule.Builder

abbrev pub Given : {A : Type 0} → (A → Type 0) → Option A → Type 0
Given P none = Unit {0}
Given P (some a) = P a

abbrev pub IsBusName : BusName → Type 0
IsBusName name = bus_name (as_str name) ≡ ok name

abbrev pub IsInterface : List ℕ → Type 0
IsInterface name = ensure_correct_interface_name name ≡ ok tt

abbrev pub IsMember : List ℕ → Type 0
IsMember name = ensure_correct_member_name name ≡ ok tt

abbrev pub IsUniqueName : List ℕ → Type 0
IsUniqueName name = ensure_correct_unique_name name ≡ ok tt

abbrev pub IsPath : List ℕ → Type 0
IsPath p = ensure_correct_object_path_str p ≡ ok tt

abbrev pub IsPathSpec : PathSpec → Type 0
IsPathSpec (path p) = IsPath p
IsPathSpec (path_namespace ns) = IsPath ns

abbrev pub IsNamespace : List ℕ → Type 0
IsNamespace ns = (1 ≤ length ns) × (str_len ns ≤ 255) × (is_namespace (strip_colon ns) ≡ true)

abbrev pub ArePaths : List (ℕ × List ℕ) → Type 0
ArePaths slots = Ascending 0 64 slots × All (λ slot. IsPath slot.1) slots

-- The names and the paths are valid, and the arguments stand by rising indices below 64.
abbrev pub IsValid : MatchRule → Type 0
IsValid rule =
    Given IsBusName rule.sender
    × Given IsInterface rule.interface
    × Given IsMember rule.member
    × Given IsPathSpec rule.path_spec
    × Given IsUniqueName rule.destination
    × Ascending 0 64 rule.args
    × ArePaths rule.arg_paths
    × Given IsNamespace rule.arg0ns

-- A rule that calls of the builder make.
pub data IsBuilt : MatchRule → Type 0 where
  new_ : IsBuilt new
  msg_type_ :
      {rule : MatchRule} (t : MessageType) → IsBuilt rule → IsBuilt (Builder.msg_type t rule)
  sender_ :
      {rule out : MatchRule} (value : List ℕ)
      → IsBuilt rule
      → Builder.sender value rule ≡ ok out
      → IsBuilt out
  interface_ :
      {rule out : MatchRule} (value : List ℕ)
      → IsBuilt rule
      → Builder.interface value rule ≡ ok out
      → IsBuilt out
  member_ :
      {rule out : MatchRule} (value : List ℕ)
      → IsBuilt rule
      → Builder.member value rule ≡ ok out
      → IsBuilt out
  path_ :
      {rule out : MatchRule} (value : List ℕ)
      → IsBuilt rule
      → Builder.path value rule ≡ ok out
      → IsBuilt out
  path_namespace_ :
      {rule out : MatchRule} (value : List ℕ)
      → IsBuilt rule
      → Builder.path_namespace value rule ≡ ok out
      → IsBuilt out
  destination_ :
      {rule out : MatchRule} (value : List ℕ)
      → IsBuilt rule
      → Builder.destination value rule ≡ ok out
      → IsBuilt out
  arg_ :
      {rule out : MatchRule} (idx : ℕ) (value : List ℕ)
      → IsBuilt rule
      → Builder.arg idx value rule ≡ ok out
      → IsBuilt out
  add_arg_ :
      {rule out : MatchRule} (value : List ℕ)
      → IsBuilt rule
      → Builder.add_arg value rule ≡ ok out
      → IsBuilt out
  arg_path_ :
      {rule out : MatchRule} (idx : ℕ) (value : List ℕ)
      → IsBuilt rule
      → Builder.arg_path idx value rule ≡ ok out
      → IsBuilt out
  add_arg_path_ :
      {rule out : MatchRule} (value : List ℕ)
      → IsBuilt rule
      → Builder.add_arg_path value rule ≡ ok out
      → IsBuilt out
  arg0ns_ :
      {rule out : MatchRule} (value : List ℕ)
      → IsBuilt rule
      → Builder.arg0ns value rule ≡ ok out
      → IsBuilt out

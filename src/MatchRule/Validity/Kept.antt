-- ===== src/MatchRule/Validity/Kept.antt =====
-- The builder of zbus/src/match_rule/builder.rs keeps its rules valid.
use zbus.Prelude.{
  ℕ, ◌%◌, ◌^◌, ◌<◌, ◌≤◌, ◌≡◌, refl, subst, ap, ◌⊎◌, ◌==◌, some, List, [], ◌∷◌, Result, ok, err,
  bind_ok, leb, leb-cases, ltb-cases, inl, inr, if◌then◌else◌, length, Bool-cases, arith,
}
use zbus.Text.{str_len}
use zbus.Names.{
  BusName, unique, well_known, bus_name, ensure_correct_interface_name, ensure_correct_member_name,
  ensure_correct_unique_name,
}
use zbus.Names
use zbus.Names.Bus.{bus_name-eq-ok_iff}
use zbus.ObjectPath.{PathError, ensure_correct_object_path_str}
use zbus.MatchRule.{MatchRule, RuleError, invalid_match_rule}
use zbus.MatchRule.Slots.{place, place-Ascending, place-All, slot, slot-place}
use zbus.MatchRule.Printing.{as_str}
use zbus.MatchRule.Builder.{new, max_args, checked_name, checked_path, is_namespace, strip_colon}
use zbus.MatchRule.Builder
use zbus.MatchRule.Validity.{
  IsBusName, IsPath, IsValid, IsBuilt, new_, msg_type_, sender_, interface_, member_, path_,
  path_namespace_, destination_, arg_, add_arg_, arg_path_, add_arg_path_, arg0ns_,
}

-- A setter that goes on has given its rule.
given :
    {rule out : MatchRule}
    → Path (Result RuleError MatchRule) (ok rule) (ok out)
    → IsValid rule
    → IsValid out
given {rule = rule} {out = out} h valid = let same : rule ≡ out = cc h in subst IsValid same valid

checked_name_ok :
    {A : Type 0} (r : Result Names.Error A) {out : A} → checked_name r ≡ ok out → r ≡ ok out
checked_name_ok (err e) h = absurd (cc h)
checked_name_ok (ok a) h = cc h

unit_ok : {r : Result Names.Error (Unit {0})} {u : Unit {0}} → r ≡ ok u → r ≡ ok tt
unit_ok h = h

checked_path_ok :
    (p : List ℕ) (r : Result PathError (Unit {0})) {out : List ℕ}
    → checked_path p r ≡ ok out
    → (r ≡ ok tt) × (p ≡ out)
checked_path_ok p (err e) h = absurd (cc h)
checked_path_ok p (ok u) h = (refl, cc h)

bus_name_valid : (value : List ℕ) {name : BusName} → bus_name value ≡ ok name → IsBusName name
bus_name_valid value {name = name} h = elim ((bus_name-eq-ok_iff value name).0 h) [
  | inl (e, _) ↦ named (ap as_str e) h
  | inr (e, _, _) ↦ named (ap as_str e) h
]
  where
    named : {n : BusName} {t : List ℕ} → as_str n ≡ t → bus_name t ≡ ok n → IsBusName n
    named e h = rw e h

-- The end of `arg` and of `arg_path`, after the test of the index.
index_ok :
    {A : Type 0} (idx : ℕ) (refused : RuleError) (rest : Result RuleError A) {out : A}
    → (if leb max_args idx then err refused else rest) ≡ ok out
    → (idx < 64) × (rest ≡ ok out)
index_ok idx refused rest h = elim (leb-cases max_args idx) [
  | inl (t, _) ↦ absurd (cc (rw t at h))
  | inr (t, lt) ↦ (lt, rw t at h)
]

sender-IsValid :
    (value : List ℕ) (rule : MatchRule) {out : MatchRule}
    → IsValid rule
    → Builder.sender value rule ≡ ok out
    → IsValid out
unfolding Builder.sender
sender-IsValid value rule (s, i, m, p, d, slots, ps, ns) h =
    let (name, found, e) = bind_ok (checked_name (bus_name value)) _ h in
    given e
      (bus_name_valid value (checked_name_ok (bus_name value) found), i, m, p, d, slots, ps, ns)

interface-IsValid :
    (value : List ℕ) (rule : MatchRule) {out : MatchRule}
    → IsValid rule
    → Builder.interface value rule ≡ ok out
    → IsValid out
unfolding Builder.interface
interface-IsValid value rule (s, i, m, p, d, slots, ps, ns) h =
    let (u, found, e) = bind_ok (checked_name (ensure_correct_interface_name value)) _ h in
    given e (s, checked_name_ok _ found, m, p, d, slots, ps, ns)

member-IsValid :
    (value : List ℕ) (rule : MatchRule) {out : MatchRule}
    → IsValid rule
    → Builder.member value rule ≡ ok out
    → IsValid out
unfolding Builder.member
member-IsValid value rule (s, i, m, p, d, slots, ps, ns) h =
    let (u, found, e) = bind_ok (checked_name (ensure_correct_member_name value)) _ h in
    given e (s, i, checked_name_ok _ found, p, d, slots, ps, ns)

destination-IsValid :
    (value : List ℕ) (rule : MatchRule) {out : MatchRule}
    → IsValid rule
    → Builder.destination value rule ≡ ok out
    → IsValid out
unfolding Builder.destination
destination-IsValid value rule (s, i, m, p, d, slots, ps, ns) h =
    let (u, found, e) = bind_ok (checked_name (ensure_correct_unique_name value)) _ h in
    given e (s, i, m, p, checked_name_ok _ found, slots, ps, ns)

checked_path_valid :
    (value : List ℕ) {out : List ℕ}
    → checked_path value (ensure_correct_object_path_str value) ≡ ok out
    → IsPath out
checked_path_valid value h =
    let (fine, e) = checked_path_ok value (ensure_correct_object_path_str value) h in
    subst IsPath e fine

path-IsValid :
    (value : List ℕ) (rule : MatchRule) {out : MatchRule}
    → IsValid rule
    → Builder.path value rule ≡ ok out
    → IsValid out
unfolding Builder.path
path-IsValid value rule (s, i, m, p, d, slots, ps, ns) h =
    let (q, found, e) = bind_ok (checked_path value (ensure_correct_object_path_str value)) _ h in
    given e (s, i, m, checked_path_valid value found, d, slots, ps, ns)

path_namespace-IsValid :
    (value : List ℕ) (rule : MatchRule) {out : MatchRule}
    → IsValid rule
    → Builder.path_namespace value rule ≡ ok out
    → IsValid out
unfolding Builder.path_namespace
path_namespace-IsValid value rule (s, i, m, p, d, slots, ps, ns) h =
    let (q, found, e) = bind_ok (checked_path value (ensure_correct_object_path_str value)) _ h in
    given e (s, i, m, checked_path_valid value found, d, slots, ps, ns)

arg-IsValid :
    (idx : ℕ) (value : List ℕ) (rule : MatchRule) {out : MatchRule}
    → IsValid rule
    → Builder.arg idx value rule ≡ ok out
    → IsValid out
unfolding Builder.arg
arg-IsValid idx value rule (s, i, m, p, d, slots, ps, ns) h =
    let (lt, e) = index_ok idx _ _ h in
    given e (s, i, m, p, d, place-Ascending idx 0 64 value rule.args (omega arith) lt slots, ps, ns)

arg_path-IsValid :
    (idx : ℕ) (value : List ℕ) (rule : MatchRule) {out : MatchRule}
    → IsValid rule
    → Builder.arg_path idx value rule ≡ ok out
    → IsValid out
unfolding Builder.arg_path
arg_path-IsValid idx value rule (s, i, m, p, d, slots, (ps, are), ns) h =
    let (lt, rest) = index_ok idx _ _ h in
    let (q, found, e) =
      bind_ok (checked_path value (ensure_correct_object_path_str value)) _ rest in
    let fine = checked_path_valid value found in
    given e (
      s,
      i,
      m,
      p,
      d,
      slots,
      (
        place-Ascending idx 0 64 q rule.arg_paths (omega arith) lt ps,
        place-All IsPath idx q rule.arg_paths fine are,
      ),
      ns,
    )

arg0ns-IsValid :
    (value : List ℕ) (rule : MatchRule) {out : MatchRule}
    → IsValid rule
    → Builder.arg0ns value rule ≡ ok out
    → IsValid out
unfolding Builder.arg0ns
arg0ns-IsValid [] rule valid h = absurd (cc h)
arg0ns-IsValid (c ∷ value) rule (s, i, m, p, d, slots, ps, ns) h =
    elim (ltb-cases 255 (str_len (c ∷ value))) [
      | inl (t, _) ↦ absurd (cc (rw t at h))
      | inr (t, le) ↦ elim (Bool-cases (is_namespace (strip_colon (c ∷ value)))) [
        | inl fine ↦ given (rw (t, fine) at h) (s, i, m, p, d, slots, ps, (omega arith, le, fine))
        | inr bad ↦ absurd (cc (rw (t, bad) at h))
      ]
    ]

-- Every rule that calls of the builder make is valid.
pub IsBuilt-IsValid : {rule : MatchRule} → IsBuilt rule → IsValid rule
unfolding Builder.msg_type Builder.add_arg Builder.add_arg_path
IsBuilt-IsValid new_ = (tt, tt, tt, tt, tt, tt, (tt, tt), tt)
IsBuilt-IsValid (msg_type_ t b) = IsBuilt-IsValid b
IsBuilt-IsValid (sender_ v b h) = sender-IsValid v _ (IsBuilt-IsValid b) h
IsBuilt-IsValid (interface_ v b h) = interface-IsValid v _ (IsBuilt-IsValid b) h
IsBuilt-IsValid (member_ v b h) = member-IsValid v _ (IsBuilt-IsValid b) h
IsBuilt-IsValid (path_ v b h) = path-IsValid v _ (IsBuilt-IsValid b) h
IsBuilt-IsValid (path_namespace_ v b h) = path_namespace-IsValid v _ (IsBuilt-IsValid b) h
IsBuilt-IsValid (destination_ v b h) = destination-IsValid v _ (IsBuilt-IsValid b) h
IsBuilt-IsValid (arg_ i v b h) = arg-IsValid i v _ (IsBuilt-IsValid b) h
IsBuilt-IsValid (add_arg_ {rule} v b h) =
    arg-IsValid (length rule.args % 2 ^ 8) v rule (IsBuilt-IsValid b) h
IsBuilt-IsValid (arg_path_ i v b h) = arg_path-IsValid i v _ (IsBuilt-IsValid b) h
IsBuilt-IsValid (add_arg_path_ {rule} v b h) =
    arg_path-IsValid (length rule.arg_paths % 2 ^ 8) v rule (IsBuilt-IsValid b) h
IsBuilt-IsValid (arg0ns_ v b h) = arg0ns-IsValid v _ (IsBuilt-IsValid b) h

-- Setting an argument of a valid rule fails exactly where the index is not below 64; otherwise the
-- rule has the new argument at that index, and at the others what it had.
pub arg-slot :
    (idx : ℕ) (value : List ℕ) (rule : MatchRule)
    → IsValid rule
    → ((64 ≤ idx) × (Builder.arg idx value rule ≡ err invalid_match_rule))
      ⊎ ((idx < 64)
          × (out : MatchRule) × (Builder.arg idx value rule ≡ ok out)
          × ((j : ℕ) → slot j out.args ≡ (if idx == j then some value else slot j rule.args)))
unfolding Builder.arg
arg-slot idx value rule (_, _, _, _, _, slots, _, _) = elim (leb-cases max_args idx) [
  | inl (t, le) ↦ inl (le, rw t refl)
  | inr (t, lt) ↦ inr (
    lt,
    record rule { args = place idx value rule.args },
    rw t refl,
    λ j. slot-place idx j 0 64 value rule.args slots,
  )
]

-- ===== src/MatchRule/Builder.antt =====
-- The builder of match rules: zbus/src/match_rule/builder.rs.
use zbus.Prelude.{
  ℕ, ◌%◌, ◌^◌, Bool, true, false, not, ◌&&◌, ◌||◌, none, some, List, [], ◌∷◌, Result, ok, err,
  ◌>>=◌, ltb, leb, ◌==◌, if◌then◌else◌, length, all,
}
use zbus.Text.{str_len, is_ascii_digit, is_ascii_alphanumeric, split}
use zbus.Names.{
  bus_name, ensure_correct_interface_name, ensure_correct_member_name, ensure_correct_unique_name,
}
use zbus.Names
use zbus.ObjectPath.{PathError, ensure_correct_object_path_str}
use zbus.MatchRule.{
  MessageType, PathSpec, MatchRule, RuleError, invalid_match_rule, invalid_name, invalid_path,
}
use zbus.MatchRule.Slots.{place}

abbrev pub max_args : ℕ
max_args = 64

abbrev pub new : MatchRule
new = record {
  msg_type = none;
  sender = none;
  interface = none;
  member = none;
  path_spec = none;
  destination = none;
  args = [];
  arg_paths = [];
  arg0ns = none;
}

-- `try_into().map_err(Into::into)?`
abbrev pub checked_name : {A : Type 0} → Result Names.Error A → Result RuleError A
checked_name (err e) = err (invalid_name e)
checked_name (ok a) = ok a

abbrev pub checked_path : List ℕ → Result PathError (Unit {0}) → Result RuleError (List ℕ)
checked_path path (err e) = err (invalid_path e)
checked_path path (ok u) = ok path

unfoldable pub sender : List ℕ → MatchRule → Result RuleError MatchRule
sender value rule =
    checked_name (bus_name value) >>= λ name. ok (record rule { sender = some name })

unfoldable pub msg_type : MessageType → MatchRule → MatchRule
msg_type value rule = record rule { msg_type = some value }

unfoldable pub interface : List ℕ → MatchRule → Result RuleError MatchRule
interface value rule = checked_name (ensure_correct_interface_name value) >>= λ _.
    ok (record rule { interface = some value })

unfoldable pub member : List ℕ → MatchRule → Result RuleError MatchRule
member value rule = checked_name (ensure_correct_member_name value) >>= λ _.
    ok (record rule { member = some value })

unfoldable pub path : List ℕ → MatchRule → Result RuleError MatchRule
path value rule = checked_path value (ensure_correct_object_path_str value) >>= λ value.
    ok (record rule { path_spec = some (PathSpec.path value) })

unfoldable pub path_namespace : List ℕ → MatchRule → Result RuleError MatchRule
path_namespace value rule = checked_path value (ensure_correct_object_path_str value) >>= λ value.
    ok (record rule { path_spec = some (PathSpec.path_namespace value) })

unfoldable pub destination : List ℕ → MatchRule → Result RuleError MatchRule
destination value rule = checked_name (ensure_correct_unique_name value) >>= λ _.
    ok (record rule { destination = some value })

unfoldable pub arg : ℕ → List ℕ → MatchRule → Result RuleError MatchRule
arg idx value rule =
    if leb max_args idx
    then err invalid_match_rule
    else ok (record rule { args = place idx value rule.args })

-- `self.0.args.len() as u8`
unfoldable pub add_arg : List ℕ → MatchRule → Result RuleError MatchRule
add_arg value rule = arg (length rule.args % 2 ^ 8) value rule

unfoldable pub arg_path : ℕ → List ℕ → MatchRule → Result RuleError MatchRule
arg_path idx value rule =
    if leb max_args idx
    then err invalid_match_rule
    else (checked_path value (ensure_correct_object_path_str value) >>= λ value.
        ok (record rule { arg_paths = place idx value rule.arg_paths }))

unfoldable pub add_arg_path : List ℕ → MatchRule → Result RuleError MatchRule
add_arg_path value rule = arg_path (length rule.arg_paths % 2 ^ 8) value rule

-- `namespace.strip_prefix(':')`, and whether there was one.
abbrev pub strip_colon : List ℕ → Bool × List ℕ
strip_colon [] = (false, [])
strip_colon (c ∷ s) = if c == b':' then (true, s) else (false, c ∷ s)

abbrev pub valid_first_char : Bool → List ℕ → Bool
valid_first_char is_unique [] = false
valid_first_char is_unique (c ∷ s) = not (c == b'.') && (not (is_ascii_digit c) || is_unique)

abbrev pub is_namespace_char : ℕ → Bool
is_namespace_char c = is_ascii_alphanumeric c || (c == b'-' || (c == b'_' || c == b'.'))

abbrev is_empty : List ℕ → Bool
is_empty [] = true
is_empty (c ∷ s) = false

unfoldable pub is_namespace : Bool × List ℕ → Bool
is_namespace (is_unique, s) =
    valid_first_char is_unique s
    && (all (valid_first_char is_unique) (split b'.' s) && all is_namespace_char s)

unfoldable pub arg0ns : List ℕ → MatchRule → Result RuleError MatchRule
arg0ns namespace rule =
    if is_empty namespace || ltb 255 (str_len namespace)
    then err invalid_match_rule
    else if not (is_namespace (strip_colon namespace))
    then err invalid_match_rule
    else ok (record rule { arg0ns = some namespace })

-- ===== src/MatchRule/Matching.antt =====
-- `MatchRule::matches` in zbus/src/match_rule/mod.rs. A message is what the method asks of it: the
-- fields of its header, and what its body decodes to.
pub mod Checks
pub mod Body
pub mod Meaning
use zbus.Prelude.{
  ℕ, Bool, true, false, not, ◌&&◌, ◌||◌, Option, none, some, List, [], ◌∷◌, Result, ok, err, ◌>>=◌,
  ◌==◌, if◌then◌else◌, get_elem?,
}
use zbus.Text.{eq_text, starts_with}
use zbus.Names.{BusName, unique, well_known}
use zbus.MatchRule.{
  MessageType, method_call, method_return, error, signal, PathSpec, path, path_namespace, MatchRule,
}
use zbus.MatchRule.Printing.{as_str}

-- A field of the body: the kinds that the arguments of a rule are compared with, and the others.
pub data Field : Type 0 where
  str object_path : List ℕ → Field
  other : Field

pub record Message : Type 0 where
  pub message_type : MessageType
  pub sender : Option (List ℕ)
  pub interface : Option (List ℕ)
  pub member : Option (List ℕ)
  pub destination : Option BusName
  pub path : Option (List ℕ)
  -- `body().deserialize_unchecked::<BusName>().ok()`
  pub arg0 : Option BusName
  -- `body().deserialize::<Structure>().ok()`, as its fields
  pub fields : Option (List Field)

-- The checks of `matches`, each of which answers `false` early unless it passes.
-- The discriminants of `message::Type`, and its derived `==`.
abbrev pub discriminant : MessageType → ℕ
discriminant method_call = 1
discriminant method_return = 2
discriminant error = 3
discriminant signal = 4

abbrev pub eq_type : MessageType → MessageType → Bool
eq_type s t = discriminant s == discriminant t

abbrev pub eq_some : List ℕ → Option (List ℕ) → Bool
eq_some a none = false
eq_some a (some b) = eq_text a b

unfoldable pub type_check : Option MessageType → MessageType → Bool
type_check none msg = true
type_check (some t) msg = eq_type t msg

unfoldable pub sender_check : Option BusName → Option (List ℕ) → Bool
sender_check none msg = true
sender_check (some (unique name)) msg = eq_some name msg
sender_check (some (well_known name)) msg = true

unfoldable pub text_check : Option (List ℕ) → Option (List ℕ) → Bool
text_check none msg = true
text_check (some name) msg = eq_some name msg

unfoldable pub destination_check : Option (List ℕ) → Option BusName → Bool
destination_check none msg = true
destination_check (some destination) (some (unique name)) = eq_text destination name
destination_check (some destination) (some (well_known name)) = true
destination_check (some destination) none = true

unfoldable pub path_check : Option PathSpec → Option (List ℕ) → Bool
path_check none msg = true
path_check (some spec) none = false
path_check (some (path p)) (some msg_path) = eq_text p msg_path
path_check (some (path_namespace ns)) (some msg_path) = starts_with ns msg_path

-- `str::strip_prefix`
unfoldable pub strip_prefix : List ℕ → List ℕ → Option (List ℕ)
strip_prefix [] s = some s
strip_prefix (p ∷ ps) [] = none
strip_prefix (p ∷ ps) (c ∷ s) = let rest = strip_prefix ps s in if c == p then rest else none

abbrev pub is_boundary : Option (List ℕ) → Bool
is_boundary none = false
is_boundary (some []) = true
is_boundary (some (c ∷ s)) = c == b'.'

unfoldable pub arg0ns_check : Option (List ℕ) → Option BusName → Bool
arg0ns_check none msg = true
arg0ns_check (some ns) none = false
arg0ns_check (some ns) (some arg0) = is_boundary (strip_prefix ns (as_str arg0))

abbrev pub eq_str : List ℕ → Option Field → Bool
eq_str arg (some (str s)) = eq_text arg s
eq_str arg _ = false

abbrev pub eq_path : List ℕ → Option Field → Bool
eq_path p (some (object_path q)) = eq_text p q
eq_path p _ = false

unfoldable pub args_check : (List ℕ → Option Field → Bool) → List (ℕ × List ℕ) → List Field → Bool
args_check eq [] fields = true
args_check eq ((i, arg) ∷ args) fields =
    let rest = args_check eq args fields in if eq arg (get_elem? fields i) then rest else false

abbrev pub fields_check : List (ℕ × List ℕ) → List (ℕ × List ℕ) → Option (List Field) → Bool
fields_check args arg_paths none = false
fields_check args arg_paths (some fields) =
    args_check eq_str args fields && args_check eq_path arg_paths fields

unfoldable pub body_check : List (ℕ × List ℕ) → List (ℕ × List ℕ) → Option (List Field) → Bool
body_check [] [] fields = true
body_check [] (p ∷ ps) fields = fields_check [] (p ∷ ps) fields
body_check (a ∷ args) ps fields = fields_check (a ∷ args) ps fields

-- No branch of the source gives an error.
unfoldable pub matches : MatchRule → Message → Bool
matches rule msg =
    if not (type_check rule.msg_type msg.message_type)
    then false
    else if not (sender_check rule.sender msg.sender)
    then false
    else if not (text_check rule.interface msg.interface)
    then false
    else if not (text_check rule.member msg.member)
    then false
    else if not (destination_check rule.destination msg.destination)
    then false
    else if not (path_check rule.path_spec msg.path)
    then false
    else if not (arg0ns_check rule.arg0ns msg.arg0)
    then false
    else body_check rule.args rule.arg_paths msg.fields

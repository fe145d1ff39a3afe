-- ===== src/MatchRule.antt =====
-- Match rules: the types of zbus/src/match_rule/mod.rs, and what it uses of zbus/src/message.
pub mod Slots
pub mod Builder
pub mod Printing
pub mod Reading
pub mod Matching
pub mod Decimal
pub mod Splitting
pub mod Written
pub mod Commas
pub mod Clean
pub mod Setting
pub mod RoundTrip
pub mod Parsed
mod Runs
pub mod Validity
use zbus.Prelude.{ℕ, Option, none, List, []}
use zbus.Names.{BusName}
use zbus.Names
use zbus.ObjectPath.{PathError}

-- `message::Type`
pub data MessageType : Type 0 where
  method_call method_return error signal : MessageType

pub data PathSpec : Type 0 where
  path path_namespace : List ℕ → PathSpec

-- The names and the paths are their texts, which their types have validated.
pub record MatchRule : Type 0 where
  pub msg_type : Option MessageType
  pub sender : Option BusName
  pub interface : Option (List ℕ)
  pub member : Option (List ℕ)
  pub path_spec : Option PathSpec
  pub destination : Option (List ℕ)
  pub args : List (ℕ × List ℕ)
  pub arg_paths : List (ℕ × List ℕ)
  pub arg0ns : Option (List ℕ)

-- `Error::InvalidMatchRule`, and the errors of the conversions.
pub data RuleError : Type 0 where
  invalid_match_rule : RuleError
  invalid_name : Names.Error → RuleError
  invalid_path : PathError → RuleError

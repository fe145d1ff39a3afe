-- ===== src/MatchRule/Printing.antt =====
-- `Display` of match rules in zbus/src/match_rule/mod.rs.
use zbus.Prelude.{
  ℕ, ◌+◌, ◌/◌, ◌%◌, Bool, true, false, Option, none, some, List, [], ◌∷◌, ◌++◌, ltb, if◌then◌else◌,
}
use zbus.Text.{codes}
use zbus.Names.{BusName, unique, well_known}
use zbus.MatchRule.{
  MessageType, method_call, method_return, error, signal, PathSpec, path, path_namespace, MatchRule,
}

-- The formatter's text and the flag `first_component`.
pub record Writing : Type 0 where
  pub text : List ℕ
  pub first_component : Bool

abbrev pub start : Writing
start = record { text = []; first_component = true }

abbrev write_str : List ℕ → Writing → Writing
write_str s f = record f { text = f.text ++ s }

-- `write_comma`, by the flag
abbrev comma : Bool → List ℕ → Writing
comma true text = record { text = text; first_component = false }
comma false text = record { text = text ++ (b',' ∷ []); first_component = false }

abbrev pub write_comma : Writing → Writing
write_comma f = comma f.first_component f.text

unfoldable pub write_component : List ℕ → List ℕ → Writing → Writing
write_component key value f =
    write_str (codes "'") (write_str value (write_str (codes "='") (write_str key (write_comma f))))

-- `Display` of a `u8`
abbrev digit : ℕ → ℕ
digit d = b'0' + d

unfoldable pub show_u8 : ℕ → List ℕ
show_u8 n =
    if ltb n 10
    then digit n ∷ []
    else if ltb n 100
    then digit (n / 10) ∷ digit (n % 10) ∷ []
    else digit (n / 100) ∷ digit (n / 10 % 10) ∷ digit (n % 10) ∷ []

abbrev pub type_str : MessageType → List ℕ
type_str error = codes "error"
type_str method_call = codes "method_call"
type_str method_return = codes "method_return"
type_str signal = codes "signal"

-- `BusName::as_str`
abbrev pub as_str : BusName → List ℕ
as_str (unique name) = name
as_str (well_known name) = name

abbrev pub arg_key : ℕ → List ℕ
arg_key i = codes "arg" ++ show_u8 i

abbrev pub arg_path_key : ℕ → List ℕ
arg_path_key i = codes "arg" ++ (show_u8 i ++ codes "path")

abbrev pub write_option : {A : Type 0} → (A → Writing → Writing) → Option A → Writing → Writing
write_option write none f = f
write_option write (some a) f = write a f

abbrev pub write_path_spec : PathSpec → Writing → Writing
write_path_spec (path p) = write_component (codes "path") p
write_path_spec (path_namespace ns) = write_component (codes "path_namespace") ns

abbrev pub write_args : (ℕ → List ℕ) → List (ℕ × List ℕ) → Writing → Writing
write_args key [] f = f
write_args key ((i, arg) ∷ args) f = write_args key args (write_component (key i) arg f)

unfoldable pub write_rule : MatchRule → Writing → Writing
write_rule rule f =
    let f = write_option (λ t. write_component (codes "type") (type_str t)) rule.msg_type f in
    let f = write_option (λ s. write_component (codes "sender") (as_str s)) rule.sender f in
    let f = write_option (write_component (codes "interface")) rule.interface f in
    let f = write_option (write_component (codes "member")) rule.member f in
    let f = write_option (write_component (codes "destination")) rule.destination f in
    let f = write_option write_path_spec rule.path_spec f in
    let f = write_args arg_key rule.args f in
    let f = write_args arg_path_key rule.arg_paths f in
    write_option (write_component (codes "arg0namespace")) rule.arg0ns f

unfoldable pub display : MatchRule → List ℕ
display rule = (write_rule rule start).text

-- ===== src/MatchRule/Reading.antt =====
-- `TryFrom<&str>` of match rules in zbus/src/match_rule/mod.rs.
use zbus.Prelude.{
  ℕ, ◌+◌, ◌-◌, Bool, true, false, not, ◌&&◌, ◌||◌, Option, none, some, List, [], ◌∷◌, Result, ok,
  err, ◌>>=◌, ltb, ◌==◌, if◌then◌else◌, length, take, drop,
}
use zbus.Text.{codes, str_len, eq_text, starts_with, split, parse_uint}
use zbus.MatchRule.{
  MessageType, method_call, method_return, error, signal, MatchRule, RuleError, invalid_match_rule,
}
use zbus.MatchRule.Builder

-- `str::parse::<u8>`
abbrev pub parse_u8 : List ℕ → Option ℕ
parse_u8 s = parse_uint 256 s

abbrev map_suc : Option ℕ → Option ℕ
map_suc none = none
map_suc (some i) = some (i + 1)

-- `str::find` of a text
unfoldable pub find : List ℕ → List ℕ → Option ℕ
find word [] = if starts_with word [] then some 0 else none
find word (c ∷ s) =
    let rest = find word s in if starts_with word (c ∷ s) then some 0 else map_suc rest

abbrev pub cons_key : ℕ → Option (List ℕ × List ℕ) → Option (List ℕ × List ℕ)
cons_key c none = none
cons_key c (some (key, value)) = some (c ∷ key, value)

-- `str::split_once` at a character
unfoldable pub split_once : ℕ → List ℕ → Option (List ℕ × List ℕ)
split_once sep [] = none
split_once sep (c ∷ s) =
    let rest = split_once sep s in if c == sep then some ([], s) else cons_key c rest

-- The arms of the match on the key, and what the last two of them read of it.
pub data Key : Type 0 where
  type_ sender interface member path path_namespace destination arg0namespace : Key
  arg arg_path : ℕ → Key

abbrev index_key : (ℕ → Key) → Option ℕ → Option Key
index_key key none = none
index_key key (some idx) = some (key idx)

-- `key[3..trailing_idx]`, or `key[3..]`
abbrev read_arg_key : List ℕ → Option ℕ → Option Key
read_arg_key key (some trailing_idx) =
    index_key arg_path (parse_u8 (drop 3 (take trailing_idx key)))
read_arg_key key none = index_key arg (parse_u8 (drop 3 key))

unfoldable pub read_key : List ℕ → Option Key
read_key key =
    if eq_text key (codes "type")
    then some type_
    else if eq_text key (codes "sender")
    then some sender
    else if eq_text key (codes "interface")
    then some interface
    else if eq_text key (codes "member")
    then some member
    else if eq_text key (codes "path")
    then some path
    else if eq_text key (codes "path_namespace")
    then some path_namespace
    else if eq_text key (codes "destination")
    then some destination
    else if eq_text key (codes "arg0namespace")
    then some arg0namespace
    else if starts_with (codes "arg") key
    then read_arg_key key (find (codes "path") key)
    else none

unfoldable pub read_type : List ℕ → Option MessageType
read_type value =
    if eq_text value (codes "error")
    then some error
    else if eq_text value (codes "method_call")
    then some method_call
    else if eq_text value (codes "method_return")
    then some method_return
    else if eq_text value (codes "signal")
    then some signal
    else none

abbrev pub set_type : Option MessageType → MatchRule → Result RuleError MatchRule
set_type none builder = err invalid_match_rule
set_type (some t) builder = ok (Builder.msg_type t builder)

unfoldable pub set : Option Key → List ℕ → MatchRule → Result RuleError MatchRule
set none value builder = err invalid_match_rule
set (some type_) value builder = set_type (read_type value) builder
set (some sender) value builder = Builder.sender value builder
set (some interface) value builder = Builder.interface value builder
set (some member) value builder = Builder.member value builder
set (some path) value builder = Builder.path value builder
set (some path_namespace) value builder = Builder.path_namespace value builder
set (some destination) value builder = Builder.destination value builder
set (some arg0namespace) value builder = Builder.arg0ns value builder
set (some (arg idx)) value builder = Builder.arg idx value builder
set (some (arg_path idx)) value builder = Builder.arg_path idx value builder

abbrev pub is_empty : List ℕ → Bool
is_empty [] = true
is_empty (c ∷ s) = false

-- `value.ends_with('\'')`
abbrev pub ends_with : ℕ → List ℕ → Bool
ends_with c [] = false
ends_with c (d ∷ []) = d == c
ends_with c (d ∷ e ∷ s) = ends_with c (e ∷ s)

-- `&value[1..value.len() - 1]`, between two ASCII characters
abbrev pub unquoted : List ℕ → List ℕ
unquoted value = take (length value - 2) (drop 1 value)

abbrev pub is_quoted : List ℕ → Bool
is_quoted value =
    not (ltb (str_len value) 2) && (starts_with (codes "'") value && ends_with b'\'' value)

abbrev pub read_pair : Option (List ℕ × List ℕ) → MatchRule → Result RuleError MatchRule
read_pair none builder = err invalid_match_rule
read_pair (some (key, value)) builder =
    if is_empty key || not (is_quoted value)
    then err invalid_match_rule
    else set (read_key key) (unquoted value) builder

unfoldable pub read_component : List ℕ → MatchRule → Result RuleError MatchRule
read_component component builder = read_pair (split_once b'=' component) builder

unfoldable pub read_components : List (List ℕ) → MatchRule → Result RuleError MatchRule
read_components [] builder = ok builder
read_components (component ∷ components) builder =
    read_component component builder >>= λ builder. read_components components builder

-- A split text has a component, so that the first test of the source never fails.
unfoldable pub try_from : List ℕ → Result RuleError MatchRule
try_from s = read_components (split b',' s) Builder.new

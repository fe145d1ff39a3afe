-- ===== src/MatchRule/Runs.antt =====
-- Runs of match rules on concrete inputs.
use zbus.Prelude.{
  ℕ, ◌≤◌, ◌<◌, ◌≡◌, ◌≢◌, refl, ap, arith, ◌↔◌, ◌⊎◌, true, none, some, List, [], ◌∷◌, ok, err, ◌==◌,
  if◌then◌else◌,
}
use zbus.Text.{parse_uint, parse_digits, codes, str_len, utf8, utf8_char}
use zbus.Names.{well_known}
use zbus.MatchRule.{MessageType, signal, MatchRule, RuleError, invalid_match_rule}
use zbus.MatchRule.Slots.{binary_search, place, slot}
use zbus.MatchRule
use zbus.MatchRule.Builder
use zbus.MatchRule.Builder.{new, is_namespace}
use zbus.Text.{split}
use zbus.MatchRule.Printing.{display, write_rule, write_component, show_u8}
use zbus.MatchRule.Reading.{
  try_from, read_components, read_component, split_once, read_key, read_type, set, find,
}
use zbus.MatchRule.Matching.{
  Message, str, matches, type_check, sender_check, text_check, destination_check, path_check,
  arg0ns_check, body_check,
}
use zbus.MatchRule.Matching.Meaning.{Matches, matches_iff}
use zbus.MatchRule.Validity.{IsValid, IsBuilt, new_, add_arg_}
use zbus.MatchRule.Validity.Kept.{IsBuilt-IsValid, arg-slot}
use zbus.MatchRule.Splitting.{plain-HasNoComma}
use zbus.MatchRule.Clean.{AreClean}
use zbus.MatchRule.RoundTrip.{try_from-display}
use zbus.MatchRule.Parsed.{try_from-parsed}

-- The rule with a type, an argument and an argument after it.
abbrev two_args : MatchRule
two_args = record new {
  msg_type = some signal;
  args = (0, codes "org.zbus") ∷ (12, codes "a='b'") ∷ [];
}

abbrev two_args_text : List ℕ
two_args_text = codes "type='signal',arg0='org.zbus',arg12='a='b''"

display-two_args : display two_args ≡ two_args_text
unfolding display write_rule write_component show_u8
display-two_args = refl

try_from-two_args : try_from two_args_text ≡ ok two_args
unfolding try_from read_components read_component split split_once read_key read_type set find
    parse_uint parse_digits Builder.msg_type Builder.arg place binary_search str_len utf8 utf8_char
try_from-two_args = refl

-- The text of the empty rule, a key that goes on after `path`, and a sign in an index.
try_from_empty : try_from (display new) ≡ err invalid_match_rule
unfolding try_from read_components read_component split split_once display write_rule
try_from_empty = refl

try_from_odd_key : try_from (codes "arg+07='x'") ≡ ok (record new { args = (7, codes "x") ∷ [] })
unfolding try_from read_components read_component split split_once read_key set find parse_uint
    parse_digits Builder.arg place binary_search str_len utf8 utf8_char
try_from_odd_key = refl

-- An argument that contains a comma.
try_from_comma : try_from (codes "arg0='a,b'") ≡ err invalid_match_rule
unfolding try_from read_components read_component split split_once str_len utf8 utf8_char
try_from_comma = refl

-- `add_arg` counts the arguments, and replaces one that stands at that index.
abbrev second_only : MatchRule
second_only = record new { args = (1, codes "a") ∷ [] }

add_arg_replaces :
    Builder.add_arg (codes "b") second_only ≡ ok (record new { args = (1, codes "b") ∷ [] })
unfolding Builder.add_arg Builder.arg place binary_search
add_arg_replaces = refl

-- A namespace of paths takes a path that continues its last element.
abbrev foobar : Message
foobar = record {
  message_type = signal;
  sender = some (codes ":1.42");
  interface = some (codes "org.zbus.Test");
  member = some (codes "Changed");
  destination = none;
  path = some (codes "/foobar");
  arg0 = some (well_known (codes "org.zbus.Test"));
  fields = some (str (codes "org.zbus.Test") ∷ []);
}

matches-foobar :
    matches (record new { path_spec = some (MatchRule.path_namespace (codes "/foo")) }) foobar
    ≡ true
unfolding matches type_check sender_check text_check destination_check path_check arg0ns_check
    body_check
matches-foobar = refl

matches_iff_example :
    (matches (record two_args { arg0ns = some (codes "org.zbus") }) foobar ≡ true)
    ↔ Matches (record two_args { arg0ns = some (codes "org.zbus") }) foobar
matches_iff_example = matches_iff (record two_args { arg0ns = some (codes "org.zbus") }) foobar

two_args-IsValid : IsValid two_args
two_args-IsValid =
    (tt, tt, tt, tt, tt, (omega arith, omega arith, (omega arith, omega arith, tt)), (tt, tt), tt)

two_args-asks : two_args ≢ new
two_args-asks e = let sets : some signal ≡ none = ap (λ r. r.msg_type) e in cc sets

two_args-AreClean : AreClean two_args.args
two_args-AreClean =
    (plain-HasNoComma (codes "org.zbus") refl, ((refl, (refl, (refl, (refl, (refl, tt))))), tt))

try_from-display_example : try_from (display two_args) ≡ ok two_args
try_from-display_example =
    try_from-display two_args two_args-IsValid two_args-asks two_args-AreClean

try_from-parsed_example : IsBuilt two_args × (try_from (display two_args) ≡ ok two_args)
try_from-parsed_example = try_from-parsed two_args_text two_args try_from-two_args

arg-slot_example :
    ((64 ≤ 5) × (Builder.arg 5 (codes "x") two_args ≡ err invalid_match_rule))
    ⊎ ((5 < 64)
        × (out : MatchRule) × (Builder.arg 5 (codes "x") two_args ≡ ok out)
        × ((j : ℕ) → slot j out.args ≡ (if 5 == j then some (codes "x") else slot j two_args.args)))
arg-slot_example = arg-slot 5 (codes "x") two_args two_args-IsValid

add_arg_first : Builder.add_arg (codes "a") new ≡ ok (record new { args = (0, codes "a") ∷ [] })
unfolding Builder.add_arg Builder.arg place binary_search
add_arg_first = refl

IsBuilt-IsValid_example : IsValid (record new { args = (0, codes "a") ∷ [] })
IsBuilt-IsValid_example = IsBuilt-IsValid (add_arg_ (codes "a") new_ add_arg_first)

-- ===== src/MatchRule/RoundTrip.antt =====
-- The text of a match rule of zbus/src/match_rule/mod.rs parses back to it.
use zbus.Prelude.{◌≡◌, ◌≢◌, refl, sym, ap, ◌∙◌, none, [], ◌++◌, ok, ◌>>=◌}
use zbus.MatchRule.{MatchRule}
use zbus.MatchRule.Printing.{display}
use zbus.MatchRule.Builder.{new}
use zbus.MatchRule.Reading.{try_from}
use zbus.MatchRule.Written.{Pairs, pairs, set_pairs, set_pairs-append, try_from-display-pairs}
use zbus.MatchRule.Validity.{IsValid}
use zbus.MatchRule.Clean.{AreClean, pairs_clean}
use zbus.MatchRule.Setting.{
  set_type_pairs, set_sender_pairs, set_interface_pairs, set_member_pairs, set_destination_pairs,
  set_path_spec_pairs, set_arg0ns_pairs, set_arg_pairs, set_arg_path_pairs,
}

next :
    (xs ys : Pairs) (q : MatchRule) {r s : MatchRule}
    → set_pairs xs q ≡ ok r
    → set_pairs ys r ≡ ok s
    → set_pairs (xs ++ ys) q ≡ ok s
next xs ys q h k = set_pairs-append xs ys q ∙ ap (λ r. r >>= set_pairs ys) h ∙ k

set_pairs-pairs : (rule : MatchRule) → IsValid rule → set_pairs (pairs rule) new ≡ ok rule
unfolding pairs
set_pairs-pairs rule (s, i, m, p, d, slots, (up, paths), ns) =
    let h = set_type_pairs rule.msg_type new refl in
    let h = next _ _ new h (set_sender_pairs rule.sender _ s refl) in
    let h = next _ _ new h (set_interface_pairs rule.interface _ i refl) in
    let h = next _ _ new h (set_member_pairs rule.member _ m refl) in
    let h = next _ _ new h (set_destination_pairs rule.destination _ d refl) in
    let h = next _ _ new h (set_path_spec_pairs rule.path_spec _ p refl) in
    let h = next _ _ new h (
      set_arg_pairs 0 [] rule.args (record rule { args = []; arg_paths = []; arg0ns = none }) tt
        slots) in
    let h = next _ _ new h (
      set_arg_path_pairs 0 [] rule.arg_paths (record rule { arg_paths = []; arg0ns = none }) tt up
        paths) in
    next _ _ new h (set_arg0ns_pairs rule.arg0ns (record rule { arg0ns = none }) ns refl)

-- A rule without components is the empty one.
pairs_filled : (rule : MatchRule) → IsValid rule → rule ≢ new → pairs rule ≢ []
unfolding set_pairs
pairs_filled rule valid asks e =
    let set : set_pairs [] new ≡ ok rule =
      ap (λ ps. set_pairs ps new) (sym e) ∙ set_pairs-pairs rule valid in
    asks (cc set)

-- The text of a valid rule that asks for something, and whose arguments have no comma, parses back
-- to that rule.
pub try_from-display :
    (rule : MatchRule)
    → IsValid rule
    → rule ≢ new
    → AreClean rule.args
    → try_from (display rule) ≡ ok rule
try_from-display rule valid asks clean =
    try_from-display-pairs rule (pairs_filled rule valid asks) (pairs_clean rule valid clean)
    ∙ set_pairs-pairs rule valid

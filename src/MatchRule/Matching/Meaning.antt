-- ===== src/MatchRule/Matching/Meaning.antt =====
-- Which messages `MatchRule::matches` of zbus/src/match_rule/mod.rs takes.
use zbus.Prelude.{ℕ, ◌≡◌, refl, ◌↔◌, Bool, true, false, not, some, List, ◌++◌, if◌then◌else◌, All}
use zbus.Names.{BusName, unique}
use zbus.MatchRule.{MessageType, path, path_namespace, MatchRule}
use zbus.MatchRule.Printing.{as_str}
use zbus.MatchRule.Matching.{str, object_path, Message, matches}
use zbus.MatchRule.Matching.Checks.{
  IsWithin, type_check_iff, sender_check_iff, text_check_iff, destination_check_iff, path_check_iff,
  arg0ns_check_iff,
}
use zbus.MatchRule.Matching.Body.{HasField, body_check_iff}

-- What a rule asks of a message. A well-known sender asks for nothing, and neither does a
-- destination of a message that has none or a well-known one.
pub record Matches (rule : MatchRule) (msg : Message) : Type 0 where
  pub msg_type : (t : MessageType) → rule.msg_type ≡ some t → msg.message_type ≡ t
  pub sender : (name : List ℕ) → rule.sender ≡ some (unique name) → msg.sender ≡ some name
  pub interface : (name : List ℕ) → rule.interface ≡ some name → msg.interface ≡ some name
  pub member : (name : List ℕ) → rule.member ≡ some name → msg.member ≡ some name
  pub destination :
      (name to : List ℕ)
      → rule.destination ≡ some name
      → msg.destination ≡ some (unique to)
      → to ≡ name
  pub at_path : (p : List ℕ) → rule.path_spec ≡ some (path p) → msg.path ≡ some p
  pub under_path :
      (ns : List ℕ)
      → rule.path_spec ≡ some (path_namespace ns)
      → (rest : List ℕ) × (msg.path ≡ some (ns ++ rest))
  pub arg0 :
      (ns : List ℕ)
      → rule.arg0ns ≡ some ns
      → (name : BusName) × (msg.arg0 ≡ some name) × IsWithin ns (as_str name)
  pub args : All (λ slot. HasField msg.fields slot.0 (str slot.1)) rule.args
  pub arg_paths : All (λ slot. HasField msg.fields slot.0 (object_path slot.1)) rule.arg_paths

guard_iff :
    (b rest : Bool) → ((if not b then false else rest) ≡ true) ↔ ((b ≡ true) × (rest ≡ true))
guard_iff true rest = ((λ h. (refl, h)), λ (_, h). h)
guard_iff false rest = ((λ h. absurd (cc h)), λ (h, _). absurd (cc h))

-- A rule matches a message exactly when the message has all that the rule asks for: the type; a
-- unique sender; the interface and the member; the destination, where the message has a unique
-- one; the path, or a path that starts with the namespace; a first argument that is the namespace
-- or continues it after a dot; and each argument and path argument at its index in the body.
pub matches_iff : (rule : MatchRule) (msg : Message) → (matches rule msg ≡ true) ↔ Matches rule msg
unfolding matches
matches_iff rule msg = (to, from)
  where
    to : matches rule msg ≡ true → Matches rule msg
    to h0 =
        let (c1, h1) = (guard_iff _ _).0 h0 in
        let (c2, h2) = (guard_iff _ _).0 h1 in
        let (c3, h3) = (guard_iff _ _).0 h2 in
        let (c4, h4) = (guard_iff _ _).0 h3 in
        let (c5, h5) = (guard_iff _ _).0 h4 in
        let (c6, h6) = (guard_iff _ _).0 h5 in
        let (c7, h7) = (guard_iff _ _).0 h6 in
        let (at_path, under_path) = (path_check_iff rule.path_spec msg.path).0 c6 in
        let (args, arg_paths) = (body_check_iff rule.args rule.arg_paths msg.fields).0 h7 in
        record {
          msg_type = (type_check_iff rule.msg_type msg.message_type).0 c1;
          sender = (sender_check_iff rule.sender msg.sender).0 c2;
          interface = (text_check_iff rule.interface msg.interface).0 c3;
          member = (text_check_iff rule.member msg.member).0 c4;
          destination = (destination_check_iff rule.destination msg.destination).0 c5;
          at_path = at_path;
          under_path = under_path;
          arg0 = (arg0ns_check_iff rule.arg0ns msg.arg0).0 c7;
          args = args;
          arg_paths = arg_paths;
        }

    from : Matches rule msg → matches rule msg ≡ true
    from m = (guard_iff _ _).1 (
      (type_check_iff rule.msg_type msg.message_type).1 m.msg_type,
      (guard_iff _ _).1 (
        (sender_check_iff rule.sender msg.sender).1 m.sender,
        (guard_iff _ _).1 (
          (text_check_iff rule.interface msg.interface).1 m.interface,
          (guard_iff _ _).1 (
            (text_check_iff rule.member msg.member).1 m.member,
            (guard_iff _ _).1 (
              (destination_check_iff rule.destination msg.destination).1 m.destination,
              (guard_iff _ _).1 (
                (path_check_iff rule.path_spec msg.path).1 (m.at_path, m.under_path),
                (guard_iff _ _).1 (
                  (arg0ns_check_iff rule.arg0ns msg.arg0).1 m.arg0,
                  (body_check_iff rule.args rule.arg_paths msg.fields).1 (m.args, m.arg_paths),
                ),
              ),
            ),
          ),
        ),
      ),
    )

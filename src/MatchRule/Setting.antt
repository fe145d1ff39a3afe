-- ===== src/MatchRule/Setting.antt =====
-- What parsing a component sets: `TryFrom<&str>` in zbus/src/match_rule/mod.rs.
use zbus.Prelude.{
  ℕ, suc, ◌≤◌, ◌≡◌, refl, sym, ap, ◌∙◌, false, Option, none, some, List, [], ◌∷◌, ◌++◌, ok,
  append-nil, append_assoc, gt→leb, ltb, ge→ltb, All, arith,
}
use zbus.Text.{codes, str_len}
use zbus.Names.{BusName}
use zbus.MatchRule.{
  MessageType, method_call, method_return, error, signal, PathSpec, path, path_namespace, MatchRule,
}
use zbus.MatchRule.Slots.{Ascending, IsBelow, place-last}
use zbus.MatchRule.Printing.{as_str, type_str, arg_key, arg_path_key}
use zbus.MatchRule.Builder
use zbus.MatchRule.Builder.{new, max_args, is_namespace, strip_colon}
use zbus.MatchRule.Reading.{read_key, read_type, set}
use zbus.MatchRule.Decimal.{read_key-arg_key, read_key-arg_path_key}
use zbus.MatchRule.Written.{option_pairs, path_spec_pairs, arg_pairs, set_pairs}
use zbus.MatchRule.Validity.{
  Given, IsBusName, IsInterface, IsMember, IsUniqueName, IsPath, IsPathSpec, IsNamespace,
}

abbrev same : List ℕ → List ℕ
same s = s

-- Each kind of component sets its field, where that was empty.
pub set_type_pairs :
    (o : Option MessageType) (q : MatchRule)
    → q.msg_type ≡ none
    → set_pairs (option_pairs (codes "type") type_str o) q ≡ ok (record q { msg_type = o })
unfolding set_pairs set read_key read_type Builder.msg_type
set_type_pairs none q e = ap (λ x. ok (record q { msg_type = x })) e
set_type_pairs (some method_call) q e = refl
set_type_pairs (some method_return) q e = refl
set_type_pairs (some error) q e = refl
set_type_pairs (some signal) q e = refl

pub set_sender_pairs :
    (o : Option BusName) (q : MatchRule)
    → Given IsBusName o
    → q.sender ≡ none
    → set_pairs (option_pairs (codes "sender") as_str o) q ≡ ok (record q { sender = o })
unfolding set_pairs set read_key Builder.sender
set_sender_pairs none q h e = ap (λ x. ok (record q { sender = x })) e
set_sender_pairs (some name) q h e = rw h refl

pub set_interface_pairs :
    (o : Option (List ℕ)) (q : MatchRule)
    → Given IsInterface o
    → q.interface ≡ none
    → set_pairs (option_pairs (codes "interface") same o) q ≡ ok (record q { interface = o })
unfolding set_pairs set read_key Builder.interface
set_interface_pairs none q h e = ap (λ x. ok (record q { interface = x })) e
set_interface_pairs (some name) q h e = rw h refl

pub set_member_pairs :
    (o : Option (List ℕ)) (q : MatchRule)
    → Given IsMember o
    → q.member ≡ none
    → set_pairs (option_pairs (codes "member") same o) q ≡ ok (record q { member = o })
unfolding set_pairs set read_key Builder.member
set_member_pairs none q h e = ap (λ x. ok (record q { member = x })) e
set_member_pairs (some name) q h e = rw h refl

pub set_destination_pairs :
    (o : Option (List ℕ)) (q : MatchRule)
    → Given IsUniqueName o
    → q.destination ≡ none
    → set_pairs (option_pairs (codes "destination") same o) q ≡ ok (record q { destination = o })
unfolding set_pairs set read_key Builder.destination
set_destination_pairs none q h e = ap (λ x. ok (record q { destination = x })) e
set_destination_pairs (some name) q h e = rw h refl

pub set_path_spec_pairs :
    (o : Option PathSpec) (q : MatchRule)
    → Given IsPathSpec o
    → q.path_spec ≡ none
    → set_pairs (path_spec_pairs o) q ≡ ok (record q { path_spec = o })
unfolding set_pairs set read_key Builder.path Builder.path_namespace
set_path_spec_pairs none q h e = ap (λ x. ok (record q { path_spec = x })) e
set_path_spec_pairs (some (path p)) q h e = rw h refl
set_path_spec_pairs (some (path_namespace p)) q h e = rw h refl

pub set_arg0ns_pairs :
    (o : Option (List ℕ)) (q : MatchRule)
    → Given IsNamespace o
    → q.arg0ns ≡ none
    → set_pairs (option_pairs (codes "arg0namespace") same o) q ≡ ok (record q { arg0ns = o })
unfolding set_pairs set read_key Builder.arg0ns
set_arg0ns_pairs none q h e = ap (λ x. ok (record q { arg0ns = x })) e
set_arg0ns_pairs (some []) q (h, _, _) e = absurd (omega arith)
set_arg0ns_pairs (some (c ∷ s)) q (_, short, fine) e =
    let fits : ltb 255 (str_len (c ∷ s)) ≡ false = ge→ltb 255 (str_len (c ∷ s)) short in
    rw (fits, fine) refl

IsBelow-last :
    {A : Type 0} (lo i : ℕ) (v : A) (done : List (ℕ × A))
    → lo ≤ i
    → IsBelow lo done
    → IsBelow (suc i) (done ++ ((i, v) ∷ []))
IsBelow-last lo i v [] h hs = (omega arith, tt)
IsBelow-last lo i v ((j, w) ∷ done) h (k, hs) = (omega arith, IsBelow-last lo i v done h hs)

IsBelow-weaken :
    {A : Type 0} (lo i : ℕ) (done : List (ℕ × A)) → lo ≤ i → IsBelow lo done → IsBelow i done
IsBelow-weaken lo i [] h hs = tt
IsBelow-weaken lo i ((j, w) ∷ done) h (k, hs) = (omega arith, IsBelow-weaken lo i done h hs)

pub set_arg_pairs :
    (lo : ℕ) (done slots : List (ℕ × List ℕ)) (q : MatchRule)
    → IsBelow lo done
    → Ascending lo 64 slots
    → set_pairs (arg_pairs arg_key slots) (record q { args = done })
      ≡ ok (record q { args = done ++ slots })
unfolding set_pairs set Builder.arg
set_arg_pairs lo done [] q below up = ap (λ s. ok (record q { args = s })) (sym (append-nil done))
set_arg_pairs lo done ((i, v) ∷ slots) q below (a, lt, up) =
    let last = place-last i v done (IsBelow-weaken lo i done a below) in
    rw (read_key-arg_key i lt, gt→leb max_args i lt, last)
      (set_arg_pairs (suc i) (done ++ ((i, v) ∷ [])) slots q (IsBelow-last lo i v done a below) up
        ∙ ap (λ s. ok (record q { args = s })) (append_assoc done ((i, v) ∷ []) slots))

pub set_arg_path_pairs :
    (lo : ℕ) (done slots : List (ℕ × List ℕ)) (q : MatchRule)
    → IsBelow lo done
    → Ascending lo 64 slots
    → All (λ slot. IsPath slot.1) slots
    → set_pairs (arg_pairs arg_path_key slots) (record q { arg_paths = done })
      ≡ ok (record q { arg_paths = done ++ slots })
unfolding set_pairs set Builder.arg_path
set_arg_path_pairs lo done [] q below up paths =
    ap (λ s. ok (record q { arg_paths = s })) (sym (append-nil done))
set_arg_path_pairs lo done ((i, v) ∷ slots) q below (a, lt, up) (h, hs) =
    let last = place-last i v done (IsBelow-weaken lo i done a below) in
    rw (read_key-arg_path_key i lt, gt→leb max_args i lt, h, last)
      (set_arg_path_pairs (suc i) (done ++ ((i, v) ∷ [])) slots q (IsBelow-last lo i v done a below)
          up hs
        ∙ ap (λ s. ok (record q { arg_paths = s })) (append_assoc done ((i, v) ∷ []) slots))

-- ===== src/MatchRule/Clean.antt =====
-- The components in the text of a valid match rule of zbus/src/match_rule/mod.rs.
use zbus.Prelude.{ℕ, suc, ◌<◌, refl, Option, none, some, List, [], ◌∷◌, ◌++◌, All, All-append}
use zbus.Text.{codes}
use zbus.MatchRule.{
  MessageType, method_call, method_return, error, signal, PathSpec, path, path_namespace, MatchRule,
}
use zbus.MatchRule.Slots.{Ascending}
use zbus.MatchRule.Printing.{as_str, type_str, arg_key, arg_path_key}
use zbus.MatchRule.Decimal.{arg_key_plain, arg_path_key_plain}
use zbus.MatchRule.Splitting.{HasNoComma, IsKey, plain-HasNoComma}
use zbus.MatchRule.Written.{Pairs, option_pairs, path_spec_pairs, arg_pairs, pairs, IsPair}
use zbus.MatchRule.Validity.{
  Given, IsBusName, IsInterface, IsMember, IsUniqueName, IsPath, IsPathSpec, IsNamespace, IsValid,
}
use zbus.MatchRule.Commas.{
  clean_bus_name, clean_unique_name, clean_interface, clean_member, clean_path, clean_namespace,
}

abbrev same : List ℕ → List ℕ
same s = s

-- The components of a valid rule can be told apart.
clean_option :
    {A : Type 0} (P : A → Type 0) (key : List ℕ) (str : A → List ℕ)
    → IsKey key
    → ((a : A) → P a → HasNoComma (str a))
    → (o : Option A) → Given P o
    → All IsPair (option_pairs key str o)
clean_option P key str is_key clean none h = tt
clean_option P key str is_key clean (some a) h = ((is_key, clean a h), tt)

clean_type : (t : MessageType) → HasNoComma (type_str t)
clean_type method_call = plain-HasNoComma (codes "method_call") refl
clean_type method_return = plain-HasNoComma (codes "method_return") refl
clean_type error = plain-HasNoComma (codes "error") refl
clean_type signal = plain-HasNoComma (codes "signal") refl

clean_type_option : (o : Option MessageType) → All IsPair (option_pairs (codes "type") type_str o)
clean_type_option none = tt
clean_type_option (some t) = ((((λ e. cc e), refl), clean_type t), tt)

clean_path_spec : (o : Option PathSpec) → Given IsPathSpec o → All IsPair (path_spec_pairs o)
clean_path_spec none h = tt
clean_path_spec (some (path p)) h = ((((λ e. cc e), refl), clean_path p h), tt)
clean_path_spec (some (path_namespace p)) h = ((((λ e. cc e), refl), clean_path p h), tt)

abbrev pub AreClean : List (ℕ × List ℕ) → Type 0
AreClean slots = All (λ slot. HasNoComma slot.1) slots

clean_args :
    (key : ℕ → List ℕ)
    → ((i : ℕ) → i < 64 → IsKey (key i))
    → (lo : ℕ) (slots : List (ℕ × List ℕ)) → Ascending lo 64 slots
    → AreClean slots
    → All IsPair (arg_pairs key slots)
clean_args key is_key lo [] up clean = tt
clean_args key is_key lo ((i, v) ∷ slots) (_, lt, up) (h, hs) =
    ((is_key i lt, h), clean_args key is_key (suc i) slots up hs)

clean_paths : (slots : List (ℕ × List ℕ)) → All (λ slot. IsPath slot.1) slots → AreClean slots
clean_paths [] h = tt
clean_paths ((i, p) ∷ slots) (h, hs) = (clean_path p h, clean_paths slots hs)

both : (xs ys : Pairs) → All IsPair xs → All IsPair ys → All IsPair (xs ++ ys)
both xs ys h k = All-append IsPair xs ys h k

pub pairs_clean : (rule : MatchRule) → IsValid rule → AreClean rule.args → All IsPair (pairs rule)
unfolding pairs
pairs_clean rule (s, i, m, p, d, slots, (up, paths), ns) clean =
    let c = clean_type_option rule.msg_type in
    let c = both _ _ c (
      clean_option IsBusName (codes "sender") as_str ((λ e. cc e), refl) clean_bus_name rule.sender
        s) in
    let c = both _ _ c (
      clean_option IsInterface (codes "interface") same ((λ e. cc e), refl) clean_interface
        rule.interface i) in
    let c = both _ _ c (
      clean_option IsMember (codes "member") same ((λ e. cc e), refl) clean_member rule.member m) in
    let c = both _ _ c (
      clean_option IsUniqueName (codes "destination") same ((λ e. cc e), refl) clean_unique_name
        rule.destination d) in
    let c = both _ _ c (clean_path_spec rule.path_spec p) in
    let c =
      both _ _ c
        (clean_args arg_key (λ i lt. ((λ e. cc e), arg_key_plain i lt)) 0 rule.args slots clean) in
    let c = both _ _ c (
      clean_args arg_path_key (λ i lt. ((λ e. cc e), arg_path_key_plain i lt)) 0 rule.arg_paths up
        (clean_paths rule.arg_paths paths)) in
    both _ _ c (
      clean_option IsNamespace (codes "arg0namespace") same ((λ e. cc e), refl) clean_namespace
        rule.arg0ns ns)

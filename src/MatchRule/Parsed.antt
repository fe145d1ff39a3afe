-- ===== src/MatchRule/Parsed.antt =====
-- The rules that `TryFrom<&str>` in zbus/src/match_rule/mod.rs gives.
use zbus.Prelude.{
  ℕ, zero, suc, ◌-◌, ◌≡◌, ◌≢◌, refl, sym, subst, ap, ◌∙◌, ◌⊎◌, inl, inr, false, not, ◌||◌, Option,
  none, some, List, [], ◌∷◌, Result, ok, bind_ok, ◌==◌, length, take, drop, All, Bool-cases, leb,
  ltb,
}
use zbus.Text.{str_len}
use zbus.Names.{
  bus_name, ensure_correct_interface_name, ensure_correct_member_name, ensure_correct_unique_name,
}
use zbus.ObjectPath.{ensure_correct_object_path_str}
use zbus.MatchRule.{MessageType, MatchRule, RuleError}
use zbus.MatchRule.Slots.{place, place-All, place-filled}
use zbus.MatchRule.Printing.{display}
use zbus.MatchRule.Builder
use zbus.MatchRule.Builder.{new, max_args, checked_name, checked_path, is_namespace, strip_colon}
use zbus.Text.{split, cons_first}
use zbus.MatchRule.Reading.{
  Key, type_, sender, interface, member, path, path_namespace, destination, arg0namespace, arg,
  arg_path, split_once, cons_key, read_type, set_type, read_key, set, is_empty, is_quoted, unquoted,
  read_pair, read_component, read_components, try_from,
}
use zbus.MatchRule.Splitting.{HasNoComma}
use zbus.MatchRule.Clean.{AreClean}
use zbus.MatchRule.Validity.{
  IsBuilt, new_, msg_type_, sender_, interface_, member_, path_, path_namespace_, destination_,
  arg_, arg_path_, arg0ns_,
}
use zbus.MatchRule.Validity.Kept.{IsBuilt-IsValid}
use zbus.MatchRule.RoundTrip.{try_from-display}

module _ {A : Type 0} (P : A → Type 0) where
  All-take : (n : ℕ) (xs : List A) → All P xs → All P (take n xs)
  All-take zero xs h = tt
  All-take (suc n) [] h = tt
  All-take (suc n) (x ∷ xs) (h, hs) = (h, All-take n xs hs)

  All-drop : (n : ℕ) (xs : List A) → All P xs → All P (drop n xs)
  All-drop zero xs h = h
  All-drop (suc n) [] h = tt
  All-drop (suc n) (x ∷ xs) (h, hs) = All-drop n xs hs

cons_first-clean :
    (c : ℕ) (ps : List (List ℕ))
    → (c == b',') ≡ false
    → All HasNoComma ps
    → All HasNoComma (cons_first c ps)
cons_first-clean c [] h hs = ((h, tt), tt)
cons_first-clean c (p ∷ ps) h (k, hs) = ((h, k), hs)

split-clean : (s : List ℕ) → All HasNoComma (split b',' s)
unfolding split
split-clean [] = (tt, tt)
split-clean (c ∷ s) = elim (Bool-cases (c == b',')) [
  | inl comma ↦ rw comma (tt, split-clean s)
  | inr other ↦ rw other (cons_first-clean c (split b',' s) other (split-clean s))
]

split_once-clean :
    (s key value : List ℕ) → split_once b'=' s ≡ some (key, value) → HasNoComma s → HasNoComma value
unfolding split_once
split_once-clean [] key value h clean = absurd (cc h)
split_once-clean (c ∷ s) key value h (_, clean) = elim (Bool-cases (c == b'=')) [
  | inl equals ↦ subst HasNoComma (second (rw equals at h)) clean
  | inr other ↦ later (split_once b'=' s) (λ k v e. split_once-clean s k v e clean) (rw other at h)
]
  where
    second : Path (Option (List ℕ × List ℕ)) (some ([], s)) (some (key, value)) → s ≡ value
    second e = cc e

    later :
        (o : Option (List ℕ × List ℕ))
        → ((k v : List ℕ) → o ≡ some (k, v) → HasNoComma v)
        → cons_key c o ≡ some (key, value)
        → HasNoComma value
    later none ih e = absurd (cc e)
    later (some (k, v)) ih e = let same : v ≡ value = cc e in subst HasNoComma same (ih k v refl)

-- What parsing keeps, and what a component adds: a rule that asks for something.
abbrev IsParsed : MatchRule → Type 0
IsParsed rule = IsBuilt rule × AreClean rule.args

abbrev Adds : MatchRule → Type 0
Adds out = IsBuilt out × AreClean out.args × (out ≢ new)

none-some : {B : Type 0} {b : B} → some b ≢ none
none-some e = cc e

-- A setter that does not touch the arguments, and sets the field `field`.
adds :
    {B : Type 0} (field : MatchRule → Option B) (rule set_rule : MatchRule) (b : B)
    {out : MatchRule}
    → IsBuilt out
    → AreClean rule.args
    → set_rule.args ≡ rule.args
    → field set_rule ≡ some b
    → field new ≡ none
    → Path (Result RuleError MatchRule) (ok set_rule) (ok out)
    → Adds out
adds field rule set_rule b {out = out} built clean kept sets fresh e =
    let same : set_rule ≡ out = cc e in
    (
      built,
      subst (λ o. AreClean o.args) same (subst AreClean (sym kept) clean),
      λ empty. none-some (sym sets ∙ ap field (same ∙ empty) ∙ fresh),
    )

set_type-Adds :
    (o : Option MessageType) (rule : MatchRule) {out : MatchRule}
    → IsParsed rule
    → set_type o rule ≡ ok out
    → Adds out
unfolding Builder.msg_type
set_type-Adds none rule (built, clean) h = absurd (cc h)
set_type-Adds (some t) rule (built, clean) h =
    let same : Builder.msg_type t rule ≡ _ = cc h in
    adds (λ r. r.msg_type) rule _ t (subst IsBuilt same (msg_type_ t built)) clean refl refl refl h

set-Adds :
    (key : Option Key) (v : List ℕ) (rule : MatchRule) {out : MatchRule}
    → HasNoComma v
    → IsParsed rule
    → set key v rule ≡ ok out
    → Adds out
unfolding set Builder.sender Builder.interface Builder.member Builder.path Builder.path_namespace
    Builder.destination Builder.arg Builder.arg_path Builder.arg0ns
set-Adds none v rule fine (built, clean) h = absurd (cc h)
set-Adds (some type_) v rule fine parsed h = set_type-Adds (read_type v) rule parsed h
set-Adds (some sender) v rule fine (built, clean) h =
    let (x, _, e) = bind_ok (checked_name (bus_name v)) _ h in
    adds (λ r. r.sender) rule _ x (sender_ v built h) clean refl refl refl e
set-Adds (some interface) v rule fine (built, clean) h =
    let (x, _, e) = bind_ok (checked_name (ensure_correct_interface_name v)) _ h in
    adds (λ r. r.interface) rule _ v (interface_ v built h) clean refl refl refl e
set-Adds (some member) v rule fine (built, clean) h =
    let (x, _, e) = bind_ok (checked_name (ensure_correct_member_name v)) _ h in
    adds (λ r. r.member) rule _ v (member_ v built h) clean refl refl refl e
set-Adds (some path) v rule fine (built, clean) h =
    let (x, _, e) = bind_ok (checked_path v (ensure_correct_object_path_str v)) _ h in
    adds (λ r. r.path_spec) rule _ _ (path_ v built h) clean refl refl refl e
set-Adds (some path_namespace) v rule fine (built, clean) h =
    let (x, _, e) = bind_ok (checked_path v (ensure_correct_object_path_str v)) _ h in
    adds (λ r. r.path_spec) rule _ _ (path_namespace_ v built h) clean refl refl refl e
set-Adds (some destination) v rule fine (built, clean) h =
    let (x, _, e) = bind_ok (checked_name (ensure_correct_unique_name v)) _ h in
    adds (λ r. r.destination) rule _ v (destination_ v built h) clean refl refl refl e
set-Adds (some arg0namespace) [] rule fine (built, clean) h = absurd (cc h)
set-Adds (some arg0namespace) (c ∷ v) rule fine (built, clean) h =
    elim (Bool-cases (ltb 255 (str_len (c ∷ v)))) [
      | inl long ↦ absurd (cc (rw long at h))
      | inr short ↦ elim (Bool-cases (is_namespace (strip_colon (c ∷ v)))) [
        | inl good ↦
            adds (λ r. r.arg0ns) rule _ (c ∷ v) (arg0ns_ (c ∷ v) built h) clean refl refl refl
              (rw (short, good) at h)
        | inr bad ↦ absurd (cc (rw (short, bad) at h))
      ]
    ]
set-Adds (some (arg i)) v rule fine (built, clean) h = elim (Bool-cases (leb max_args i)) [
  | inl big ↦ absurd (cc (rw big at h))
  | inr small ↦
      let same : record rule { args = place i v rule.args } ≡ _ = cc (rw small at h) in
      (
        arg_ i v built h,
        subst (λ o. AreClean o.args) same (place-All HasNoComma i v rule.args fine clean),
        λ empty. place-filled i v rule.args (ap (λ o. o.args) (same ∙ empty)),
      )
]
set-Adds (some (arg_path i)) v rule fine (built, clean) h = elim (Bool-cases (leb max_args i)) [
  | inl big ↦ absurd (cc (rw big at h))
  | inr small ↦
      let (p, _, e) =
        bind_ok (checked_path v (ensure_correct_object_path_str v)) _ (rw small at h) in
      let same : record rule { arg_paths = place i p rule.arg_paths } ≡ _ = cc e in
      (
        arg_path_ i v built h,
        subst (λ o. AreClean o.args) same clean,
        λ empty. place-filled i p rule.arg_paths (ap (λ o. o.arg_paths) (same ∙ empty)),
      )
]

read_pair-Adds :
    (o : Option (List ℕ × List ℕ)) (rule : MatchRule) {out : MatchRule}
    → ((k v : List ℕ) → o ≡ some (k, v) → HasNoComma v)
    → IsParsed rule
    → read_pair o rule ≡ ok out
    → Adds out
read_pair-Adds none rule fine parsed h = absurd (cc h)
read_pair-Adds (some (key, value)) rule fine parsed h =
    elim (Bool-cases (is_empty key || not (is_quoted value))) [
      | inl bad ↦ absurd (cc (rw bad at h))
      | inr good ↦
          set-Adds (read_key key) (unquoted value) rule
            (All-take (λ c. (c == b',') ≡ false) (length value - 2) (drop 1 value)
              (All-drop (λ c. (c == b',') ≡ false) 1 value (fine key value refl)))
            parsed (rw good at h)
    ]

read_components-parsed :
    (cs : List (List ℕ)) (rule : MatchRule) {out : MatchRule}
    → All HasNoComma cs
    → IsParsed rule
    → (cs ≢ []) ⊎ (rule ≢ new)
    → read_components cs rule ≡ ok out
    → Adds out
unfolding read_components read_component
read_components-parsed [] rule fine (built, clean) asks h =
    let same : rule ≡ _ = cc h in
    subst Adds same (built, clean, elim asks [ inl filled ↦ absurd (filled refl) | inr n ↦ n ])
read_components-parsed (c ∷ cs) rule (fine, rest) parsed asks h =
    let (next, first, others) =
      bind_ok (read_pair (split_once b'=' c) rule) (read_components cs) h in
    let (built, clean, n) =
      read_pair-Adds (split_once b'=' c) rule (λ k v e. split_once-clean c k v e fine) parsed
        first in
    read_components-parsed cs next rest (built, clean) (inr n) others

cons_first-filled : (c : ℕ) (ps : List (List ℕ)) → cons_first c ps ≢ []
cons_first-filled c [] e = cc e
cons_first-filled c (p ∷ ps) e = cc e

split-filled : (s : List ℕ) → split b',' s ≢ []
unfolding split
split-filled [] e = cc e
split-filled (c ∷ s) e = elim (Bool-cases (c == b',')) [
  | inl comma ↦ absurd (cc (rw comma at e))
  | inr other ↦ cons_first-filled c (split b',' s) (rw other at e)
]

-- A rule that a text parses to is one that the builder makes, and the text that is written for it
-- parses to it again.
pub try_from-parsed :
    (s : List ℕ) (rule : MatchRule)
    → try_from s ≡ ok rule
    → IsBuilt rule × (try_from (display rule) ≡ ok rule)
unfolding try_from
try_from-parsed s rule h =
    let (built, clean, asks) =
      read_components-parsed (split b',' s) new (split-clean s) (new_, tt) (inl (split-filled s))
        h in
    (built, try_from-display rule (IsBuilt-IsValid built) asks clean)

-- ===== src/MatchRule/Written.antt =====
-- The text of a match rule, by its components: `Display` in zbus/src/match_rule/mod.rs.
use zbus.Prelude.{
  ℕ, ◌≡◌, ◌≢◌, refl, sym, ap, ◌∙◌, false, Option, none, some, List, [], ◌∷◌, ◌++◌, map, All,
  All-append, append_assoc, append-nil, Result, ok, ◌>>=◌, ◌==◌, bind_ext, bind_assoc,
}
use zbus.Text.{codes}
use zbus.MatchRule.{PathSpec, path, path_namespace, MatchRule, RuleError}
use zbus.MatchRule.Printing.{
  Writing, start, write_component, type_str, as_str, arg_key, arg_path_key, write_option,
  write_path_spec, write_args, write_rule, display,
}
use zbus.MatchRule.Builder
use zbus.Text.{split, split-separator, split-last}
use zbus.MatchRule.Reading.{read_key, set, read_components, try_from}
use zbus.MatchRule.Splitting.{
  HasNoComma, component, IsKey, plain-HasNoComma, read_component-component,
}

abbrev pub Pairs : Type 0
Pairs = List (List ℕ × List ℕ)

abbrev pub option_pairs : {A : Type 0} → List ℕ → (A → List ℕ) → Option A → Pairs
option_pairs key str none = []
option_pairs key str (some a) = (key, str a) ∷ []

abbrev pub path_spec_pairs : Option PathSpec → Pairs
path_spec_pairs none = []
path_spec_pairs (some (path p)) = (codes "path", p) ∷ []
path_spec_pairs (some (path_namespace ns)) = (codes "path_namespace", ns) ∷ []

abbrev pub arg_pairs : (ℕ → List ℕ) → List (ℕ × List ℕ) → Pairs
arg_pairs key [] = []
arg_pairs key ((i, arg) ∷ args) = (key i, arg) ∷ arg_pairs key args

abbrev same : List ℕ → List ℕ
same s = s

-- The components in the order of the text.
unfoldable pub pairs : MatchRule → Pairs
pairs rule =
    option_pairs (codes "type") type_str rule.msg_type
    ++ option_pairs (codes "sender") as_str rule.sender
    ++ option_pairs (codes "interface") same rule.interface
    ++ option_pairs (codes "member") same rule.member
    ++ option_pairs (codes "destination") same rule.destination
    ++ path_spec_pairs rule.path_spec
    ++ arg_pairs arg_key rule.args
    ++ arg_pairs arg_path_key rule.arg_paths
    ++ option_pairs (codes "arg0namespace") same rule.arg0ns

write_pairs : Pairs → Writing → Writing
write_pairs [] f = f
write_pairs ((key, value) ∷ ps) f = write_pairs ps (write_component key value f)

write_pairs-append :
    (xs ys : Pairs) (f : Writing) → write_pairs (xs ++ ys) f ≡ write_pairs ys (write_pairs xs f)
unfolding write_pairs
write_pairs-append [] ys f = refl
write_pairs-append ((key, value) ∷ xs) ys f = write_pairs-append xs ys (write_component key value f)

write_option-pairs :
    {A : Type 0} (key : List ℕ) (str : A → List ℕ) (o : Option A) (f : Writing)
    → write_option (λ a. write_component key (str a)) o f ≡ write_pairs (option_pairs key str o) f
unfolding write_pairs
write_option-pairs key str none f = refl
write_option-pairs key str (some a) f = refl

write_path_spec-pairs :
    (o : Option PathSpec) (f : Writing)
    → write_option write_path_spec o f ≡ write_pairs (path_spec_pairs o) f
unfolding write_pairs
write_path_spec-pairs none f = refl
write_path_spec-pairs (some (path p)) f = refl
write_path_spec-pairs (some (path_namespace ns)) f = refl

write_args-pairs :
    (key : ℕ → List ℕ) (args : List (ℕ × List ℕ)) (f : Writing)
    → write_args key args f ≡ write_pairs (arg_pairs key args) f
unfolding write_pairs
write_args-pairs key [] f = refl
write_args-pairs key ((i, arg) ∷ args) f = write_args-pairs key args (write_component (key i) arg f)

write_rule-pairs : (rule : MatchRule) (f : Writing) → write_rule rule f ≡ write_pairs (pairs rule) f
unfolding write_rule pairs
write_rule-pairs rule f =
    simp (write_option-pairs, write_path_spec-pairs, write_args-pairs, write_pairs-append)

-- The text after a component, and the whole text.
render_rest : Pairs → List ℕ
render_rest [] = []
render_rest (p ∷ ps) = b',' ∷ (component p ++ render_rest ps)

pub render : Pairs → List ℕ
unfolding render_rest
render [] = []
render (p ∷ ps) = component p ++ render_rest ps

append_component :
    (text key value : List ℕ)
    → text ++ key ++ codes "='" ++ value ++ codes "'" ≡ text ++ component (key, value)
append_component text key value =
    append_assoc (text ++ key ++ codes "='") value (codes "'")
    ∙ append_assoc (text ++ key) (codes "='") (value ++ codes "'")
    ∙ append_assoc text key (codes "='" ++ (value ++ codes "'"))

write_pairs-rest :
    (ps : Pairs) (text : List ℕ)
    → (write_pairs ps (record { text = text; first_component = false })).text
      ≡ text ++ render_rest ps
unfolding write_pairs write_component render_rest
write_pairs-rest [] text = sym (append-nil text)
write_pairs-rest ((key, value) ∷ ps) text =
    ap (λ t. (write_pairs ps (record { text = t; first_component = false })).text)
      (append_component (text ++ (b',' ∷ [])) key value)
    ∙ write_pairs-rest ps (text ++ (b',' ∷ []) ++ component (key, value))
    ∙ append_assoc (text ++ (b',' ∷ [])) (component (key, value)) (render_rest ps)
    ∙ append_assoc text (b',' ∷ []) (component (key, value) ++ render_rest ps)

display-render : (rule : MatchRule) → display rule ≡ render (pairs rule)
unfolding display write_pairs write_component render
display-render rule = ap (λ f. f.text) (write_rule-pairs rule start) ∙ whole (pairs rule)
  where
    whole : (ps : Pairs) → (write_pairs ps start).text ≡ render ps
    whole [] = refl
    whole ((key, value) ∷ ps) =
        ap (λ t. (write_pairs ps (record { text = t; first_component = false })).text)
          (append_component [] key value)
        ∙ write_pairs-rest ps (component (key, value))

-- What `try_from` does with components.
unfoldable pub set_pairs : Pairs → MatchRule → Result RuleError MatchRule
set_pairs [] rule = ok rule
set_pairs ((key, value) ∷ ps) rule = set (read_key key) value rule >>= λ rule. set_pairs ps rule

pub set_pairs-append :
    (xs ys : Pairs) (rule : MatchRule)
    → set_pairs (xs ++ ys) rule ≡ (set_pairs xs rule >>= λ rule. set_pairs ys rule)
unfolding set_pairs
set_pairs-append [] ys rule = refl
set_pairs-append ((key, value) ∷ xs) ys rule =
    bind_ext (set (read_key key) value rule) _ _ (set_pairs-append xs ys)
    ∙ bind_assoc (set (read_key key) value rule) (set_pairs xs) (set_pairs ys)

abbrev pub IsPair : List ℕ × List ℕ → Type 0
IsPair (key, value) = IsKey key × HasNoComma value

component-HasNoComma : (p : List ℕ × List ℕ) → IsPair p → HasNoComma (component p)
component-HasNoComma (key, value) ((_, plain), clean) =
    All-append (λ c. (c == b',') ≡ false) key _ (plain-HasNoComma key plain)
      (refl, (refl, All-append (λ c. (c == b',') ≡ false) value _ clean (refl, tt)))

split-rest :
    (p : List ℕ × List ℕ) (ps : Pairs)
    → IsPair p
    → All IsPair ps
    → split b',' (component p ++ render_rest ps) ≡ component p ∷ map component ps
unfolding render_rest
split-rest p [] h hs =
    ap (split b',') (append-nil (component p))
    ∙ split-last b',' (component p) (component-HasNoComma p h)
split-rest p (q ∷ qs) h (hq, hs) =
    split-separator b',' (component p) (component q ++ render_rest qs) (component-HasNoComma p h)
    ∙ ap (λ ws. component p ∷ ws) (split-rest q qs hq hs)

read_components-pairs :
    (ps : Pairs) (rule : MatchRule)
    → All IsPair ps
    → read_components (map component ps) rule ≡ set_pairs ps rule
unfolding read_components set_pairs
read_components-pairs [] rule h = refl
read_components-pairs ((key, value) ∷ ps) rule ((is_key, _), hs) =
    ap (λ r. r >>= λ rule. read_components (map component ps) rule)
      (read_component-component key value rule is_key)
    ∙ bind_ext (set (read_key key) value rule) _ _ (λ rule. read_components-pairs ps rule hs)

-- The text of a rule with some component sets those components, one after the other.
pub try_from-display-pairs :
    (rule : MatchRule)
    → pairs rule ≢ []
    → All IsPair (pairs rule)
    → try_from (display rule) ≡ set_pairs (pairs rule) Builder.new
unfolding try_from render
try_from-display-pairs rule some_pair clean =
    ap (λ s. read_components (split b',' s) Builder.new) (display-render rule)
    ∙ read_back (pairs rule) some_pair clean
  where
    read_back :
        (ps : Pairs)
        → ps ≢ []
        → All IsPair ps
        → read_components (split b',' (render ps)) Builder.new ≡ set_pairs ps Builder.new
    read_back [] filled h = absurd (filled refl)
    read_back (p ∷ ps) filled (h, hs) =
        ap (λ ws. read_components ws Builder.new) (split-rest p ps h hs)
        ∙ read_components-pairs (p ∷ ps) Builder.new (h, hs)

-- ===== src/MatchRule/Decimal.antt =====
-- The indices of arguments in the text of a rule of zbus/src/match_rule/mod.rs: what the keys of
-- the arguments are read as, for all indices that a rule can have.
use zbus.Text.{parse_uint, parse_digits}
use zbus.Prelude.{
  ℕ, zero, suc, ◌+◌, ◌≤◌, ◌<◌, ◌≡◌, refl, ap, if◌then◌else◌, Bool, true, false, ◌&&◌, Option, none,
  some, List, [], ◌∷◌, ◌==◌, ==_iff, all, arith,
}
use zbus.MatchRule.Printing.{show_u8, arg_key, arg_path_key}
use zbus.MatchRule.Reading.{
  Key, arg, arg_path, find, read_key, type_, sender, interface, member, path, path_namespace,
  destination, arg0namespace,
}

-- `p` holds from `n` on for `k` numbers.
abbrev holds : (ℕ → Bool) → ℕ → ℕ → Bool
holds p zero n = true
holds p (suc k) n = p n && holds p k (suc n)

holds-at : (p : ℕ → Bool) (k n i : ℕ) → holds p k n ≡ true → n ≤ i → i < n + k → p i ≡ true
holds-at p zero n i h a b = absurd (omega arith)
holds-at p (suc k) n i h a b = grind (arith, holds-at p k (suc n) i)

abbrev is_arg : Option Key → ℕ → Bool
is_arg (some (arg j)) i = j == i
is_arg _ i = false

abbrev is_arg_path : Option Key → ℕ → Bool
is_arg_path (some (arg_path j)) i = j == i
is_arg_path _ i = false

is_arg_sound : (key : Option Key) (i : ℕ) → is_arg key i ≡ true → key ≡ some (arg i)
is_arg_sound (some (arg j)) i h = let same = (==_iff j i).0 h in ap (λ j. some (arg j)) same
is_arg_sound none i h = absurd (cc h)
is_arg_sound (some type_) i h = absurd (cc h)
is_arg_sound (some sender) i h = absurd (cc h)
is_arg_sound (some interface) i h = absurd (cc h)
is_arg_sound (some member) i h = absurd (cc h)
is_arg_sound (some path) i h = absurd (cc h)
is_arg_sound (some path_namespace) i h = absurd (cc h)
is_arg_sound (some destination) i h = absurd (cc h)
is_arg_sound (some arg0namespace) i h = absurd (cc h)
is_arg_sound (some (arg_path j)) i h = absurd (cc h)

is_arg_path_sound : (key : Option Key) (i : ℕ) → is_arg_path key i ≡ true → key ≡ some (arg_path i)
is_arg_path_sound (some (arg_path j)) i h =
    let same = (==_iff j i).0 h in ap (λ j. some (arg_path j)) same
is_arg_path_sound none i h = absurd (cc h)
is_arg_path_sound (some type_) i h = absurd (cc h)
is_arg_path_sound (some sender) i h = absurd (cc h)
is_arg_path_sound (some interface) i h = absurd (cc h)
is_arg_path_sound (some member) i h = absurd (cc h)
is_arg_path_sound (some path) i h = absurd (cc h)
is_arg_path_sound (some path_namespace) i h = absurd (cc h)
is_arg_path_sound (some destination) i h = absurd (cc h)
is_arg_path_sound (some arg0namespace) i h = absurd (cc h)
is_arg_path_sound (some (arg j)) i h = absurd (cc h)

arg_table : holds (λ i. is_arg (read_key (arg_key i)) i) 64 0 ≡ true
unfolding read_key find parse_uint parse_digits show_u8
arg_table = refl

arg_path_table : holds (λ i. is_arg_path (read_key (arg_path_key i)) i) 64 0 ≡ true
unfolding read_key find parse_uint parse_digits show_u8
arg_path_table = refl

pub read_key-arg_key : (i : ℕ) → i < 64 → read_key (arg_key i) ≡ some (arg i)
read_key-arg_key i h =
    is_arg_sound (read_key (arg_key i)) i
      (holds-at (λ i. is_arg (read_key (arg_key i)) i) 64 0 i arg_table (omega arith) (omega arith))

pub read_key-arg_path_key : (i : ℕ) → i < 64 → read_key (arg_path_key i) ≡ some (arg_path i)
read_key-arg_path_key i h = is_arg_path_sound (read_key (arg_path_key i)) i (
    holds-at (λ i. is_arg_path (read_key (arg_path_key i)) i) 64 0 i arg_path_table (omega arith)
      (omega arith))

-- Keys are not empty, and have neither a comma nor an equals sign.
abbrev pub is_plain : List ℕ → Bool
is_plain s = all (λ c. if c == b',' then false else if c == b'=' then false else true) s

abbrev is_filled : List ℕ → Bool
is_filled [] = false
is_filled (c ∷ s) = true

plain_table : holds (λ i. is_plain (arg_key i)) 64 0 ≡ true
unfolding show_u8
plain_table = refl

plain_path_table : holds (λ i. is_plain (arg_path_key i)) 64 0 ≡ true
unfolding show_u8
plain_path_table = refl

pub arg_key_plain : (i : ℕ) → i < 64 → is_plain (arg_key i) ≡ true
arg_key_plain i h =
    holds-at (λ i. is_plain (arg_key i)) 64 0 i plain_table (omega arith) (omega arith)

pub arg_path_key_plain : (i : ℕ) → i < 64 → is_plain (arg_path_key i) ≡ true
arg_path_key_plain i h =
    holds-at (λ i. is_plain (arg_path_key i)) 64 0 i plain_path_table (omega arith) (omega arith)

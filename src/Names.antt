-- ===== src/Names.antt =====
-- The names of the bus, of crate zbus_names: the validators of zbus_names/src/unique_name.rs,
-- well_known_name.rs, interface_name.rs, error_name.rs, member_name.rs and property_name.rs, and
-- the choice that zbus_names/src/bus_name.rs makes.
pub mod Scan
pub mod Dotted
pub mod Grammar
pub mod Bus
mod Runs
use zbus.Prelude.{
  ℕ, ◌≡◌, Bool, true, false, not, ◌&&◌, ◌||◌, Option, none, some, List, [], ◌∷◌, Result, ok, err,
  ◌>>=◌, ltb, ◌==◌, if◌then◌else◌,
}
use zbus.Text.{codes, str_len, is_ascii_digit, is_ascii_alphanumeric, eq_text}

-- What the message of an error says.
pub data Reason : Type 0 where
  contains_at_least : ℕ → Reason
  too_short too_long : ℕ → Reason
  no_colon double_dot leading_digit lacks_dot : Reason
  not_allowed : ℕ → Reason

pub data Error : Type 0 where
  invalid_unique_name invalid_well_known_name invalid_interface_name : Reason → Error
  invalid_error_name invalid_member_name invalid_property_name : Reason → Error

abbrev Check : Type 0
Check = Result Error (Unit {0})

abbrev relabel {ℓ} : {A : Type ℓ} → (Reason → Error) → Result Reason A → Result Error A
relabel f (err r) = err (f r)
relabel f (ok a) = ok a

-- `c.is_ascii_alphanumeric() || c == '_'`, and with `-`.
abbrev pub is_word_char : ℕ → Bool
is_word_char c = is_ascii_alphanumeric c || (c == b'_')

abbrev pub is_dashed_char : ℕ → Bool
is_dashed_char c = is_word_char c || (c == b'-')

-- `prev.is_none() || prev == Some('.')`
abbrev pub at_start : Option ℕ → Bool
at_start none = true
at_start (some c) = c == b'.'

-- One round of the loop of the names that are made of elements: the new `no_dot`.
pub dotted_step : (ℕ → Bool) → Option ℕ → Bool → ℕ → Result Reason Bool
dotted_step is_allowed prev no_dot c =
    if c == b'.'
    then if at_start prev then err double_dot else ok false
    else if is_ascii_digit c && at_start prev
    then err leading_digit
    else if not (is_allowed c)
    then err (not_allowed c)
    else ok no_dot

pub dotted_loop : (ℕ → Bool) → Option ℕ → Bool → List ℕ → Result Reason Bool
dotted_loop is_allowed prev no_dot [] = ok no_dot
dotted_loop is_allowed prev no_dot (c ∷ chars) =
    dotted_step is_allowed prev no_dot c >>= λ no_dot. dotted_loop is_allowed (some c) no_dot chars

-- The loop, and the test for a dot after it.
pub dotted : (ℕ → Bool) → List ℕ → Result Reason (Unit {0})
dotted is_allowed name =
    dotted_loop is_allowed none true name >>= λ no_dot. if no_dot then err lacks_dot else ok tt

abbrev max_name_len : ℕ
max_name_len = 255

abbrev is_empty : List ℕ → Bool
is_empty [] = true
is_empty (c ∷ cs) = false

pub ensure_correct_well_known_name : List ℕ → Check
ensure_correct_well_known_name name =
    if is_empty name
    then err (invalid_well_known_name (contains_at_least 3))
    else if ltb (str_len name) 3
    then err (invalid_well_known_name (too_short (str_len name)))
    else if ltb max_name_len (str_len name)
    then err (invalid_well_known_name (too_long (str_len name)))
    else relabel invalid_well_known_name (dotted is_dashed_char name)

pub ensure_correct_interface_name : List ℕ → Check
ensure_correct_interface_name name =
    if ltb (str_len name) 3
    then err (invalid_interface_name (too_short (str_len name)))
    else if ltb max_name_len (str_len name)
    then err (invalid_interface_name (too_long (str_len name)))
    else relabel invalid_interface_name (dotted is_word_char name)

pub ensure_correct_error_name : List ℕ → Check
ensure_correct_error_name name =
    if ltb (str_len name) 3
    then err (invalid_error_name (too_short (str_len name)))
    else if ltb max_name_len (str_len name)
    then err (invalid_error_name (too_long (str_len name)))
    else relabel invalid_error_name (dotted is_word_char name)

-- One round of the loop of unique names.
pub unique_step : ℕ → Bool → ℕ → Result Reason Bool
unique_step prev no_dot c =
    if c == b'.'
    then if prev == b'.' then err double_dot else ok false
    else if not (is_dashed_char c)
    then err (not_allowed c)
    else ok no_dot

pub unique_loop : ℕ → Bool → List ℕ → Result Reason Bool
unique_loop prev no_dot [] = ok no_dot
unique_loop prev no_dot (c ∷ chars) =
    unique_step prev no_dot c >>= λ no_dot. unique_loop c no_dot chars

-- The text after the tests of length: the first character, then the loop.
pub unique_rest : List ℕ → Result Reason (Unit {0})
unique_rest [] = err (contains_at_least 4)
unique_rest (first ∷ chars) =
    if first == b':'
    then (unique_loop first true chars >>= λ no_dot. if no_dot then err lacks_dot else ok tt)
    else err no_colon

abbrev pub bus_own_name : List ℕ
bus_own_name = codes "org.freedesktop.DBus"

pub ensure_correct_unique_name : List ℕ → Check
ensure_correct_unique_name name =
    if is_empty name
    then err (invalid_unique_name (contains_at_least 4))
    else if ltb max_name_len (str_len name)
    then err (invalid_unique_name (too_long (str_len name)))
    else if eq_text name bus_own_name
    then ok tt
    else relabel invalid_unique_name (unique_rest name)

pub member_loop : List ℕ → Result Reason (Unit {0})
member_loop [] = ok tt
member_loop (c ∷ chars) = if not (is_word_char c) then err (not_allowed c) else member_loop chars

pub starts_with_digit : List ℕ → Bool
starts_with_digit [] = false
starts_with_digit (c ∷ chars) = is_ascii_digit c

pub ensure_correct_member_name : List ℕ → Check
ensure_correct_member_name name =
    if is_empty name
    then err (invalid_member_name (too_short (str_len name)))
    else if ltb max_name_len (str_len name)
    then err (invalid_member_name (too_long (str_len name)))
    else if starts_with_digit name
    then err (invalid_member_name leading_digit)
    else relabel invalid_member_name (member_loop name)

pub ensure_correct_property_name : List ℕ → Check
ensure_correct_property_name name =
    if is_empty name
    then err (invalid_property_name (too_short (str_len name)))
    else if ltb max_name_len (str_len name)
    then err (invalid_property_name (too_long (str_len name)))
    else ok tt

pub data BusName : Type 0 where
  unique well_known : List ℕ → BusName

abbrev starts_with : ℕ → List ℕ → Bool
starts_with c [] = false
starts_with c (d ∷ ds) = d == c

-- `BusName::try_from`
pub bus_name : List ℕ → Result Error BusName
bus_name value =
    if starts_with b':' value || eq_text value bus_own_name
    then (ensure_correct_unique_name value >>= λ _. ok (unique value))
    else (ensure_correct_well_known_name value >>= λ _. ok (well_known value))

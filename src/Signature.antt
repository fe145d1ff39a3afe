-- ===== src/Signature.antt =====
-- D-Bus and GVariant type signatures: zvariant_utils/src/signature/mod.rs, on Unix and with the
-- `gvariant` feature. A `Child`, static or dynamic, is the signature that it holds.
pub mod Layout
pub mod Nom
pub mod Parser
pub mod Equality
pub mod Letters
mod Runs
use zbus.Prelude.{
  ℕ, ◌+◌, Bool, true, false, ◌&&◌, Option, none, some, List, [], ◌∷◌, ◌++◌, if◌then◌else◌,
}
use Prim.Native.Nat.{max}

mutual
  pub data Signature : Type 0 where
    unit u8 bool i16 u16 i32 u32 i64 u64 f64 str signature object_path variant fd : Signature
    array : Signature → Signature
    dict : Signature → Signature → Signature
    structure : Fields → Signature
    maybe : Signature → Signature

  pub data Fields : Type 0 where
    no_fields : Fields
    field : Signature → Fields → Fields

-- `Vec::push`
pub push : Fields → Signature → Fields
push no_fields s = field s no_fields
push (field t fs) s = field t (push fs s)

mutual
  pub string_len : Signature → ℕ
  string_len unit = 0
  string_len (array child) = 1 + string_len child
  string_len (dict key value) = 3 + string_len key + string_len value
  string_len (structure fields) = 2 + string_len_fields fields
  string_len (maybe child) = 1 + string_len child
  string_len _ = 1

  -- the loop `len += field.string_len()`
  pub string_len_fields : Fields → ℕ
  string_len_fields no_fields = 0
  string_len_fields (field s fs) = string_len s + string_len_fields fs

-- `write_as_string`: the bytes written. A field, a key, a value and a child are written by
-- `Display`, which asks for the parentheses.
unfoldable mutual
  pub write_as_string : Signature → Bool → List ℕ
  write_as_string unit outer_parens = []
  write_as_string u8 outer_parens = b'y' ∷ []
  write_as_string bool outer_parens = b'b' ∷ []
  write_as_string i16 outer_parens = b'n' ∷ []
  write_as_string u16 outer_parens = b'q' ∷ []
  write_as_string i32 outer_parens = b'i' ∷ []
  write_as_string u32 outer_parens = b'u' ∷ []
  write_as_string i64 outer_parens = b'x' ∷ []
  write_as_string u64 outer_parens = b't' ∷ []
  write_as_string f64 outer_parens = b'd' ∷ []
  write_as_string str outer_parens = b's' ∷ []
  write_as_string signature outer_parens = b'g' ∷ []
  write_as_string object_path outer_parens = b'o' ∷ []
  write_as_string variant outer_parens = b'v' ∷ []
  write_as_string fd outer_parens = b'h' ∷ []
  write_as_string (array child) outer_parens = b'a' ∷ write_as_string child true
  write_as_string (dict key value) outer_parens =
      b'a' ∷ b'{' ∷ (write_as_string key true ++ (write_as_string value true ++ b'}' ∷ []))
  write_as_string (structure fields) outer_parens =
      (if outer_parens then b'(' ∷ [] else [])
      ++ (write_fields fields ++ (if outer_parens then b')' ∷ [] else []))
  write_as_string (maybe child) outer_parens = b'm' ∷ write_as_string child true

  pub write_fields : Fields → List ℕ
  write_fields no_fields = []
  write_fields (field s fs) = write_as_string s true ++ write_fields fs

-- `Display`, so `to_string`
abbrev pub display : Signature → List ℕ
display s = write_as_string s true

unfoldable pub to_string_no_parens : Signature → List ℕ
to_string_no_parens s = write_as_string s false

-- `none` is the panic of `unreachable!`.
unfoldable pub alignment_dbus : Signature → Option ℕ
alignment_dbus u8 = some 1
alignment_dbus variant = some 1
alignment_dbus signature = some 1
alignment_dbus i16 = some 2
alignment_dbus u16 = some 2
alignment_dbus i64 = some 8
alignment_dbus u64 = some 8
alignment_dbus f64 = some 8
alignment_dbus unit = some 8
alignment_dbus (structure _) = some 8
alignment_dbus (maybe child) = none
alignment_dbus _ = some 4

mutual
  pub alignment_gvariant : Signature → ℕ
  alignment_gvariant i16 = 2
  alignment_gvariant u16 = 2
  alignment_gvariant i32 = 4
  alignment_gvariant u32 = 4
  alignment_gvariant bool = 4
  alignment_gvariant fd = 4
  alignment_gvariant i64 = 8
  alignment_gvariant u64 = 8
  alignment_gvariant f64 = 8
  alignment_gvariant unit = 8
  alignment_gvariant variant = 8
  alignment_gvariant (array child) = alignment_gvariant child
  alignment_gvariant (maybe child) = alignment_gvariant child
  alignment_gvariant (dict key value) = max (alignment_gvariant key) (alignment_gvariant value)
  alignment_gvariant (structure fields) = alignment_fields fields
  alignment_gvariant _ = 1

  -- `fields.iter().map(..).max().unwrap_or(1)`
  pub alignment_fields : Fields → ℕ
  alignment_fields no_fields = 1
  alignment_fields (field s no_fields) = alignment_gvariant s
  alignment_fields (field s (field t fs)) =
      max (alignment_gvariant s) (alignment_fields (field t fs))

mutual
  pub is_fixed_sized : Signature → Bool
  is_fixed_sized str = false
  is_fixed_sized signature = false
  is_fixed_sized object_path = false
  is_fixed_sized variant = false
  is_fixed_sized (array child) = false
  is_fixed_sized (dict key value) = false
  is_fixed_sized (maybe child) = false
  is_fixed_sized (structure fields) = all_fixed_sized fields
  is_fixed_sized _ = true

  pub all_fixed_sized : Fields → Bool
  all_fixed_sized no_fields = true
  all_fixed_sized (field s fs) = is_fixed_sized s && all_fixed_sized fs

-- A signature that stands for one complete type: the unit signature stands nowhere in it, and
-- no structure is empty.
unfoldable mutual
  pub IsComplete : Signature → Type 0
  IsComplete unit = ⊥
  IsComplete (array child) = IsComplete child
  IsComplete (maybe child) = IsComplete child
  IsComplete (dict key value) = IsComplete key × IsComplete value
  IsComplete (structure no_fields) = ⊥
  IsComplete (structure (field s fs)) = IsComplete s × AllComplete fs
  IsComplete _ = Unit

  pub AllComplete : Fields → Type 0
  AllComplete no_fields = Unit
  AllComplete (field s fs) = IsComplete s × AllComplete fs

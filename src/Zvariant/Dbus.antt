-- ===== src/Zvariant/Dbus.antt =====
-- Values and what the D-Bus format needs of them: the values of zvariant/src/value.rs, and the
-- errors of the serializer and the deserializer in zvariant/src/dbus.
pub mod Ser
pub mod Growing
pub mod Beginning
pub mod Ending
pub mod Kept
pub mod Reference
pub mod Writing
pub mod Refines
pub mod De
pub mod Advancing
pub mod Progress
pub mod Nested
pub mod Sequences
pub mod Reading
pub mod Sizes
pub mod Finishing
pub mod Total
pub mod RoundTrip
pub mod Runs
use zbus.Prelude.{
  ℕ, zero, suc, ◌+◌, ◌-◌, ◌*◌, ◌%◌, ◌^◌, ◌<◌, ◌≡◌, Bool, true, false, not, ◌&&◌, ◌||◌, Option, none,
  some, List, [], ◌∷◌, ◌++◌, Result, ok, err, ◌>>=◌, ltb, leb, ◌==◌, if◌then◌else◌, length,
}
use zbus.Signature.{Signature, Fields, no_fields, field}
use zbus.Zvariant.Depths.{MaxDepthExceeded}

pub data Basic : Type 0 where
  u8 bool i16 u16 i32 u32 i64 u64 f64 : Basic

pub data Text : Type 0 where
  str object_path signature : Text

-- A basic value is its bits; a text is its bytes. The containers hold their signatures.
mutual
  pub data Value : Type 0 where
    basic : Basic → ℕ → Value
    text : Text → List ℕ → Value
    variant : Value → Value
    array : Signature → Values → Value
    dict : Signature → Entries → Value
    structure : Signature → Values → Value

  pub data Values : Type 0 where
    nil : Values
    cons : Value → Values → Values

  pub data Entries : Type 0 where
    no_entry : Entries
    entry : Value → Value → Entries → Entries

-- `T::SIGNATURE` of the types.
abbrev pub basic_signature : Basic → Signature
basic_signature Basic.u8 = Signature.u8
basic_signature Basic.bool = Signature.bool
basic_signature Basic.i16 = Signature.i16
basic_signature Basic.u16 = Signature.u16
basic_signature Basic.i32 = Signature.i32
basic_signature Basic.u32 = Signature.u32
basic_signature Basic.i64 = Signature.i64
basic_signature Basic.u64 = Signature.u64
basic_signature Basic.f64 = Signature.f64

abbrev pub text_signature : Text → Signature
text_signature Text.str = Signature.str
text_signature Text.object_path = Signature.object_path
text_signature Text.signature = Signature.signature

abbrev pub value_signature : Value → Signature
value_signature (Value.basic kind n) = basic_signature kind
value_signature (Value.text kind v) = text_signature kind
value_signature (Value.variant v) = Signature.variant
value_signature (Value.array sig vs) = sig
value_signature (Value.dict sig es) = sig
value_signature (Value.structure sig vs) = sig

-- `T::alignment(Format::DBus)` of a basic type, which is the number of its bytes: a `bool` is
-- written as a `u32`.
abbrev pub width : Basic → ℕ
width u8 = 1
width bool = 4
width i16 = 2
width u16 = 2
width i32 = 4
width u32 = 4
width i64 = 8
width u64 = 8
width f64 = 8

-- The numbers of the crate endi, in either order of bytes; it is not part of the repository.
pub record Endian : Type 0 where
  pub write : ℕ → ℕ → List ℕ
  pub read : List ℕ → ℕ
  pub length-write : (width n : ℕ) → length (write width n) ≡ width
  pub read-write : (width n : ℕ) → n < 256 ^ width → read (write width n) ≡ n
  pub read_byte : (b : ℕ) → read (b ∷ []) ≡ b

-- The errors of `zvariant::Error`, and of serde, panics, and running out of fuel.
pub data Failure : Type 0 where
  signature_mismatch : Signature → Failure
  invalid_signature : Failure
  max_depth : MaxDepthExceeded → Failure
  padding_not_0 : ℕ → Failure
  invalid_length invalid_value invalid_type custom utf8 out_of_bounds unknown_fd out_of_fuel :
      Failure
  panic : Failure
  in_array : Failure → Failure

abbrev pub nth : Fields → ℕ → Option Signature
nth no_fields i = none
nth (field s fs) zero = some s
nth (field s fs) (suc i) = nth fs i

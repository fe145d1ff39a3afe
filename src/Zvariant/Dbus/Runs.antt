-- ===== src/Zvariant/Dbus/Runs.antt =====
-- Runs of the D-Bus serializer of zvariant/src/dbus/ser.rs on concrete values, little-endian.
use zbus.Prelude.{
  ℕ, zero, suc, ◌+◌, ◌*◌, ◌/◌, ◌%◌, ◌^◌, ◌<◌, ◌≡◌, ◌≢◌, ◌≤◌, refl, ap, none, List, [], ◌∷◌, ok,
  length, ◌++◌, err, arith,
}
use zbus.Signature.{Signature, alignment_dbus, write_as_string, IsComplete}
use zbus.Signature.Nom.Reference.{reference}
use zbus.Zvariant.Depths.{
  inc_array, inc_variant, dec_array, check, default_depths, MaxDepthExceeded,
}
use zbus.Zvariant.Dbus.{Basic, Text, Value, nil, cons, no_entry, entry, Endian, max_depth}
use zbus.Zvariant.Dbus.Ser.{
  Serializer, serialize, serialize_seq, serialize_struct, serialize_element, serialize_str,
  serialize_basic, add_padding, end_struct, end_seq, write_len,
}
use zbus.Zvariant.Padding.{padding_for_n_bytes}
use zbus.Signature.Parser.{parse}
use zbus.Zvariant.Dbus.Growing.{Grows}
use Prim.Native.Nat.{Ordering}
use zbus.Zvariant.Dbus.{value_signature, out_of_fuel, padding_not_0}
use zbus.Zvariant.Dbus.De.{
  Deserializer, deserialize, array_deserializer, deserialize_basic, parse_padding, next_slice,
  forward,
}
use zbus.Signature.Equality.{same}
use zbus.Zvariant.Dbus.Progress.{TakesBytes}
use zbus.Zvariant.Dbus.Sizes.{size}
use zbus.Zvariant.Dbus.Reading.{deserialize-Reads}
use zbus.Zvariant.Dbus.Total.{deserialize-Finishes}
use zbus.Zvariant.Dbus.Kept.{serialize-Grows}
use zbus.Zvariant.Dbus.Reference.{
  encode, Fits, a_basic, a_text, a_variant, a_dict, one_pair, no_pair,
}
use zbus.Zvariant.Dbus.Writing.{serializer}
use zbus.Zvariant.Dbus.Refines.{serialize-encode}

abbrev write_le : ℕ → ℕ → List ℕ
write_le zero n = []
write_le (suc w) n = n % 256 ∷ write_le w (n / 256)

abbrev read_le : List ℕ → ℕ
read_le [] = 0
read_le (b ∷ bs) = b + 256 * read_le bs

pub length-write_le : (w n : ℕ) → length (write_le w n) ≡ w
length-write_le zero n = refl
length-write_le (suc w) n = ap suc (length-write_le w (n / 256))

pub read-write_le : (w n : ℕ) → n < 256 ^ w → read_le (write_le w n) ≡ n
read-write_le zero n h = omega arith
read-write_le (suc w) n h = let rest = read-write_le w (n / 256) (omega arith) in omega arith

abbrev pub little : Endian
little = record {
  write = write_le;
  read = read_le;
  length-write = length-write_le;
  read-write = read-write_le;
  read_byte = λ b. omega arith;
}

-- A message with one byte in it, and an array of one variant.
abbrev begun : Serializer
begun = record { written = 108 ∷ []; value_sign = none; container_depths = default_depths }

abbrev variants : Value
variants =
    Value.array (Signature.array Signature.variant)
      (cons (Value.variant (Value.basic Basic.u8 7)) nil)

abbrev after_variants : Serializer
after_variants = record begun { written = 108 ∷ 0 ∷ 0 ∷ 0 ∷ 4 ∷ 0 ∷ 0 ∷ 0 ∷ 1 ∷ 121 ∷ 0 ∷ 7 ∷ [] }

serialize-variants :
    serialize little reference 0 variants (Signature.array Signature.variant) begun
    ≡ ok after_variants
unfolding serialize serialize_seq serialize_struct serialize_element serialize_str serialize_basic
    add_padding end_struct end_seq write_len inc_array inc_variant dec_array check alignment_dbus
    padding_for_n_bytes write_as_string parse reference
serialize-variants = refl

serialize-Grows_example : Grows begun after_variants
serialize-Grows_example =
    serialize-Grows little reference 0 variants (Signature.array Signature.variant) begun
      after_variants (omega arith, omega arith, omega arith) serialize-variants

abbrev pub vardict : Signature
vardict = Signature.dict Signature.str Signature.variant

-- The text `k` with a variant, at position 1.
abbrev properties : Value
properties =
    Value.dict vardict
      (entry (Value.text Text.str (107 ∷ [])) (Value.variant (Value.basic Basic.u8 7)) no_entry)

encode-properties :
    encode little 1 properties vardict
    ≡ 0 ∷ 0 ∷ 0 ∷ 10 ∷ 0 ∷ 0 ∷ 0 ∷ 1 ∷ 0 ∷ 0 ∷ 0 ∷ 107 ∷ 0 ∷ 1 ∷ 121 ∷ 0 ∷ 7 ∷ []
unfolding encode alignment_dbus padding_for_n_bytes write_as_string
encode-properties = refl

properties-Fits : Fits default_depths properties vardict
unfolding IsComplete write_as_string
properties-Fits =
    a_dict _ _ _ (omega arith, omega arith, omega arith)
      (one_pair _ _ _ (a_text Text.str (107 ∷ []) (omega arith))
        (a_variant (Value.basic Basic.u8 7) tt (omega arith) (omega arith, omega arith, omega arith)
          (a_basic Basic.u8 7))
        no_pair)

serialize-encode_example :
    serialize little reference 0 properties vardict (serializer (108 ∷ []) default_depths)
    ≡ ok (serializer ((108 ∷ []) ++ encode little 1 properties vardict) default_depths)
serialize-encode_example =
    serialize-encode little reference 0 default_depths properties vardict (108 ∷ [])
      (omega arith, omega arith, omega arith) properties-Fits (rw encode-properties (omega arith))

-- A 33rd array is refused.
array_too_deep :
    serialize little reference 0
      (Value.array (Signature.array Signature.u8) nil)
      (Signature.array Signature.u8)
      (record begun { container_depths = record default_depths { array = 32 } })
    ≡ err (max_depth MaxDepthExceeded.array)
unfolding serialize serialize_seq inc_array check alignment_dbus padding_for_n_bytes
array_too_deep = refl

-- An array of one number, read from the start of the bytes.
abbrev numbers : Signature
numbers = Signature.array Signature.u32

abbrev number_bytes : Deserializer
number_bytes = record {
  bytes = 4 ∷ 0 ∷ 0 ∷ 0 ∷ 7 ∷ 1 ∷ 0 ∷ 0 ∷ [];
  pos = 0;
  position = 0;
  container_depths = default_depths;
}

abbrev all_equal : Value → Value → Ordering
all_equal a b = Ordering.eq

abbrev one_number : Value
one_number = Value.array numbers (cons (Value.basic Basic.u32 263) nil)

deserialize-numbers :
    deserialize little reference all_equal 50 numbers number_bytes
    ≡ ok (one_number, forward 8 number_bytes)
unfolding deserialize array_deserializer deserialize_basic parse_padding next_slice same inc_array
    dec_array check alignment_dbus padding_for_n_bytes
deserialize-numbers = refl

deserialize-Reads_example :
    (value_signature one_number ≡ numbers)
    × (number_bytes.bytes ≡ number_bytes.bytes)
    × (number_bytes.position ≡ number_bytes.position)
    × (0 ≤ 8)
    × (8 ≤ length number_bytes.bytes + 1)
deserialize-Reads_example =
    deserialize-Reads little reference all_equal 50 numbers number_bytes (forward 8 number_bytes)
      one_number (omega arith) deserialize-numbers

numbers-TakesBytes : TakesBytes numbers
unfolding TakesBytes
numbers-TakesBytes = tt

size-numbers : size numbers ≡ 5
unfolding size
size-numbers = refl

deserialize-Finishes_example :
    deserialize little reference all_equal 50 numbers number_bytes ≢ err out_of_fuel
deserialize-Finishes_example =
    deserialize-Finishes little reference all_equal 50 numbers number_bytes numbers-TakesBytes
      (omega arith) (let l : size numbers ≡ 5 = size-numbers in omega arith)

-- Padding that is not 0 is refused.
padding_of_1 :
    deserialize little reference all_equal 50 Signature.u32 (record number_bytes { pos = 5 })
    ≡ err (padding_not_0 1)
unfolding deserialize deserialize_basic parse_padding padding_for_n_bytes
padding_of_1 = refl

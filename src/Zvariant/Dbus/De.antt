-- ===== src/Zvariant/Dbus/De.antt =====
-- The D-Bus deserializer: zvariant/src/dbus/de.rs, over `DeserializerCommon` of zvariant/src/de.rs,
-- for the values that the seeds of zvariant/src/value.rs build. No file descriptors are passed to it.
use zbus.Prelude.{
  ℕ, zero, suc, ◌+◌, Bool, true, false, not, ◌&&◌, Option, none, some, List, [], ◌∷◌, Result, ok,
  err, ◌>>=◌, ltb, ◌==◌, if◌then◌else◌, length, take, drop, ensure, any, get_elem?,
}
use Prim.Native.Nat.{Ordering}
use zbus.Signature.{Signature, Fields, no_fields, field, alignment_dbus, display}
use zbus.Signature.Equality.{same}
use zbus.Signature.Nom.{Nom}
use zbus.Signature.Parser.{parse}
use zbus.Zvariant.Padding.{padding_for_n_bytes}
use zbus.Zvariant.Depths.{
  ContainerDepths, inc_array, inc_structure, inc_variant, dec_array, dec_structure,
}
use zbus.Handshake.Utf8.{from_utf8}
use zbus.Zvariant.Dbus.{
  Basic, Text, Value, Values, Entries, nil, cons, no_entry, entry, width, value_signature, Endian,
  Failure, signature_mismatch, invalid_signature, padding_not_0, invalid_length, invalid_value,
  invalid_type, custom, utf8, out_of_bounds, unknown_fd, out_of_fuel, panic, in_array,
}
use zbus.Zvariant.Dbus.Ser.{depth_checked}

-- The signature that the deserializer is at is an argument.
pub record Deserializer : Type 0 where
  pub bytes : List ℕ
  pub pos : ℕ
  pub position : ℕ
  pub container_depths : ContainerDepths

abbrev pub all_zero : ℕ → List ℕ → Result Failure (Unit {0})
all_zero zero bytes = ok tt
all_zero (suc n) [] = err panic
all_zero (suc n) (b ∷ bytes) = if b == 0 then all_zero n bytes else err (padding_not_0 b)

abbrev pub forward : ℕ → Deserializer → Deserializer
forward n s = record s { pos = s.pos + n }

unfoldable pub parse_padding : ℕ → Deserializer → Result Failure Deserializer
parse_padding alignment s =
    let padding = padding_for_n_bytes (s.position + s.pos) alignment in
    if ltb 0 padding
    then if ltb (length s.bytes) (s.pos + padding)
      then err invalid_length
      else (all_zero padding (drop s.pos s.bytes) >>= λ _. ok (forward padding s))
    else ok s

unfoldable pub next_slice : ℕ → Deserializer → Result Failure (List ℕ × Deserializer)
next_slice len s =
    if ltb (length s.bytes) (s.pos + len)
    then err invalid_length
    else ok (take len (drop s.pos s.bytes), forward len s)

-- `subslice` of the bytes from one place on, and up to another.
unfoldable pub subslice_from : ℕ → List ℕ → Result Failure (List ℕ)
subslice_from start bytes =
    if ltb (length bytes) start then err out_of_bounds else ok (drop start bytes)

unfoldable pub subslice : ℕ → ℕ → List ℕ → Result Failure (List ℕ)
subslice start len bytes =
    if ltb (length bytes) (start + len) then err out_of_bounds else ok (take len (drop start bytes))

abbrev pub required : {A : Type 0} → Failure → Option A → Result Failure A
required failure none = err failure
required failure (some a) = ok a

-- What `deserialize_any` goes on to by the signature: a basic value, a text, or another.
pub data Kind : Type 0 where
  of_basic : Basic → Kind
  of_text : Text → Kind
  of_variant of_fd of_unit : Kind
  of_maybe : Signature → Kind
  of_array : Signature → Kind
  of_dict : Signature → Signature → Kind
  of_structure : Fields → Kind

abbrev pub kind_of : Signature → Kind
kind_of Signature.unit = of_unit
kind_of Signature.u8 = of_basic Basic.u8
kind_of Signature.bool = of_basic Basic.bool
kind_of Signature.i16 = of_basic Basic.i16
kind_of Signature.u16 = of_basic Basic.u16
kind_of Signature.i32 = of_basic Basic.i32
kind_of Signature.u32 = of_basic Basic.u32
kind_of Signature.i64 = of_basic Basic.i64
kind_of Signature.u64 = of_basic Basic.u64
kind_of Signature.f64 = of_basic Basic.f64
kind_of Signature.str = of_text Text.str
kind_of Signature.signature = of_text Text.signature
kind_of Signature.object_path = of_text Text.object_path
kind_of Signature.variant = of_variant
kind_of Signature.fd = of_fd
kind_of (Signature.array child) = of_array child
kind_of (Signature.dict key value) = of_dict key value
kind_of (Signature.structure sigs) = of_structure sigs
kind_of (Signature.maybe child) = of_maybe child

abbrev pub is_bool : Basic → Bool
is_bool Basic.bool = true
is_bool kind = false

-- Whether the length of a text has four bytes or one.
abbrev pub has_long_len : Signature → Option Bool
has_long_len Signature.signature = some false
has_long_len Signature.variant = some false
has_long_len Signature.str = some true
has_long_len Signature.object_path = some true
has_long_len sig = none

-- `endian` reads the numbers, and `compare` is the order of `Value`, which is derived but for
-- `total_cmp` on `f64`.

abbrev pub basic_value : Basic → ℕ → Result Failure Value
basic_value kind n = if is_bool kind && ltb 1 n then err invalid_value else ok (Value.basic kind n)

-- The length of a text.
abbrev pub read_len :
    Signature → Option Bool → Deserializer → Result Failure (List ℕ × Deserializer)
read_len sig (some false) s = next_slice 1 s
read_len sig (some true) s = parse_padding 4 s >>= next_slice 4
read_len sig none s = err (signature_mismatch sig)

-- The failure of an element of an array: `in_array e` is an invalid length where the deserializer
-- has passed the end of the array, and `e` elsewhere. A panic, and a lack of fuel, stay.
abbrev pub element_failure : Failure → Failure
element_failure out_of_fuel = out_of_fuel
element_failure panic = panic
element_failure e = in_array e

-- `ArrayDeserializer::next`, with what the seed gives.
abbrev pub within :
    ℕ → Result Failure (Value × Deserializer) → Result Failure (Value × Deserializer)
within end (err e) = err (element_failure e)
within end (ok (v, s)) = if ltb end s.pos then err invalid_length else ok (v, s)

-- `Array::append` and `Dict::append`
abbrev pub matching : Signature → Value → Result Failure (Unit {0})
matching sig v = ensure (same (value_signature v) sig) custom

abbrev pub array_left : Deserializer → Deserializer
array_left s = record s { container_depths = dec_array s.container_depths }

-- After a field: the last one leaves the structure.
abbrev pub field_read : Fields → Deserializer → Deserializer → Deserializer
field_read no_fields s sub = record s {
  pos = sub.pos;
  container_depths = dec_structure s.container_depths;
}
field_read (field _ _) s sub = record s { pos = sub.pos }

abbrev pub align : Signature → Deserializer → Result Failure Deserializer
align sig s = required panic (alignment_dbus sig) >>= λ alignment. parse_padding alignment s

module _ (endian : Endian) where
  unfoldable pub deserialize_basic : Basic → Deserializer → Result Failure (Value × Deserializer)
  deserialize_basic kind s =
      parse_padding (width kind) s >>= next_slice (width kind) >>= λ (slice, s).
      basic_value kind (endian.read slice) >>= λ v. ok (v, s)

  unfoldable pub deserialize_str : Signature → Deserializer → Result Failure (List ℕ × Deserializer)
  deserialize_str sig s = read_len sig (has_long_len sig) s >>= λ (len, s).
      next_slice (endian.read len) s >>= λ (slice, s).
      ensure (not (any (λ b. b == 0) slice)) invalid_value >>= λ _.
      required utf8 (from_utf8 slice) >>= λ _. ok (slice, forward 1 s)

  -- `ArrayDeserializer::new`, with the alignment of the elements and the place of their end.
  unfoldable pub array_deserializer :
      Option ℕ → Deserializer → Result Failure ((ℕ × ℕ) × Deserializer)
  array_deserializer element_alignment s = parse_padding 4 s >>= λ s.
      depth_checked (inc_array s.container_depths) >>= λ depths.
      next_slice 4 (record s { container_depths = depths }) >>= λ (len, s).
      required panic element_alignment >>= λ alignment.
      parse_padding alignment s >>= λ s. ok ((alignment, s.pos + endian.read len), s)

module _ (nom : Nom) where
  -- `visit_borrowed_str`
  abbrev pub text_value : Text → List ℕ → Result Failure Value
  text_value Text.signature v =
      required custom (parse nom v false) >>= λ sign. ok (Value.text Text.signature (display sign))
  text_value kind v = ok (Value.text kind v)

  -- `ValueDeserializer`, at the value of the variant whose signature starts at `sig_start`.
  unfoldable pub value_deserializer : ℕ → Deserializer → Result Failure (Signature × Deserializer)
  value_deserializer sig_start s = required panic (get_elem? s.bytes sig_start) >>= λ sig_len.
      subslice (sig_start + 1) sig_len s.bytes >>= λ slice.
      required invalid_signature (parse nom slice false) >>= λ sign.
      let value_start = sig_start + 1 + sig_len + 1 in
      subslice_from value_start s.bytes >>= λ bytes.
      depth_checked (inc_variant s.container_depths) >>= λ depths. ok (
        sign,
        record {
          bytes = bytes;
          pos = 0;
          position = s.position + value_start;
          container_depths = depths;
        },
      )

module _ (compare : Value → Value → Ordering) where
  abbrev pub insert : Value → Value → Entries → Entries
  insert k v no_entry = entry k v no_entry
  insert k v (entry k' v' es) = elim (compare k k') [
    | Ordering.lt ↦ entry k v (entry k' v' es)
    | Ordering.eq ↦ entry k' v es
    | Ordering.gt ↦ entry k' v' (insert k v es)
  ]

module _ (endian : Endian) (nom : Nom) (compare : Value → Value → Ordering) where
  unfoldable mutual
    -- `deserialize_any` with a seed for a value, by what the signature asks for.
    pub deserialize : ℕ → Signature → Deserializer → Result Failure (Value × Deserializer)
    deserialize zero sig s = err out_of_fuel
    deserialize (suc fuel) sig s = deserialize_kind fuel (kind_of sig) sig s

    pub deserialize_kind :
        ℕ → Kind → Signature → Deserializer → Result Failure (Value × Deserializer)
    deserialize_kind zero kind sig s = err out_of_fuel
    deserialize_kind (suc fuel) (of_basic kind) sig s = deserialize_basic endian kind s
    deserialize_kind (suc fuel) (of_text kind) sig s =
        deserialize_str endian sig s >>= λ (slice, s). text_value nom kind slice >>= λ v. ok (v, s)
    deserialize_kind (suc fuel) of_fd sig s =
        parse_padding 4 s >>= next_slice 4 >>= λ _. err unknown_fd
    deserialize_kind (suc fuel) of_unit sig s = err invalid_type
    deserialize_kind (suc fuel) (of_maybe _) sig s = err custom
    deserialize_kind (suc fuel) of_variant sig s = align sig s >>= λ s.
        deserialize_str endian sig s >>= λ (slice, r).
        required custom (parse nom slice false) >>= λ _.
        value_deserializer nom s.pos r >>= λ (sign, sub).
        deserialize fuel sign sub >>= λ (v, sub). ok (Value.variant v, forward sub.pos r)
    deserialize_kind (suc fuel) (of_array child) sig s = align sig s >>= λ s.
        array_deserializer endian (alignment_dbus child) s >>= λ ((alignment, end), s).
        deserialize_all fuel alignment child end s >>= λ (vs, s). ok (Value.array sig vs, s)
    deserialize_kind (suc fuel) (of_dict key value) sig s = align sig s >>= λ s.
        array_deserializer endian (some 8) s >>= λ ((_, end), s).
        deserialize_entries fuel key value end no_entry s >>= λ (es, s). ok (Value.dict sig es, s)
    deserialize_kind (suc fuel) (of_structure sigs) sig s = align sig s >>= λ s.
        parse_padding 8 s >>= λ s. depth_checked (inc_structure s.container_depths) >>= λ depths.
        deserialize_fields fuel sigs (record s { container_depths = depths }) >>= λ (vs, s).
        ok (Value.structure sig vs, s)

    pub deserialize_all :
        ℕ → ℕ → Signature → ℕ → Deserializer → Result Failure (Values × Deserializer)
    deserialize_all zero alignment child end s = err out_of_fuel
    deserialize_all (suc fuel) alignment child end s =
        let next =
          (parse_padding alignment s >>= λ s. within end (deserialize fuel child s)) >>= λ (v, s).
          matching child v >>= λ _.
          deserialize_all fuel alignment child end s >>= λ (vs, s). ok (cons v vs, s) in
        if s.pos == end then ok (nil, array_left s) else next

    pub deserialize_fields : ℕ → Fields → Deserializer → Result Failure (Values × Deserializer)
    deserialize_fields zero sigs s = err out_of_fuel
    deserialize_fields (suc fuel) no_fields s = ok (nil, s)
    deserialize_fields (suc fuel) (field sig sigs) s = deserialize fuel sig s >>= λ (v, sub).
        deserialize_fields fuel sigs (field_read sigs s sub) >>= λ (vs, s). ok (cons v vs, s)

    pub deserialize_entries :
        ℕ
        → Signature
        → Signature
        → ℕ
        → Entries
        → Deserializer
        → Result Failure (Entries × Deserializer)
    deserialize_entries zero key value end es s = err out_of_fuel
    deserialize_entries (suc fuel) key value end es s =
        let next = (parse_padding 8 s >>= λ s. within end (deserialize fuel key s)) >>= λ (k, s).
        within end (deserialize fuel value s) >>= λ (v, s). matching key k >>= λ _.
        matching value v >>= λ _.
        deserialize_entries fuel key value end (insert compare k v es) s in
        if s.pos == end then ok (es, array_left s) else next

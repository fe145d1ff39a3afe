-- ===== src/Zvariant/Dbus/Ser.antt =====
-- The D-Bus serializer: zvariant/src/dbus/ser.rs, over `SerializerCommon` of zvariant/src/ser.rs,
-- for the values that zvariant/src/value.rs serializes.
use zbus.Prelude.{
  ℕ, suc, ◌+◌, ◌-◌, ◌^◌, Bool, true, false, Option, none, some, List, [], ◌∷◌, ◌++◌, Result, ok,
  err, ◌>>=◌, ltb, if◌then◌else◌, length, take, drop, replicate,
}
use zbus.Signature.{Signature, alignment_dbus, display}
use zbus.Signature.Nom.{Nom}
use zbus.Signature.Parser.{parse}
use zbus.Zvariant.Padding.{padding_for_n_bytes}
use zbus.Zvariant.Depths.{
  ContainerDepths, MaxDepthExceeded, inc_array, inc_structure, inc_variant, dec_array,
}
use zbus.Zvariant.Dbus.{
  Basic, Value, Values, Entries, nil, cons, no_entry, entry, width, value_signature, Endian,
  Failure, signature_mismatch, invalid_signature, max_depth, panic, nth,
}

-- The bytes written so far, whose number is `bytes_written`, the signature put aside for the value
-- of a variant, and the counters. The signature that the serializer is at is an argument.
pub record Serializer : Type 0 where
  pub written : List ℕ
  pub value_sign : Option Signature
  pub container_depths : ContainerDepths

-- `SerializeSeq` or `SerializeStruct` in progress: of a sequence, the signature of its elements,
-- the place where they start and the padding before it; of a structure, its signature and the
-- counters to go back to.
pub data StructSeq : Type 0 where
  seq : Signature → ℕ → ℕ → StructSeq
  struct_ : Signature → ContainerDepths → StructSeq

abbrev pub depth_checked : {A : Type 0} → Result MaxDepthExceeded A → Result Failure A
depth_checked (err e) = err (max_depth e)
depth_checked (ok a) = ok a

abbrev pub parsed : Option Signature → Result Failure (Option Signature)
parsed none = err invalid_signature
parsed (some s) = ok (some s)

-- The matches on the signature: whether a text is that of a variant's signature, the bytes of the
-- length of a text, the elements of a sequence with their alignment, and what a structure is at.
abbrev pub is_variant : Signature → Bool
is_variant Signature.variant = true
is_variant sig = false

abbrev pub len_width : Signature → Option ℕ
len_width Signature.object_path = some 4
len_width Signature.str = some 4
len_width Signature.signature = some 1
len_width Signature.variant = some 1
len_width sig = none

abbrev pub element_of : Signature → Option (Signature × Option ℕ)
element_of (Signature.array child) = some (child, alignment_dbus child)
element_of (Signature.dict key value) = some (key, some 8)
element_of sig = none

pub data StructKind : Type 0 where
  a_variant an_array a_structure another : StructKind

abbrev pub struct_kind : Signature → StructKind
struct_kind Signature.variant = a_variant
struct_kind (Signature.array child) = an_array
struct_kind (Signature.structure _) = a_structure
struct_kind sig = another

-- `position` is that of the context.

abbrev pub write : List ℕ → Serializer → Serializer
write bytes s = record s { written = s.written ++ bytes }

-- `end_seq`: the length goes where 0 was written for it.
abbrev pub patch : ℕ → List ℕ → List ℕ → List ℕ
patch at bytes written = take at written ++ bytes ++ drop (at + length bytes) written

abbrev pub sign_of : Option Signature → Signature
sign_of none = Signature.variant
sign_of (some sign) = sign

-- The signature of a field, by its index.
abbrev pub field_signature : Signature → ℕ → Option Signature → Result Failure Signature
field_signature Signature.variant idx value_sign = ok (sign_of value_sign)
field_signature (Signature.structure fields) idx value_sign = elim (nth fields idx) [
  | none ↦ err (signature_mismatch (Signature.structure fields))
  | some s ↦ ok s
]
field_signature sig idx value_sign = err panic

-- `serialize_element` or `serialize_struct_element`, of what serializes itself.
unfoldable pub serialize_element :
    StructSeq
    → ℕ
    → (Signature → Serializer → Result Failure Serializer)
    → Serializer
    → Result Failure Serializer
serialize_element (seq child start first_padding) idx value s = value child s
serialize_element (struct_ sig depths) idx value s = field_signature sig idx s.value_sign >>= λ sig.
    value sig (record s { value_sign = none }) >>= λ sub.
    ok (record sub { container_depths = s.container_depths })

abbrev pub dict_signatures : Signature → Result Failure (Signature × Signature)
dict_signatures (Signature.dict key value) = ok (key, value)
dict_signatures sig = err (signature_mismatch sig)

module _ (endian : Endian) where
  -- The length of a text: `usize_to_u32` and `usize_to_u8` panic beyond their ranges.
  unfoldable pub write_len : ℕ → ℕ → Serializer → Result Failure Serializer
  write_len w len s = if ltb len (256 ^ w) then ok (write (endian.write w len) s) else err panic

  abbrev pub text_len : Signature → Option ℕ → ℕ → Serializer → Result Failure Serializer
  text_len sig (some w) len s = write_len w len s
  text_len sig none len s = err (signature_mismatch sig)

  unfoldable pub end_seq : ℕ → ℕ → Serializer → Result Failure Serializer
  end_seq start first_padding s =
      let array_len = length s.written - start in
      let total_array_len = array_len + first_padding + 4 in
      if ltb array_len (2 ^ 32)
      then ok (record s {
        written = patch (length s.written - total_array_len) (endian.write 4 array_len) s.written;
        container_depths = dec_array s.container_depths;
      })
      else err panic

  unfoldable pub end_struct : StructSeq → Serializer → Result Failure Serializer
  end_struct (seq child start first_padding) s = end_seq start first_padding s
  end_struct (struct_ sig depths) s = ok (record s { container_depths = depths })

module _ (nom : Nom) where
  abbrev pub put_aside : Bool → List ℕ → Serializer → Result Failure Serializer
  put_aside true v s = parsed (parse nom v false) >>= λ sign. ok (record s { value_sign = sign })
  put_aside false v s = ok s

module _ (position : ℕ) where
  abbrev pub pad : ℕ → Serializer → Serializer
  pad alignment s =
      write (replicate (padding_for_n_bytes (position + length s.written) alignment) 0) s

  -- `add_padding` for the alignment of a signature, which panics for some.
  unfoldable pub add_padding : Signature → Serializer → Result Failure Serializer
  add_padding sig s = elim (alignment_dbus sig) [ none ↦ err panic | some a ↦ ok (pad a s) ]

  -- `serialize_seq`, from the signature and the alignment of its elements on.
  abbrev pub seq_from : Signature → ℕ → Serializer → Result Failure (StructSeq × Serializer)
  seq_from child alignment s =
      let padded = pad alignment s in
      depth_checked (inc_array s.container_depths) >>= λ depths. ok (
        seq child (length padded.written) (length padded.written - length s.written),
        record padded { container_depths = depths },
      )

  abbrev pub seq_of :
      Signature
      → Option (Signature × Option ℕ)
      → Serializer
      → Result Failure (StructSeq × Serializer)
  seq_of sig none s = err (signature_mismatch sig)
  seq_of sig (some (child, none)) s = err panic
  seq_of sig (some (child, some alignment)) s = seq_from child alignment s

  -- `serialize_key`
  abbrev pub pad_entry : Serializer → Serializer
  pad_entry s = pad 8 s

module _ (endian : Endian) (position : ℕ) where
  unfoldable pub serialize_basic : Basic → ℕ → Serializer → Serializer
  serialize_basic kind n s = write (endian.write (width kind) n) (pad position (width kind) s)

  unfoldable pub serialize_seq : Signature → Serializer → Result Failure (StructSeq × Serializer)
  serialize_seq sig s =
      seq_of position sig (element_of sig) (write (endian.write 4 0) (pad position 4 s))

  -- `serialize_struct`, of some fields.
  abbrev pub struct_of :
      Signature → StructKind → Serializer → Result Failure (StructSeq × Serializer)
  struct_of sig a_variant s = depth_checked (inc_variant s.container_depths) >>= λ depths.
      ok (struct_ sig s.container_depths, record s { container_depths = depths })
  struct_of sig an_array s = serialize_seq sig s
  struct_of sig a_structure s = depth_checked (inc_structure s.container_depths) >>= λ depths.
      ok (struct_ sig s.container_depths, record s { container_depths = depths })
  struct_of sig another s = err (signature_mismatch sig)

  unfoldable pub serialize_struct : Signature → Serializer → Result Failure (StructSeq × Serializer)
  serialize_struct sig s = add_padding position sig s >>= struct_of sig (struct_kind sig)

module _ (endian : Endian) (nom : Nom) (position : ℕ) where
  unfoldable pub serialize_str : List ℕ → Signature → Serializer → Result Failure Serializer
  serialize_str v sig s =
      add_padding position sig s
      >>= put_aside nom (is_variant sig) v
      >>= text_len endian sig (len_width sig) (length v)
      >>= λ s. ok (write (v ++ (0 ∷ [])) s)

  unfoldable mutual
    pub serialize : Value → Signature → Serializer → Result Failure Serializer
    serialize (Value.basic kind n) sig s = ok (serialize_basic endian position kind n s)
    serialize (Value.text kind v) sig s = serialize_str v sig s
    serialize (Value.variant v) sig s = serialize_struct endian position sig s >>= λ (ser, s).
        serialize_element ser 0 (serialize_str (display (value_signature v))) s
        >>= serialize_element ser 1 (serialize v)
        >>= end_struct endian ser
    serialize (Value.array _ vs) sig s = serialize_seq endian position sig s >>= λ (ser, s).
        serialize_all ser 0 vs s >>= end_struct endian ser
    serialize (Value.dict _ es) sig s = dict_signatures sig >>= λ (key, value).
        serialize_seq endian position sig s >>= λ (ser, s).
        serialize_entries key value es s >>= end_struct endian ser
    serialize (Value.structure _ nil) sig s = ok (serialize_basic endian position Basic.u8 0 s)
    serialize (Value.structure _ (cons v vs)) sig s =
        serialize_struct endian position sig s >>= λ (ser, s).
        serialize_element ser 0 (serialize v) s >>= serialize_all ser 1 vs >>= end_struct endian ser

    pub serialize_all : StructSeq → ℕ → Values → Serializer → Result Failure Serializer
    serialize_all ser idx nil s = ok s
    serialize_all ser idx (cons v vs) s =
        serialize_element ser idx (serialize v) s >>= serialize_all ser (suc idx) vs

    pub serialize_entries : Signature → Signature → Entries → Serializer → Result Failure Serializer
    serialize_entries key value no_entry s = ok s
    serialize_entries key value (entry k v es) s =
        serialize k key (pad_entry position s)
        >>= serialize v value
        >>= serialize_entries key value es

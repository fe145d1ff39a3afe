-- ===== src/Zvariant/Dbus/Reference.antt =====
-- What the D-Bus specification says of the bytes of a value, to which zvariant/src/dbus/ser.rs is
-- compared, and the values that have a signature and fit in the limits.
use zbus.Prelude.{ℕ, ◌+◌, ◌^◌, ◌<◌, ◌≡◌, none, some, List, [], ◌∷◌, ◌++◌, length, replicate}
use zbus.Signature.{Signature, Fields, no_fields, field, alignment_dbus, display, IsComplete}
use zbus.Zvariant.Padding.{padding_for_n_bytes}
use zbus.Zvariant.Depths.{ContainerDepths}
use zbus.Zvariant.Depths.Nesting.{struct, arr, variant, deeper, IsValid}
use zbus.Zvariant.Dbus.{
  value_signature, basic_signature, text_signature, Basic, Text, Value, Values, Entries, nil, cons,
  no_entry, entry, width, Endian,
}

abbrev pub zeros : ℕ → ℕ → List ℕ
zeros at alignment = replicate (padding_for_n_bytes at alignment) 0

-- The bytes of the length of a text, which is aligned to them.
abbrev pub text_width : Text → ℕ
text_width Text.str = 4
text_width Text.object_path = 4
text_width Text.signature = 1

abbrev pub alignment : Signature → ℕ
alignment sig = elim (alignment_dbus sig) [ none ↦ 1 | some a ↦ a ]

abbrev pub followed : ℕ → List ℕ → (ℕ → List ℕ) → List ℕ
followed at first rest = first ++ rest (at + length first)

-- `at` is the position in the message. Each part is aligned from where it starts; the length of
-- an array is that of its elements, without the padding before the first.
module _ (endian : Endian) where
  abbrev pub encode_text : ℕ → ℕ → List ℕ → List ℕ
  encode_text at w v = zeros at w ++ endian.write w (length v) ++ v ++ (0 ∷ [])

  abbrev pub encode_array : ℕ → ℕ → (ℕ → List ℕ) → List ℕ
  encode_array at first_alignment elements =
      let p = zeros at 4 in
      let q = zeros (at + length p + 4) first_alignment in
      let body = elements (at + length p + 4 + length q) in
      p ++ endian.write 4 (length body) ++ q ++ body

  unfoldable mutual
    pub encode : ℕ → Value → Signature → List ℕ
    encode at (Value.basic kind n) sig = zeros at (width kind) ++ endian.write (width kind) n
    encode at (Value.text kind v) sig = encode_text at (text_width kind) v
    encode at (Value.variant v) sig =
        followed at
          (followed at (zeros at 1) (λ at. encode_text at 1 (display (value_signature v))))
          (λ at. encode at v (value_signature v))
    encode at (Value.array _ vs) (Signature.array child) =
        encode_array at (alignment child) (λ at. encode_all at vs child)
    encode at (Value.dict _ es) (Signature.dict key value) =
        encode_array at 8 (λ at. encode_entries at es key value)
    encode at (Value.structure _ vs) (Signature.structure fields) =
        followed at (zeros at 8) (λ at. encode_fields at vs fields)
    encode at v sig = []

    pub encode_all : ℕ → Values → Signature → List ℕ
    encode_all at nil child = []
    encode_all at (cons v vs) child = followed at (encode at v child) (λ at. encode_all at vs child)

    pub encode_fields : ℕ → Values → Fields → List ℕ
    encode_fields at (cons v vs) (field sig sigs) =
        followed at (encode at v sig) (λ at. encode_fields at vs sigs)
    encode_fields at vs sigs = []

    pub encode_entries : ℕ → Entries → Signature → Signature → List ℕ
    encode_entries at no_entry key value = []
    encode_entries at (entry k v es) key value =
        followed at
          (followed at (followed at (zeros at 8) (λ at. encode at k key)) (λ at. encode at v value))
          (λ at. encode_entries at es key value)

-- The values of a signature that fit: a structure has a field at least, a text of a signature is
-- at most 255 bytes long, and the counters stay within the limits.
mutual
  pub data Fits : ContainerDepths → Value → Signature → Type 0 where
    a_basic :
        {d : ContainerDepths} (kind : Basic) (n : ℕ)
        → Fits d (Value.basic kind n) (basic_signature kind)
    a_text :
        {d : ContainerDepths} (kind : Text) (v : List ℕ)
        → length v < 256 ^ text_width kind
        → Fits d (Value.text kind v) (text_signature kind)
    a_variant :
        {d : ContainerDepths} (v : Value)
        → IsComplete (value_signature v)
        → length (display (value_signature v)) < 256
        → IsValid (deeper variant d)
        → Fits (deeper variant d) v (value_signature v)
        → Fits d (Value.variant v) Signature.variant
    an_array :
        {d : ContainerDepths} (vs : Values) (child : Signature) (a : ℕ)
        → alignment_dbus child ≡ some a
        → IsValid (deeper arr d)
        → FitAll (deeper arr d) vs child
        → Fits d (Value.array (Signature.array child) vs) (Signature.array child)
    a_dict :
        {d : ContainerDepths} (es : Entries) (key value : Signature)
        → IsValid (deeper arr d)
        → FitEntries (deeper arr d) es key value
        → Fits d (Value.dict (Signature.dict key value) es) (Signature.dict key value)
    a_structure :
        {d : ContainerDepths} (v : Value) (vs : Values) (fields : Fields)
        → IsValid (deeper struct d)
        → FitFields (deeper struct d) (cons v vs) fields
        → Fits d
            (Value.structure (Signature.structure fields) (cons v vs))
            (Signature.structure fields)

  pub data FitAll : ContainerDepths → Values → Signature → Type 0 where
    no_value : {d : ContainerDepths} {child : Signature} → FitAll d nil child
    one_value :
        {d : ContainerDepths} {child : Signature} (v : Value) (vs : Values)
        → Fits d v child
        → FitAll d vs child
        → FitAll d (cons v vs) child

  pub data FitFields : ContainerDepths → Values → Fields → Type 0 where
    last_field : {d : ContainerDepths} → FitFields d nil no_fields
    one_field :
        {d : ContainerDepths} (v : Value) (vs : Values) (sig : Signature) (sigs : Fields)
        → Fits d v sig
        → FitFields d vs sigs
        → FitFields d (cons v vs) (field sig sigs)

  pub data FitEntries : ContainerDepths → Entries → Signature → Signature → Type 0 where
    no_pair : {d : ContainerDepths} {key value : Signature} → FitEntries d no_entry key value
    one_pair :
        {d : ContainerDepths} {key value : Signature} (k v : Value) (es : Entries)
        → Fits d k key
        → Fits d v value
        → FitEntries d es key value
        → FitEntries d (entry k v es) key value

-- ===== src/Zvariant/Dbus/Refines.antt =====
-- The serializer of zvariant/src/dbus/ser.rs implements the bytes of the specification.
use zbus.Prelude.{
  ℕ, suc, ◌+◌, ◌^◌, ◌<◌, ◌≡◌, refl, sym, subst, ap, ◌∙◌, Option, none, some, List, [], ◌++◌,
  append-nil, Result, ok, ◌>>=◌, length, length-append, append_assoc, arith,
}
use zbus.Signature.{Signature, Fields, alignment_dbus, display, IsComplete}
use zbus.Signature.Nom.{Nom}
use zbus.Signature.Parser.TopLevel.{parse-display}
use zbus.Zvariant.Depths.{ContainerDepths}
use zbus.Zvariant.Depths.Nesting.{
  struct, arr, variant, deeper, IsValid, inc_structure-deeper, inc_variant-deeper,
}
use zbus.Zvariant.Dbus.{value_signature, Value, Values, Entries, cons, Endian, Failure, nth}
use zbus.Zvariant.Dbus.Ser.{
  Serializer, StructSeq, seq, struct_, pad, pad_entry, add_padding, serialize_str, serialize_struct,
  write_len, end_struct, serialize_element, serialize, serialize_all, serialize_entries,
  field_signature,
}
use zbus.Zvariant.Dbus.Reference.{
  zeros, alignment, encode_text, encode_array, followed, encode, encode_all, encode_fields,
  encode_entries, Fits, a_basic, a_text, a_variant, an_array, a_dict, a_structure, FitAll, no_value,
  one_value, FitFields, last_field, one_field, FitEntries, no_pair, one_pair,
}
use zbus.Zvariant.Dbus.Writing.{
  serializer, ltb-true, Writes, Writes-then, pad-Writes, basic-Writes, text-Writes, seq-Writes,
  length_written,
}

pub alignment_lem :
    (child : Signature) (a : ℕ) → alignment_dbus child ≡ some a → alignment child ≡ a
alignment_lem child a e = rw (alignment, e) refl

abbrev restored : ContainerDepths → Serializer → Result Failure Serializer
restored d sub = ok (record sub { container_depths = d })

field_at :
    (sigs : Fields) (idx : ℕ) (sig : Signature) (value_sign : Option Signature)
    → nth sigs idx ≡ some sig
    → field_signature (Signature.structure sigs) idx value_sign ≡ ok sig
field_at sigs idx sig value_sign e = rw (field_signature, e) refl

module _ (position : ℕ) where
  nothing-Writes : (d : ContainerDepths) → Writes position d (λ s. ok s) (λ at. [])
  nothing-Writes d w h = ap (λ t. ok (serializer t d)) (sym (append-nil w))

module _ (endian : Endian) (position : ℕ) where
  -- A structure, from what is written of its fields.
  struct-Writes :
      (d : ContainerDepths) (sigs : Fields)
      (run : StructSeq → Serializer → Result Failure Serializer) (bytes : ℕ → List ℕ)
      → IsValid d
      → IsValid (deeper struct d)
      → Writes position (deeper struct d) (run (struct_ (Signature.structure sigs) d)) bytes
      → Writes position d
          (λ s. serialize_struct endian position (Signature.structure sigs) s >>= λ (ser, s).
            run ser s >>= end_struct endian ser)
          (λ at. followed at (zeros at 8) bytes)
  unfolding serialize_struct add_padding alignment_dbus end_struct
  struct-Writes d sigs run bytes v fits k w h =
      let both =
        Writes-then endian position (deeper struct d) (λ s. ok (pad position 8 s))
          (run (struct_ (Signature.structure sigs) d)) (λ at. zeros at 8) bytes
          (pad-Writes position (deeper struct d) 8) k w h in
      rw (inc_structure-deeper d v fits, both) refl

module _ (endian : Endian) (nom : Nom) (position : ℕ) where
  -- A field of a structure.
  field-Writes :
      (d d0 : ContainerDepths) (sigs : Fields) (idx : ℕ) (sig : Signature) (v : Value)
      → nth sigs idx ≡ some sig
      → Writes position d (serialize endian nom position v sig) (λ at. encode endian at v sig)
      → Writes position d
          (serialize_element
            (struct_ (Signature.structure sigs) d0)
            idx
            (serialize endian nom position v))
          (λ at. encode endian at v sig)
  unfolding serialize_element
  field-Writes d d0 sigs idx sig v e k w h =
      ap (λ r. r >>= λ sig. serialize endian nom position v sig (serializer w d) >>= restored d)
        (field_at sigs idx sig none e)
      ∙ ap (λ r. r >>= restored d) (k w h)

  -- The signature of a variant, which is put aside for the value.
  signature-put_aside :
      (d : ContainerDepths) (sign : Signature) (w : List ℕ)
      → IsComplete sign
      → length (display sign) < 256
      → serialize_str endian nom position (display sign) Signature.variant (serializer w d)
        ≡ ok
            (record (serializer
              (w ++ encode_text endian (position + length w) 1 (display sign))
              d) { value_sign = some sign })
  unfolding serialize_str add_padding alignment_dbus write_len
  signature-put_aside d sign w complete short =
      rw (parse-display nom sign complete, ltb-true (length (display sign)) (256 ^ 1) short)
        (ap (λ t. ok (record (serializer t d) { value_sign = some sign }))
          (length_written w _ _ (display sign)))

  variant-Writes :
      (d : ContainerDepths) (v : Value)
      → IsComplete (value_signature v)
      → length (display (value_signature v)) < 256
      → IsValid d
      → IsValid (deeper variant d)
      → Writes position
          (deeper variant d)
          (serialize endian nom position v (value_signature v))
          (λ at. encode endian at v (value_signature v))
      → Writes position d
          (serialize endian nom position (Value.variant v) Signature.variant)
          (λ at. encode endian at (Value.variant v) Signature.variant)
  unfolding serialize encode serialize_struct add_padding alignment_dbus end_struct
      serialize_element
  variant-Writes d v complete short valid fits k w h =
      let p = zeros (position + length w) 1 in
      let t = encode_text endian (position + length (w ++ p)) 1 (display (value_signature v)) in
      let e1 : position + length (w ++ p) ≡ position + length w + length p =
        let l = length-append w p in omega arith in
      let e2 : position + length (w ++ p ++ t) ≡ position + length w + length (p ++ t) =
        let l = length-append (w ++ p) t in
        let l' = length-append w p in let l'' = length-append p t in omega arith in
      let written : encode endian (position + length w) (Value.variant v) Signature.variant
          ≡ p ++ t ++ encode endian (position + length (w ++ p ++ t)) v (value_signature v) =
        ap
          (λ n.
            p
            ++ encode_text endian n 1 (display (value_signature v))
            ++ encode endian
                (position
                  + length w
                  + length (p ++ encode_text endian n 1 (display (value_signature v))))
                v (value_signature v))
          (sym e1)
        ∙ ap (λ n. p ++ t ++ encode endian n v (value_signature v)) (sym e2) in
      let l = ap length written in
      let l' =
        length-append (p ++ t)
          (encode endian (position + length (w ++ p ++ t)) v (value_signature v)) in
      let value = k (w ++ p ++ t) (omega arith) in
      rw
        (
          inc_variant-deeper d valid fits,
          signature-put_aside (deeper variant d) (value_signature v) (w ++ p) complete short,
          value,
        )
        (ap (λ t. ok (serializer t d))
          (regroup w p t (encode endian (position + length (w ++ p ++ t)) v (value_signature v))
            ∙ ap (λ t. w ++ t) (sym written)))
    where
      regroup : (w p t e : List ℕ) → w ++ p ++ t ++ e ≡ w ++ (p ++ t ++ e)
      regroup w p t e = simp append_assoc

  mutual
    unfolding serialize serialize_all serialize_entries serialize_element encode alignment_dbus

    value-Writes :
        (d : ContainerDepths) (v : Value) (sig : Signature)
        → IsValid d
        → Fits d v sig
        → Writes position d (serialize endian nom position v sig) (λ at. encode endian at v sig)
    value-Writes d _ _ valid (a_basic kind n) = basic-Writes endian position d kind n
    value-Writes d _ _ valid (a_text kind v short) = text-Writes endian nom position d kind v short
    value-Writes d _ _ valid (a_variant v complete short fits inner) =
        variant-Writes d v complete short valid fits
          (value-Writes (deeper variant d) v (value_signature v) fits inner)
    value-Writes d _ _ valid (an_array vs child a e fits inner) =
        subst
          (λ b.
            Writes position d
              (serialize endian nom position (Value.array (Signature.array child) vs)
                (Signature.array child))
              (λ at. encode_array endian at b (λ at. encode_all endian at vs child)))
          (sym (alignment_lem child a e))
          (seq-Writes endian position d (Signature.array child) child a
            (λ ser. serialize_all endian nom position ser 0 vs)
            (λ at. encode_all endian at vs child) (ap (λ o. some (child, o)) e) valid fits
            (λ start first_padding.
              all-Writes (deeper arr d) child start first_padding 0 vs fits inner))
    value-Writes d _ _ valid (a_dict es key value fits inner) =
        seq-Writes endian position d (Signature.dict key value) key 8
          (λ ser. serialize_entries endian nom position key value es)
          (λ at. encode_entries endian at es key value) refl valid fits
          (λ start first_padding. entries-Writes (deeper arr d) key value es fits inner)
    value-Writes d _ _ valid (a_structure v vs sigs fits inner) =
        struct-Writes endian position d sigs
          (λ ser. serialize_all endian nom position ser 0 (cons v vs))
          (λ at. encode_fields endian at (cons v vs) sigs) valid fits
          (fields-Writes (deeper struct d) d sigs 0 (cons v vs) sigs
            (λ j. ap (nth sigs) (omega arith)) fits inner)

    all-Writes :
        (d : ContainerDepths) (child : Signature) (start first_padding idx : ℕ) (vs : Values)
        → IsValid d
        → FitAll d vs child
        → Writes position d
            (serialize_all endian nom position (seq child start first_padding) idx vs)
            (λ at. encode_all endian at vs child)
    all-Writes d child start first_padding idx _ valid no_value = nothing-Writes position d
    all-Writes d child start first_padding idx _ valid (one_value v vs here rest) =
        Writes-then endian position d (serialize endian nom position v child)
          (serialize_all endian nom position (seq child start first_padding) (suc idx) vs)
          (λ at. encode endian at v child) (λ at. encode_all endian at vs child)
          (value-Writes d v child valid here)
          (all-Writes d child start first_padding (suc idx) vs valid rest)

    fields-Writes :
        (d d0 : ContainerDepths) (all : Fields) (idx : ℕ) (vs : Values) (sigs : Fields)
        → ((j : ℕ) → nth all (idx + j) ≡ nth sigs j)
        → IsValid d
        → FitFields d vs sigs
        → Writes position d
            (serialize_all endian nom position (struct_ (Signature.structure all) d0) idx vs)
            (λ at. encode_fields endian at vs sigs)
    fields-Writes d d0 all idx _ _ e valid last_field = nothing-Writes position d
    fields-Writes d d0 all idx _ _ e valid (one_field v vs sig sigs here rest) =
        Writes-then endian position d
          (serialize_element (struct_ (Signature.structure all) d0) idx
            (serialize endian nom position v))
          (serialize_all endian nom position (struct_ (Signature.structure all) d0) (suc idx) vs)
          (λ at. encode endian at v sig) (λ at. encode_fields endian at vs sigs)
          (field-Writes d d0 all idx sig v (ap (nth all) (omega arith) ∙ e 0)
            (value-Writes d v sig valid here))
          (fields-Writes d d0 all (suc idx) vs sigs (λ j. ap (nth all) (omega arith) ∙ e (suc j))
            valid rest)

    entries-Writes :
        (d : ContainerDepths) (key value : Signature) (es : Entries)
        → IsValid d
        → FitEntries d es key value
        → Writes position d
            (serialize_entries endian nom position key value es)
            (λ at. encode_entries endian at es key value)
    entries-Writes d key value _ valid no_pair = nothing-Writes position d
    entries-Writes d key value _ valid (one_pair k v es fits_key fits_value rest) =
        Writes-then endian position d
          (λ s.
            serialize endian nom position k key (pad_entry position s)
            >>= serialize endian nom position v value)
          (serialize_entries endian nom position key value es)
          (λ at.
            followed at (followed at (zeros at 8) (λ at. encode endian at k key))
              (λ at. encode endian at v value))
          (λ at. encode_entries endian at es key value)
          (Writes-then endian position d
            (λ s. serialize endian nom position k key (pad_entry position s))
            (serialize endian nom position v value)
            (λ at. followed at (zeros at 8) (λ at. encode endian at k key))
            (λ at. encode endian at v value)
            (Writes-then endian position d (λ s. ok (pad position 8 s))
              (serialize endian nom position k key) (λ at. zeros at 8)
              (λ at. encode endian at k key) (pad-Writes position d 8)
              (value-Writes d k key valid fits_key))
            (value-Writes d v value valid fits_value))
          (entries-Writes d key value es valid rest)

  -- A value that has the signature and fits in the limits is serialized without an error to the
  -- bytes that the specification gives for it at that position, when these are fewer than 2 ^ 32,
  -- and the counters are as they were.
  pub serialize-encode :
      (d : ContainerDepths) (v : Value) (sig : Signature) (w : List ℕ)
      → IsValid d
      → Fits d v sig
      → length (encode endian (position + length w) v sig) < 2 ^ 32
      → serialize endian nom position v sig (serializer w d)
        ≡ ok (serializer (w ++ encode endian (position + length w) v sig) d)
  serialize-encode d v sig w valid fits small = value-Writes d v sig valid fits w small

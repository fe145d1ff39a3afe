-- ===== src/Zvariant/Dbus/Kept.antt =====
-- What was written before a value is serialized: zvariant/src/dbus/ser.rs.
use zbus.Prelude.{ℕ, suc, ◌≡◌, refl, sym, subst, none, Result, ok, ◌>>=◌, bind_ok}
use zbus.Signature.{Signature, display}
use zbus.Signature.Nom.{Nom}
use zbus.Zvariant.Depths.Nesting.{IsValid}
use zbus.Zvariant.Dbus.{
  value_signature, Basic, Value, Values, Entries, nil, cons, no_entry, entry, Endian, Failure,
}
use zbus.Zvariant.Dbus.Ser.{
  Serializer, StructSeq, seq, struct_, pad_entry, serialize_basic, serialize_str, serialize_seq,
  serialize_struct, field_signature, serialize_element, end_struct, dict_signatures, serialize,
  serialize_all, serialize_entries,
}
use zbus.Zvariant.Dbus.Growing.{
  Grows, Grows-refl, Grows-trans, pad-Grows, serialize_basic-Grows, serialize_str-Grows,
}
use zbus.Zvariant.Dbus.Beginning.{
  Begins, Begins-IsValid, serialize_seq-Begins, serialize_struct-Begins,
}
use zbus.Zvariant.Dbus.Ending.{end_struct-Grows}

Grows-IsValid :
    (s s' : Serializer) → Grows s s' → IsValid s.container_depths → IsValid s'.container_depths
Grows-IsValid s s' g v = subst IsValid (sym g.1) v

-- What keeps what was written, when it succeeds.
abbrev Keeps : (Serializer → Result Failure Serializer) → Type 0
Keeps run = (s s' : Serializer) → IsValid s.container_depths → run s ≡ ok s' → Grows s s'

Keeps-then :
    (f g : Serializer → Result Failure Serializer) → Keeps f → Keeps g → Keeps (λ s. f s >>= g)
Keeps-then f g kf kg s s' v h =
    let (r, first, second) = bind_ok (f s) g h in
    let grown = kf s r v first in
    Grows-trans s r s' grown (kg r s' (Grows-IsValid s r grown v) second)

element-Keeps :
    (ser : StructSeq) (idx : ℕ) (value : Signature → Serializer → Result Failure Serializer)
    → ((sig : Signature) → Keeps (value sig))
    → Keeps (serialize_element ser idx value)
unfolding serialize_element
element-Keeps (seq child start first_padding) idx value k s s' v h = k child s s' v h
element-Keeps (struct_ sig depths) idx value k s s' v h =
    let (at, _, e) = bind_ok (field_signature sig idx s.value_sign) _ h in
    let (sub, here, e') = bind_ok (value at (record s { value_sign = none })) _ e in
    let same : record sub { container_depths = s.container_depths } ≡ s' = cc e' in
    subst (Grows s) same ((k at (record s { value_sign = none }) sub v here).0, refl)

module _ (endian : Endian) where
  -- What is written between the begin and the end of a sequence or a structure.
  closed-Grows :
      (ser : StructSeq) (r s s' : Serializer) (body : Serializer → Result Failure Serializer)
      → Begins endian ser r s
      → Keeps body
      → (body s >>= end_struct endian ser) ≡ ok s'
      → Grows r s'
  closed-Grows ser r s s' body b k h =
      let (t, inside, at_end) = bind_ok (body s) (end_struct endian ser) h in
      end_struct-Grows endian ser r s t s' b (k s t (Begins-IsValid endian ser r s b) inside) at_end

module _ (endian : Endian) (nom : Nom) (position : ℕ) where
  mutual
    unfolding serialize serialize_all serialize_entries

    value-Keeps : (v : Value) (sig : Signature) → Keeps (serialize endian nom position v sig)
    value-Keeps (Value.basic kind n) sig s s' v h =
        let same : serialize_basic endian position kind n s ≡ s' = cc h in
        subst (Grows s) same (serialize_basic-Grows endian position kind n s)
    value-Keeps (Value.text kind t) sig s s' v h =
        serialize_str-Grows endian nom position t sig s s' h
    value-Keeps (Value.variant x) sig s s' v h =
        let ((ser, r), begun, e) = bind_ok (serialize_struct endian position sig s) _ h in
        closed-Grows endian ser s r s' _
          (serialize_struct-Begins endian position sig s r ser v begun)
          (Keeps-then
            (serialize_element ser 0
              (serialize_str endian nom position (display (value_signature x))))
            (serialize_element ser 1 (serialize endian nom position x))
            (element-Keeps ser 0 _ (λ sig s s' v h.
              serialize_str-Grows endian nom position (display (value_signature x)) sig s s' h))
            (element-Keeps ser 1 _ (value-Keeps x)))
          e
    value-Keeps (Value.array _ vs) sig s s' v h =
        let ((ser, r), begun, e) = bind_ok (serialize_seq endian position sig s) _ h in
        closed-Grows endian ser s r s' _ (serialize_seq-Begins endian position sig s r ser v begun)
          (all-Keeps ser 0 vs) e
    value-Keeps (Value.dict _ es) sig s s' v h =
        let ((key, value), _, e) = bind_ok (dict_signatures sig) _ h in
        let ((ser, r), begun, e') = bind_ok (serialize_seq endian position sig s) _ e in
        closed-Grows endian ser s r s' _ (serialize_seq-Begins endian position sig s r ser v begun)
          (entries-Keeps key value es) e'
    value-Keeps (Value.structure _ nil) sig s s' v h =
        let same : serialize_basic endian position Basic.u8 0 s ≡ s' = cc h in
        subst (Grows s) same (serialize_basic-Grows endian position Basic.u8 0 s)
    value-Keeps (Value.structure _ (cons x vs)) sig s s' v h =
        let ((ser, r), begun, e) = bind_ok (serialize_struct endian position sig s) _ h in
        closed-Grows endian ser s r s' _
          (serialize_struct-Begins endian position sig s r ser v begun)
          (Keeps-then (serialize_element ser 0 (serialize endian nom position x))
            (serialize_all endian nom position ser 1 vs) (element-Keeps ser 0 _ (value-Keeps x))
            (all-Keeps ser 1 vs))
          e

    all-Keeps :
        (ser : StructSeq) (idx : ℕ) (vs : Values)
        → Keeps (serialize_all endian nom position ser idx vs)
    all-Keeps ser idx nil s s' v h = let same : s ≡ s' = cc h in subst (Grows s) same (Grows-refl s)
    all-Keeps ser idx (cons x vs) s s' v h =
        Keeps-then (serialize_element ser idx (serialize endian nom position x))
          (serialize_all endian nom position ser (suc idx) vs)
          (element-Keeps ser idx _ (value-Keeps x)) (all-Keeps ser (suc idx) vs) s s' v h

    entries-Keeps :
        (key value : Signature) (es : Entries)
        → Keeps (serialize_entries endian nom position key value es)
    entries-Keeps key value no_entry s s' v h =
        let same : s ≡ s' = cc h in subst (Grows s) same (Grows-refl s)
    entries-Keeps key value (entry k x es) s s' v h =
        let padded = pad_entry position s in
        let before = pad-Grows position 8 s in
        Grows-trans s padded s' before (
          Keeps-then
            (λ s. serialize endian nom position k key s >>= serialize endian nom position x value)
            (serialize_entries endian nom position key value es)
            (Keeps-then (serialize endian nom position k key)
              (serialize endian nom position x value) (value-Keeps k key) (value-Keeps x value))
            (entries-Keeps key value es) padded s' (Grows-IsValid s padded before v) h)

  -- Serializing any value from valid counters, when it succeeds, only adds bytes after those
  -- written before, whatever lengths of nested arrays are filled in later, and leaves the counters
  -- of containers as they were.
  pub serialize-Grows :
      (v : Value) (sig : Signature) (s s' : Serializer)
      → IsValid s.container_depths
      → serialize endian nom position v sig s ≡ ok s'
      → Grows s s'
  serialize-Grows v sig s s' valid h = value-Keeps v sig s s' valid h

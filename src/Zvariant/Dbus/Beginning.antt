-- ===== src/Zvariant/Dbus/Beginning.antt =====
-- What the parts of zvariant/src/dbus/ser.rs begin: sequences and structures.
use zbus.Prelude.{
  ℕ, ◌+◌, ◌-◌, ◌≡◌, refl, sym, subst, ap, ◌∙◌, Option, none, some, List, [], ◌++◌, Result, ok,
  bind_ok, length, replicate, length-append, append_assoc, append-nil, arith,
}
use zbus.Signature.{Signature}
use zbus.Zvariant.Padding.{padding_for_n_bytes}
use zbus.Zvariant.Depths.{ContainerDepths, inc_array, inc_structure, inc_variant, dec_array}
use zbus.Zvariant.Depths.Nesting.{
  IsValid, inc_array-IsValid, inc_structure-IsValid, inc_variant-IsValid,
}
use zbus.Zvariant.Dbus.{Endian, Failure}
use zbus.Zvariant.Dbus.Ser.{
  Serializer, StructSeq, seq, struct_, depth_checked, add_padding, seq_from, seq_of, element_of,
  StructKind, a_variant, an_array, a_structure, another, struct_kind, serialize_seq, struct_of,
  serialize_struct,
}
use zbus.Zvariant.Dbus.Growing.{Grows, depth_checked-ok, add_padding-Grows}

module _ (endian : Endian) where
  -- What has been begun: of a sequence, the padding, a length of 0 and the padding before its
  -- elements are written.
  abbrev pub Begins : StructSeq → Serializer → Serializer → Type 0
  Begins (seq child start first_padding) s s' =
      (p q : List ℕ) × (s'.written ≡ s.written ++ p ++ endian.write 4 0 ++ q)
      × (start ≡ length s'.written)
      × (first_padding ≡ length q)
      × (dec_array s'.container_depths ≡ s.container_depths)
      × IsValid s'.container_depths
  Begins (struct_ sig depths) s s' =
      ((added : List ℕ) × (s'.written ≡ s.written ++ added))
      × (depths ≡ s.container_depths)
      × IsValid s'.container_depths

  Begins-grown :
      (ser : StructSeq) (r s t : Serializer) → Grows r s → Begins ser s t → Begins ser r t
  Begins-grown (seq child start first_padding) r s t ((a, e), d) (p, q, w, st, fp, back, v) = (
    a ++ p,
    q,
    w
        ∙ ap (λ w. w ++ p ++ endian.write 4 0 ++ q) e
        ∙ ap (λ w. w ++ endian.write 4 0 ++ q) (append_assoc r.written a p),
    st,
    fp,
    back ∙ d,
    v,
  )
  Begins-grown (struct_ sig depths) r s t ((a, e), d) ((b, w), same, v) =
      ((a ++ b, w ∙ ap (λ w. w ++ b) e ∙ append_assoc r.written a b), same ∙ d, v)

  entered :
      (sig : Signature) (s s' : Serializer) (ser : StructSeq) (depths : ContainerDepths)
      → IsValid depths
      → Path
          (Result Failure (StructSeq × Serializer))
          (ok (struct_ sig s.container_depths, record s { container_depths = depths }))
          (ok (ser, s'))
      → Begins ser s s'
  entered sig s s' ser depths valid e =
      let same_ser : struct_ sig s.container_depths ≡ ser = cc e in
      let same : record s { container_depths = depths } ≡ s' = cc e in
      subst (λ ser. Begins ser s s') same_ser
        (subst (Begins (struct_ sig s.container_depths) s) same
          (([], sym (append-nil s.written)), refl, valid))

  pub Begins-IsValid :
      (ser : StructSeq) (s s' : Serializer) → Begins ser s s' → IsValid s'.container_depths
  Begins-IsValid (seq child start first_padding) s s' (p, q, w, st, fp, back, v) = v
  Begins-IsValid (struct_ sig depths) s s' (w, same, v) = v

module _ (endian : Endian) (position : ℕ) where
  seq_from-Begins :
      (child : Signature) (a : ℕ) (r s s' : Serializer) (ser : StructSeq) (p : List ℕ)
      → IsValid r.container_depths
      → s.written ≡ r.written ++ p ++ endian.write 4 0
      → s.container_depths ≡ r.container_depths
      → seq_from position child a s ≡ ok (ser, s')
      → Begins endian ser r s'
  seq_from-Begins child a r s s' ser p v w d h =
      let (depths, deeper, e) = bind_ok (depth_checked (inc_array s.container_depths)) _ h in
      let (valid, back) =
        inc_array-IsValid r.container_depths depths v
          (ap inc_array (sym d) ∙ depth_checked-ok (inc_array s.container_depths) deeper) in
      let q = replicate (padding_for_n_bytes (position + length s.written) a) 0 in
      let padded : Serializer = record s { written = s.written ++ q; container_depths = depths } in
      let same_ser : seq child (length (s.written ++ q))
            (length (s.written ++ q) - length s.written)
          ≡ ser =
        cc e in
      let same : padded ≡ s' = cc e in
      let len = length-append s.written q in
      let count : length (s.written ++ q) - length s.written ≡ length q = omega arith in
      subst (λ ser. Begins endian ser r s') same_ser
        (subst
          (Begins endian
            (seq child (length (s.written ++ q)) (length (s.written ++ q) - length s.written)) r)
          same (p, q, ap (λ w. w ++ q) w, refl, count, back, valid))

  seq_of-Begins :
      (sig : Signature) (o : Option (Signature × Option ℕ)) (r s s' : Serializer) (ser : StructSeq)
      (p : List ℕ)
      → IsValid r.container_depths
      → s.written ≡ r.written ++ p ++ endian.write 4 0
      → s.container_depths ≡ r.container_depths
      → seq_of position sig o s ≡ ok (ser, s')
      → Begins endian ser r s'
  seq_of-Begins sig none r s s' ser p v w d h = absurd (cc h)
  seq_of-Begins sig (some (child, none)) r s s' ser p v w d h = absurd (cc h)
  seq_of-Begins sig (some (child, some a)) r s s' ser p v w d h =
      seq_from-Begins child a r s s' ser p v w d h

  pub serialize_seq-Begins :
      (sig : Signature) (s s' : Serializer) (ser : StructSeq)
      → IsValid s.container_depths
      → serialize_seq endian position sig s ≡ ok (ser, s')
      → Begins endian ser s s'
  unfolding serialize_seq
  serialize_seq-Begins sig s s' ser v h =
      seq_of-Begins sig (element_of sig) s _ s' ser _ v refl refl h

  struct_of-Begins :
      (sig : Signature) (kind : StructKind) (s s' : Serializer) (ser : StructSeq)
      → IsValid s.container_depths
      → struct_of endian position sig kind s ≡ ok (ser, s')
      → Begins endian ser s s'
  struct_of-Begins sig an_array s s' ser v h = serialize_seq-Begins sig s s' ser v h
  struct_of-Begins sig another s s' ser v h = absurd (cc h)
  struct_of-Begins sig a_variant s s' ser v h =
      let (depths, deeper, e) = bind_ok (depth_checked (inc_variant s.container_depths)) _ h in
      let valid =
        inc_variant-IsValid s.container_depths depths v
          (depth_checked-ok (inc_variant s.container_depths) deeper) in
      entered endian sig s s' ser depths valid e
  struct_of-Begins sig a_structure s s' ser v h =
      let (depths, deeper, e) = bind_ok (depth_checked (inc_structure s.container_depths)) _ h in
      let valid =
        inc_structure-IsValid s.container_depths depths v
          (depth_checked-ok (inc_structure s.container_depths) deeper) in
      entered endian sig s s' ser depths valid e

  pub serialize_struct-Begins :
      (sig : Signature) (s s' : Serializer) (ser : StructSeq)
      → IsValid s.container_depths
      → serialize_struct endian position sig s ≡ ok (ser, s')
      → Begins endian ser s s'
  unfolding serialize_struct
  serialize_struct-Begins sig s s' ser v h =
      let (r, padded, e) = bind_ok (add_padding position sig s) _ h in
      let grown = add_padding-Grows position sig s r padded in
      Begins-grown endian ser s r s' grown
        (struct_of-Begins sig (struct_kind sig) r s' ser (subst IsValid (sym grown.1) v) e)

-- ===== src/Zvariant/Dbus/RoundTrip/Whole.antt =====
-- Values, as zvariant/src/dbus/de.rs reads them back.
use zbus.Prelude.{
  ℕ, zero, suc, ◌+◌, ◌≤◌, ◌≡◌, refl, sym, subst, ap, ◌∙◌, some, List, ok, ◌>>=◌, length,
  length-append, arith,
}
use Prim.Native.Nat.{Ordering}
use zbus.Signature.{Signature, Fields, alignment_dbus}
use zbus.Signature.Nom.{Nom}
use zbus.Zvariant.Depths.{ContainerDepths, dec_structure, dec_array}
use zbus.Zvariant.Depths.Nesting.{
  struct, arr, variant, deeper, IsValid, inc_array-deeper, dec_structure-deeper,
}
use zbus.Zvariant.Dbus.{
  basic_signature, value_signature, Value, Values, Entries, nil, cons, no_entry, entry, Endian,
}
use zbus.Zvariant.Dbus.De.{
  of_basic, of_variant, of_array, of_dict, of_structure, deserialize, deserialize_kind,
  deserialize_all, deserialize_fields, deserialize_entries, parse_padding,
}
use zbus.Zvariant.Dbus.Reference.{
  zeros, encode_array, followed, encode, encode_all, encode_fields, encode_entries, Fits, a_basic,
  a_text, a_variant, an_array, a_dict, a_structure, FitAll, no_value, one_value, FitFields,
  last_field, one_field, FitEntries, no_pair, one_pair,
}
use zbus.Zvariant.Dbus.Refines.{alignment_lem}
use zbus.Zvariant.Dbus.RoundTrip.Ahead.{reader}
use zbus.Zvariant.Dbus.RoundTrip.Aligned.{encode-IsPadded, encode_filled}
use zbus.Zvariant.Dbus.RoundTrip.Combine.{Reads, Reads-aligned, Ahead-followed}
use zbus.Zvariant.Dbus.RoundTrip.Readable.{
  IsReadable, AreReadable, AreOrdered, parts, all_parts, entry_parts,
}
use zbus.Zvariant.Dbus.RoundTrip.Scalars.{basic-Reads}
use zbus.Zvariant.Dbus.RoundTrip.Arrays.{ReadsUpTo, array-Reads}
use zbus.Zvariant.Dbus.RoundTrip.Variants.{variant-Reads}
use zbus.Zvariant.Dbus.RoundTrip.Elements.{
  within-Reads, within-padded, pair-Reads, key_bytes, pair_bytes, matching-ok, at_end_now, not_yet,
  append, append_entry, append_nothing, AreBefore, insert_last, AreBefore-append,
}
use zbus.Zvariant.Dbus.RoundTrip.Kinds.{
  basic_kind, by_kind, text-Reads, struct-Reads, entering, entering-cons, field_read-entering,
}

module _ (endian : Endian) (nom : Nom) (compare : Value → Value → Ordering) where
  mutual
    unfolding encode deserialize deserialize_kind IsReadable parts alignment_dbus

    pub value_back :
        (d : ContainerDepths) (v : Value) (sig : Signature) (fuel : ℕ)
        → IsValid d
        → Fits d v sig
        → IsReadable nom compare v
        → parts v ≤ fuel
        → Reads d d (deserialize endian nom compare fuel sig) (λ at. encode endian at v sig) v
    value_back d _ _ fuel valid (a_basic kind n) readable enough =
        by_kind endian nom compare d fuel (basic_signature kind) (of_basic kind)
          (λ at. encode endian at (Value.basic kind n) (basic_signature kind)) (Value.basic kind n)
          (basic_kind kind) enough (λ f e. basic-Reads endian d kind n readable)
    value_back d _ _ fuel valid (a_text kind v short) readable enough =
        text-Reads endian nom compare d fuel kind v short readable enough
    value_back d _ _ fuel valid (a_variant v complete short fits inner) readable enough =
        by_kind endian nom compare d fuel Signature.variant of_variant
          (λ at. encode endian at (Value.variant v) Signature.variant) (Value.variant v) refl
          (omega arith)
          (λ f e.
            variant-Reads endian nom d valid fits (deserialize endian nom compare f)
              (λ at. encode endian at v (value_signature v)) v (value_signature v) complete short
              (value_back (deeper variant d) v (value_signature v) f fits inner readable
                (omega arith)))
    value_back d _ _ fuel valid (an_array vs child a is_some fits inner) readable enough =
        by_kind endian nom compare d fuel (Signature.array child) (of_array child)
          (λ at. encode endian at (Value.array (Signature.array child) vs) (Signature.array child))
          (Value.array (Signature.array child) vs) refl (omega arith)
          (λ f e.
            subst
              (λ b.
                Reads d d
                  (deserialize_kind endian nom compare (suc f) (of_array child)
                    (Signature.array child))
                  (λ at. encode_array endian at b (λ at. encode_all endian at vs child))
                  (Value.array (Signature.array child) vs))
              (sym (alignment_lem child a is_some))
              (array-Reads endian d valid fits a (alignment_dbus child)
                (λ alignment end s.
                  deserialize_all endian nom compare f alignment child end s >>= λ (vs, s).
                  ok (Value.array (Signature.array child) vs, s))
                (λ at. encode_all endian at vs child) (Value.array (Signature.array child) vs)
                is_some
                (λ bytes left pos position end ahead small ends.
                  ap (λ r. r >>= λ (vs, s). ok (Value.array (Signature.array child) vs, s))
                    (all_back (deeper arr d) d vs child a f fits (inc_array-deeper d valid fits).1
                      is_some inner readable (omega arith) bytes left pos position end ahead small
                      ends))))
    value_back d _ _ fuel valid (a_dict es key value fits inner) readable enough =
        by_kind endian nom compare d fuel (Signature.dict key value) (of_dict key value)
          (λ at.
            encode endian at (Value.dict (Signature.dict key value) es) (Signature.dict key value))
          (Value.dict (Signature.dict key value) es) refl (omega arith)
          (λ f e.
            array-Reads endian d valid fits 8 (some 8)
              (λ alignment end s.
                deserialize_entries endian nom compare f key value end no_entry s >>= λ (es, s).
                ok (Value.dict (Signature.dict key value) es, s))
              (λ at. encode_entries endian at es key value)
              (Value.dict (Signature.dict key value) es) refl
              (λ bytes left pos position end ahead small ends.
                ap (λ r. r >>= λ (es, s). ok (Value.dict (Signature.dict key value) es, s))
                  (entries_back (deeper arr d) d no_entry es key value f fits
                    (inc_array-deeper d valid fits).1 inner readable tt (omega arith) bytes left pos
                    position end ahead small ends)))
    value_back d _ _ fuel valid (a_structure v vs sigs fits inner) readable enough =
        by_kind endian nom compare d fuel (Signature.structure sigs) (of_structure sigs)
          (λ at. followed at (zeros at 8) (λ at. encode_fields endian at (cons v vs) sigs))
          (Value.structure (Signature.structure sigs) (cons v vs)) refl (omega arith)
          (λ f e.
            struct-Reads endian nom compare d f sigs
              (λ at. encode_fields endian at (cons v vs) sigs) (cons v vs) valid fits
              (rw
                (entering-cons (deeper struct d) v vs sigs inner, dec_structure-deeper d valid fits)
                at
                (fields_back (deeper struct d) (cons v vs) sigs f fits inner readable
                  (omega arith))))

    all_back :
        (d d' : ContainerDepths) (vs : Values) (child : Signature) (a fuel : ℕ)
        → IsValid d
        → dec_array d ≡ d'
        → alignment_dbus child ≡ some a
        → FitAll d vs child
        → AreReadable nom compare vs
        → all_parts vs ≤ fuel
        → ReadsUpTo d d'
            (λ end. deserialize_all endian nom compare fuel a child end)
            (λ at. encode_all endian at vs child)
            vs
    all_back d d' _ child a zero valid leaves is_some no_value readable enough bytes left pos
          position end ahead small ends =
        absurd (omega arith)
    all_back d d' _ child a (suc fuel) valid leaves is_some no_value readable enough bytes left pos
          position end ahead small ends =
        let here : pos ≡ end = omega arith in
        rw (at_end_now pos end here, leaves) (ap (λ n. ok (nil, reader bytes n position d')) here)
    all_back d d' _ child a zero valid leaves is_some (one_value v vs here rest) readable enough
          bytes left pos position end ahead small ends =
        absurd (omega arith)
    all_back d d' _ child a (suc fuel) valid leaves is_some (one_value v vs here rest)
          (readable, more_readable) enough bytes left pos position end ahead small ends =
        let (more, now, later, at_end) =
          Ahead-followed (λ at. encode endian at v child) (λ at. encode_all endian at vs child)
            bytes left pos position ahead in
        let filled = encode_filled endian d v child (position + pos) here in
        let first =
          within-padded end (parse_padding a (reader bytes pos position d))
            (deserialize endian nom compare fuel child) _
            (within-Reads d (λ s. parse_padding a s >>= deserialize endian nom compare fuel child)
              (λ at. encode endian at v child) v bytes more pos position end
              (Reads-aligned d d a (deserialize endian nom compare fuel child)
                (λ at. encode endian at v child) v (encode-IsPadded endian d v child a here is_some)
                (value_back d v child fuel valid here readable (omega arith)))
              now small (omega arith)) in
        let second =
          all_back d d' vs child a fuel valid leaves is_some rest more_readable (omega arith) bytes
            left (pos + length (encode endian (position + pos) v child)) position end later small
            (omega arith) in
        rw (not_yet pos end (omega arith), first, matching-ok d v child here, second) refl

    fields_back :
        (d : ContainerDepths) (vs : Values) (sigs : Fields) (fuel : ℕ)
        → IsValid d
        → FitFields d vs sigs
        → AreReadable nom compare vs
        → all_parts vs ≤ fuel
        → Reads
            (entering sigs d)
            (dec_structure d)
            (deserialize_fields endian nom compare fuel sigs)
            (λ at. encode_fields endian at vs sigs)
            vs
    fields_back d _ _ zero valid last_field readable enough bytes left pos position ahead small =
        absurd (omega arith)
    fields_back d _ _ (suc fuel) valid last_field readable enough bytes left pos position ahead
          small =
        let here : pos ≡ pos + 0 = omega arith in
        ap (λ n. ok (nil, reader bytes n position (dec_structure d))) here
    fields_back d _ _ zero valid (one_field v vs sig sigs here rest) readable enough bytes left pos
          position ahead small =
        absurd (omega arith)
    fields_back d _ _ (suc fuel) valid (one_field v vs sig sigs here rest) (readable, more_readable)
          enough bytes left pos position ahead small =
        let (more, now, later, at_end) =
          Ahead-followed (λ at. encode endian at v sig) (λ at. encode_fields endian at vs sigs)
            bytes left pos position ahead in
        let first =
          value_back d v sig fuel valid here readable (omega arith) bytes more pos position now
            small in
        let pos' = pos + length (encode endian (position + pos) v sig) in
        let second =
          fields_back d vs sigs fuel valid rest more_readable (omega arith) bytes left pos' position
            later small in
        rw (first, field_read-entering sigs bytes pos pos' position d, second)
          (ap (λ n. ok (cons v vs, reader bytes n position (dec_structure d))) at_end)

    entries_back :
        (d d' : ContainerDepths) (acc es : Entries) (key value : Signature) (fuel : ℕ)
        → IsValid d
        → dec_array d ≡ d'
        → FitEntries d es key value
        → AreOrdered nom compare es
        → AreBefore compare acc es
        → entry_parts es ≤ fuel
        → ReadsUpTo d d'
            (λ end. deserialize_entries endian nom compare fuel key value end acc)
            (λ at. encode_entries endian at es key value)
            (append acc es)
    entries_back d d' acc _ key value zero valid leaves no_pair ordered before enough bytes left pos
          position end ahead small ends =
        absurd (omega arith)
    entries_back d d' acc _ key value (suc fuel) valid leaves no_pair ordered before enough bytes
          left pos position end ahead small ends =
        let here : pos ≡ end = omega arith in
        rw (at_end_now pos end here, leaves)
          (ap (λ n. ok (acc, reader bytes n position d')) here
            ∙ ap (λ es. ok (es, reader bytes end position d')) (sym (append_nothing acc)))
    entries_back d d' acc _ key value zero valid leaves (one_pair k v es fits_key fits_value rest)
          ordered before enough bytes left pos position end ahead small ends =
        absurd (omega arith)
    entries_back d d' acc _ key value (suc fuel) valid leaves
          (one_pair k v es fits_key fits_value rest) (readable_key, readable, first, ordered) before
          enough bytes left pos position end ahead small ends =
        let key_at : ℕ → List ℕ = λ at. encode endian at k key in
        let value_at : ℕ → List ℕ = λ at. encode endian at v value in
        let (more, now, later, at_end) =
          Ahead-followed (pair_bytes key_at value_at) (λ at. encode_entries endian at es key value)
            bytes left pos position ahead in
        let (pos', read_key, read_value) =
          pair-Reads d (deserialize endian nom compare fuel key)
            (deserialize endian nom compare fuel value) key_at value_at k v bytes more pos position
            end (value_back d k key fuel valid fits_key readable_key (omega arith))
            (value_back d v value fuel valid fits_value readable (omega arith)) now small
            (omega arith) in
        let l =
          length-append (key_bytes key_at (position + pos))
            (value_at (position + pos + length (key_bytes key_at (position + pos)))) in
        let filled =
          encode_filled endian d v value
            (position + pos + length (key_bytes key_at (position + pos))) fits_value in
        let others =
          entries_back d d' (append acc (entry k v no_entry)) es key value fuel valid leaves rest
            ordered (AreBefore-append compare acc k v es before first) (omega arith) bytes left
            (pos + length (pair_bytes key_at value_at (position + pos))) position end later small
            (omega arith) in
        rw
          (
            not_yet pos end (omega arith),
            read_key,
            read_value,
            matching-ok d k key fits_key,
            matching-ok d v value fits_value,
            insert_last compare acc k v es before,
          )
          (others ∙ ap (λ es. ok (es, reader bytes end position d')) (append_entry acc k v es))

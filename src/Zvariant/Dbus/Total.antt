-- ===== src/Zvariant/Dbus/Total.antt =====
-- The deserializer of zvariant/src/dbus/de.rs comes to an end.
use zbus.Prelude.{
  ℕ, zero, suc, ◌+◌, ◌-◌, ◌*◌, ◌≤◌, ◌≡◌, ◌≢◌, sym, subst, ap, false, some, List, ok, err, ◌>>=◌,
  ◌==◌, Bool-cases, inl, inr, length, arith,
}
use Prim.Native.Nat.{Ordering}
use zbus.Signature.{Signature, Fields, no_fields, field, alignment_dbus}
use zbus.Signature.Nom.{Nom}
use zbus.Signature.Parser.{parse}
use zbus.Zvariant.Depths.{inc_structure}
use zbus.Zvariant.Dbus.{Value, Entries, no_entry, Endian, custom, out_of_fuel}
use zbus.Zvariant.Dbus.Ser.{depth_checked}
use zbus.Zvariant.Dbus.De.{
  Deserializer, parse_padding, next_slice, required, Kind, of_basic, of_text, of_variant, of_fd,
  of_unit, of_maybe, of_array, of_dict, of_structure, kind_of, deserialize_str, text_value,
  array_deserializer, within, matching, insert, field_read, value_deserializer, align, deserialize,
  deserialize_kind, deserialize_all, deserialize_fields, deserialize_entries,
}
use zbus.Zvariant.Dbus.Advancing.{
  Inside, Moves, Moves-Inside, Moves-trans, padding-Moves, signature_of, signature_of-kind,
  str-Moves, array_deserializer-Moves, align-Moves,
}
use zbus.Zvariant.Dbus.Nested.{value_deserializer-starts, value_deserializer-reads}
use zbus.Zvariant.Dbus.Sequences.{field_read-Moves, value_moved, element_moved}
use zbus.Zvariant.Dbus.Reading.{value-Reads}
use zbus.Zvariant.Dbus.Progress.{TakesBytes, AllTakeBytes, array_forward}
use zbus.Zvariant.Dbus.Sizes.{size, sizes, size_least, sizes_least, parsed_size}
use zbus.Zvariant.Dbus.Finishing.{
  Finishes, bind-Finishes, required-Finishes, depth_checked-Finishes, padding-Finishes,
  slice-Finishes, basic-Finishes, str-Finishes, text_value-Finishes, array_deserializer-Finishes,
  value_deserializer-Finishes, align-Finishes, within-Finishes, matching-Finishes,
}

-- The bytes from the position on, with the one that may be passed.
abbrev pub left : Deserializer → ℕ
left s = length s.bytes + 1 - s.pos

moved-left : (s t : Deserializer) → Moves s t → left t + t.pos ≡ left s + s.pos
moved-left s t (b, p, g, i) = let l : length t.bytes ≡ length s.bytes = ap length b in omega arith

module _ (endian : Endian) (nom : Nom) where
  variant_fits :
      (fuel : ℕ) (sig : Signature) (s a r sub : Deserializer) (text : List ℕ) (sign : Signature)
      → Inside s
      → 4 * left s ≤ fuel
      → align sig s ≡ ok a
      → deserialize_str endian sig a ≡ ok (text, r)
      → value_deserializer nom a.pos r ≡ ok (sign, sub)
      → TakesBytes sign × Inside sub × (4 * left sub + size sign ≤ fuel)
  variant_fits fuel sig s a r sub text sign i h first second third =
      let m = align-Moves sig s a i first in
      let m1 = str-Moves endian sig a r text (Moves-Inside s a m) second in
      let (b, byte, len, zero_pos) = value_deserializer-starts nom a.pos r sub sign third in
      let (slice, read, short) = value_deserializer-reads nom a.pos r sub sign b byte third in
      let (small, takes) = parsed_size nom slice sign read in
      let l : length r.bytes ≡ length s.bytes = ap length ((Moves-trans s a r m m1).0) in
      let (_, _, g, _) = m in (takes, omega arith, omega arith)

module _ (endian : Endian) (nom : Nom) (compare : Value → Value → Ordering) where
  element-Finishes :
      (fuel a : ℕ) (child : Signature) (place : ℕ) (s : Deserializer)
      → Inside s
      → ((r : Deserializer)
          → Inside r
          → left r ≤ left s
          → Finishes (deserialize endian nom compare fuel child r))
      → Finishes
          (parse_padding a s >>= λ r. within place (deserialize endian nom compare fuel child r))
  element-Finishes fuel a child place s i value =
      bind-Finishes (parse_padding a s) _ (padding-Finishes a s) (λ r first.
        let m = padding-Moves a s r i first in
        let l = moved-left s r m in
        let (_, _, g, _) = m in
        within-Finishes place (deserialize endian nom compare fuel child r)
          (value r (Moves-Inside s r m) (omega arith)))

  mutual
    unfolding deserialize deserialize_kind deserialize_all deserialize_fields deserialize_entries
        signature_of size TakesBytes

    value-Finishes :
        (fuel : ℕ) (sig : Signature) (s : Deserializer)
        → TakesBytes sig
        → Inside s
        → 4 * left s + size sig ≤ fuel
        → Finishes (deserialize endian nom compare fuel sig s)
    value-Finishes zero sig s b i h = let l = size_least sig in absurd (omega arith)
    value-Finishes (suc fuel) sig s b i h =
        let e = signature_of-kind sig in
        kind-Finishes fuel (kind_of sig) sig s (subst TakesBytes (sym e) b) i
          (let l = ap size e in omega arith)

    kind-Finishes :
        (fuel : ℕ) (kind : Kind) (sig : Signature) (s : Deserializer)
        → TakesBytes (signature_of kind)
        → Inside s
        → 4 * left s + size (signature_of kind) ≤ fuel + 1
        → Finishes (deserialize_kind endian nom compare fuel kind sig s)
    kind-Finishes zero kind sig s b i h =
        let l = size_least (signature_of kind) in absurd (omega arith)
    kind-Finishes (suc fuel) (of_basic kind) sig s b i h = basic-Finishes endian kind s
    kind-Finishes (suc fuel) (of_text kind) sig s b i h =
        bind-Finishes (deserialize_str endian sig s) _ (str-Finishes endian sig s) (λ x _.
          bind-Finishes (text_value nom kind x.0) _ (text_value-Finishes nom kind x.0)
            (λ _ _ k. absurd (cc k)))
    kind-Finishes (suc fuel) of_fd sig s b i h =
        bind-Finishes (parse_padding 4 s >>= next_slice 4) _
          (bind-Finishes (parse_padding 4 s) (next_slice 4) (padding-Finishes 4 s)
            (λ r _. slice-Finishes 4 r))
          (λ _ _ k. absurd (cc k))
    kind-Finishes (suc fuel) of_unit sig s b i h = λ k. absurd (cc k)
    kind-Finishes (suc fuel) (of_maybe child) sig s b i h = λ k. absurd (cc k)
    kind-Finishes (suc fuel) of_variant sig s b i h =
        bind-Finishes (align sig s) _ (align-Finishes sig s) (λ a first.
          bind-Finishes (deserialize_str endian sig a) _ (str-Finishes endian sig a) (λ x second.
            bind-Finishes (required custom (parse nom x.0 false)) _
              (required-Finishes custom (parse nom x.0 false) (λ k. absurd (cc k)))
              (λ _ _.
                bind-Finishes (value_deserializer nom a.pos x.1) _
                  (value_deserializer-Finishes nom a.pos x.1)
                  (λ y third.
                    let (takes, inside, fits) =
                      variant_fits endian nom fuel sig s a x.1 y.1 x.0 y.0 i (omega arith) first
                        second third in
                    bind-Finishes (deserialize endian nom compare fuel y.0 y.1) _
                      (value-Finishes fuel y.0 y.1 takes inside fits) (λ _ _ k. absurd (cc k))))))
    kind-Finishes (suc fuel) (of_array child) sig s b i h =
        bind-Finishes (align sig s) _ (align-Finishes sig s) (λ a first.
          bind-Finishes (array_deserializer endian (alignment_dbus child) a) _
            (array_deserializer-Finishes endian (alignment_dbus child) a)
            (λ x second.
              let m = align-Moves sig s a i first in
              let inside = Moves-Inside s a m in
              let start =
                array_forward endian (alignment_dbus child) a x.1 x.0.0 x.0.1 inside second in
              let m1 =
                array_deserializer-Moves endian (alignment_dbus child) a x.1 x.0.0 x.0.1 inside
                  second in
              let l = moved-left s a m in
              let l1 = moved-left a x.1 m1 in
              let (_, _, g, _) = m in
              bind-Finishes (deserialize_all endian nom compare fuel x.0.0 child x.0.1 x.1) _
                (all-Finishes fuel x.0.0 child x.0.1 x.1 b (Moves-Inside a x.1 m1) (omega arith))
                (λ _ _ k. absurd (cc k))))
    kind-Finishes (suc fuel) (of_dict key value) sig s b i h =
        bind-Finishes (align sig s) _ (align-Finishes sig s) (λ a first.
          bind-Finishes (array_deserializer endian (some 8) a) _
            (array_deserializer-Finishes endian (some 8) a)
            (λ x second.
              let m = align-Moves sig s a i first in
              let inside = Moves-Inside s a m in
              let start = array_forward endian (some 8) a x.1 x.0.0 x.0.1 inside second in
              let m1 = array_deserializer-Moves endian (some 8) a x.1 x.0.0 x.0.1 inside second in
              let l = moved-left s a m in
              let l1 = moved-left a x.1 m1 in
              let (_, _, g, _) = m in
              bind-Finishes
                (deserialize_entries endian nom compare fuel key value x.0.1 no_entry x.1) _
                (entries-Finishes fuel key value x.0.1 no_entry x.1 b.0 b.1 (Moves-Inside a x.1 m1)
                  (omega arith))
                (λ _ _ k. absurd (cc k))))
    kind-Finishes (suc fuel) (of_structure sigs) sig s b i h =
        bind-Finishes (align sig s) _ (align-Finishes sig s) (λ a first.
          bind-Finishes (parse_padding 8 a) _ (padding-Finishes 8 a) (λ r second.
            bind-Finishes (depth_checked (inc_structure r.container_depths)) _
              (depth_checked-Finishes (inc_structure r.container_depths))
              (λ depths _.
                let m = align-Moves sig s a i first in
                let m1 = Moves-trans s a r m (padding-Moves 8 a r (Moves-Inside s a m) second) in
                let l = moved-left s r m1 in
                let (_, _, g, _) = m1 in
                bind-Finishes
                  (deserialize_fields endian nom compare fuel sigs
                    (record r { container_depths = depths }))
                  _
                  (fields-Finishes fuel sigs (record r { container_depths = depths }) b.1
                    (Moves-Inside s r m1) (omega arith))
                  (λ _ _ k. absurd (cc k)))))

    all-Finishes :
        (fuel a : ℕ) (child : Signature) (place : ℕ) (s : Deserializer)
        → TakesBytes child
        → Inside s
        → 4 * left s + size child + 1 ≤ fuel
        → Finishes (deserialize_all endian nom compare fuel a child place s)
    all-Finishes zero a child place s b i h k = absurd (omega arith)
    all-Finishes (suc fuel) a child place s b i h k = elim (Bool-cases (s.pos == place)) [
      | inl e ↦ absurd (cc (rw e at k))
      | inr e ↦
          bind-Finishes
            (parse_padding a s >>= λ r. within place (deserialize endian nom compare fuel child r))
            _
            (element-Finishes fuel a child place s i
              (λ r ir l. value-Finishes fuel child r b ir (omega arith)))
            (λ x before. bind-Finishes (matching child x.0) _ (matching-Finishes child x.0) (λ _ _.
              let (m, takes) =
                element_moved child (deserialize endian nom compare fuel child)
                  (λ s s' v. value-Reads endian nom compare fuel child s s' v) a place s x.1 x.0 i
                  before in
              let onward = takes b in
              let l = moved-left s x.1 m in
              bind-Finishes (deserialize_all endian nom compare fuel a child place x.1) _
                (all-Finishes fuel a child place x.1 b (Moves-Inside s x.1 m) (omega arith))
                (λ _ _ k. absurd (cc k))))
            (rw e at k)
    ]

    fields-Finishes :
        (fuel : ℕ) (sigs : Fields) (s : Deserializer)
        → AllTakeBytes sigs
        → Inside s
        → 4 * left s + sizes sigs ≤ fuel
        → Finishes (deserialize_fields endian nom compare fuel sigs s)
    fields-Finishes zero sigs s b i h = let l = sizes_least sigs in absurd (omega arith)
    fields-Finishes (suc fuel) no_fields s b i h = λ k. absurd (cc k)
    fields-Finishes (suc fuel) (field sig sigs) s (b, bs) i h =
        bind-Finishes (deserialize endian nom compare fuel sig s) _
          (value-Finishes fuel sig s b i (omega arith))
          (λ x first.
            let (m, _, _) = value-Reads endian nom compare fuel sig s x.1 x.0 i first in
            let read = field_read sigs s x.1 in
            let m1 = field_read-Moves sigs s x.1 m in
            let l = moved-left s read m1 in
            let (_, _, g, _) = m1 in
            bind-Finishes (deserialize_fields endian nom compare fuel sigs read) _
              (fields-Finishes fuel sigs read bs (Moves-Inside s read m1) (omega arith))
              (λ _ _ k. absurd (cc k)))

    entries-Finishes :
        (fuel : ℕ) (key value : Signature) (place : ℕ) (es : Entries) (s : Deserializer)
        → TakesBytes key
        → TakesBytes value
        → Inside s
        → 4 * left s + size key + size value + 1 ≤ fuel
        → Finishes (deserialize_entries endian nom compare fuel key value place es s)
    entries-Finishes zero key value place es s b b' i h k = absurd (omega arith)
    entries-Finishes (suc fuel) key value place es s b b' i h k =
        elim (Bool-cases (s.pos == place)) [
          | inl e ↦ absurd (cc (rw e at k))
          | inr e ↦
              bind-Finishes
                (parse_padding 8 s >>= λ r.
                  within place (deserialize endian nom compare fuel key r))
                _
                (element-Finishes fuel 8 key place s i
                  (λ r ir l. value-Finishes fuel key r b ir (omega arith)))
                (λ x before.
                  let (m, takes) =
                    element_moved key (deserialize endian nom compare fuel key)
                      (λ s s' v. value-Reads endian nom compare fuel key s s' v) 8 place s x.1 x.0 i
                      before in
                  let onward = takes b in
                  let l = moved-left s x.1 m in
                  let inside = Moves-Inside s x.1 m in
                  bind-Finishes (within place (deserialize endian nom compare fuel value x.1)) _
                    (within-Finishes place (deserialize endian nom compare fuel value x.1)
                      (value-Finishes fuel value x.1 b' inside (omega arith)))
                    (λ y both.
                      bind-Finishes (matching key x.0) _ (matching-Finishes key x.0) (λ _ _.
                        bind-Finishes (matching value y.0) _ (matching-Finishes value y.0) (λ _ _.
                          let (m1, _) =
                            value_moved value (deserialize endian nom compare fuel value)
                              (λ s s' v. value-Reads endian nom compare fuel value s s' v) place x.1
                              y.1 y.0 inside both in
                          let m2 = Moves-trans s x.1 y.1 m m1 in
                          let l2 = moved-left s y.1 m2 in
                          let (_, _, g, _) = m1 in
                          entries-Finishes fuel key value place (insert compare x.0 y.0 es) y.1 b b'
                            (Moves-Inside s y.1 m2) (omega arith)))))
                (rw e at k)
        ]

  -- For a signature without an empty structure, four units of fuel for each byte that is left, and
  -- the size of the signature, are enough: reading a value does not run out of it.
  pub deserialize-Finishes :
      (fuel : ℕ) (sig : Signature) (s : Deserializer)
      → TakesBytes sig
      → s.pos ≤ length s.bytes + 1
      → 4 * (length s.bytes + 1 - s.pos) + size sig ≤ fuel
      → deserialize endian nom compare fuel sig s ≢ err out_of_fuel
  deserialize-Finishes fuel sig s b i h = value-Finishes fuel sig s b i h

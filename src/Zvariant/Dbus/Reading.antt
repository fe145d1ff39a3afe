-- ===== src/Zvariant/Dbus/Reading.antt =====
-- What the deserializer of zvariant/src/dbus/de.rs keeps while it reads a value.
use zbus.Prelude.{
  ℕ, zero, suc, ◌+◌, ◌≤◌, ◌<◌, ◌≡◌, sym, subst, ap, ◌∙◌, false, some, ok, ◌>>=◌, bind_ok, ◌==◌,
  Bool-cases, inl, inr, length, get_elem?, arith,
}
use Prim.Native.Nat.{Ordering}
use zbus.Signature.{Signature, Fields, no_fields, field, alignment_dbus}
use zbus.Signature.Nom.{Nom}
use zbus.Signature.Parser.{parse}
use zbus.Zvariant.Depths.{inc_structure}
use zbus.Zvariant.Dbus.{Value, Values, Entries, no_entry, value_signature, Endian, custom}
use zbus.Zvariant.Dbus.Ser.{depth_checked}
use zbus.Zvariant.Dbus.De.{
  Deserializer, forward, parse_padding, next_slice, required, Kind, of_basic, of_text, of_variant,
  of_fd, of_unit, of_maybe, of_array, of_dict, of_structure, kind_of, deserialize_str, text_value,
  within, matching, insert, array_left, field_read, value_deserializer, align, deserialize,
  deserialize_kind, deserialize_all, deserialize_fields, deserialize_entries,
}
use zbus.Zvariant.Dbus.Advancing.{
  Inside, Moves, Moves-refl, Moves-Inside, Moves-trans, padding-Moves, signature_of,
  signature_of-kind, text_value-signature, basic-Moves, str-Moves, align-Moves, variant-pos,
}
use zbus.Zvariant.Dbus.Nested.{value_deserializer-starts}
use zbus.Zvariant.Dbus.Progress.{
  TakesBytes, HasField, AllTakeBytes, basic_forward, str_forward, field_read_pos,
}
use zbus.Zvariant.Dbus.Sequences.{
  Reads, field_read-Moves, value_moved, element_moved, sequence_moved,
}

module _ (endian : Endian) (nom : Nom) (compare : Value → Value → Ordering) where
  mutual
    unfolding deserialize deserialize_kind deserialize_all deserialize_fields deserialize_entries
        signature_of TakesBytes

    pub value-Reads :
        (fuel : ℕ) (sig : Signature) (s s' : Deserializer) (v : Value)
        → Inside s
        → deserialize endian nom compare fuel sig s ≡ ok (v, s')
        → Reads sig s v s'
    value-Reads zero sig s s' v i h = absurd (cc h)
    value-Reads (suc fuel) sig s s' v i h =
        kind-Reads fuel (kind_of sig) sig s s' v (signature_of-kind sig) i h

    kind-Reads :
        (fuel : ℕ) (kind : Kind) (sig : Signature) (s s' : Deserializer) (v : Value)
        → signature_of kind ≡ sig
        → Inside s
        → deserialize_kind endian nom compare fuel kind sig s ≡ ok (v, s')
        → Reads sig s v s'
    kind-Reads zero kind sig s s' v k i h = absurd (cc h)
    kind-Reads (suc fuel) (of_basic kind) sig s s' v k i h =
        let (m, t) = basic-Moves endian kind s s' v i h in
        (m, t ∙ k, λ _. basic_forward endian kind s s' v i h)
    kind-Reads (suc fuel) (of_text kind) sig s s' v k i h =
        let ((slice, r), first, e) = bind_ok (deserialize_str endian sig s) _ h in
        let (w, value, at_end) = bind_ok (text_value nom kind slice) _ e in
        let same_value : w ≡ v = cc at_end in
        let same_state : r ≡ s' = cc at_end in
        (
          subst (Moves s) same_state (str-Moves endian sig s r slice i first),
          subst (λ v. value_signature v ≡ sig) same_value
              (text_value-signature nom kind slice w value ∙ k),
          λ _. subst (λ s'. s.pos < s'.pos) same_state (str_forward endian sig s r slice i first),
        )
    kind-Reads (suc fuel) of_fd sig s s' v k i h =
        let (_, _, e) = bind_ok (parse_padding 4 s >>= next_slice 4) _ h in absurd (cc e)
    kind-Reads (suc fuel) of_unit sig s s' v k i h = absurd (cc h)
    kind-Reads (suc fuel) (of_maybe child) sig s s' v k i h = absurd (cc h)
    kind-Reads (suc fuel) of_variant sig s s' v k i h =
        let (a, first, e) = bind_ok (align sig s) _ h in
        let m = align-Moves sig s a i first in
        let ((slice, r), second, e1) = bind_ok (deserialize_str endian sig a) _ e in
        let m1 = str-Moves endian sig a r slice (Moves-Inside s a m) second in
        let (_, _, e2) = bind_ok (required custom (parse nom slice false)) _ e1 in
        let ((sign, sub), third, e3) = bind_ok (value_deserializer nom a.pos r) _ e2 in
        let ((w, sub'), fourth, at_end) =
          bind_ok (deserialize endian nom compare fuel sign sub) _ e3 in
        let (b, byte, len, zero_pos) = value_deserializer-starts nom a.pos r sub sign third in
        let (inner, _, _) = value-Reads fuel sign sub sub' w (rw zero_pos (omega arith)) fourth in
        let here : r.pos ≡ a.pos + 1 + b + 1 =
          variant-pos endian a r slice b (subst (λ bs. get_elem? bs a.pos ≡ some b) m1.0 byte)
            (rw (← k) at second) in
        let same_value : Value.variant w ≡ v = cc at_end in
        let same_state : forward sub'.pos r ≡ s' = cc at_end in
        let (bytes, place, onward, _) = Moves-trans s a r m m1 in
        let (_, _, _, inner_end) = inner in
        let l : length r.bytes ≡ length s.bytes = ap length bytes in
        (
          subst (Moves s) same_state (bytes, place, omega arith, omega arith),
          ap value_signature (sym same_value) ∙ k,
          λ _.
              let start = str_forward endian sig a r slice (Moves-Inside s a m) second in
              let (_, _, g, _) = m in subst (λ s'. s.pos < s'.pos) same_state (omega arith),
        )
    kind-Reads (suc fuel) (of_array child) sig s s' v k i h =
        let (vs, is, m, onward) =
          sequence_moved endian sig (alignment_dbus child)
            (λ alignment place s. deserialize_all endian nom compare fuel alignment child place s)
            (λ vs. Value.array sig vs) s s' v
            (λ alignment place r t vs. all-Moves fuel alignment child place r t vs) i h in
        (m, ap value_signature (sym is), λ _. onward)
    kind-Reads (suc fuel) (of_dict key value) sig s s' v k i h =
        let (es, is, m, onward) =
          sequence_moved endian sig (some 8)
            (λ alignment place s.
              deserialize_entries endian nom compare fuel key value place no_entry s)
            (λ es. Value.dict sig es) s s' v
            (λ alignment place r t es. entries-Moves fuel key value place no_entry r t es) i h in
        (m, ap value_signature (sym is), λ _. onward)
    kind-Reads (suc fuel) (of_structure sigs) sig s s' v k i h =
        let (a, first, e) = bind_ok (align sig s) _ h in
        let m = align-Moves sig s a i first in
        let (r, second, e1) = bind_ok (parse_padding 8 a) _ e in
        let m1 = Moves-trans s a r m (padding-Moves 8 a r (Moves-Inside s a m) second) in
        let (depths, _, e2) = bind_ok (depth_checked (inc_structure r.container_depths)) _ e1 in
        let r' : Deserializer = record r { container_depths = depths } in
        let ((vs, t), third, at_end) =
          bind_ok (deserialize_fields endian nom compare fuel sigs r') _ e2 in
        let (m2, takes) = fields-Moves fuel sigs r' t vs (Moves-Inside s r m1) third in
        let same_value : Value.structure sig vs ≡ v = cc at_end in
        let same_state : t ≡ s' = cc at_end in
        (
          subst (Moves s) same_state (Moves-trans s r t m1 m2),
          ap value_signature (sym same_value),
          λ whole.
              let (some_field, all) = subst TakesBytes (sym k) whole in
              let onward = takes some_field all in
              let (_, _, g, _) = m1 in subst (λ s'. s.pos < s'.pos) same_state (omega arith),
        )

    pub all-Moves :
        (fuel a : ℕ) (child : Signature) (place : ℕ) (s s' : Deserializer) (vs : Values)
        → Inside s
        → deserialize_all endian nom compare fuel a child place s ≡ ok (vs, s')
        → Moves s s'
    all-Moves zero a child place s s' vs i h = absurd (cc h)
    all-Moves (suc fuel) a child place s s' vs i h = elim (Bool-cases (s.pos == place)) [
      | inl e ↦
          let there : array_left s ≡ s' = cc (rw e at h) in subst (Moves s) there (Moves-refl s i)
      | inr e ↦
          let ((v, t), before, e1) =
            bind_ok
              (parse_padding a s >>= λ r.
                within place (deserialize endian nom compare fuel child r))
              _ (rw e at h) in
          let (m, _) =
            element_moved child (deserialize endian nom compare fuel child)
              (λ s s' v. value-Reads fuel child s s' v) a place s t v i before in
          let (_, _, e2) = bind_ok (matching child v) _ e1 in
          let ((vs', u), rest, at_end) =
            bind_ok (deserialize_all endian nom compare fuel a child place t) _ e2 in
          let there : u ≡ s' = cc at_end in
          subst (Moves s) there
            (Moves-trans s t u m (all-Moves fuel a child place t u vs' (Moves-Inside s t m) rest))
    ]

    pub fields-Moves :
        (fuel : ℕ) (sigs : Fields) (s s' : Deserializer) (vs : Values)
        → Inside s
        → deserialize_fields endian nom compare fuel sigs s ≡ ok (vs, s')
        → Moves s s' × (HasField sigs → AllTakeBytes sigs → s.pos < s'.pos)
    fields-Moves zero sigs s s' vs i h = absurd (cc h)
    fields-Moves (suc fuel) no_fields s s' vs i h =
        let there : s ≡ s' = cc h in
        (subst (Moves s) there (Moves-refl s i), λ none_there. absurd none_there)
    fields-Moves (suc fuel) (field sig sigs) s s' vs i h =
        let ((v, sub), first, e) = bind_ok (deserialize endian nom compare fuel sig s) _ h in
        let (m, _, takes) = value-Reads fuel sig s sub v i first in
        let read = field_read sigs s sub in
        let ((vs', t), rest, at_end) =
          bind_ok (deserialize_fields endian nom compare fuel sigs read) _ e in
        let there : t ≡ s' = cc at_end in
        let m1 = field_read-Moves sigs s sub m in
        let (m2, _) = fields-Moves fuel sigs read t vs' (Moves-Inside s read m1) rest in
        (
          subst (Moves s) there (Moves-trans s read t m1 m2),
          λ _ (one, _).
              let start = takes one in
              let same_pos : read.pos ≡ sub.pos = field_read_pos sigs s sub in
              let (_, _, onward, _) = m2 in subst (λ s'. s.pos < s'.pos) there (omega arith),
        )

    pub entries-Moves :
        (fuel : ℕ) (key value : Signature) (place : ℕ) (es : Entries) (s s' : Deserializer)
        (out : Entries)
        → Inside s
        → deserialize_entries endian nom compare fuel key value place es s ≡ ok (out, s')
        → Moves s s'
    entries-Moves zero key value place es s s' out i h = absurd (cc h)
    entries-Moves (suc fuel) key value place es s s' out i h = elim (Bool-cases (s.pos == place)) [
      | inl e ↦
          let there : array_left s ≡ s' = cc (rw e at h) in subst (Moves s) there (Moves-refl s i)
      | inr e ↦
          let ((k, t), before, e1) =
            bind_ok
              (parse_padding 8 s >>= λ r. within place (deserialize endian nom compare fuel key r))
              _ (rw e at h) in
          let (m, _) =
            element_moved key (deserialize endian nom compare fuel key)
              (λ s s' v. value-Reads fuel key s s' v) 8 place s t k i before in
          let ((v, u), both, e2) =
            bind_ok (within place (deserialize endian nom compare fuel value t)) _ e1 in
          let (m1, _) =
            value_moved value (deserialize endian nom compare fuel value)
              (λ s s' v. value-Reads fuel value s s' v) place t u v (Moves-Inside s t m) both in
          let m2 = Moves-trans s t u m m1 in
          let (_, _, e3) = bind_ok (matching key k) _ e2 in
          let (_, _, rest) = bind_ok (matching value v) _ e3 in
          Moves-trans s u s' m2 (
            entries-Moves fuel key value place (insert compare k v es) u s' out
              (Moves-Inside s u m2) rest)
    ]

  -- From a position at most one byte after the end, reading a value that succeeds gives a value of
  -- the signature that was asked for, leaves the bytes and where they are in the message as they
  -- were, and goes on to a position that is not before and at most one byte after the end.
  pub deserialize-Reads :
      (fuel : ℕ) (sig : Signature) (s s' : Deserializer) (v : Value)
      → s.pos ≤ length s.bytes + 1
      → deserialize endian nom compare fuel sig s ≡ ok (v, s')
      → (value_signature v ≡ sig)
        × (s'.bytes ≡ s.bytes)
        × (s'.position ≡ s.position)
        × (s.pos ≤ s'.pos)
        × (s'.pos ≤ length s.bytes + 1)
  deserialize-Reads fuel sig s s' v i h =
      let ((b, p, g, i'), t, _) = value-Reads fuel sig s s' v i h in (t, b, p, g, i')

  pub value_forward :
      (fuel : ℕ) (sig : Signature) (s s' : Deserializer) (v : Value)
      → TakesBytes sig
      → Inside s
      → deserialize endian nom compare fuel sig s ≡ ok (v, s')
      → s.pos < s'.pos
  value_forward fuel sig s s' v takes i h =
      let (_, _, forward) = value-Reads fuel sig s s' v i h in forward takes

-- ===== src/Zvariant/Dbus/Sequences.antt =====
-- Elements and sequences, as the deserializer of zvariant/src/dbus/de.rs goes through them.
use zbus.Prelude.{ℕ, ◌<◌, ◌≡◌, refl, subst, Option, Result, ok, ◌>>=◌, bind_ok, arith}
use zbus.Signature.{Signature, Fields, no_fields, field}
use zbus.Zvariant.Dbus.{Failure, Value, value_signature, Endian}
use zbus.Zvariant.Dbus.De.{
  Deserializer, parse_padding, array_deserializer, within, field_read, align,
}
use zbus.Zvariant.Dbus.Advancing.{
  Inside, Moves, Moves-Inside, Moves-trans, padding-Moves, within-same, array_deserializer-Moves,
  align-Moves,
}
use zbus.Zvariant.Dbus.Progress.{TakesBytes, array_forward}

-- The bytes stay, the value has the signature, and a byte is taken unless a structure is empty.
abbrev pub Reads : Signature → Deserializer → Value → Deserializer → Type 0
Reads sig s v s' = Moves s s' × (value_signature v ≡ sig) × (TakesBytes sig → s.pos < s'.pos)

pub field_read-Moves :
    (sigs : Fields) (s sub : Deserializer) → Moves s sub → Moves s (field_read sigs s sub)
field_read-Moves no_fields s sub (b, p, g, i) = (refl, refl, g, i)
field_read-Moves (field _ _) s sub (b, p, g, i) = (refl, refl, g, i)

-- An element of an array or a dict, by how its value is read, and one that needs padding first.
module _ (sig : Signature) (read : Deserializer → Result Failure (Value × Deserializer))
    (reads : (s s' : Deserializer) (v : Value)
      → Inside s
      → read s ≡ ok (v, s')
      → Reads sig s v s') where
  pub value_moved :
      (place : ℕ) (s t : Deserializer) (v : Value)
      → Inside s
      → within place (read s) ≡ ok (v, t)
      → Moves s t × (TakesBytes sig → s.pos < t.pos)
  value_moved place s t v i h =
      let (m, _, takes) = reads s t v i (within-same place (read s) v t h) in (m, takes)

  pub element_moved :
      (a place : ℕ) (s t : Deserializer) (v : Value)
      → Inside s
      → (parse_padding a s >>= λ r. within place (read r)) ≡ ok (v, t)
      → Moves s t × (TakesBytes sig → s.pos < t.pos)
  element_moved a place s t v i h =
      let (r, first, second) = bind_ok (parse_padding a s) _ h in
      let m = padding-Moves a s r i first in
      let (_, _, g, _) = m in
      let (m1, takes) = value_moved place r t v (Moves-Inside s r m) second in
      (Moves-trans s r t m m1, λ b. let onward = takes b in omega arith)

-- An array or a dict, by how its elements are read.
module _ (endian : Endian) {A : Type 0} (sig : Signature) (o : Option ℕ) where
  abbrev pub sequence_with :
      (ℕ → ℕ → Deserializer → Result Failure (A × Deserializer))
      → (A → Value)
      → Deserializer
      → Result Failure (Value × Deserializer)
  sequence_with run wrap s = align sig s >>= λ s.
      array_deserializer endian o s >>= λ ((alignment, place), s).
      run alignment place s >>= λ (xs, s). ok (wrap xs, s)

  pub sequence_moved :
      (run : ℕ → ℕ → Deserializer → Result Failure (A × Deserializer)) (wrap : A → Value)
      (s s' : Deserializer) (v : Value)
      → ((alignment place : ℕ) (r t : Deserializer) (xs : A)
          → Inside r
          → run alignment place r ≡ ok (xs, t)
          → Moves r t)
      → Inside s
      → sequence_with run wrap s ≡ ok (v, s')
      → (xs : A) × (wrap xs ≡ v) × Moves s s' × (s.pos < s'.pos)
  sequence_moved run wrap s s' v moves i h =
      let (a, first, e) = bind_ok (align sig s) _ h in
      let m = align-Moves sig s a i first in
      let inside = Moves-Inside s a m in
      let (((alignment, place), r), second, e1) = bind_ok (array_deserializer endian o a) _ e in
      let m1 = array_deserializer-Moves endian o a r alignment place inside second in
      let ((xs, t), third, at_end) = bind_ok (run alignment place r) _ e1 in
      let m2 = moves alignment place r t xs (Moves-Inside a r m1) third in
      let same_value : wrap xs ≡ v = cc at_end in
      let same_state : t ≡ s' = cc at_end in
      let start = array_forward endian o a r alignment place inside second in
      let (_, _, g, _) = m in
      let (_, _, g', _) = m2 in
      let (moved, onward) =
        subst (λ s'. Moves s s' × (s.pos < s'.pos)) same_state
          (Moves-trans s r t (Moves-trans s a r m m1) m2, omega arith) in
      (xs, same_value, moved, onward)

-- ===== src/Zvariant/Dbus/RoundTrip/Runs.antt =====
-- A dict that is written and read back, on concrete bytes.
use zbus.Prelude.{
  ℕ, ◌≤◌, ◌≡◌, refl, List, [], ◌∷◌, ◌++◌, ok, length, ◌==◌, ltb, if◌then◌else◌, arith,
}
use Prim.Native.Nat.{Ordering}
use zbus.Signature.{alignment_dbus, write_as_string, IsComplete}
use zbus.Signature.Nom.Reference.{reference}
use zbus.Handshake.Utf8.{from_utf8}
use zbus.Zvariant.Padding.{padding_for_n_bytes}
use zbus.Zvariant.Depths.{default_depths}
use zbus.Zvariant.Dbus.{Basic, Text, Value, no_entry, entry}
use zbus.Zvariant.Dbus.Ser.{serialize}
use zbus.Zvariant.Dbus.De.{deserialize}
use zbus.Zvariant.Dbus.Reference.{
  encode, Fits, a_basic, a_text, a_variant, a_dict, one_pair, no_pair,
}
use zbus.Zvariant.Dbus.Writing.{serializer}
use zbus.Zvariant.Dbus.Runs.{little, vardict}
use zbus.Zvariant.Dbus.RoundTrip.Ahead.{reader}
use zbus.Zvariant.Dbus.RoundTrip.Readable.{IsReadable, parts}
use zbus.Zvariant.Dbus.RoundTrip.Written.{deserialize-serialize}

-- The texts `k` and `l` with variants, after one byte and before another.
abbrev by_first : Value → Value → Ordering
by_first (Value.text _ (a ∷ _)) (Value.text _ (b ∷ _)) =
    if a == b then Ordering.eq else if ltb a b then Ordering.lt else Ordering.gt
by_first v w = Ordering.eq

abbrev two_properties : Value
two_properties = Value.dict vardict (
    entry (Value.text Text.str (107 ∷ [])) (Value.variant (Value.basic Basic.u8 7))
      (entry (Value.text Text.str (108 ∷ [])) (Value.variant (Value.basic Basic.u32 263)) no_entry))

two_properties_bytes :
    length ((108 ∷ []) ++ encode little 1 two_properties vardict ++ (9 ∷ [])) ≡ 41
unfolding encode alignment_dbus padding_for_n_bytes write_as_string
two_properties_bytes = refl

two_properties-Fits : Fits default_depths two_properties vardict
unfolding IsComplete write_as_string
two_properties-Fits =
    a_dict _ _ _ (omega arith, omega arith, omega arith)
      (one_pair _ _ _ (a_text Text.str (107 ∷ []) (omega arith))
        (a_variant (Value.basic Basic.u8 7) tt (omega arith) (omega arith, omega arith, omega arith)
          (a_basic Basic.u8 7))
        (one_pair _ _ _ (a_text Text.str (108 ∷ []) (omega arith))
          (a_variant (Value.basic Basic.u32 263) tt (omega arith)
            (omega arith, omega arith, omega arith) (a_basic Basic.u32 263))
          no_pair))

two_properties-IsReadable : IsReadable reference by_first two_properties
unfolding IsReadable from_utf8
two_properties-IsReadable =
    ((refl, 107 ∷ [], refl), omega arith, (refl, tt), ((refl, 108 ∷ [], refl), omega arith, tt, tt))

two_properties-parts : parts two_properties ≤ 20
unfolding parts
two_properties-parts = omega arith

deserialize-serialize_example :
    (out : List ℕ) × (serialize little reference 0 two_properties vardict
        (serializer (108 ∷ []) default_depths)
      ≡ ok (serializer out default_depths))
    × (deserialize little reference by_first 20 vardict
          (reader (out ++ (9 ∷ [])) 1 0 default_depths)
        ≡ ok (two_properties, reader (out ++ (9 ∷ [])) (length out) 0 default_depths))
deserialize-serialize_example =
    deserialize-serialize little reference by_first default_depths two_properties vardict (108 ∷ [])
      (9 ∷ []) 0 20 (omega arith, omega arith, omega arith) two_properties-Fits
      two_properties-IsReadable (rw two_properties_bytes (omega arith)) two_properties-parts

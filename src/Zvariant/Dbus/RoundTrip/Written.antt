-- ===== src/Zvariant/Dbus/RoundTrip/Written.antt =====
-- A value that zvariant/src/dbus/ser.rs has written, read back by zvariant/src/dbus/de.rs.
use zbus.Prelude.{
  ℕ, ◌+◌, ◌^◌, ◌<◌, ◌≤◌, ◌≡◌, sym, ap, ◌∙◌, List, ◌++◌, ok, length, drop, length-append,
  drop-append, append_assoc, arith,
}
use Prim.Native.Nat.{Ordering}
use zbus.Signature.{Signature}
use zbus.Signature.Nom.{Nom}
use zbus.Zvariant.Depths.{ContainerDepths}
use zbus.Zvariant.Depths.Nesting.{IsValid}
use zbus.Zvariant.Dbus.{Value, Endian}
use zbus.Zvariant.Dbus.Ser.{serialize}
use zbus.Zvariant.Dbus.De.{deserialize}
use zbus.Zvariant.Dbus.Reference.{encode, Fits}
use zbus.Zvariant.Dbus.Writing.{serializer}
use zbus.Zvariant.Dbus.Refines.{serialize-encode}
use zbus.Zvariant.Dbus.RoundTrip.Ahead.{reader, Ahead}
use zbus.Zvariant.Dbus.RoundTrip.Readable.{IsReadable, parts}
use zbus.Zvariant.Dbus.RoundTrip.Whole.{value_back}

module _ (endian : Endian) (nom : Nom) (compare : Value → Value → Ordering) where
  -- A value that has the signature, fits in the limits and is one that the deserializer accepts
  -- (numbers in the range of their type, texts in UTF-8 without NUL, signatures as they are
  -- displayed, the keys of a dict in their order, each once) is serialized after any bytes without
  -- an error; and, where other bytes may follow and the message is shorter than 2 ^ 32, with fuel
  -- for the parts of the value, deserializing from where it was written gives that value, and goes
  -- on to where it ends, with the counters as they were.
  pub deserialize-serialize :
      (d : ContainerDepths) (v : Value) (sig : Signature) (w left : List ℕ) (position fuel : ℕ)
      → IsValid d
      → Fits d v sig
      → IsReadable nom compare v
      → position + length (w ++ encode endian (position + length w) v sig ++ left) < 2 ^ 32
      → parts v ≤ fuel
      → (out : List ℕ) × (serialize endian nom position v sig (serializer w d)
          ≡ ok (serializer out d))
        × (deserialize endian nom compare fuel sig (reader (out ++ left) (length w) position d)
            ≡ ok (v, reader (out ++ left) (length out) position d))
  deserialize-serialize d v sig w left position fuel valid fits readable small enough =
      let bytes = encode endian (position + length w) v sig in
      let out = w ++ bytes in
      let l = length-append out left in
      let l' = length-append w bytes in
      let l'' = length-append bytes left in
      let ahead : Ahead (out ++ left) (length w) (bytes ++ left) = (
        omega arith,
        ap (drop (length w)) (append_assoc w bytes left) ∙ drop-append w (bytes ++ left),
      ) in
      (
        out,
        serialize-encode endian nom position d v sig w valid fits (omega arith),
        value_back endian nom compare d v sig fuel valid fits readable enough (out ++ left) left
              (length w) position ahead small
            ∙ ap (λ n. ok (v, reader (out ++ left) n position d)) (sym l'),
      )

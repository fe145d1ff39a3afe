-- ===== src/Zvariant/Dbus/Nested.antt =====
-- The value of a variant: where `ValueDeserializer` of zvariant/src/dbus/de.rs starts to read it.
use zbus.Prelude.{
  ℕ, ◌+◌, ◌-◌, ◌≤◌, ◌≡◌, sym, subst, ap, ◌∙◌, false, Option, none, some, List, ok, bind_ok, ltb,
  ltb-cases, Bool-cases, inl, inr, length, take, drop, get_elem?, length-drop, length-take, arith,
}
use zbus.Signature.{Signature}
use zbus.Signature.Nom.{Nom}
use zbus.Signature.Parser.{parse}
use zbus.Zvariant.Depths.{inc_variant}
use zbus.Zvariant.Dbus.{panic, invalid_signature}
use zbus.Zvariant.Dbus.Ser.{depth_checked}
use zbus.Zvariant.Dbus.De.{Deserializer, subslice, subslice_from, required, value_deserializer}

subslice_from-ok :
    (start : ℕ) (bytes out : List ℕ)
    → subslice_from start bytes ≡ ok out
    → (start ≤ length bytes) × (out ≡ drop start bytes)
unfolding subslice_from
subslice_from-ok start bytes out h = elim (ltb-cases (length bytes) start) [
  | inl (e, _) ↦ absurd (cc (rw e at h))
  | inr (e, fits) ↦ (fits, sym (cc (rw e at h)))
]

module _ (nom : Nom) where
  -- The bytes of the value of a variant are those from the end of its signature on.
  pub value_deserializer-starts :
      (start : ℕ) (s sub : Deserializer) (sign : Signature)
      → value_deserializer nom start s ≡ ok (sign, sub)
      → (b : ℕ) × (get_elem? s.bytes start ≡ some b)
        × (start + 1 + b + 1 + length sub.bytes ≡ length s.bytes)
        × (sub.pos ≡ 0)
  unfolding value_deserializer
  value_deserializer-starts start s sub sign h =
      let (b, byte, e) = bind_ok (required panic (get_elem? s.bytes start)) _ h in
      let (slice, _, e1) = bind_ok (subslice (start + 1) b s.bytes) _ e in
      let (parsed, _, e2) = bind_ok (required invalid_signature (parse nom slice false)) _ e1 in
      let (bytes, rest, e3) = bind_ok (subslice_from (start + 1 + b + 1) s.bytes) _ e2 in
      let (depths, _, at_end) = bind_ok (depth_checked (inc_variant s.container_depths)) _ e3 in
      let there : record {
        bytes = bytes;
        pos = 0;
        position = s.position + (start + 1 + b + 1);
        container_depths = depths;
      }
          ≡ sub =
        cc at_end in
      let (fits, is_rest) = subslice_from-ok (start + 1 + b + 1) s.bytes bytes rest in
      let l = length-drop (start + 1 + b + 1) s.bytes in
      let len : length sub.bytes ≡ length s.bytes - (start + 1 + b + 1) =
        ap (λ s. length s.bytes) (sym there) ∙ ap length is_rest ∙ l in
      (b, given (get_elem? s.bytes start) b byte, omega arith, ap (λ s. s.pos) (sym there))
    where
      given : (o : Option ℕ) (b : ℕ) → required panic o ≡ ok b → o ≡ some b
      given none b h = absurd (cc h)
      given (some a) b h = cc h

  -- Its signature is read from the bytes before.
  pub value_deserializer-reads :
      (start : ℕ) (s sub : Deserializer) (sign : Signature) (b : ℕ)
      → get_elem? s.bytes start ≡ some b
      → value_deserializer nom start s ≡ ok (sign, sub)
      → (slice : List ℕ) × (parse nom slice false ≡ some sign) × (length slice ≤ b)
  unfolding value_deserializer subslice
  value_deserializer-reads start s sub sign b byte h =
      let (slice, sliced, e2) = bind_ok (subslice (start + 1) b s.bytes) _ (rw byte at h) in
      let (parsed, read, e3) = bind_ok (required invalid_signature (parse nom slice false)) _ e2 in
      let (bytes, _, e4) = bind_ok (subslice_from (start + 1 + b + 1) s.bytes) _ e3 in
      let (depths, _, at_end) = bind_ok (depth_checked (inc_variant s.container_depths)) _ e4 in
      let same : parsed ≡ sign = cc at_end in
      (slice, given (parse nom slice false) parsed read ∙ ap some same, short slice sliced)
    where
      given :
          (o : Option Signature) (x : Signature) → required invalid_signature o ≡ ok x → o ≡ some x
      given none x h = absurd (cc h)
      given (some a) x h = cc h

      short : (slice : List ℕ) → subslice (start + 1) b s.bytes ≡ ok slice → length slice ≤ b
      short slice h = elim (Bool-cases (ltb (length s.bytes) (start + 1 + b))) [
        | inl e ↦ absurd (cc (rw e at h))
        | inr e ↦
            let same : take b (drop (start + 1) s.bytes) ≡ slice = cc (rw e at h) in
            subst (λ l. length l ≤ b) same
              (let l = length-take b (drop (start + 1) s.bytes) in omega arith)
      ]

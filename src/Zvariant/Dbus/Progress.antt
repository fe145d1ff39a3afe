-- ===== src/Zvariant/Dbus/Progress.antt =====
-- What the deserializer of zvariant/src/dbus/de.rs takes at least a byte for.
use zbus.Prelude.{
  ℕ, ◌+◌, ◌≤◌, ◌<◌, ◌≡◌, refl, sym, subst, Option, none, some, List, ok, ◌>>=◌, bind_ok, not, any,
  ◌==◌, ensure, length, Bool, true, false, arith,
}
use zbus.Signature.{Signature, Fields, no_fields, field}
use zbus.Zvariant.Depths.{inc_array}
use zbus.Handshake.Utf8.{from_utf8}
use zbus.Zvariant.Dbus.{Basic, Value, width, Endian, panic, invalid_value, utf8}
use zbus.Zvariant.Dbus.Ser.{depth_checked}
use zbus.Zvariant.Dbus.De.{
  Deserializer, forward, parse_padding, next_slice, required, basic_value, deserialize_basic,
  read_len, has_long_len, deserialize_str, array_deserializer, field_read,
}
use zbus.Zvariant.Dbus.Advancing.{Inside, padding-Moves, slice-Moves, slice-pos}

-- No structure in the signature is empty.
unfoldable mutual
  pub TakesBytes : Signature → Type 0
  TakesBytes (Signature.array child) = TakesBytes child
  TakesBytes (Signature.dict key value) = TakesBytes key × TakesBytes value
  TakesBytes (Signature.structure sigs) = HasField sigs × AllTakeBytes sigs
  TakesBytes sig = Unit {0}

  pub HasField : Fields → Type 0
  HasField no_fields = ⊥
  HasField (field _ _) = Unit {0}

  pub AllTakeBytes : Fields → Type 0
  AllTakeBytes no_fields = Unit {0}
  AllTakeBytes (field sig sigs) = TakesBytes sig × AllTakeBytes sigs

pub width_positive : (kind : Basic) → 0 < width kind
width_positive Basic.u8 = omega arith
width_positive Basic.bool = omega arith
width_positive Basic.i16 = omega arith
width_positive Basic.u16 = omega arith
width_positive Basic.i32 = omega arith
width_positive Basic.u32 = omega arith
width_positive Basic.i64 = omega arith
width_positive Basic.u64 = omega arith
width_positive Basic.f64 = omega arith

padded_slice :
    (a len : ℕ) (s s' : Deserializer) (out : List ℕ)
    → Inside s
    → 0 < len
    → (parse_padding a s >>= next_slice len) ≡ ok (out, s')
    → s.pos < s'.pos
padded_slice a len s s' out i positive h =
    let (r, first, second) = bind_ok (parse_padding a s) (next_slice len) h in
    let (_, _, g, _) = padding-Moves a s r i first in
    let (_, p) = slice-pos len r s' out second in omega arith

len_forward :
    (sig : Signature) (long : Option Bool) (s s' : Deserializer) (out : List ℕ)
    → Inside s
    → read_len sig long s ≡ ok (out, s')
    → s.pos < s'.pos
len_forward sig none s s' out i h = absurd (cc h)
len_forward sig (some false) s s' out i h = let (_, p) = slice-pos 1 s s' out h in omega arith
len_forward sig (some true) s s' out i h = padded_slice 4 4 s s' out i (omega arith) h

pub field_read_pos :
    (sigs : Fields) (s sub : Deserializer) → (let t = field_read sigs s sub in t.pos ≡ sub.pos)
field_read_pos no_fields s sub = refl
field_read_pos (field _ _) s sub = refl

module _ (endian : Endian) where
  pub basic_forward :
      (kind : Basic) (s s' : Deserializer) (v : Value)
      → Inside s
      → deserialize_basic endian kind s ≡ ok (v, s')
      → s.pos < s'.pos
  unfolding deserialize_basic
  basic_forward kind s s' v i h =
      let ((slice, t), both, e) =
        bind_ok (parse_padding (width kind) s >>= next_slice (width kind)) _ h in
      let (w, _, at_end) = bind_ok (basic_value kind (endian.read slice)) _ e in
      let there : t ≡ s' = cc at_end in
      subst (λ s'. s.pos < s'.pos) there
        (padded_slice (width kind) (width kind) s t slice i (width_positive kind) both)

  pub str_forward :
      (sig : Signature) (s s' : Deserializer) (out : List ℕ)
      → Inside s
      → deserialize_str endian sig s ≡ ok (out, s')
      → s.pos < s'.pos
  unfolding deserialize_str
  str_forward sig s s' out i h =
      let ((len, r), first, e) = bind_ok (read_len sig (has_long_len sig) s) _ h in
      let ((slice, t), second, e1) = bind_ok (next_slice (endian.read len) r) _ e in
      let (_, _, e2) = bind_ok (ensure (not (any (λ b. b == 0) slice)) invalid_value) _ e1 in
      let (_, _, at_end) = bind_ok (required utf8 (from_utf8 slice)) _ e2 in
      let there : forward 1 t ≡ s' = cc at_end in
      let start = len_forward sig (has_long_len sig) s r len i first in
      let (_, p) = slice-pos (endian.read len) r t slice second in
      subst (λ s'. s.pos < s'.pos) there (omega arith)

  pub array_forward :
      (o : Option ℕ) (s s' : Deserializer) (a place : ℕ)
      → Inside s
      → array_deserializer endian o s ≡ ok ((a, place), s')
      → s.pos < s'.pos
  unfolding array_deserializer
  array_forward o s s' a place i h =
      let (r, first, e) = bind_ok (parse_padding 4 s) _ h in
      let (depths, _, e1) = bind_ok (depth_checked (inc_array r.container_depths)) _ e in
      let ((len, t), second, e2) =
        bind_ok (next_slice 4 (record r { container_depths = depths })) _ e1 in
      let (alignment, _, e3) = bind_ok (required panic o) _ e2 in
      let (u, third, at_end) = bind_ok (parse_padding alignment t) _ e3 in
      let there : u ≡ s' = cc at_end in
      let (_, _, g, _) = padding-Moves 4 s r i first in
      let (_, p) = slice-pos 4 (record r { container_depths = depths }) t len second in
      let ((b, q, g', k), low) =
        slice-Moves 4 (record r { container_depths = depths }) t len second in
      let (_, _, g'', _) =
        padding-Moves alignment t u (subst (λ l. t.pos ≤ length l + 1) (sym b) k) third in
      subst (λ s'. s.pos < s'.pos) there (omega arith)

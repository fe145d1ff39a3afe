-- ===== src/Zvariant/Dbus/Advancing.antt =====
-- Where the deserializer of zvariant/src/dbus/de.rs goes in its bytes, and what it reads.
use zbus.Prelude.{
  ℕ, zero, suc, ◌+◌, ◌≤◌, ◌≡◌, refl, sym, subst, ap, ◌∙◌, Bool, true, false, not, Option, none,
  some, List, [], ◌∷◌, ok, ◌>>=◌, bind_ok, ltb, ltb-cases, ◌==◌, ◌&&◌, Bool-cases, inl, inr, length,
  take, drop, get_elem?, ensure, any, arith, Result, err,
}
use zbus.Signature.{Signature, alignment_dbus, display}
use zbus.Signature.Nom.{Nom}
use zbus.Signature.Parser.{parse}
use zbus.Zvariant.Padding.{padding_for_n_bytes}
use zbus.Zvariant.Depths.{inc_array}
use zbus.Handshake.Utf8.{from_utf8}
use zbus.Zvariant.Dbus.{
  Failure, Basic, Text, Value, width, value_signature, basic_signature, text_signature, Endian,
  invalid_value, utf8, custom, panic,
}
use zbus.Zvariant.Dbus.Ser.{depth_checked}
use zbus.Zvariant.Dbus.De.{
  Deserializer, all_zero, forward, parse_padding, next_slice, required, Kind, is_bool, has_long_len,
  of_basic, of_text, of_variant, of_fd, of_unit, of_maybe, of_array, of_dict, of_structure, kind_of,
  basic_value, deserialize_basic, read_len, deserialize_str, text_value, array_deserializer, within,
  align,
}

-- A byte is skipped after a text without a check that it is there.
abbrev pub Inside : Deserializer → Type 0
Inside s = s.pos ≤ length s.bytes + 1

abbrev pub Moves : Deserializer → Deserializer → Type 0
Moves s s' =
    (s'.bytes ≡ s.bytes)
    × (s'.position ≡ s.position)
    × (s.pos ≤ s'.pos)
    × (s'.pos ≤ length s.bytes + 1)

pub Moves-refl : (s : Deserializer) → Inside s → Moves s s
Moves-refl s h = (refl, refl, omega arith, h)

pub Moves-Inside : (s s' : Deserializer) → Moves s s' → Inside s'
Moves-Inside s s' (b, p, g, i) = rw b i

pub Moves-trans : (r s t : Deserializer) → Moves r s → Moves s t → Moves r t
Moves-trans r s t (b, p, g, i) (b', p', g', i') =
    (b' ∙ b, p' ∙ p, omega arith, subst (λ l. t.pos ≤ length l + 1) b i')

pub padding-Moves :
    (a : ℕ) (s s' : Deserializer) → Inside s → parse_padding a s ≡ ok s' → Moves s s'
unfolding parse_padding
padding-Moves a s s' i h =
    let padding = padding_for_n_bytes (s.position + s.pos) a in
    elim (Bool-cases (ltb 0 padding)) [
      | inr e ↦ let stays : s ≡ s' = cc (rw e at h) in subst (Moves s) stays (Moves-refl s i)
      | inl e ↦ elim (ltb-cases (length s.bytes) (s.pos + padding)) [
        | inl (e', _) ↦ absurd (cc (rw (e, e') at h))
        | inr (e', fits) ↦
            let (_, _, at_end) =
              bind_ok (all_zero padding (drop s.pos s.bytes)) _ (rw (e, e') at h) in
            let there : forward padding s ≡ s' = cc at_end in
            subst (Moves s) there (refl, refl, omega arith, omega arith)
      ]
    ]

pub slice-Moves :
    (len : ℕ) (s s' : Deserializer) (out : List ℕ)
    → next_slice len s ≡ ok (out, s')
    → Moves s s' × (s'.pos ≤ length s.bytes)
unfolding next_slice
slice-Moves len s s' out h = elim (ltb-cases (length s.bytes) (s.pos + len)) [
  | inl (e, _) ↦ absurd (cc (rw e at h))
  | inr (e, fits) ↦
      let there : forward len s ≡ s' = cc (rw e at h) in
      subst (λ s'. Moves s s' × (s'.pos ≤ length s.bytes)) there
        ((refl, refl, omega arith, omega arith), fits)
]

unfoldable pub signature_of : Kind → Signature
signature_of (of_basic kind) = basic_signature kind
signature_of (of_text kind) = text_signature kind
signature_of of_variant = Signature.variant
signature_of of_fd = Signature.fd
signature_of of_unit = Signature.unit
signature_of (of_maybe child) = Signature.maybe child
signature_of (of_array child) = Signature.array child
signature_of (of_dict key value) = Signature.dict key value
signature_of (of_structure sigs) = Signature.structure sigs

pub signature_of-kind : (sig : Signature) → signature_of (kind_of sig) ≡ sig
unfolding signature_of
signature_of-kind Signature.unit = refl
signature_of-kind Signature.u8 = refl
signature_of-kind Signature.bool = refl
signature_of-kind Signature.i16 = refl
signature_of-kind Signature.u16 = refl
signature_of-kind Signature.i32 = refl
signature_of-kind Signature.u32 = refl
signature_of-kind Signature.i64 = refl
signature_of-kind Signature.u64 = refl
signature_of-kind Signature.f64 = refl
signature_of-kind Signature.str = refl
signature_of-kind Signature.signature = refl
signature_of-kind Signature.object_path = refl
signature_of-kind Signature.variant = refl
signature_of-kind Signature.fd = refl
signature_of-kind (Signature.array child) = refl
signature_of-kind (Signature.dict key value) = refl
signature_of-kind (Signature.structure sigs) = refl
signature_of-kind (Signature.maybe child) = refl

pub within-same :
    (place : ℕ) (read : Result Failure (Value × Deserializer)) (w : Value) (r : Deserializer)
    → within place read ≡ ok (w, r)
    → read ≡ ok (w, r)
within-same place (err e) w r h = absurd (cc h)
within-same place (ok (v, s)) w r h = elim (Bool-cases (ltb place s.pos)) [
  | inl e ↦ absurd (cc (rw e at h))
  | inr e ↦ rw e at h
]

basic_value-signature :
    (kind : Basic) (n : ℕ) (v : Value)
    → basic_value kind n ≡ ok v
    → value_signature v ≡ basic_signature kind
basic_value-signature kind n v h = elim (Bool-cases (is_bool kind && ltb 1 n)) [
  | inl e ↦ absurd (cc (rw e at h))
  | inr e ↦ let read : Value.basic kind n ≡ v = cc (rw e at h) in ap value_signature (sym read)
]

read_len-Moves :
    (sig : Signature) (long : Option Bool) (s s' : Deserializer) (out : List ℕ)
    → Inside s
    → read_len sig long s ≡ ok (out, s')
    → Moves s s' × (s'.pos ≤ length s.bytes)
read_len-Moves sig none s s' out i h = absurd (cc h)
read_len-Moves sig (some false) s s' out i h = slice-Moves 1 s s' out h
read_len-Moves sig (some true) s s' out i h =
    let (r, first, second) = bind_ok (parse_padding 4 s) (next_slice 4) h in
    let m = padding-Moves 4 s r i first in
    let (moved, low) = slice-Moves 4 r s' out second in
    (Moves-trans s r s' m moved, subst (λ l. s'.pos ≤ length l) m.0 low)

pub align-Moves :
    (sig : Signature) (s s' : Deserializer) → Inside s → align sig s ≡ ok s' → Moves s s'
align-Moves sig s s' i h =
    let (a, _, e) = bind_ok (required panic (alignment_dbus sig)) _ h in padding-Moves a s s' i e

byte_at : (xs : List ℕ) (i : ℕ) (b : ℕ) → get_elem? xs i ≡ some b → take 1 (drop i xs) ≡ b ∷ []
byte_at [] i b h = absurd (cc h)
byte_at (x ∷ xs) zero b h = let e : x ≡ b = cc h in ap (λ x. x ∷ []) e
byte_at (x ∷ xs) (suc i) b h = byte_at xs i b h

pub slice-pos :
    (len : ℕ) (s s' : Deserializer) (out : List ℕ)
    → next_slice len s ≡ ok (out, s')
    → (out ≡ take len (drop s.pos s.bytes)) × (s'.pos ≡ s.pos + len)
unfolding next_slice
slice-pos len s s' out h = elim (Bool-cases (ltb (length s.bytes) (s.pos + len))) [
  | inl e ↦ absurd (cc (rw e at h))
  | inr e ↦ (
    sym (cc (rw e at h)),
    let there : forward len s ≡ s' = cc (rw e at h) in ap (λ s. s.pos) (sym there),
  )
]

module _ (endian : Endian) where
  pub basic-Moves :
      (kind : Basic) (s s' : Deserializer) (v : Value)
      → Inside s
      → deserialize_basic endian kind s ≡ ok (v, s')
      → Moves s s' × (value_signature v ≡ basic_signature kind)
  unfolding deserialize_basic
  basic-Moves kind s s' v i h =
      let ((slice, t), both, e) =
        bind_ok (parse_padding (width kind) s >>= next_slice (width kind)) _ h in
      let (r, first, second) = bind_ok (parse_padding (width kind) s) _ both in
      let (w, value, at_end) = bind_ok (basic_value kind (endian.read slice)) _ e in
      let same_value : w ≡ v = cc at_end in
      let same_state : t ≡ s' = cc at_end in
      let moved =
        Moves-trans s r t (padding-Moves (width kind) s r i first)
          (slice-Moves (width kind) r t slice second).0 in
      (
        subst (Moves s) same_state moved,
        subst (λ v. value_signature v ≡ basic_signature kind) same_value
            (basic_value-signature kind (endian.read slice) w value),
      )

  pub str-Moves :
      (sig : Signature) (s s' : Deserializer) (out : List ℕ)
      → Inside s
      → deserialize_str endian sig s ≡ ok (out, s')
      → Moves s s'
  unfolding deserialize_str
  str-Moves sig s s' out i h =
      let ((len, r), first, e) = bind_ok (read_len sig (has_long_len sig) s) _ h in
      let ((slice, t), second, e1) = bind_ok (next_slice (endian.read len) r) _ e in
      let (_, _, e2) = bind_ok (ensure (not (any (λ b. b == 0) slice)) invalid_value) _ e1 in
      let (_, _, at_end) = bind_ok (required utf8 (from_utf8 slice)) _ e2 in
      let there : forward 1 t ≡ s' = cc at_end in
      let (m, _) = read_len-Moves sig (has_long_len sig) s r len i first in
      let (m', low) = slice-Moves (endian.read len) r t slice second in
      let (b, p, g, k) = Moves-trans s r t m m' in
      let low' : t.pos ≤ length s.bytes = subst (λ l. t.pos ≤ length l) m.0 low in
      subst (Moves s) there (b, p, omega arith, omega arith)

  pub array_deserializer-Moves :
      (o : Option ℕ) (s s' : Deserializer) (a place : ℕ)
      → Inside s
      → array_deserializer endian o s ≡ ok ((a, place), s')
      → Moves s s'
  unfolding array_deserializer
  array_deserializer-Moves o s s' a place i h =
      let (r, first, e) = bind_ok (parse_padding 4 s) _ h in
      let (depths, _, e1) = bind_ok (depth_checked (inc_array r.container_depths)) _ e in
      let ((len, t), second, e2) =
        bind_ok (next_slice 4 (record r { container_depths = depths })) _ e1 in
      let (alignment, _, e3) = bind_ok (required panic o) _ e2 in
      let (u, third, at_end) = bind_ok (parse_padding alignment t) _ e3 in
      let there : u ≡ s' = cc at_end in
      let m = padding-Moves 4 s r i first in
      let m1 = (slice-Moves 4 (record r { container_depths = depths }) t len second).0 in
      let m2 = Moves-trans s r t m m1 in
      subst (Moves s) there
        (Moves-trans s t u m2 (padding-Moves alignment t u (Moves-Inside s t m2) third))

  -- Where the signature of a variant ends.
  pub variant-pos :
      (s s' : Deserializer) (out : List ℕ) (b : ℕ)
      → get_elem? s.bytes s.pos ≡ some b
      → deserialize_str endian Signature.variant s ≡ ok (out, s')
      → s'.pos ≡ s.pos + 1 + b + 1
  unfolding deserialize_str
  variant-pos s s' out b at h =
      let ((len, r), first, e) = bind_ok (next_slice 1 s) _ h in
      let ((slice, t), second, e1) = bind_ok (next_slice (endian.read len) r) _ e in
      let (_, _, e2) = bind_ok (ensure (not (any (λ b. b == 0) slice)) invalid_value) _ e1 in
      let (_, _, at_end) = bind_ok (required utf8 (from_utf8 slice)) _ e2 in
      let there : forward 1 t ≡ s' = cc at_end in
      let (byte, p) = slice-pos 1 s r len first in
      let (_, p1) = slice-pos (endian.read len) r t slice second in
      let value : endian.read len ≡ b =
        ap endian.read (byte ∙ byte_at s.bytes s.pos b at) ∙ endian.read_byte b in
      let last : s'.pos ≡ t.pos + 1 = ap (λ s. s.pos) (sym there) in omega arith

module _ (nom : Nom) where
  pub text_value-signature :
      (kind : Text) (t : List ℕ) (v : Value)
      → text_value nom kind t ≡ ok v
      → value_signature v ≡ text_signature kind
  text_value-signature Text.str t v h =
      let e : Value.text Text.str t ≡ v = cc h in ap value_signature (sym e)
  text_value-signature Text.object_path t v h =
      let e : Value.text Text.object_path t ≡ v = cc h in ap value_signature (sym e)
  text_value-signature Text.signature t v h =
      let (sign, _, k) = bind_ok (required custom (parse nom t false)) _ h in
      let e : Value.text Text.signature (display sign) ≡ v = cc k in ap value_signature (sym e)

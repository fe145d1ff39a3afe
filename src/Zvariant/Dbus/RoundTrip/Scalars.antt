-- ===== src/Zvariant/Dbus/RoundTrip/Scalars.antt =====
-- Numbers and texts, as zvariant/src/dbus/de.rs reads them.
use zbus.Prelude.{
  ℕ, ◌+◌, ◌^◌, ◌<◌, ◌≡◌, refl, sym, subst, ap, ◌∙◌, Bool, true, false, some, List, [], ◌∷◌, ◌++◌,
  Result, ok, ◌>>=◌, ensure, not, any, ◌==◌, ltb-cases, inl, inr, length, length-append,
  append_assoc, arith,
}
use zbus.Signature.{Signature}
use zbus.Handshake.Utf8.{from_utf8}
use zbus.Zvariant.Depths.{ContainerDepths}
use zbus.Zvariant.Dbus.{Basic, Value, width, Endian, Failure, invalid_value, utf8}
use zbus.Zvariant.Dbus.De.{
  Deserializer, forward, required, parse_padding, next_slice, basic_value, deserialize_basic,
  read_len, has_long_len, deserialize_str,
}
use zbus.Zvariant.Dbus.Reference.{zeros, encode_text, followed}
use zbus.Zvariant.Dbus.RoundTrip.Ahead.{reader, Ahead, slice-Ahead}
use zbus.Zvariant.Dbus.RoundTrip.Aligned.{zeros_1}
use zbus.Zvariant.Dbus.RoundTrip.Combine.{Reads, Reads-same, Reads-followed, Reads-padding}
use zbus.Zvariant.Dbus.RoundTrip.Readable.{IsBits, IsText}

-- A slice of so many bytes.
pub slice-Reads :
    (d : ContainerDepths) (n : ℕ) (xs : List ℕ)
    → length xs ≡ n
    → Reads d d (next_slice n) (λ at. xs) xs
slice-Reads d n xs len bytes left pos position ahead small =
    ap (λ n. next_slice n (reader bytes pos position d)) (sym len)
    ∙ slice-Ahead bytes xs left pos position d ahead

basic_value-ok :
    (kind : Basic) (n : ℕ) → IsBits kind n → basic_value kind n ≡ ok (Value.basic kind n)
basic_value-ok Basic.u8 n h = refl
basic_value-ok Basic.bool n h = elim (ltb-cases 1 n) [
  | inl (_, more) ↦ absurd (omega arith)
  | inr (e, _) ↦ rw e refl
]
basic_value-ok Basic.i16 n h = refl
basic_value-ok Basic.u16 n h = refl
basic_value-ok Basic.i32 n h = refl
basic_value-ok Basic.u32 n h = refl
basic_value-ok Basic.i64 n h = refl
basic_value-ok Basic.u64 n h = refl
basic_value-ok Basic.f64 n h = refl

IsBits-fits : (kind : Basic) (n : ℕ) → IsBits kind n → n < 256 ^ width kind
IsBits-fits Basic.u8 n h = h
IsBits-fits Basic.bool n h = omega arith
IsBits-fits Basic.i16 n h = h
IsBits-fits Basic.u16 n h = h
IsBits-fits Basic.i32 n h = h
IsBits-fits Basic.u32 n h = h
IsBits-fits Basic.i64 n h = h
IsBits-fits Basic.u64 n h = h
IsBits-fits Basic.f64 n h = h

-- The bytes of the length of a text.
abbrev pub prefix_width : Bool → ℕ
prefix_width true = 4
prefix_width false = 1

module _ (endian : Endian) (d : ContainerDepths) where
  -- A number of some bytes.
  number-Reads :
      (w n : ℕ)
      → Reads d d
          (λ s. parse_padding w s >>= next_slice w)
          (λ at. followed at (zeros at w) (λ at. endian.write w n))
          (endian.write w n)
  number-Reads w n =
      Reads-padding d d w (next_slice w) (λ at. endian.write w n) (endian.write w n)
        (slice-Reads d w (endian.write w n) (endian.length-write w n))

  pub basic-Reads :
      (kind : Basic) (n : ℕ)
      → IsBits kind n
      → Reads d d
          (deserialize_basic endian kind)
          (λ at. zeros at (width kind) ++ endian.write (width kind) n)
          (Value.basic kind n)
  unfolding deserialize_basic
  basic-Reads kind n bits bytes left pos position ahead small =
      ap (λ r. r >>= λ (slice, s). basic_value kind (endian.read slice) >>= λ v. ok (v, s))
        (number-Reads (width kind) n bytes left pos position ahead small)
      ∙ rw (endian.read-write (width kind) n (IsBits-fits kind n bits), basic_value-ok kind n bits)
          refl

  abbrev len_bytes : Bool → ℕ → ℕ → List ℕ
  len_bytes long n at =
      followed at (zeros at (prefix_width long)) (λ at. endian.write (prefix_width long) n)

  len-Reads :
      (sig : Signature) (long : Bool) (n : ℕ)
      → Reads d d (read_len sig (some long)) (len_bytes long n) (endian.write (prefix_width long) n)
  len-Reads sig true n = number-Reads 4 n
  len-Reads sig false n =
      Reads-same d d (next_slice 1) (λ at. endian.write 1 n)
        (λ at. followed at (zeros at 1) (λ at. endian.write 1 n)) (endian.write 1 n)
        (λ at small. ap (λ z. z ++ endian.write 1 n) (zeros_1 at small))
        (slice-Reads d 1 (endian.write 1 n) (endian.length-write 1 n))

  -- The bytes of a text of a length, and its NUL.
  abbrev after_len : ℕ → Deserializer → Result Failure (List ℕ × Deserializer)
  after_len n s = next_slice n s >>= λ (slice, s).
      ensure (not (any (λ b. b == 0) slice)) invalid_value >>= λ _.
      required utf8 (from_utf8 slice) >>= λ _. ok (slice, forward 1 s)

  after_len-Reads :
      (v : List ℕ) → IsText v → Reads d d (after_len (length v)) (λ at. v ++ (0 ∷ [])) v
  after_len-Reads v (no_nul, s, is_utf8) bytes left pos position ahead small =
      let l = length-append v (0 ∷ []) in
      let at_end : pos + length v + 1 ≡ pos + length (v ++ (0 ∷ [])) = omega arith in
      rw
        (
          slice-Ahead bytes v (0 ∷ left) pos position d
              (subst (Ahead bytes pos) (append_assoc v (0 ∷ []) left) ahead),
          no_nul,
          is_utf8,
        )
        (ap (λ n. ok (v, reader bytes n position d)) at_end)

  pub str-Reads :
      (sig : Signature) (long : Bool) (v : List ℕ)
      → has_long_len sig ≡ some long
      → length v < 256 ^ prefix_width long
      → IsText v
      → Reads d d (deserialize_str endian sig) (λ at. encode_text endian at (prefix_width long) v) v
  unfolding deserialize_str
  str-Reads sig long v e fits text =
      let n = endian.read-write (prefix_width long) (length v) fits in
      Reads-same d d (deserialize_str endian sig)
        (λ at. followed at (len_bytes long (length v) at) (λ at. v ++ (0 ∷ [])))
        (λ at. encode_text endian at (prefix_width long) v) v
        (λ at small. append_assoc (len_bytes long (length v) at) v (0 ∷ []))
        (subst
          (λ o.
            Reads d d (λ s. read_len sig o s >>= λ (len, s). after_len (endian.read len) s)
              (λ at. followed at (len_bytes long (length v) at) (λ at. v ++ (0 ∷ []))) v)
          (sym e)
          (Reads-followed d d d (read_len sig (some long)) (λ len. after_len (endian.read len))
            (len_bytes long (length v)) (λ at. v ++ (0 ∷ []))
            (endian.write (prefix_width long) (length v)) v (len-Reads sig long (length v))
            (subst (λ n. Reads d d (after_len n) (λ at. v ++ (0 ∷ [])) v) (sym n)
              (after_len-Reads v text))))

-- ===== src/Zvariant/Dbus/RoundTrip/Variants.antt =====
-- The signature of a variant, which zvariant/src/dbus/de.rs reads twice, and its value.
use zbus.Prelude.{
  ℕ, zero, suc, ◌+◌, ◌^◌, ◌<◌, ◌≡◌, refl, sym, subst, ap, ◌∙◌, inl, inr, some, List, [], ◌∷◌, ◌++◌,
  Result, ok, ◌>>=◌, false, ltb-cases, length, take, drop, get_elem?, length-append, length-drop,
  take-append, append_assoc, arith,
}
use zbus.Signature.{Signature, display, alignment_dbus, IsComplete}
use zbus.Signature.Nom.{Nom}
use zbus.Signature.Parser.{parse}
use zbus.Signature.Parser.TopLevel.{parse-display}
use zbus.Zvariant.Depths.{ContainerDepths}
use zbus.Zvariant.Depths.Nesting.{variant, deeper, IsValid, inc_variant-deeper}
use zbus.Zvariant.Dbus.{Value, Endian, Failure, custom}
use zbus.Zvariant.Dbus.De.{
  Deserializer, forward, required, align, subslice, subslice_from, deserialize_str,
  value_deserializer,
}
use zbus.Zvariant.Dbus.Reference.{zeros, encode_text, followed}
use zbus.Zvariant.Dbus.RoundTrip.Ahead.{reader, Ahead, Ahead-forward}
use zbus.Zvariant.Dbus.RoundTrip.Aligned.{zeros_1, bytes-IsPadded}
use zbus.Zvariant.Dbus.RoundTrip.Combine.{Reads, Reads-same, Reads-aligned, Ahead-followed}
use zbus.Zvariant.Dbus.RoundTrip.Readable.{display-IsText}
use zbus.Zvariant.Dbus.RoundTrip.Scalars.{str-Reads}

write_byte : (endian : Endian) (n : ℕ) → n < 256 → endian.write 1 n ≡ n ∷ []
write_byte endian n small =
    one (endian.write 1 n) (endian.length-write 1 n) (endian.read-write 1 n (omega arith))
  where
    one : (xs : List ℕ) → length xs ≡ 1 → endian.read xs ≡ n → xs ≡ n ∷ []
    one [] len e = absurd (omega arith)
    one (b ∷ []) len e = ap (λ b. b ∷ []) (sym (endian.read_byte b) ∙ e)
    one (b ∷ c ∷ xs) len e = absurd (omega arith)

get_elem?-drop :
    (bytes rest : List ℕ) (pos b : ℕ) → drop pos bytes ≡ b ∷ rest → get_elem? bytes pos ≡ some b
get_elem?-drop [] rest zero b e = absurd (cc e)
get_elem?-drop [] rest (suc pos) b e = absurd (cc e)
get_elem?-drop (x ∷ bytes) rest zero b e = cc e
get_elem?-drop (x ∷ bytes) rest (suc pos) b e = get_elem?-drop bytes rest pos b e

subslice-Ahead :
    (bytes xs left : List ℕ) (pos : ℕ)
    → Ahead bytes pos (xs ++ left)
    → subslice pos (length xs) bytes ≡ ok xs
unfolding subslice
subslice-Ahead bytes xs left pos (len, e) =
    let l = length-append xs left in
    elim (ltb-cases (length bytes) (pos + length xs)) [
      | inl (_, past) ↦ absurd (omega arith)
      | inr (within, _) ↦
          rw (subslice, within) (ap (λ s. ok (take (length xs) s)) e ∙ ap ok (take-append xs left))
    ]

subslice_from-Ahead :
    (bytes left : List ℕ) (pos : ℕ)
    → Ahead bytes pos left
    → subslice_from pos bytes ≡ ok (drop pos bytes)
unfolding subslice_from
subslice_from-Ahead bytes left pos (len, _) = elim (ltb-cases (length bytes) pos) [
  | inl (_, past) ↦ absurd (omega arith)
  | inr (within, _) ↦ rw (subslice_from, within) refl
]

module _ (endian : Endian) (nom : Nom) (d : ContainerDepths) (valid : IsValid d)
    (fits : IsValid (deeper variant d)) where
  -- The deserializer of the value, at the place after the signature.
  value_deserializer-Ahead :
      (sign : Signature) (bytes more : List ℕ) (pos position : ℕ)
      → IsComplete sign
      → length (display sign) < 256
      → Ahead bytes pos ((length (display sign) ∷ display sign ++ (0 ∷ [])) ++ more)
      → value_deserializer nom pos (reader bytes (pos + (length (display sign) + 2)) position d)
        ≡ ok (
          sign,
          reader
              (drop (pos + (length (display sign) + 2)) bytes)
              0
              (position + (pos + (length (display sign) + 2)))
              (deeper variant d),
        )
  unfolding value_deserializer
  value_deserializer-Ahead sign bytes more pos position complete short ahead =
      let t = display sign in
      let n = length t in
      let ahead1 : Ahead bytes pos ((n ∷ []) ++ (t ++ ((0 ∷ []) ++ more))) =
        subst (λ xs. Ahead bytes pos (n ∷ xs)) (append_assoc t (0 ∷ []) more) ahead in
      let ahead2 : Ahead bytes (pos + 1) (t ++ ((0 ∷ []) ++ more)) =
        Ahead-forward bytes (n ∷ []) (t ++ ((0 ∷ []) ++ more)) pos ahead1 in
      let ahead3 = Ahead-forward bytes t ((0 ∷ []) ++ more) (pos + 1) ahead2 in
      let ahead4 : Ahead bytes (pos + 1 + n + 1) more =
        Ahead-forward bytes (0 ∷ []) more (pos + 1 + n) ahead3 in
      let place : pos + 1 + n + 1 ≡ pos + (n + 2) = omega arith in
      rw
        (
          get_elem?-drop bytes (t ++ ((0 ∷ []) ++ more)) pos n ahead1.1,
          subslice-Ahead bytes t ((0 ∷ []) ++ more) (pos + 1) ahead2,
          parse-display nom sign complete,
          subslice_from-Ahead bytes more (pos + 1 + n + 1) ahead4,
          inc_variant-deeper d valid fits,
        )
        (ap (λ k. ok (sign, reader (drop k bytes) 0 (position + k) (deeper variant d))) place)

  -- Reading a variant, by how its value is read.
  abbrev pub variant_with :
      (Signature → Deserializer → Result Failure (Value × Deserializer))
      → Deserializer
      → Result Failure (Value × Deserializer)
  variant_with inner s = deserialize_str endian Signature.variant s >>= λ (slice, r).
      required custom (parse nom slice false) >>= λ _.
      value_deserializer nom s.pos r >>= λ (sign, sub).
      inner sign sub >>= λ (v, sub). ok (Value.variant v, forward sub.pos r)

  -- The signature of a variant, with its length and its NUL.
  abbrev signed : Signature → List ℕ
  signed sign = length (display sign) ∷ display sign ++ (0 ∷ [])

  encode_text-signed :
      (sign : Signature) (at : ℕ)
      → length (display sign) < 256
      → at < 2 ^ 63
      → encode_text endian at 1 (display sign) ≡ signed sign
  encode_text-signed sign at short small =
      ap (λ z. z ++ endian.write 1 (length (display sign)) ++ display sign ++ (0 ∷ []))
        (zeros_1 at small)
      ∙ ap (λ w. w ++ display sign ++ (0 ∷ [])) (write_byte endian (length (display sign)) short)

  after_signature :
      (inner : Signature → Deserializer → Result Failure (Value × Deserializer)) (enc : ℕ → List ℕ)
      (v : Value) (sign : Signature)
      → IsComplete sign
      → length (display sign) < 256
      → Reads (deeper variant d) (deeper variant d) (inner sign) enc v
      → Reads d d (variant_with inner) (λ at. followed at (signed sign) enc) (Value.variant v)
  after_signature inner enc v sign complete short reads bytes left pos position ahead small =
      let t = display sign in
      let place = pos + (length t + 2) in
      let (more, here, later, at_end) =
        Ahead-followed (λ at. signed sign) enc bytes left pos position ahead in
      let l = length-append t (0 ∷ []) in
      let long : pos + length (signed sign) ≡ place = omega arith in
      let (len, e) : Ahead bytes place (enc (position + place) ++ left) =
        subst (λ n. Ahead bytes n (enc (position + n) ++ left)) long later in
      let ends : place + length (enc (position + place))
          ≡ pos + length (followed (position + pos) (signed sign) enc) =
        subst
          (λ n.
            n + length (enc (position + n))
            ≡ pos + length (followed (position + pos) (signed sign) enc))
          long at_end in
      let zero_on : position + place ≡ position + place + 0 = omega arith in
      let dropped = length-drop place bytes in
      let text : deserialize_str endian Signature.variant (reader bytes pos position d)
          ≡ ok (t, reader bytes place position d) =
        Reads-same d d (deserialize_str endian Signature.variant) (λ at. encode_text endian at 1 t)
          (λ at. signed sign) t (λ at small. sym (encode_text-signed sign at short small))
          (str-Reads endian d Signature.variant false t refl (omega arith) (display-IsText sign))
          bytes more pos position here small
        ∙ ap (λ n. ok (t, reader bytes n position d)) long in
      let len' : 0 + length (enc (position + place) ++ left) ≡ length (drop place bytes) =
        omega arith in
      let value =
        reads (drop place bytes) left 0 (position + place)
          (subst (λ n. Ahead (drop place bytes) 0 (enc n ++ left)) zero_on (len', e))
          (omega arith) in
      let ends' : place + (0 + length (enc (position + place + 0)))
          ≡ pos + length (followed (position + pos) (signed sign) enc) =
        let same = ap (λ n. length (enc n)) zero_on in omega arith in
      rw
        (
          text,
          parse-display nom sign complete,
          value_deserializer-Ahead sign bytes more pos position complete short here,
          value,
        )
        (ap (λ n. ok (Value.variant v, reader bytes n position d)) ends')

  pub variant-Reads :
      (inner : Signature → Deserializer → Result Failure (Value × Deserializer)) (enc : ℕ → List ℕ)
      (v : Value) (sign : Signature)
      → IsComplete sign
      → length (display sign) < 256
      → Reads (deeper variant d) (deeper variant d) (inner sign) enc v
      → Reads d d
          (λ s. align Signature.variant s >>= variant_with inner)
          (λ at.
            followed at
              (followed at (zeros at 1) (λ at. encode_text endian at 1 (display sign)))
              enc)
          (Value.variant v)
  unfolding alignment_dbus
  variant-Reads inner enc v sign complete short reads =
      Reads-same d d (λ s. align Signature.variant s >>= variant_with inner)
        (λ at. followed at (signed sign) enc)
        (λ at.
          followed at (followed at (zeros at 1) (λ at. encode_text endian at 1 (display sign))) enc)
        (Value.variant v)
        (λ at small.
          ap (λ xs. followed at xs enc)
            (ap (λ z. z ++ encode_text endian (at + length z) 1 (display sign)) (zeros_1 at small)
              ∙ encode_text-signed sign (at + 0) short (omega arith)))
        (Reads-aligned d d 1 (variant_with inner) (λ at. followed at (signed sign) enc)
          (Value.variant v) (bytes-IsPadded (λ at. followed at (signed sign) enc))
          (after_signature inner enc v sign complete short reads))

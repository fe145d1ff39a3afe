-- ===== src/Address/Percent/Grammar.antt =====
-- What `decode_percents` accepts (zbus/src/address/percent.rs).
use zbus.Prelude.{
  ok, bind_ok, ℕ, ◌+◌, ◌-◌, ◌*◌, ◌/◌, ◌%◌, ◌<◌, ◌≡◌, ap, sym, ◌∙◌, ◌↔◌, ◌⊎◌, bit_or, true, false,
  List, [], ◌∷◌, ◌++◌, append-nil, append_assoc, arith, ltb, ◌==◌, if◌then◌else◌, Bool-cases,
  ==_iff, inl, inr,
}
use native.Mathlib.Nat.{mod-eq_of_lt}
use zbus.Address.Percent.{
  is_allowed_char, upper_hex, decode_hex, decode_hex_pair, decode_loop, decode_percents,
}
use zbus.Address.Percent.RoundTrip.{
  is_allowed_char_facts, join_nibbles, decode_loop_plain, decode_loop_escape,
  decode_percents-eq-loop,
}

abbrev pub lower_hex : ℕ → ℕ
lower_hex d = if ltb d 10 then b'0' + d else b'a' + (d - 10)

-- `c` is a hexadecimal digit, in either case, of value `d`.
abbrev pub IsHexDigit : ℕ → ℕ → Type 0
IsHexDigit c d = (d < 16) × ((c ≡ upper_hex d) ⊎ (c ≡ lower_hex d))

-- The texts of the address grammar, with the bytes that they stand for.
pub data Decodes : List ℕ → List ℕ → Type 0 where
  done : Decodes [] []
  plain :
      {c : ℕ} {chars bytes : List ℕ}
      → is_allowed_char c ≡ true
      → Decodes chars bytes
      → Decodes (c ∷ chars) (c ∷ bytes)
  escaped :
      {p high low : ℕ} {chars bytes : List ℕ} (x y : ℕ)
      → p ≡ b'%'
      → IsHexDigit high x
      → IsHexDigit low y
      → Decodes chars bytes
      → Decodes (p ∷ high ∷ low ∷ chars) ((x * 16 + y) ∷ bytes)

decode_hex_iff : (c d : ℕ) → (decode_hex c ≡ ok d) ↔ IsHexDigit c d
unfolding decode_hex upper_hex
decode_hex_iff c d = (λ h. ground arith, λ h. ground arith)

joined : (x y : ℕ) → x < 16 → y < 16 → bit_or (x * 16 % 256) y ≡ x * 16 + y
joined x y hx hy =
    let high : (x * 16 + y) / 16 ≡ x = omega arith in
    let low : (x * 16 + y) % 16 ≡ y = omega arith in
    rw (high, low) at (join_nibbles (x * 16 + y) (omega arith))

decode_hex_pair_sound :
    (high low byte : ℕ)
    → decode_hex_pair high low ≡ ok byte
    → (x : ℕ) × (y : ℕ) × IsHexDigit high x × IsHexDigit low y × (byte ≡ x * 16 + y)
unfolding decode_hex_pair
decode_hex_pair_sound high low byte h =
    let (x, hx, rest) = bind_ok (decode_hex high) _ h in
    let (y, hy, e) = bind_ok (decode_hex low) _ rest in
    let dx = (decode_hex_iff high x).0 hx in
    let dy = (decode_hex_iff low y).0 hy in (x, y, dx, dy, cc (joined x y dx.0 dy.0))

decode_hex_pair_complete :
    (high low x y : ℕ)
    → IsHexDigit high x
    → IsHexDigit low y
    → decode_hex_pair high low ≡ ok (x * 16 + y)
unfolding decode_hex_pair
decode_hex_pair_complete high low x y hx hy =
    rw ((decode_hex_iff high x).1 hx)
      (rw ((decode_hex_iff low y).1 hy) (ap ok (joined x y hx.0 hy.0)))

decode_loop_complete :
    {chars bytes : List ℕ} (decoded : List ℕ)
    → Decodes chars bytes
    → decode_loop decoded chars ≡ ok (decoded ++ bytes)
decode_loop_complete decoded done = unfold decode_loop in ap ok (sym (append-nil decoded))
decode_loop_complete decoded (plain {c} {chars} {bytes} h rest) =
    let ascii = (is_allowed_char_facts c h).1 in
    decode_loop_plain decoded c chars h
    ∙ rw (mod-eq_of_lt {n = c} {m = 256} (omega arith)) (
        decode_loop_complete (decoded ++ c ∷ []) rest ∙ ap ok (append_assoc decoded (c ∷ []) bytes))
decode_loop_complete decoded (escaped {p} {high} {low} {chars} {bytes} x y e hx hy rest) =
    let byte = x * 16 + y in
    rw e (
      decode_loop_escape decoded high low chars (decode_hex_pair_complete high low x y hx hy)
      ∙ decode_loop_complete (decoded ++ byte ∷ []) rest
      ∙ ap ok (append_assoc decoded (byte ∷ []) bytes))

-- A run of the loop that succeeds has read a text of the grammar.
abbrev Reads : List ℕ → List ℕ → List ℕ → Type 0
Reads decoded chars out = (bytes : List ℕ) × Decodes chars bytes × (out ≡ decoded ++ bytes)

Reads-plain :
    (decoded : List ℕ) (c : ℕ) (chars out : List ℕ)
    → is_allowed_char c ≡ true
    → Reads (decoded ++ (c % 256) ∷ []) chars out
    → Reads decoded (c ∷ chars) out
Reads-plain decoded c chars out h (bytes, rest, e) =
    let small : c % 256 ≡ c = mod-eq_of_lt (omega (arith, (is_allowed_char_facts c h).1)) in
    (c ∷ bytes, plain h rest, rw small at e ∙ append_assoc decoded (c ∷ []) bytes)

-- A character other than `%` that was read is allowed, and the loop goes on behind it.
plain_step :
    (decoded : List ℕ) (c : ℕ) (chars : List ℕ) {out : List ℕ}
    → (c == b'%') ≡ false
    → decode_loop decoded (c ∷ chars) ≡ ok out
    → (is_allowed_char c ≡ true) × (decode_loop (decoded ++ (c % 256) ∷ []) chars ≡ ok out)
unfolding decode_loop
plain_step decoded c [] e h = ground arith
plain_step decoded c (x ∷ []) e h = ground arith
plain_step decoded c (x ∷ y ∷ chars) e h = ground arith

plain_sound :
    (decoded : List ℕ) (c : ℕ) (chars out : List ℕ)
    → (decode_loop (decoded ++ (c % 256) ∷ []) chars ≡ ok out
        → Reads (decoded ++ (c % 256) ∷ []) chars out)
    → (c == b'%') ≡ false
    → decode_loop decoded (c ∷ chars) ≡ ok out
    → Reads decoded (c ∷ chars) out
plain_sound decoded c chars out ih e h =
    let (allowed, rest) = plain_step decoded c chars e h in
    Reads-plain decoded c chars out allowed (ih rest)

escaped_step :
    (decoded : List ℕ) (c high low : ℕ) (chars : List ℕ) {out : List ℕ}
    → (c == b'%') ≡ true
    → decode_loop decoded (c ∷ high ∷ low ∷ chars) ≡ ok out
    → (byte : ℕ) × (decode_hex_pair high low ≡ ok byte)
      × (decode_loop (decoded ++ byte ∷ []) chars ≡ ok out)
unfolding decode_loop
escaped_step decoded c high low chars e h = bind_ok (decode_hex_pair high low) _ (rw e at h)

escaped_sound :
    (decoded : List ℕ) (c high low : ℕ) (chars out : List ℕ)
    → ((byte : ℕ)
        → decode_loop (decoded ++ byte ∷ []) chars ≡ ok out
        → Reads (decoded ++ byte ∷ []) chars out)
    → (c == b'%') ≡ true
    → decode_loop decoded (c ∷ high ∷ low ∷ chars) ≡ ok out
    → Reads decoded (c ∷ high ∷ low ∷ chars) out
escaped_sound decoded c high low chars out ih e h =
    let (byte, pair, rest) = escaped_step decoded c high low chars e h in
    let (x, y, hx, hy, value) = decode_hex_pair_sound high low byte pair in
    let (bytes, d, same) = ih byte rest in
    (
      (x * 16 + y) ∷ bytes,
      escaped x y ((==_iff c b'%').0 e) hx hy d,
      same ∙ append_assoc decoded (byte ∷ []) bytes ∙ ap (λ b. decoded ++ b ∷ bytes) value,
    )

decode_loop_sound :
    (decoded chars out : List ℕ) → decode_loop decoded chars ≡ ok out → Reads decoded chars out
decode_loop_sound decoded [] out h =
    ([], done, unfold decode_loop in (cc h ∙ sym (append-nil decoded)))
decode_loop_sound decoded (c ∷ []) out h = elim (Bool-cases (c == b'%')) [
  | inl e ↦ absurd (unfold decode_loop in cc (rw e at h))
  | inr e ↦ plain_sound decoded c [] out (decode_loop_sound _ [] out) e h
]
decode_loop_sound decoded (c ∷ high ∷ []) out h = elim (Bool-cases (c == b'%')) [
  | inl e ↦ absurd (unfold decode_loop in cc (rw e at h))
  | inr e ↦ plain_sound decoded c (high ∷ []) out (decode_loop_sound _ (high ∷ []) out) e h
]
decode_loop_sound decoded (c ∷ high ∷ low ∷ chars) out h = elim (Bool-cases (c == b'%')) [
  | inl e ↦
      escaped_sound decoded c high low chars out
        (λ byte. decode_loop_sound (decoded ++ byte ∷ []) chars out) e h
  | inr e ↦
      plain_sound decoded c (high ∷ low ∷ chars) out (decode_loop_sound _ (high ∷ low ∷ chars) out)
        e h
]

-- Decoding succeeds on exactly the texts of the grammar, with the bytes that they stand for.
pub decode_percents-eq-ok_iff :
    (value bytes : List ℕ) → (decode_percents value ≡ ok bytes) ↔ Decodes value bytes
decode_percents-eq-ok_iff value bytes =
    rw (decode_percents-eq-loop value) (sound, decode_loop_complete [])
  where
    sound : decode_loop [] value ≡ ok bytes → Decodes value bytes
    sound h = let (out, d, e) = decode_loop_sound [] value bytes h in rw e d

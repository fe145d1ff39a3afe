-- ===== src/Address/Percent/RoundTrip.antt =====
-- `decode_percents` undoes `encode_percents` (zbus/src/address/percent.rs).
use zbus.Prelude.{
  ok, ℕ, ◌*◌, ◌/◌, ◌%◌, ◌<◌, ◌≡◌, refl, ap, sym, ◌∙◌, bit_or, Bool, true, false, ◌&&◌, List, [],
  ◌∷◌, ◌++◌, append-nil, append_assoc, arith, ◌==◌, All, Bool-cases, inl, inr, zero, suc,
}
use native.Mathlib.Nat.{mod-eq_of_lt}
use zbus.Text.{IsByte, IsAscii, utf8, utf8-cons_ascii}
use zbus.Address.Percent.{
  Fallible, upper_hex, is_allowed_char, encode_percents, decode_hex, decode_hex_pair, decode_loop,
  needs_decoding, decode_percents,
}

pub is_allowed_char_facts : (c : ℕ) → is_allowed_char c ≡ true → ((c == b'%') ≡ false) × IsAscii c
unfolding is_allowed_char
is_allowed_char_facts c h = ground arith

pub decode_loop_plain :
    (decoded : List ℕ) (c : ℕ) (chars : List ℕ)
    → is_allowed_char c ≡ true
    → decode_loop decoded (c ∷ chars) ≡ decode_loop (decoded ++ (c % 256) ∷ []) chars
unfolding decode_loop
decode_loop_plain decoded c [] h = rw ((is_allowed_char_facts c h).0, h)
decode_loop_plain decoded c (x ∷ []) h = rw ((is_allowed_char_facts c h).0, h)
decode_loop_plain decoded c (x ∷ y ∷ chars) h = rw ((is_allowed_char_facts c h).0, h)

pub decode_hex-upper_hex : (d : ℕ) → d < 16 → decode_hex (upper_hex d) ≡ ok d
unfolding decode_hex upper_hex
decode_hex-upper_hex d h = ground arith

nibbles : ℕ → Bool
nibbles zero = true
nibbles (suc n) = (bit_or (n / 16 * 16 % 256) (n % 16) == n) && nibbles n

nibbles_sound : (n i : ℕ) → nibbles n ≡ true → i < n → bit_or (i / 16 * 16 % 256) (i % 16) ≡ i
unfolding nibbles
nibbles_sound zero i t h = absurd (omega arith)
nibbles_sound (suc n) i t h = ground (arith, nibbles_sound n i)

pub join_nibbles : (b : ℕ) → IsByte b → bit_or (b / 16 * 16 % 256) (b % 16) ≡ b
unfolding nibbles
join_nibbles b h = nibbles_sound 256 b refl h

decode_hex_pair-upper_hex :
    (b : ℕ) → IsByte b → decode_hex_pair (upper_hex (b / 16)) (upper_hex (b % 16)) ≡ ok b
unfolding decode_hex_pair
decode_hex_pair-upper_hex b h =
    rw (decode_hex-upper_hex (b / 16) (omega arith))
      (rw (decode_hex-upper_hex (b % 16) (omega arith)) (ap ok (join_nibbles b h)))

pub decode_loop_escape :
    (decoded : List ℕ) (high low : ℕ) (chars : List ℕ) {byte : ℕ}
    → decode_hex_pair high low ≡ ok byte
    → decode_loop decoded (b'%' ∷ high ∷ low ∷ chars) ≡ decode_loop (decoded ++ byte ∷ []) chars
unfolding decode_loop
decode_loop_escape decoded high low chars e = rw e

decode_loop-encode :
    (decoded value : List ℕ)
    → All IsByte value
    → decode_loop decoded (encode_percents value) ≡ ok (decoded ++ value)
unfolding encode_percents
decode_loop-encode decoded [] h = unfold decode_loop in ap ok (sym (append-nil decoded))
decode_loop-encode decoded (b ∷ value) (hb, hv) = elim (Bool-cases (is_allowed_char b)) [
  | inl plain ↦ rw plain (
      decode_loop_plain decoded b (encode_percents value) plain
      ∙ rw (mod-eq_of_lt hb) (decode_loop-encode (decoded ++ b ∷ []) value hv ∙ tail))
  | inr other ↦ rw other (
      decode_loop_escape decoded _ _ (encode_percents value) (decode_hex_pair-upper_hex b hb)
      ∙ decode_loop-encode (decoded ++ b ∷ []) value hv
      ∙ tail)
]
  where
    tail :
        ◌≡◌ {A = Fallible (List ℕ)} (ok ((decoded ++ b ∷ []) ++ value)) (ok (decoded ++ b ∷ value))
    tail = ap ok (append_assoc decoded (b ∷ []) value)

decode_loop_plain_text :
    (decoded chars : List ℕ)
    → needs_decoding chars ≡ false
    → decode_loop decoded chars ≡ ok (decoded ++ utf8 chars)
unfolding needs_decoding
decode_loop_plain_text decoded [] h = unfold decode_loop utf8 in ap ok (sym (append-nil decoded))
decode_loop_plain_text decoded (c ∷ chars) h =
    let allowed : is_allowed_char c ≡ true = ground arith in
    let ascii = (is_allowed_char_facts c allowed).1 in
    decode_loop_plain decoded c chars allowed
    ∙ rw (mod-eq_of_lt {n = c} {m = 256} (omega arith)) (
        decode_loop_plain_text (decoded ++ c ∷ []) chars (ground arith)
        ∙ rw (utf8-cons_ascii c chars ascii) (ap ok (append_assoc decoded (c ∷ []) (utf8 chars))))

-- The shortcut for a text with nothing to decode gives what the loop would give.
pub decode_percents-eq-loop : (value : List ℕ) → decode_percents value ≡ decode_loop [] value
unfolding decode_percents
decode_percents-eq-loop value = elim (Bool-cases (needs_decoding value)) [
  | inl coded ↦ rw coded
  | inr plain ↦ rw plain (sym (decode_loop_plain_text [] value plain))
]

-- Every byte string is read back from its percent encoding.
pub decode-encode_percents :
    (value : List ℕ) → All IsByte value → decode_percents (encode_percents value) ≡ ok value
decode-encode_percents value h =
    decode_percents-eq-loop (encode_percents value) ∙ decode_loop-encode [] value h

-- ===== src/Handshake/Command/Reference.antt =====
-- An instance of the interface to the crate hex: two lower-case digits for each byte.
use zbus.Prelude.{
  ℕ, ◌+◌, ◌-◌, ◌*◌, ◌/◌, ◌%◌, ◌<◌, ◌≡◌, refl, true, Option, none, some, List, [], ◌∷◌, ltb,
  if◌then◌else◌, length, All, arith,
}
use zbus.Text.{between, IsByte, is_ascii_hexdigit}
use zbus.Guid.Digits.{AreHexDigits}
use zbus.Handshake.Command.{Hex}

abbrev lower_hex : ℕ → ℕ
lower_hex d = if ltb d 10 then b'0' + d else b'a' + (d - 10)

abbrev digit : ℕ → Option ℕ
digit c =
    if between b'0' b'9' c
    then some (c - b'0')
    else if between b'a' b'f' c
    then some (c - b'a' + 10)
    else if between b'A' b'F' c
    then some (c - b'A' + 10)
    else none

abbrev and_both : Option ℕ → Option ℕ → Option (List ℕ) → Option (List ℕ)
and_both none low rest = none
and_both (some h) none rest = none
and_both (some h) (some l) none = none
and_both (some h) (some l) (some rest) = some ((h * 16 + l) ∷ rest)

pub encode : List ℕ → List ℕ
encode [] = []
encode (b ∷ bytes) = lower_hex (b / 16) ∷ lower_hex (b % 16) ∷ encode bytes

pub decode : List ℕ → Option (List ℕ)
decode [] = some []
decode (h ∷ []) = none
decode (h ∷ l ∷ s) = and_both (digit h) (digit l) (decode s)

digit-lower_hex : (d : ℕ) → d < 16 → digit (lower_hex d) ≡ some d
digit-lower_hex d h = ground arith

lower_hex_digit : (d : ℕ) → d < 16 → is_ascii_hexdigit (lower_hex d) ≡ true
lower_hex_digit d h = ground arith

pub decode-encode : (bytes : List ℕ) → All IsByte bytes → decode (encode bytes) ≡ some bytes
unfolding decode encode
decode-encode [] h = refl
decode-encode (b ∷ bytes) (h, hs) =
    let high = digit-lower_hex (b / 16) (omega arith) in
    let low = digit-lower_hex (b % 16) (omega arith) in
    let whole : b / 16 * 16 + b % 16 ≡ b = omega arith in
    rw (high, low, decode-encode bytes hs, whole) refl

pub length-encode : (bytes : List ℕ) → length (encode bytes) ≡ 2 * length bytes
unfolding encode
length-encode [] = omega arith
length-encode (b ∷ bytes) = omega (arith, length-encode bytes)

pub encode-AreHexDigits : (bytes : List ℕ) → All IsByte bytes → AreHexDigits (encode bytes)
unfolding encode
encode-AreHexDigits [] h = tt
encode-AreHexDigits (b ∷ bytes) (h, hs) = (
  lower_hex_digit (b / 16) (omega arith),
  (lower_hex_digit (b % 16) (omega arith), encode-AreHexDigits bytes hs),
)

unfoldable pub hex_reference : Hex
unfolding encode decode
hex_reference = record {
  encode = encode;
  decode = decode;
  decode-encode = decode-encode;
  length-encode = length-encode;
  encode-AreHexDigits = encode-AreHexDigits;
}

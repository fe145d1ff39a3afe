-- ===== src/Address/Percent.antt =====
-- Percent encoding of address values: zbus/src/address/percent.rs.
pub mod RoundTrip
pub mod Grammar
mod Runs
use zbus.Prelude.{
  Result, ok, err, ◌>>=◌, ℕ, ◌+◌, ◌-◌, ◌*◌, ◌/◌, ◌%◌, bit_or, Bool, true, not, ◌||◌, List, [], ◌∷◌,
  ◌++◌, ltb, ◌==◌, if◌then◌else◌, any,
}
use zbus.Text.{between, utf8}

-- The messages of `Error::Encoding`, one constructor each.
pub data Error : Type 0 where
  incomplete_sequence invalid_character invalid_hex : Error

abbrev pub Fallible : Type 0 → Type 0
Fallible A = Result Error A

-- One `{:X}` digit.
pub upper_hex : ℕ → ℕ
upper_hex d = if ltb d 10 then b'0' + d else b'A' + (d - 10)

pub is_allowed_char : ℕ → Bool
is_allowed_char c =
    c == b'-'
    || (between b'0' b'9' c
        || (between b'A' b'Z' c
            || (between b'a' b'z' c
                || (c == b'_' || (c == b'/' || (c == b'.' || (c == b'\\' || c == b'*')))))))

-- The pattern of `encode_percents` spells out the characters of `is_allowed_char`.
pub encode_percents : List ℕ → List ℕ
encode_percents [] = []
encode_percents (byte ∷ value) =
    (if is_allowed_char byte
      then byte ∷ []
      else b'%' ∷ upper_hex (byte / 16) ∷ upper_hex (byte % 16) ∷ [])
    ++ encode_percents value

pub decode_hex : ℕ → Fallible ℕ
decode_hex c =
    if between b'0' b'9' c
    then ok (c - b'0')
    else if between b'a' b'f' c
    then ok (c - b'a' + 10)
    else if between b'A' b'F' c
    then ok (c - b'A' + 10)
    else err invalid_hex

-- The digits are below 16, so `<<` on `u8` loses nothing; `% 256` is its width.
pub decode_hex_pair : ℕ → ℕ → Fallible ℕ
decode_hex_pair high low = do
  high_digit ← decode_hex high
  low_digit ← decode_hex low
  ok (bit_or (high_digit * 16 % 256) low_digit)

-- The arms of the `match` for a character that is not `%`: push it, or fail.
pub push_plain : List ℕ → ℕ → Fallible (List ℕ)
push_plain decoded c =
    if is_allowed_char c then ok (decoded ++ (c % 256) ∷ []) else err invalid_character

-- The `while let` loop over the characters left; after `%` it takes two more.
pub decode_loop : List ℕ → List ℕ → Fallible (List ℕ)
unfolding push_plain
decode_loop decoded [] = ok decoded
decode_loop decoded (c ∷ []) = if c == b'%' then err incomplete_sequence else push_plain decoded c
decode_loop decoded (c ∷ high ∷ []) =
    if c == b'%'
    then err incomplete_sequence
    else push_plain decoded c >>= λ decoded'. decode_loop decoded' (high ∷ [])
decode_loop decoded (c ∷ high ∷ low ∷ chars) =
    let escaped = decode_hex_pair high low >>= λ byte. decode_loop (decoded ++ byte ∷ []) chars in
    let plain = push_plain decoded c >>= λ decoded'. decode_loop decoded' (high ∷ low ∷ chars) in
    if c == b'%' then escaped else plain

pub needs_decoding : List ℕ → Bool
needs_decoding value = any (λ c. c == b'%' || not (is_allowed_char c)) value

pub decode_percents : List ℕ → Fallible (List ℕ)
unfolding needs_decoding
decode_percents value = if needs_decoding value then decode_loop [] value else ok (utf8 value)

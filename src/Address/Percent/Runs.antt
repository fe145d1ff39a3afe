-- ===== src/Address/Percent/Runs.antt =====
-- Percent encoding on concrete texts, and its theorems at concrete inputs
-- (zbus/src/address/percent.rs).
use zbus.Prelude.{ok, err, ◌≡◌, refl, ◌↔◌, [], ◌∷◌, arith}
use zbus.Text.{codes}
use zbus.Address.Percent.{
  incomplete_sequence, invalid_hex, upper_hex, is_allowed_char, encode_percents, decode_hex,
  decode_hex_pair, decode_loop, decode_percents,
}
use zbus.Address.Percent.RoundTrip.{decode_percents-eq-loop, decode-encode_percents}
use zbus.Address.Percent.Grammar.{Decodes, decode_percents-eq-ok_iff}

encode_text : encode_percents (codes "hello world!") ≡ codes "hello%20world%21"
unfolding encode_percents is_allowed_char upper_hex
encode_text = refl

decode_text : decode_percents (codes "hello%20world%21") ≡ ok (codes "hello world!")
unfolding decode_percents decode_loop is_allowed_char decode_hex_pair decode_hex
decode_text = refl

decode_incomplete : decode_percents (codes "incomplete%") ≡ err incomplete_sequence
unfolding decode_percents decode_loop is_allowed_char decode_hex_pair decode_hex
decode_incomplete = refl

decode_invalid : decode_percents (codes "invalid%2Gchar") ≡ err invalid_hex
unfolding decode_percents decode_loop is_allowed_char decode_hex_pair decode_hex
decode_invalid = refl

decode_percents-eq-loop_example : decode_percents (codes "a%2f") ≡ decode_loop [] (codes "a%2f")
decode_percents-eq-loop_example = decode_percents-eq-loop (codes "a%2f")

decode-encode_percents_example :
    decode_percents (encode_percents (0xf0 ∷ 0x9f ∷ 32 ∷ [])) ≡ ok (0xf0 ∷ 0x9f ∷ 32 ∷ [])
decode-encode_percents_example = decode-encode_percents (0xf0 ∷ 0x9f ∷ 32 ∷ []) (omega arith)

decode_percents-eq-ok_iff_example :
    (decode_percents (codes "a%2f") ≡ ok (codes "a/")) ↔ Decodes (codes "a%2f") (codes "a/")
decode_percents-eq-ok_iff_example = decode_percents-eq-ok_iff (codes "a%2f") (codes "a/")

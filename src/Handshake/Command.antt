-- ===== src/Handshake/Command.antt =====
-- The commands of the handshake and their text: zbus/src/connection/handshake/command.rs and
-- auth_mechanism.rs.
pub mod Words
pub mod RoundTrip
pub mod Reference
use zbus.Prelude.{
  ℕ, ◌*◌, ◌≡◌, Bool, true, false, ◌||◌, Option, none, some, List, [], ◌∷◌, ◌++◌, Result, ok, err,
  ◌>>=◌, ◌==◌, if◌then◌else◌, length, All,
}
use zbus.Text.{codes, IsByte, eq_text}
use zbus.Guid.{validate_guid}
use zbus.Guid.Digits.{AreHexDigits}

pub data AuthMechanism : Type 0 where
  external anonymous : AuthMechanism

-- A GUID and the texts are their characters; the data are bytes.
pub data Command : Type 0 where
  auth : Option AuthMechanism → Option (List ℕ) → Command
  cancel begin : Command
  data_ : Option (List ℕ) → Command
  error : List ℕ → Command
  negotiate_unix_fd : Command
  rejected : List ℕ → Command
  ok_ : List ℕ → Command
  agree_unix_fd : Command

-- `Error::Handshake` by what its message says, and the error of a GUID.
pub data CommandError : Type 0 where
  unsupported_mechanism unknown_command : List ℕ → CommandError
  invalid_hexcode missing_guid invalid_guid : CommandError

-- The crate hex, which is not part of the repository.
pub record Hex : Type 0 where
  pub encode : List ℕ → List ℕ
  pub decode : List ℕ → Option (List ℕ)
  pub decode-encode : (bytes : List ℕ) → All IsByte bytes → decode (encode bytes) ≡ some bytes
  pub length-encode : (bytes : List ℕ) → length (encode bytes) ≡ 2 * length bytes
  pub encode-AreHexDigits : (bytes : List ℕ) → All IsByte bytes → AreHexDigits (encode bytes)

-- `char::is_ascii_whitespace`
abbrev pub is_ascii_whitespace : ℕ → Bool
is_ascii_whitespace c = (c == 32) || ((c == 9) || ((c == 10) || ((c == 12) || (c == 13))))

abbrev pub flush : List ℕ → List (List ℕ) → List (List ℕ)
flush [] words = words
flush (c ∷ cs) words = (c ∷ cs) ∷ words

-- `str::split_ascii_whitespace`, from a word that has begun.
unfoldable pub words_from : List ℕ → List ℕ → List (List ℕ)
words_from word [] = flush word []
words_from word (c ∷ s) = elim (is_ascii_whitespace c) [
  | true ↦ flush word (words_from [] s)
  | false ↦ words_from (word ++ (c ∷ [])) s
]

abbrev pub split_ascii_whitespace : List ℕ → List (List ℕ)
split_ascii_whitespace s = words_from [] s

abbrev pub as_str : AuthMechanism → List ℕ
as_str external = codes "EXTERNAL"
as_str anonymous = codes "ANONYMOUS"

unfoldable pub mechanism_from_str : List ℕ → Result CommandError AuthMechanism
mechanism_from_str s =
    if eq_text s (codes "EXTERNAL")
    then ok external
    else if eq_text s (codes "ANONYMOUS")
    then ok anonymous
    else err (unsupported_mechanism s)

unfoldable pub concat : List (List ℕ) → List ℕ
concat [] = []
concat (w ∷ ws) = w ++ concat ws

module _ (hex : Hex) where
  unfoldable pub display : Command → List ℕ
  display (auth (some mech) (some resp)) =
      codes "AUTH " ++ (as_str mech ++ (codes " " ++ hex.encode resp))
  display (auth (some mech) none) = codes "AUTH " ++ as_str mech
  display (auth none resp) = codes "AUTH"
  display cancel = codes "CANCEL"
  display begin = codes "BEGIN"
  display (data_ none) = codes "DATA"
  display (data_ (some data')) = codes "DATA " ++ hex.encode data'
  display (error expl) = codes "ERROR " ++ expl
  display negotiate_unix_fd = codes "NEGOTIATE_UNIX_FD"
  display (rejected mechs) = codes "REJECTED " ++ mechs
  display (ok_ guid) = codes "OK " ++ guid
  display agree_unix_fd = codes "AGREE_UNIX_FD"

  -- `hex::decode(word)?` of the next word, if there is one.
  unfoldable pub next_bytes : List (List ℕ) → Result CommandError (Option (List ℕ))
  next_bytes [] = ok none
  next_bytes (word ∷ words) = elim (hex.decode word) [
    | none ↦ err invalid_hexcode
    | some bytes ↦ ok (some bytes)
  ]

  unfoldable pub auth_from_words : List (List ℕ) → Result CommandError Command
  auth_from_words [] = ok (auth none none)
  auth_from_words (m ∷ words) =
      mechanism_from_str m >>= λ mech. next_bytes words >>= λ resp. ok (auth (some mech) resp)

  unfoldable pub ok_from_words : List (List ℕ) → Result CommandError Command
  ok_from_words [] = err missing_guid
  ok_from_words (guid ∷ words) = elim (validate_guid guid) [
    | err e ↦ err invalid_guid
    | ok u ↦ ok (ok_ guid)
  ]

  unfoldable pub from_words : List ℕ → List (List ℕ) → Result CommandError Command
  from_words s [] = err (unknown_command s)
  from_words s (cmd ∷ words) =
      if eq_text cmd (codes "AUTH")
      then auth_from_words words
      else if eq_text cmd (codes "CANCEL")
      then ok cancel
      else if eq_text cmd (codes "BEGIN")
      then ok begin
      else if eq_text cmd (codes "DATA")
      then (next_bytes words >>= λ data'. ok (data_ data'))
      else if eq_text cmd (codes "ERROR")
      then ok (error s)
      else if eq_text cmd (codes "NEGOTIATE_UNIX_FD")
      then ok negotiate_unix_fd
      else if eq_text cmd (codes "REJECTED")
      then ok (rejected (concat words))
      else if eq_text cmd (codes "OK")
      then ok_from_words words
      else if eq_text cmd (codes "AGREE_UNIX_FD")
      then ok agree_unix_fd
      else err (unknown_command s)

  unfoldable pub from_str : List ℕ → Result CommandError Command
  from_str s = from_words s (split_ascii_whitespace s)

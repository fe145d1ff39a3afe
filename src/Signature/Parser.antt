-- ===== src/Signature/Parser.antt =====
-- The parser of signatures: `parse`, `validate` and their local functions in
-- zvariant_utils/src/signature/mod.rs, over the combinators of `Nom`.
pub mod Steps
pub mod Fold
pub mod Forms
pub mod Sound
pub mod Complete
pub mod CheckOnly
pub mod TopLevel
use zbus.Prelude.{
  ℕ, zero, suc, ◌+◌, Bool, true, false, Option, none, some, List, [], ◌∷◌, map, if◌then◌else◌,
  length,
}
use zbus.Signature.{
  Signature, Fields, u8, bool, i16, u16, i32, u32, i64, u64, f64, str, signature, object_path,
  variant, fd, array, dict, maybe, no_fields, field, push,
}
use zbus.Signature.Nom.{Nom, Parser, and_then}

pub data SignatureList : Type 0 where
  unit : SignatureList
  one : Signature → SignatureList
  structure : Fields → SignatureList

-- The fold of `many`.
pub add_signature : Bool → SignatureList → Signature → SignatureList
unfolding push
add_signature true SignatureList.unit s = one s
add_signature false SignatureList.unit s = SignatureList.structure (field s no_fields)
add_signature top_level (SignatureList.one t) s =
    SignatureList.structure (field t (field s no_fields))
add_signature top_level (SignatureList.structure fs) s = SignatureList.structure (push fs s)

pub from_list : SignatureList → Signature
from_list SignatureList.unit = Signature.unit
from_list (SignatureList.one s) = s
from_list (SignatureList.structure fs) = Signature.structure fs

-- The alternatives of `simple_type`.
abbrev pub simple_types : List (ℕ × Signature)
simple_types =
    (b'y', u8)
    ∷ (b'b', bool)
    ∷ (b'n', i16)
    ∷ (b'q', u16)
    ∷ (b'i', i32)
    ∷ (b'u', u32)
    ∷ (b'x', i64)
    ∷ (b't', u64)
    ∷ (b'd', f64)
    ∷ (b's', str)
    ∷ (b'g', signature)
    ∷ (b'o', object_path)
    ∷ (b'v', variant)
    ∷ (b'h', fd)
    ∷ []

module _ (nom : Nom) where
  pub byte : ℕ → Parser (List ℕ)
  byte b = nom.tag (b ∷ [])

  pub many : Parser Signature → Bool → Bool → Parser Signature
  unfolding add_signature from_list
  many parser check_only top_level bytes =
      if check_only
      then nom.map (nom.many1_count parser) (λ _. Signature.unit) bytes
      else nom.map (nom.fold_many1 parser SignatureList.unit (add_signature top_level)) from_list
          bytes

  pub simple_alternatives : List (ℕ × Signature) → List (Parser Signature)
  unfolding byte
  simple_alternatives table = map (λ (b, s). nom.map (byte b) (λ _. s)) table

  pub simple_type : Parser Signature
  unfolding simple_alternatives
  simple_type = nom.alt (simple_alternatives simple_types)

  pub dict_type : Parser Signature → Bool → Parser Signature
  unfolding byte
  dict_type parse_with_context check_only =
      nom.map
        (nom.pair (byte b'a')
          (nom.delimited (byte b'{') (nom.pair parse_with_context parse_with_context) (byte b'}')))
        (λ (_, (key, value)).
          if check_only then dict Signature.unit Signature.unit else dict key value)

  pub array_type : Parser Signature → Bool → Parser Signature
  unfolding byte
  array_type parse_with_context check_only =
      nom.map (nom.pair (byte b'a') parse_with_context)
        (λ (_, child). if check_only then array Signature.unit else array child)

  pub structure_type : Parser Signature → Bool → Parser Signature
  unfolding byte many
  structure_type parse_with_context check_only =
      nom.delimited (byte b'(') (many parse_with_context check_only false) (byte b')')

  pub maybe_type : Parser Signature → Bool → Parser Signature
  unfolding byte
  maybe_type parse_with_context check_only =
      nom.map (nom.pair (byte b'm') parse_with_context)
        (λ (_, child). if check_only then maybe Signature.unit else maybe child)

  -- A call of itself comes behind a byte that was read, so the fuel is the bytes left.
  pub parse_signature : ℕ → Bool → Parser Signature
  unfolding simple_type dict_type array_type structure_type maybe_type
  parse_signature zero check_only bytes = none
  parse_signature (suc fuel) check_only bytes =
      let parse_with_context = parse_signature fuel check_only in
      nom.alt
        (simple_type
          ∷ dict_type parse_with_context check_only
          ∷ array_type parse_with_context check_only
          ∷ structure_type parse_with_context check_only
          ∷ maybe_type parse_with_context check_only
          ∷ [])
        bytes

  -- `none` is `Error::InvalidSignature`.
  unfoldable pub parse : List ℕ → Bool → Option Signature
  unfolding parse_signature many
  parse bytes check_only =
      let empty = nom.map nom.eof (λ _. Signature.unit) in
      let parser = parse_signature (length bytes + 1) check_only in
      and_then (nom.all_consuming (nom.alt (empty ∷ many parser check_only true ∷ [])) bytes)
        (λ (_, s). some s)

  -- `none` is `Error::InvalidSignature`.
  unfoldable pub validate : List ℕ → Option (Unit {0})
  unfolding parse
  validate bytes = and_then (parse bytes true) (λ _. some tt)

-- ===== src/Signature/Letters.antt =====
-- The characters of a displayed signature (zvariant_utils/src/signature/mod.rs): ASCII, none of them NUL.
use zbus.Prelude.{ℕ, ◌≡◌, refl, false, [], ◌∷◌, ◌++◌, ◌==◌, All, All-append, arith}
use zbus.Text.{IsAscii}
use zbus.Signature.{Signature, Fields, no_fields, field, display, write_as_string, write_fields}

abbrev pub IsLetter : ℕ → Type 0
IsLetter c = IsAscii c × ((c == 0) ≡ false)

mutual
  unfolding write_as_string

  pub display_letters : (x : Signature) → All IsLetter (display x)
  display_letters Signature.unit = tt
  display_letters Signature.u8 = ((omega arith, refl), tt)
  display_letters Signature.bool = ((omega arith, refl), tt)
  display_letters Signature.i16 = ((omega arith, refl), tt)
  display_letters Signature.u16 = ((omega arith, refl), tt)
  display_letters Signature.i32 = ((omega arith, refl), tt)
  display_letters Signature.u32 = ((omega arith, refl), tt)
  display_letters Signature.i64 = ((omega arith, refl), tt)
  display_letters Signature.u64 = ((omega arith, refl), tt)
  display_letters Signature.f64 = ((omega arith, refl), tt)
  display_letters Signature.str = ((omega arith, refl), tt)
  display_letters Signature.signature = ((omega arith, refl), tt)
  display_letters Signature.object_path = ((omega arith, refl), tt)
  display_letters Signature.variant = ((omega arith, refl), tt)
  display_letters Signature.fd = ((omega arith, refl), tt)
  display_letters (Signature.array child) = ((omega arith, refl), display_letters child)
  display_letters (Signature.dict key value) = (
    (omega arith, refl),
    (
      (omega arith, refl),
      All-append IsLetter (display key) (display value ++ (b'}' ∷ [])) (display_letters key) (
          All-append IsLetter (display value) (b'}' ∷ []) (display_letters value)
            ((omega arith, refl), tt)),
    ),
  )
  display_letters (Signature.structure sigs) = (
    (omega arith, refl),
    All-append IsLetter (write_fields sigs) (b')' ∷ []) (fields_letters sigs)
        ((omega arith, refl), tt),
  )
  display_letters (Signature.maybe child) = ((omega arith, refl), display_letters child)

  pub fields_letters : (sigs : Fields) → All IsLetter (write_fields sigs)
  fields_letters no_fields = tt
  fields_letters (field s fs) =
      All-append IsLetter (display s) (write_fields fs) (display_letters s) (fields_letters fs)

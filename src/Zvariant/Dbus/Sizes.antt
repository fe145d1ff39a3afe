-- ===== src/Zvariant/Dbus/Sizes.antt =====
-- The sizes of signatures, against their texts: what the fuel of the deserializer depends on.
use zbus.Prelude.{
  ℕ, ◌+◌, ◌*◌, ◌≤◌, ◌≡◌, sym, subst, ap, ◌∙◌, List, [], ◌∷◌, ◌++◌, length, length-append, false,
  arith,
}
use zbus.Signature.{
  Signature, Fields, no_fields, field, display, write_as_string, write_fields, to_string_no_parens,
  IsComplete, AllComplete,
}
use zbus.Signature.Nom.{Nom}
use zbus.Signature.Parser.{parse}
use zbus.Signature.Parser.TopLevel.{empty, single, sequence, parse-eq-some_iff}
use zbus.Zvariant.Dbus.Progress.{TakesBytes, AllTakeBytes}
use zbus.Prelude.{some}

unfoldable mutual
  pub size : Signature → ℕ
  size (Signature.array child) = size child + 3
  size (Signature.dict key value) = size key + size value + 3
  size (Signature.structure sigs) = sizes sigs + 2
  size (Signature.maybe child) = size child + 3
  size sig = 2

  pub sizes : Fields → ℕ
  sizes no_fields = 1
  sizes (field sig sigs) = size sig + sizes sigs + 1

pub size_least : (sig : Signature) → 2 ≤ size sig
unfolding size
size_least Signature.unit = omega arith
size_least Signature.u8 = omega arith
size_least Signature.bool = omega arith
size_least Signature.i16 = omega arith
size_least Signature.u16 = omega arith
size_least Signature.i32 = omega arith
size_least Signature.u32 = omega arith
size_least Signature.i64 = omega arith
size_least Signature.u64 = omega arith
size_least Signature.f64 = omega arith
size_least Signature.str = omega arith
size_least Signature.signature = omega arith
size_least Signature.object_path = omega arith
size_least Signature.variant = omega arith
size_least Signature.fd = omega arith
size_least (Signature.array child) = omega arith
size_least (Signature.dict key value) = omega arith
size_least (Signature.structure sigs) = omega arith
size_least (Signature.maybe child) = omega arith

pub sizes_least : (sigs : Fields) → 1 ≤ sizes sigs
unfolding size
sizes_least no_fields = omega arith
sizes_least (field sig sigs) = omega arith

mutual
  unfolding size write_as_string IsComplete TakesBytes

  complete_size :
      (x : Signature) → IsComplete x → (size x + 1 ≤ 4 * length (display x)) × TakesBytes x
  complete_size Signature.unit h = absurd h
  complete_size Signature.u8 h = (omega arith, tt)
  complete_size Signature.bool h = (omega arith, tt)
  complete_size Signature.i16 h = (omega arith, tt)
  complete_size Signature.u16 h = (omega arith, tt)
  complete_size Signature.i32 h = (omega arith, tt)
  complete_size Signature.u32 h = (omega arith, tt)
  complete_size Signature.i64 h = (omega arith, tt)
  complete_size Signature.u64 h = (omega arith, tt)
  complete_size Signature.f64 h = (omega arith, tt)
  complete_size Signature.str h = (omega arith, tt)
  complete_size Signature.signature h = (omega arith, tt)
  complete_size Signature.object_path h = (omega arith, tt)
  complete_size Signature.variant h = (omega arith, tt)
  complete_size Signature.fd h = (omega arith, tt)
  complete_size (Signature.array child) h = let (l, b) = complete_size child h in (omega arith, b)
  complete_size (Signature.maybe child) h = let (l, b) = complete_size child h in (omega arith, tt)
  complete_size (Signature.dict key value) (hk, hv) =
      let (l, b) = complete_size key hk in
      let (l', b') = complete_size value hv in
      let e = length-append (display key) (display value ++ (b'}' ∷ [])) in
      let e' = length-append (display value) (b'}' ∷ []) in (omega arith, (b, b'))
  complete_size (Signature.structure no_fields) h = absurd h
  complete_size (Signature.structure (field s fs)) h =
      let (l, b) = complete_sizes (field s fs) h in
      let e = length-append (write_fields (field s fs)) (b')' ∷ []) in (omega arith, (tt, b))

  complete_sizes :
      (fs : Fields)
      → AllComplete fs
      → (sizes fs ≤ 4 * length (write_fields fs) + 1) × AllTakeBytes fs
  complete_sizes no_fields h = (omega arith, tt)
  complete_sizes (field s fs) (hs, hfs) =
      let (l, b) = complete_size s hs in
      let (l', b') = complete_sizes fs hfs in
      let e = length-append (display s) (write_fields fs) in (omega arith, (b, b'))

-- The signature that is read from a text is not much larger than it, and has no empty structure.
pub parsed_size :
    (nom : Nom) (bytes : List ℕ) (x : Signature)
    → parse nom bytes false ≡ some x
    → (size x ≤ 4 * length bytes + 3) × TakesBytes x
unfolding size TakesBytes to_string_no_parens write_as_string IsComplete
parsed_size nom bytes x h = elim ((parse-eq-some_iff nom bytes x).0 h) [
  | empty nothing is_unit ↦
      subst (λ x. (size x ≤ 4 * length bytes + 3) × TakesBytes x) (sym is_unit) (omega arith, tt)
  | single complete text ↦
      let (l, b) = complete_size x complete in let e = ap length text in (omega arith, b)
  | sequence s t fs complete is_sequence text ↦
      let (l, b) = complete_sizes (field s (field t fs)) (subst IsComplete is_sequence complete) in
      let text' = text ∙ ap to_string_no_parens is_sequence in
      let e = ap length text' in
      let e' = length-append (write_fields (field s (field t fs))) [] in
      subst (λ x. (size x ≤ 4 * length bytes + 3) × TakesBytes x) (sym is_sequence)
        (omega arith, (tt, b))
]

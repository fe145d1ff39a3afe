-- ===== src/Zvariant/Dbus/RoundTrip/Kinds.antt =====
-- What the signature asks for in zvariant/src/dbus/de.rs: texts, and structures from their fields.
use zbus.Prelude.{
  ℕ, zero, suc, ◌+◌, ◌^◌, ◌<◌, ◌≤◌, ◌≡◌, refl, sym, subst, ap, ◌∙◌, inr, true, false, List, Result,
  ok, ◌>>=◌, length, arith,
}
use Prim.Native.Nat.{Ordering}
use zbus.Signature.{Signature, Fields, no_fields, field, alignment_dbus}
use zbus.Signature.Nom.{Nom}
use zbus.Zvariant.Depths.{ContainerDepths, inc_structure, dec_structure}
use zbus.Zvariant.Depths.Nesting.{struct, deeper, IsValid, inc_structure-deeper}
use zbus.Zvariant.Dbus.{
  basic_signature, text_signature, Basic, Text, Value, Values, cons, Endian, Failure,
}
use zbus.Zvariant.Dbus.Ser.{depth_checked}
use zbus.Zvariant.Dbus.De.{
  Deserializer, Kind, of_basic, of_text, of_structure, kind_of, deserialize, deserialize_kind,
  deserialize_fields, field_read, parse_padding, text_value,
}
use zbus.Zvariant.Dbus.Reference.{zeros, text_width, encode_text, followed, FitFields, one_field}
use zbus.Zvariant.Dbus.RoundTrip.Ahead.{reader}
use zbus.Zvariant.Dbus.RoundTrip.Combine.{Reads, Reads-padding, Reads-aligned, followed-IsPadded}
use zbus.Zvariant.Dbus.RoundTrip.Readable.{IsText, display-IsText, IsReadable}
use zbus.Zvariant.Dbus.RoundTrip.Scalars.{str-Reads}

pub basic_kind : (kind : Basic) → kind_of (basic_signature kind) ≡ of_basic kind
basic_kind Basic.u8 = refl
basic_kind Basic.bool = refl
basic_kind Basic.i16 = refl
basic_kind Basic.u16 = refl
basic_kind Basic.i32 = refl
basic_kind Basic.u32 = refl
basic_kind Basic.i64 = refl
basic_kind Basic.u64 = refl
basic_kind Basic.f64 = refl

-- The counters before the fields: the last field has left the structure.
abbrev pub entering : Fields → ContainerDepths → ContainerDepths
entering no_fields d = dec_structure d
entering (field _ _) d = d

pub entering-cons :
    (d : ContainerDepths) (v : Value) (vs : Values) (sigs : Fields)
    → FitFields d (cons v vs) sigs
    → entering sigs d ≡ d
entering-cons d _ _ _ (one_field v vs sig sigs here rest) = refl

pub field_read-entering :
    (sigs : Fields) (bytes : List ℕ) (pos pos' position : ℕ) (d : ContainerDepths)
    → field_read sigs (reader bytes pos position d) (reader bytes pos' position d)
      ≡ reader bytes pos' position (entering sigs d)
field_read-entering no_fields bytes pos pos' position d = refl
field_read-entering (field _ _) bytes pos pos' position d = refl

module _ (endian : Endian) (nom : Nom) (compare : Value → Value → Ordering) where
  -- A value takes two units of fuel at least.
  pub by_kind :
      (d : ContainerDepths) (fuel : ℕ) (sig : Signature) (kind : Kind) (enc : ℕ → List ℕ)
      (v : Value)
      → kind_of sig ≡ kind
      → 2 ≤ fuel
      → ((f : ℕ)
          → fuel ≡ f + 2
          → Reads d d (deserialize_kind endian nom compare (suc f) kind sig) enc v)
      → Reads d d (deserialize endian nom compare fuel sig) enc v
  unfolding deserialize
  by_kind d zero sig kind enc v is enough reads = absurd (omega arith)
  by_kind d (suc zero) sig kind enc v is enough reads = absurd (omega arith)
  by_kind d (suc (suc f)) sig kind enc v is enough reads =
      subst (λ kind. Reads d d (deserialize_kind endian nom compare (suc f) kind sig) enc v)
        (sym is) (reads f (omega arith))

  pub text-Reads :
      (d : ContainerDepths) (fuel : ℕ) (kind : Text) (v : List ℕ)
      → length v < 256 ^ text_width kind
      → IsReadable nom compare (Value.text kind v)
      → 2 ≤ fuel
      → Reads d d
          (deserialize endian nom compare fuel (text_signature kind))
          (λ at. encode_text endian at (text_width kind) v)
          (Value.text kind v)
  unfolding deserialize deserialize_kind IsReadable
  text-Reads d fuel Text.str v fits readable enough =
      by_kind d fuel Signature.str (of_text Text.str) (λ at. encode_text endian at 4 v)
        (Value.text Text.str v) refl enough
        (λ f e bytes left pos position ahead small.
          ap (λ r. r >>= λ (slice, s). text_value nom Text.str slice >>= λ v. ok (v, s))
            (str-Reads endian d Signature.str true v refl fits readable bytes left pos position
              ahead small))
  text-Reads d fuel Text.object_path v fits readable enough =
      by_kind d fuel Signature.object_path (of_text Text.object_path)
        (λ at. encode_text endian at 4 v) (Value.text Text.object_path v) refl enough
        (λ f e bytes left pos position ahead small.
          ap (λ r. r >>= λ (slice, s). text_value nom Text.object_path slice >>= λ v. ok (v, s))
            (str-Reads endian d Signature.object_path true v refl fits readable bytes left pos
              position ahead small))
  text-Reads d fuel Text.signature v fits (sign, parses, shows) enough =
      by_kind d fuel Signature.signature (of_text Text.signature) (λ at. encode_text endian at 1 v)
        (Value.text Text.signature v) refl enough
        (λ f e bytes left pos position ahead small.
          ap (λ r. r >>= λ (slice, s). text_value nom Text.signature slice >>= λ v. ok (v, s))
            (str-Reads endian d Signature.signature false v refl fits
              (subst IsText shows (display-IsText sign)) bytes left pos position ahead small)
          ∙ rw (parses, shows) refl)

  -- A structure, from its fields.
  pub struct-Reads :
      (d : ContainerDepths) (f : ℕ) (sigs : Fields) (enc : ℕ → List ℕ) (vs : Values)
      → IsValid d
      → IsValid (deeper struct d)
      → Reads (deeper struct d) d (deserialize_fields endian nom compare f sigs) enc vs
      → Reads d d
          (deserialize_kind endian nom compare
            (suc f)
            (of_structure sigs)
            (Signature.structure sigs))
          (λ at. followed at (zeros at 8) enc)
          (Value.structure (Signature.structure sigs) vs)
  unfolding deserialize_kind alignment_dbus
  struct-Reads d f sigs enc vs valid fits reads =
      Reads-aligned d d 8 (λ s. parse_padding 8 s >>= inner) (λ at. followed at (zeros at 8) enc)
        (Value.structure (Signature.structure sigs) vs)
        (followed-IsPadded 8 enc (inr (inr (inr refl))))
        (Reads-padding d d 8 inner enc (Value.structure (Signature.structure sigs) vs)
          (λ bytes left pos position ahead small.
            rw ((inc_structure-deeper d valid fits), (reads bytes left pos position ahead small))
              refl))
    where
      inner : Deserializer → Result Failure (Value × Deserializer)
      inner s = depth_checked (inc_structure s.container_depths) >>= λ depths.
          deserialize_fields endian nom compare f sigs (record s { container_depths = depths })
          >>= λ (vs, s). ok (Value.structure (Signature.structure sigs) vs, s)

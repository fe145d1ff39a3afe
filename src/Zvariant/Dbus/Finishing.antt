-- ===== src/Zvariant/Dbus/Finishing.antt =====
-- The fuel that is enough for the deserializer of zvariant/src/dbus/de.rs.
use zbus.Prelude.{
  ℕ, zero, suc, ◌+◌, ◌≡◌, ◌≢◌, refl, ap, Bool, true, false, not, ◌&&◌, Option, none, some, List, [],
  ◌∷◌, Result, ok, err, ◌>>=◌, ltb, ◌==◌, Bool-cases, inl, inr, length, drop, get_elem?, ensure,
  any,
}
use zbus.Signature.{Signature, alignment_dbus}
use zbus.Signature.Nom.{Nom}
use zbus.Signature.Parser.{parse}
use zbus.Zvariant.Padding.{padding_for_n_bytes}
use zbus.Zvariant.Depths.{MaxDepthExceeded, inc_array, inc_variant}
use zbus.Handshake.Utf8.{from_utf8}
use zbus.Zvariant.Dbus.{
  Basic, Text, Value, width, Endian, Failure, invalid_signature, invalid_value, custom, utf8,
  out_of_fuel, panic,
}
use zbus.Zvariant.Dbus.Ser.{depth_checked}
use zbus.Zvariant.Dbus.De.{
  Deserializer, all_zero, forward, parse_padding, next_slice, subslice, subslice_from, required,
  is_bool, has_long_len, basic_value, deserialize_basic, read_len, deserialize_str, text_value,
  array_deserializer, within, matching, value_deserializer, align,
}

-- Other outcomes than running out of fuel.
abbrev pub Finishes : {A : Type 0} → Result Failure A → Type 0
Finishes r = r ≢ err out_of_fuel

module _ {A B : Type 0} where
  pub bind-Finishes :
      (r : Result Failure A) (f : A → Result Failure B)
      → Finishes r
      → ((x : A) → r ≡ ok x → Finishes (f x))
      → Finishes (r >>= f)
  bind-Finishes (err e) f hr hf h = hr (ap err (let same : e ≡ out_of_fuel = cc h in same))
  bind-Finishes (ok x) f hr hf h = hf x refl h

pub required-Finishes :
    {A : Type 0} (e : Failure) (o : Option A) → e ≢ out_of_fuel → Finishes (required e o)
required-Finishes e none h k = h (cc k)
required-Finishes e (some a) h k = absurd (cc k)

pub ensure-Finishes : (b : Bool) (e : Failure) → e ≢ out_of_fuel → Finishes (ensure b e)
ensure-Finishes true e h k = absurd (cc k)
ensure-Finishes false e h k = h (cc k)

pub depth_checked-Finishes :
    {A : Type 0} (r : Result MaxDepthExceeded A) → Finishes (depth_checked r)
depth_checked-Finishes (err e) k = absurd (cc k)
depth_checked-Finishes (ok a) k = absurd (cc k)

all_zero-Finishes : (n : ℕ) (bytes : List ℕ) → Finishes (all_zero n bytes)
all_zero-Finishes zero bytes k = absurd (cc k)
all_zero-Finishes (suc n) [] k = absurd (cc k)
all_zero-Finishes (suc n) (b ∷ bytes) k = elim (Bool-cases (b == 0)) [
  | inl e ↦ all_zero-Finishes n bytes (rw e at k)
  | inr e ↦ absurd (cc (rw e at k))
]

pub padding-Finishes : (a : ℕ) (s : Deserializer) → Finishes (parse_padding a s)
unfolding parse_padding
padding-Finishes a s k =
    let padding = padding_for_n_bytes (s.position + s.pos) a in
    elim (Bool-cases (ltb 0 padding)) [
      | inr e ↦ absurd (cc (rw e at k))
      | inl e ↦ elim (Bool-cases (ltb (length s.bytes) (s.pos + padding))) [
        | inl e' ↦ absurd (cc (rw (e, e') at k))
        | inr e' ↦
            bind-Finishes (all_zero padding (drop s.pos s.bytes)) (λ _. ok (forward padding s))
              (all_zero-Finishes padding (drop s.pos s.bytes)) (λ x _ j. absurd (cc j))
              (rw (e, e') at k)
      ]
    ]

pub slice-Finishes : (len : ℕ) (s : Deserializer) → Finishes (next_slice len s)
unfolding next_slice
slice-Finishes len s k = elim (Bool-cases (ltb (length s.bytes) (s.pos + len))) [
  | inl e ↦ absurd (cc (rw e at k))
  | inr e ↦ absurd (cc (rw e at k))
]

subslice-Finishes : (start len : ℕ) (bytes : List ℕ) → Finishes (subslice start len bytes)
unfolding subslice
subslice-Finishes start len bytes k = elim (Bool-cases (ltb (length bytes) (start + len))) [
  | inl e ↦ absurd (cc (rw e at k))
  | inr e ↦ absurd (cc (rw e at k))
]

subslice_from-Finishes : (start : ℕ) (bytes : List ℕ) → Finishes (subslice_from start bytes)
unfolding subslice_from
subslice_from-Finishes start bytes k = elim (Bool-cases (ltb (length bytes) start)) [
  | inl e ↦ absurd (cc (rw e at k))
  | inr e ↦ absurd (cc (rw e at k))
]

basic_value-Finishes : (kind : Basic) (n : ℕ) → Finishes (basic_value kind n)
basic_value-Finishes kind n k = elim (Bool-cases (is_bool kind && ltb 1 n)) [
  | inl e ↦ absurd (cc (rw e at k))
  | inr e ↦ absurd (cc (rw e at k))
]

len-Finishes :
    (sig : Signature) (long : Option Bool) (s : Deserializer) → Finishes (read_len sig long s)
len-Finishes sig none s = λ k. absurd (cc k)
len-Finishes sig (some false) s = slice-Finishes 1 s
len-Finishes sig (some true) s =
    bind-Finishes (parse_padding 4 s) (next_slice 4) (padding-Finishes 4 s)
      (λ r _. slice-Finishes 4 r)

pub align-Finishes : (sig : Signature) (s : Deserializer) → Finishes (align sig s)
align-Finishes sig s =
    bind-Finishes (required panic (alignment_dbus sig)) _
      (required-Finishes panic (alignment_dbus sig) (λ k. absurd (cc k)))
      (λ a _. padding-Finishes a s)

pub within-Finishes :
    (place : ℕ) (read : Result Failure (Value × Deserializer))
    → Finishes read
    → Finishes (within place read)
within-Finishes place (err out_of_fuel) h k = h refl
within-Finishes place (err e) h k = absurd (cc k)
within-Finishes place (ok (v, s)) h k = elim (Bool-cases (ltb place s.pos)) [
  | inl e ↦ absurd (cc (rw e at k))
  | inr e ↦ absurd (cc (rw e at k))
]

pub matching-Finishes : (sig : Signature) (v : Value) → Finishes (matching sig v)
matching-Finishes sig v = ensure-Finishes _ custom (λ k. absurd (cc k))

module _ (endian : Endian) where
  pub basic-Finishes :
      (kind : Basic) (s : Deserializer) → Finishes (deserialize_basic endian kind s)
  unfolding deserialize_basic
  basic-Finishes kind s =
      bind-Finishes (parse_padding (width kind) s >>= next_slice (width kind)) _
        (bind-Finishes (parse_padding (width kind) s) (next_slice (width kind))
          (padding-Finishes (width kind) s) (λ r _. slice-Finishes (width kind) r))
        (λ x _.
          bind-Finishes (basic_value kind (endian.read x.0)) _
            (basic_value-Finishes kind (endian.read x.0)) (λ v _ k. absurd (cc k)))

  pub str-Finishes : (sig : Signature) (s : Deserializer) → Finishes (deserialize_str endian sig s)
  unfolding deserialize_str
  str-Finishes sig s =
      bind-Finishes (read_len sig (has_long_len sig) s) _ (len-Finishes sig (has_long_len sig) s)
        (λ x _.
          bind-Finishes (next_slice (endian.read x.0) x.1) _ (slice-Finishes (endian.read x.0) x.1)
            (λ y _.
              bind-Finishes (ensure (not (any (λ b. b == 0) y.0)) invalid_value) _
                (ensure-Finishes (not (any (λ b. b == 0) y.0)) invalid_value (λ k. absurd (cc k)))
                (λ _ _.
                  bind-Finishes (required utf8 (from_utf8 y.0)) _
                    (required-Finishes utf8 (from_utf8 y.0) (λ k. absurd (cc k)))
                    (λ _ _ k. absurd (cc k)))))

  pub array_deserializer-Finishes :
      (o : Option ℕ) (s : Deserializer) → Finishes (array_deserializer endian o s)
  unfolding array_deserializer
  array_deserializer-Finishes o s =
      bind-Finishes (parse_padding 4 s) _ (padding-Finishes 4 s) (λ r _.
        bind-Finishes (depth_checked (inc_array r.container_depths)) _
          (depth_checked-Finishes (inc_array r.container_depths))
          (λ depths _.
            bind-Finishes (next_slice 4 (record r { container_depths = depths })) _
              (slice-Finishes 4 (record r { container_depths = depths }))
              (λ y _.
                bind-Finishes (required panic o) _ (required-Finishes panic o (λ k. absurd (cc k)))
                  (λ a _.
                    bind-Finishes (parse_padding a y.1) _ (padding-Finishes a y.1)
                      (λ _ _ k. absurd (cc k))))))

module _ (nom : Nom) where
  pub text_value-Finishes : (kind : Text) (t : List ℕ) → Finishes (text_value nom kind t)
  text_value-Finishes Text.str t = λ k. absurd (cc k)
  text_value-Finishes Text.object_path t = λ k. absurd (cc k)
  text_value-Finishes Text.signature t =
      bind-Finishes (required custom (parse nom t false)) _
        (required-Finishes custom (parse nom t false) (λ k. absurd (cc k))) (λ _ _ k. absurd (cc k))

  pub value_deserializer-Finishes :
      (start : ℕ) (s : Deserializer) → Finishes (value_deserializer nom start s)
  unfolding value_deserializer
  value_deserializer-Finishes start s =
      bind-Finishes (required panic (get_elem? s.bytes start)) _
        (required-Finishes panic (get_elem? s.bytes start) (λ k. absurd (cc k)))
        (λ b _.
          bind-Finishes (subslice (start + 1) b s.bytes) _ (subslice-Finishes (start + 1) b s.bytes)
            (λ slice _.
              bind-Finishes (required invalid_signature (parse nom slice false)) _
                (required-Finishes invalid_signature (parse nom slice false) (λ k. absurd (cc k)))
                (λ sign _.
                  bind-Finishes (subslice_from (start + 1 + b + 1) s.bytes) _
                    (subslice_from-Finishes (start + 1 + b + 1) s.bytes)
                    (λ bytes _.
                      bind-Finishes (depth_checked (inc_variant s.container_depths)) _
                        (depth_checked-Finishes (inc_variant s.container_depths))
                        (λ _ _ k. absurd (cc k))))))

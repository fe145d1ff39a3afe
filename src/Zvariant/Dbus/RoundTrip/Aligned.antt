-- ===== src/Zvariant/Dbus/RoundTrip/Aligned.antt =====
-- How the bytes of values start, as zvariant/src/dbus/de.rs needs it: with the padding of their
-- signature, and never are there none.
use zbus.Prelude.{
  ℕ, ◌+◌, ◌^◌, ◌<◌, ◌≡◌, refl, sym, subst, ap, ◌∙◌, inl, inr, some, List, [], ◌∷◌, ◌++◌, length,
  replicate, length-append, append_assoc, arith,
}
use zbus.Signature.{Signature, alignment_dbus, display}
use zbus.Signature.Layout.{IsAlignment, alignment_dbus-IsAlignment}
use zbus.Zvariant.Padding.{padding_for_n_bytes, padding_for_n_bytes-IsPadding}
use zbus.Zvariant.Depths.{ContainerDepths}
use zbus.Zvariant.Dbus.{
  value_signature, basic_signature, text_signature, Basic, Text, Value, cons, width, Endian,
}
use zbus.Zvariant.Dbus.Reference.{
  zeros, alignment, text_width, encode_text, encode_array, followed, encode, encode_all,
  encode_fields, encode_entries, Fits, a_basic, a_text, a_variant, an_array, a_dict, a_structure,
  one_field,
}
use zbus.Zvariant.Dbus.Progress.{width_positive}
use zbus.Zvariant.Dbus.RoundTrip.Combine.{IsPadded, followed-IsPadded}

pub zeros_1 : (at : ℕ) → at < 2 ^ 63 → zeros at 1 ≡ []
zeros_1 at small =
    let (less, _) = padding_for_n_bytes-IsPadding at (omega arith) 1 (inl refl) in
    let none_needed : padding_for_n_bytes at 1 ≡ 0 = omega arith in
    ap (λ n. replicate n 0) none_needed

pub bytes-IsPadded : (enc : ℕ → List ℕ) → IsPadded 1 enc
bytes-IsPadded enc at small =
    let same : at ≡ at + 0 = omega arith in
    ap enc same ∙ ap (λ xs. xs ++ enc (at + length xs)) (sym (zeros_1 at small))

IsPadded-first :
    (a : ℕ) (enc rest : ℕ → List ℕ)
    → IsAlignment a
    → ((at : ℕ) → enc at ≡ followed at (zeros at a) rest)
    → IsPadded a enc
IsPadded-first a enc rest alignment e at small =
    e at
    ∙ followed-IsPadded a rest alignment at small
    ∙ ap (λ xs. zeros at a ++ xs) (sym (e (at + length (zeros at a))))

basic_alignment : (kind : Basic) → alignment_dbus (basic_signature kind) ≡ some (width kind)
unfolding alignment_dbus
basic_alignment Basic.u8 = refl
basic_alignment Basic.bool = refl
basic_alignment Basic.i16 = refl
basic_alignment Basic.u16 = refl
basic_alignment Basic.i32 = refl
basic_alignment Basic.u32 = refl
basic_alignment Basic.i64 = refl
basic_alignment Basic.u64 = refl
basic_alignment Basic.f64 = refl

text_alignment : (kind : Text) → alignment_dbus (text_signature kind) ≡ some (text_width kind)
unfolding alignment_dbus
text_alignment Text.str = refl
text_alignment Text.object_path = refl
text_alignment Text.signature = refl

pub Fits-signature :
    (d : ContainerDepths) (v : Value) (sig : Signature) → Fits d v sig → value_signature v ≡ sig
Fits-signature d _ _ (a_basic kind n) = refl
Fits-signature d _ _ (a_text kind v short) = refl
Fits-signature d _ _ (a_variant v complete short fits inner) = refl
Fits-signature d _ _ (an_array vs child a e fits inner) = refl
Fits-signature d _ _ (a_dict es key value fits inner) = refl
Fits-signature d _ _ (a_structure v vs sigs fits inner) = refl

module _ (endian : Endian) where
  -- An array from its length on.
  abbrev pub array_rest : ℕ → (ℕ → List ℕ) → ℕ → List ℕ
  array_rest first_alignment elements at =
      let q = zeros (at + 4) first_alignment in
      let body = elements (at + 4 + length q) in endian.write 4 (length body) ++ q ++ body

  pub encode_array-rest :
      (first_alignment : ℕ) (elements : ℕ → List ℕ) (at : ℕ)
      → encode_array endian at first_alignment elements
        ≡ followed at (zeros at 4) (array_rest first_alignment elements)
  encode_array-rest first_alignment elements at = regroup (zeros at 4) _ _ _
    where
      regroup : (p l q body : List ℕ) → p ++ l ++ q ++ body ≡ p ++ (l ++ q ++ body)
      regroup p l q body = simp append_assoc

  pub array-IsPadded :
      (a first_alignment : ℕ) (elements : ℕ → List ℕ)
      → 4 ≡ a
      → IsPadded a (λ at. encode_array endian at first_alignment elements)
  array-IsPadded a first_alignment elements is =
      subst (λ a. IsPadded a (λ at. encode_array endian at first_alignment elements)) is
        (IsPadded-first 4 _ (array_rest first_alignment elements) (inr (inr (inl refl)))
          (encode_array-rest first_alignment elements))

  pub encode-IsPadded :
      (d : ContainerDepths) (v : Value) (sig : Signature) (a : ℕ)
      → Fits d v sig
      → alignment_dbus sig ≡ some a
      → IsPadded a (λ at. encode endian at v sig)
  unfolding encode alignment_dbus
  encode-IsPadded d _ _ a (a_basic kind n) e =
      let is : width kind ≡ a = cc (sym (basic_alignment kind) ∙ e) in
      subst (λ a. IsPadded a (λ at. encode endian at (Value.basic kind n) (basic_signature kind)))
        is
        (IsPadded-first (width kind) _ (λ _. endian.write (width kind) n)
          (alignment_dbus-IsAlignment (basic_signature kind) (width kind) (basic_alignment kind))
          (λ at. refl))
  encode-IsPadded d _ _ a (a_text kind v short) e =
      let is : text_width kind ≡ a = cc (sym (text_alignment kind) ∙ e) in
      subst (λ a. IsPadded a (λ at. encode endian at (Value.text kind v) (text_signature kind))) is
        (IsPadded-first (text_width kind) _
          (λ _. endian.write (text_width kind) (length v) ++ v ++ (0 ∷ []))
          (alignment_dbus-IsAlignment (text_signature kind) (text_width kind) (text_alignment kind))
          (λ at. simp append_assoc))
  encode-IsPadded d _ _ a (a_variant v complete short fits inner) e =
      let is : 1 ≡ a = cc e in
      subst (λ a. IsPadded a (λ at. encode endian at (Value.variant v) Signature.variant)) is
        (bytes-IsPadded (λ at. encode endian at (Value.variant v) Signature.variant))
  encode-IsPadded d _ _ a (an_array vs child b is_some fits inner) e =
      array-IsPadded a (alignment child) (λ at. encode_all endian at vs child) (cc e)
  encode-IsPadded d _ _ a (a_dict es key value fits inner) e =
      array-IsPadded a 8 (λ at. encode_entries endian at es key value) (cc e)
  encode-IsPadded d _ _ a (a_structure v vs sigs fits inner) e =
      let is : 8 ≡ a = cc e in
      subst
        (λ a.
          IsPadded a
            (λ at. followed at (zeros at 8) (λ at. encode_fields endian at (cons v vs) sigs)))
        is
        (followed-IsPadded 8 (λ at. encode_fields endian at (cons v vs) sigs)
          (inr (inr (inr refl))))

  array_filled :
      (at first_alignment : ℕ) (elements : ℕ → List ℕ)
      → 0 < length (encode_array endian at first_alignment elements)
  array_filled at first_alignment elements =
      let p = zeros at 4 in
      let q = zeros (at + length p + 4) first_alignment in
      let body = elements (at + length p + 4 + length q) in
      let len = endian.write 4 (length body) in
      let l = length-append (p ++ len ++ q) body in
      let l' = length-append (p ++ len) q in
      let l'' = length-append p len in
      let written = endian.length-write 4 (length body) in omega arith

  -- No value has no bytes.
  pub encode_filled :
      (d : ContainerDepths) (v : Value) (sig : Signature) (at : ℕ)
      → Fits d v sig
      → 0 < length (encode endian at v sig)
  unfolding encode
  encode_filled d _ _ at (a_basic kind n) =
      let l = length-append (zeros at (width kind)) (endian.write (width kind) n) in
      let l' = endian.length-write (width kind) n in
      let positive = width_positive kind in omega arith
  encode_filled d _ _ at (a_text kind v short) =
      let l =
        length-append (zeros at (text_width kind) ++ endian.write (text_width kind) (length v) ++ v)
          (0 ∷ []) in
      omega arith
  encode_filled d _ _ at (a_variant v complete short fits inner) =
      let p = zeros at 1 in
      let text = encode_text endian (at + length p) 1 (display (value_signature v)) in
      let l =
        length-append (p ++ text) (encode endian (at + length (p ++ text)) v (value_signature v)) in
      let filled = encode_filled _ v (value_signature v) (at + length (p ++ text)) inner in
      omega arith
  encode_filled d _ _ at (an_array vs child b is_some fits inner) =
      array_filled at (alignment child) (λ at. encode_all endian at vs child)
  encode_filled d _ _ at (a_dict es key value fits inner) =
      array_filled at 8 (λ at. encode_entries endian at es key value)
  encode_filled d _ _ at (a_structure v vs _ fits (one_field _ _ sig sigs here rest)) =
      let p = zeros at 8 in
      let first = encode endian (at + length p) v sig in
      let others = encode_fields endian (at + length p + length first) vs sigs in
      let l = length-append p (first ++ others) in
      let l' = length-append first others in
      let filled = encode_filled _ v sig (at + length p) here in omega arith

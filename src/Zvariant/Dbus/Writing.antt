-- ===== src/Zvariant/Dbus/Writing.antt =====
-- What the serializer of zvariant/src/dbus/ser.rs writes for a value of the signature, against the
-- bytes of the specification.
use zbus.Prelude.{
  ℕ, ◌+◌, ◌-◌, ◌^◌, ◌<◌, ◌≡◌, refl, sym, subst, ap, ◌∙◌, true, none, some, List, [], ◌∷◌, ◌++◌,
  Result, ok, ◌>>=◌, ltb, ltb-cases, inl, inr, length, length-append, append_assoc, arith,
}
use zbus.Signature.{Signature, alignment_dbus}
use zbus.Signature.Nom.{Nom}
use zbus.Zvariant.Depths.{ContainerDepths}
use zbus.Zvariant.Depths.Nesting.{arr, deeper, IsValid, inc_array-deeper}
use zbus.Zvariant.Dbus.{text_signature, Basic, Text, width, Endian, Failure}
use zbus.Zvariant.Dbus.Ser.{
  Serializer, StructSeq, seq, pad, add_padding, serialize_basic, serialize_str, serialize_seq,
  write_len, element_of, end_seq, end_struct,
}
use zbus.Zvariant.Dbus.Ending.{patch_lem}
use zbus.Zvariant.Dbus.Reference.{zeros, text_width, encode_text, encode_array, followed}

-- The serializer where no signature is put aside.
abbrev pub serializer : List ℕ → ContainerDepths → Serializer
serializer w d = record { written = w; value_sign = none; container_depths = d }

pub ltb-true : (a b : ℕ) → a < b → ltb a b ≡ true
ltb-true a b h = elim (ltb-cases a b) [ inl (e, _) ↦ e | inr (_, g) ↦ absurd (omega arith) ]

pub length_written :
    (w z l v : List ℕ) → w ++ z ++ l ++ (v ++ (0 ∷ [])) ≡ w ++ (z ++ l ++ v ++ (0 ∷ []))
length_written w z l v = simp append_assoc

module _ (position : ℕ) where
  -- What a run writes, when that is not too long, at each depth.
  abbrev pub Writes :
      ContainerDepths → (Serializer → Result Failure Serializer) → (ℕ → List ℕ) → Type 0
  Writes d run bytes =
      (w : List ℕ)
      → length (bytes (position + length w)) < 2 ^ 32
      → run (serializer w d) ≡ ok (serializer (w ++ bytes (position + length w)) d)

  pub pad-Writes :
      (d : ContainerDepths) (a : ℕ) → Writes d (λ s. ok (pad position a s)) (λ at. zeros at a)
  pad-Writes d a w h = refl

module _ (endian : Endian) (position : ℕ) where
  pub Writes-then :
      (d : ContainerDepths) (f g : Serializer → Result Failure Serializer) (a b : ℕ → List ℕ)
      → Writes position d f a
      → Writes position d g b
      → Writes position d (λ s. f s >>= g) (λ at. followed at (a at) b)
  Writes-then d f g a b hf hg w h =
      let at = position + length w in
      let first = a at in
      let sum = length-append first (b (at + length first)) in
      let here : position + length (w ++ first) ≡ at + length first =
        let l = length-append w first in omega arith in
      let step = hg (w ++ first) (subst (λ n. length (b n) < 2 ^ 32) (sym here) (omega arith)) in
      ap (λ r. r >>= g) (hf w (omega arith))
      ∙ step
      ∙ ap (λ n. ok (serializer ((w ++ first) ++ b n) d)) here
      ∙ ap (λ t. ok (serializer t d)) (append_assoc w first (b (at + length first)))

  pub basic-Writes :
      (d : ContainerDepths) (kind : Basic) (n : ℕ)
      → Writes position d
          (λ s. ok (serialize_basic endian position kind n s))
          (λ at. zeros at (width kind) ++ endian.write (width kind) n)
  unfolding serialize_basic
  basic-Writes d kind n w h = ap (λ t. ok (serializer t d)) (append_assoc w _ _)

  -- The serializer and the sequence after `serialize_seq`.
  abbrev head_of : List ℕ → List ℕ
  head_of w = w ++ zeros (position + length w) 4 ++ endian.write 4 0

  abbrev padding_of : List ℕ → ℕ → List ℕ
  padding_of w a = zeros (position + length (head_of w)) a

  abbrev elements_at : List ℕ → ℕ → List ℕ
  elements_at w a = head_of w ++ padding_of w a

  abbrev sequence : Signature → ℕ → List ℕ → StructSeq
  sequence child a w =
      seq child (length (elements_at w a)) (length (elements_at w a) - length (head_of w))

  serialize_seq-begins :
      (d : ContainerDepths) (sig child : Signature) (a : ℕ) (w : List ℕ)
      → element_of sig ≡ some (child, some a)
      → IsValid d
      → IsValid (deeper arr d)
      → serialize_seq endian position sig (serializer w d)
        ≡ ok (sequence child a w, serializer (elements_at w a) (deeper arr d))
  unfolding serialize_seq
  serialize_seq-begins d sig child a w e v fits = rw (e, (inc_array-deeper d v fits).0) refl

  -- In terms of the places where the parts are written.
  encode_array-written :
      (a : ℕ) (elements : ℕ → List ℕ) (w : List ℕ)
      → (let body = elements (position + length (elements_at w a)) in
          encode_array endian (position + length w) a elements
          ≡ zeros (position + length w) 4 ++ endian.write 4 (length body) ++ padding_of w a ++ body)
  encode_array-written a elements w =
      let p = zeros (position + length w) 4 in
      let q = padding_of w a in
      let l = endian.length-write 4 0 in
      let l1 = length-append (w ++ p) (endian.write 4 0) in
      let l2 = length-append w p in
      let l3 = length-append (head_of w) q in
      let e1 : position + length w + length p + 4 ≡ position + length (head_of w) = omega arith in
      let e2 : position + length (head_of w) + length q ≡ position + length (elements_at w a) =
        omega arith in
      ap
        (λ n.
          p
          ++ endian.write 4 (length (elements (n + length (zeros n a))))
          ++ zeros n a
          ++ elements (n + length (zeros n a)))
        e1
      ∙ ap (λ n. p ++ endian.write 4 (length (elements n)) ++ q ++ elements n) e2

  end_seq-ends :
      (d : ContainerDepths) (child : Signature) (a : ℕ) (w body : List ℕ)
      → IsValid d
      → IsValid (deeper arr d)
      → length body < 2 ^ 32
      → end_struct endian (sequence child a w) (serializer (elements_at w a ++ body) (deeper arr d))
        ≡ ok (
            serializer
              (w
                ++ (zeros (position + length w) 4
                    ++ endian.write 4 (length body)
                    ++ padding_of w a
                    ++ body))
              d)
  unfolding end_struct end_seq
  end_seq-ends d child a w body v fits small =
      let p = zeros (position + length w) 4 in
      let q = padding_of w a in
      let z = endian.write 4 0 in
      let l0 = endian.length-write 4 0 in
      let l0' = endian.length-write 4 (length body) in
      let l1 = length-append (w ++ p) z in
      let l3 = length-append (head_of w) q in
      let l4 = length-append (elements_at w a) body in
      let len : length (elements_at w a ++ body) - length (elements_at w a) ≡ length body =
        omega arith in
      let place : length (elements_at w a ++ body)
            - (length body + (length (elements_at w a) - length (head_of w)) + 4)
          ≡ length (w ++ p) =
        omega arith in
      rw (len, place, ltb-true (length body) (2 ^ 32) small, (inc_array-deeper d v fits).1)
        (ap (λ t. ok (serializer t d))
          (patch_lem (w ++ p) z q body (endian.write 4 (length body)) (omega arith)
            ∙ regroup w p (endian.write 4 (length body)) q body))
    where
      regroup : (w p b q e : List ℕ) → w ++ p ++ b ++ (q ++ e) ≡ w ++ (p ++ b ++ q ++ e)
      regroup w p b q e = simp append_assoc

  pub seq-Writes :
      (d : ContainerDepths) (sig child : Signature) (a : ℕ)
      (run : StructSeq → Serializer → Result Failure Serializer) (elements : ℕ → List ℕ)
      → element_of sig ≡ some (child, some a)
      → IsValid d
      → IsValid (deeper arr d)
      → ((start first_padding : ℕ)
          → Writes position (deeper arr d) (run (seq child start first_padding)) elements)
      → Writes position d
          (λ s.
            serialize_seq endian position sig s >>= λ (ser, s). run ser s >>= end_struct endian ser)
          (λ at. encode_array endian at a elements)
  seq-Writes d sig child a run elements e v fits k w h =
      let body = elements (position + length (elements_at w a)) in
      let written = encode_array-written a elements w in
      let l = ap length written in
      let l1 =
        length-append
          (zeros (position + length w) 4 ++ endian.write 4 (length body) ++ padding_of w a) body in
      let small : length body < 2 ^ 32 = omega arith in
      ap (λ r. r >>= λ (ser, s). run ser s >>= end_struct endian ser)
        (serialize_seq-begins d sig child a w e v fits)
      ∙ ap (λ r. r >>= end_struct endian (sequence child a w)) (k _ _ (elements_at w a) small)
      ∙ end_seq-ends d child a w body v fits small
      ∙ ap (λ t. ok (serializer (w ++ t) d)) (sym written)

module _ (endian : Endian) (nom : Nom) (position : ℕ) where
  pub text-Writes :
      (d : ContainerDepths) (kind : Text) (v : List ℕ)
      → length v < 256 ^ text_width kind
      → Writes position d
          (serialize_str endian nom position v (text_signature kind))
          (λ at. encode_text endian at (text_width kind) v)
  unfolding serialize_str add_padding alignment_dbus write_len
  text-Writes d Text.str v fits w h =
      rw (ltb-true (length v) (256 ^ 4) fits)
        (ap (λ t. ok (serializer t d)) (length_written w _ _ v))
  text-Writes d Text.object_path v fits w h =
      rw (ltb-true (length v) (256 ^ 4) fits)
        (ap (λ t. ok (serializer t d)) (length_written w _ _ v))
  text-Writes d Text.signature v fits w h =
      rw (ltb-true (length v) (256 ^ 1) fits)
        (ap (λ t. ok (serializer t d)) (length_written w _ _ v))

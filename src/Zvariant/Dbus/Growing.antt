-- ===== src/Zvariant/Dbus/Growing.antt =====
-- What the parts of the D-Bus serializer in zvariant/src/dbus/ser.rs write and keep.
use zbus.Prelude.{
  ℕ, ◌^◌, ◌≡◌, refl, sym, subst, ap, ◌∙◌, Bool, true, false, Option, none, some, List, [], ◌∷◌,
  ◌++◌, Result, ok, err, ◌>>=◌, bind_ok, ltb, inl, inr, length, Option-cases, Bool-cases,
  append_assoc, append-nil,
}
use zbus.Signature.{Signature, alignment_dbus}
use zbus.Signature.Nom.{Nom}
use zbus.Signature.Parser.{parse}
use zbus.Zvariant.Depths.{MaxDepthExceeded}
use zbus.Zvariant.Dbus.{Basic, Endian, width}
use zbus.Zvariant.Dbus.Ser.{
  Serializer, depth_checked, parsed, write, pad, add_padding, serialize_basic, write_len, put_aside,
  text_len, serialize_str, is_variant, len_width,
}

-- Bytes have been added after those that were there, and the counters are as they were.
abbrev pub Grows : Serializer → Serializer → Type 0
Grows s s' =
    ((added : List ℕ) × (s'.written ≡ s.written ++ added))
    × (s'.container_depths ≡ s.container_depths)

pub Grows-refl : (s : Serializer) → Grows s s
Grows-refl s = (([], sym (append-nil s.written)), refl)

pub Grows-trans : (r s t : Serializer) → Grows r s → Grows s t → Grows r t
Grows-trans r s t ((a, e), d) ((b, f), d') =
    ((a ++ b, f ∙ ap (λ w. w ++ b) e ∙ append_assoc r.written a b), d' ∙ d)

pub depth_checked-ok :
    {A : Type 0} (r : Result MaxDepthExceeded A) {a : A} → depth_checked r ≡ ok a → r ≡ ok a
depth_checked-ok (err e) h = absurd (cc h)
depth_checked-ok (ok a) h = cc h

pub write-Grows : (bytes : List ℕ) (s : Serializer) → Grows s (write bytes s)
write-Grows bytes s = ((bytes, refl), refl)

module _ (endian : Endian) where
  write_len-Grows : (w len : ℕ) (s s' : Serializer) → write_len endian w len s ≡ ok s' → Grows s s'
  unfolding write_len
  write_len-Grows w len s s' h = elim (Bool-cases (ltb len (256 ^ w))) [
    | inr big ↦ absurd (cc (rw big at h))
    | inl fits ↦
        let same : write (endian.write w len) s ≡ s' = cc (rw fits at h) in
        subst (Grows s) same (write-Grows (endian.write w len) s)
  ]

  text_len-Grows :
      (sig : Signature) (w : Option ℕ) (len : ℕ) (s s' : Serializer)
      → text_len endian sig w len s ≡ ok s'
      → Grows s s'
  text_len-Grows sig none len s s' h = absurd (cc h)
  text_len-Grows sig (some w) len s s' h = write_len-Grows w len s s' h

module _ (nom : Nom) where
  put_aside-Grows :
      (b : Bool) (v : List ℕ) (s s' : Serializer) → put_aside nom b v s ≡ ok s' → Grows s s'
  put_aside-Grows false v s s' h = let same : s ≡ s' = cc h in subst (Grows s) same (Grows-refl s)
  put_aside-Grows true v s s' h =
      let (sign, _, e) = bind_ok (parsed (parse nom v false)) _ h in
      let same : record s { value_sign = sign } ≡ s' = cc e in subst (Grows s) same (Grows-refl s)

module _ (position : ℕ) where
  pub pad-Grows : (a : ℕ) (s : Serializer) → Grows s (pad position a s)
  pad-Grows a s = ((_, refl), refl)

  pub add_padding-Grows :
      (sig : Signature) (s s' : Serializer) → add_padding position sig s ≡ ok s' → Grows s s'
  unfolding add_padding
  add_padding-Grows sig s s' h = elim (Option-cases (alignment_dbus sig)) [
    | inl e ↦ absurd (cc (rw (add_padding, e) at h))
    | inr (a, e) ↦
        let same : pad position a s ≡ s' = cc (rw (add_padding, e) at h) in
        subst (Grows s) same (pad-Grows a s)
  ]

module _ (endian : Endian) (position : ℕ) where
  pub serialize_basic-Grows :
      (kind : Basic) (n : ℕ) (s : Serializer) → Grows s (serialize_basic endian position kind n s)
  unfolding serialize_basic
  serialize_basic-Grows kind n s =
      Grows-trans s (pad position (width kind) s)
        (write (endian.write (width kind) n) (pad position (width kind) s))
        (pad-Grows position (width kind) s)
        (write-Grows (endian.write (width kind) n) (pad position (width kind) s))

module _ (endian : Endian) (nom : Nom) (position : ℕ) where
  pub serialize_str-Grows :
      (v : List ℕ) (sig : Signature) (s s' : Serializer)
      → serialize_str endian nom position v sig s ≡ ok s'
      → Grows s s'
  unfolding serialize_str
  serialize_str-Grows v sig s s' h =
      let (c, before, e) =
        bind_ok
          (add_padding position sig s
            >>= put_aside nom (is_variant sig) v
            >>= text_len endian sig (len_width sig) (length v))
          _ h in
      let (b, before', third) =
        bind_ok (add_padding position sig s >>= put_aside nom (is_variant sig) v) _ before in
      let (a, first, second) = bind_ok (add_padding position sig s) _ before' in
      let same : write (v ++ (0 ∷ [])) c ≡ s' = cc e in
      let grown =
        Grows-trans s b c
          (Grows-trans s a b (add_padding-Grows position sig s a first)
            (put_aside-Grows nom (is_variant sig) v a b second))
          (text_len-Grows endian sig (len_width sig) (length v) b c third) in
      subst (Grows s) same
        (Grows-trans s c (write (v ++ (0 ∷ [])) c) grown (write-Grows (v ++ (0 ∷ [])) c))

-- ===== src/Zvariant/Dbus/RoundTrip/Arrays.antt =====
-- The head of an array or a dict, as zvariant/src/dbus/de.rs reads it, and its elements up to the
-- end that the head tells.
use zbus.Prelude.{
  ℕ, ◌+◌, ◌≡◌, refl, sym, subst, ap, ◌∙◌, Option, some, List, ◌++◌, Result, ok, ◌>>=◌, length,
  length-append, append_assoc, arith,
}
use zbus.Zvariant.Depths.{ContainerDepths}
use zbus.Zvariant.Depths.Nesting.{arr, deeper, IsValid, inc_array-deeper}
use zbus.Zvariant.Dbus.{Endian, Failure}
use zbus.Zvariant.Dbus.De.{Deserializer, parse_padding, next_slice, array_deserializer}
use zbus.Zvariant.Dbus.Reference.{zeros, encode_array}
use zbus.Zvariant.Dbus.RoundTrip.Ahead.{reader, Ahead, Ahead-forward, slice-Ahead, padding-Ahead}
use zbus.Zvariant.Dbus.RoundTrip.Aligned.{array-IsPadded}
use zbus.Zvariant.Dbus.RoundTrip.Combine.{InRange, Reads, Reads-aligned}

-- Elements are read up to their end, and the array is left.
abbrev pub ReadsUpTo :
    {A : Type 0}
    → ContainerDepths
    → ContainerDepths
    → (ℕ → Deserializer → Result Failure (A × Deserializer))
    → (ℕ → List ℕ)
    → A
    → Type 0
ReadsUpTo d d' run elements a =
    (bytes left : List ℕ) (pos position end : ℕ)
    → Ahead bytes pos (elements (position + pos) ++ left)
    → InRange position bytes
    → end ≡ pos + length (elements (position + pos))
    → run end (reader bytes pos position d) ≡ ok (a, reader bytes end position d')

module _ (endian : Endian) (d : ContainerDepths) (valid : IsValid d)
    (fits : IsValid (deeper arr d)) where
  -- The parts of an array, one after the other.
  head-Ahead :
      (fa : ℕ) (bytes left p q body : List ℕ) (pos position : ℕ)
      → Ahead bytes pos (p ++ endian.write 4 (length body) ++ q ++ body ++ left)
      → InRange position bytes
      → p ≡ zeros (position + pos) 4
      → q ≡ zeros (position + (pos + length p + 4)) fa
      → (array_deserializer endian (some fa) (reader bytes pos position d)
          ≡ ok (
            (fa, pos + length p + 4 + length q + length body),
            reader bytes (pos + length p + 4 + length q) position (deeper arr d),
          ))
        × Ahead bytes (pos + length p + 4 + length q) (body ++ left)
  unfolding array_deserializer
  head-Ahead fa bytes left p q body pos position ahead small is_p is_q =
      let len = endian.write 4 (length body) in
      let w = endian.length-write 4 (length body) in
      let ahead1 : Ahead bytes pos (p ++ (len ++ (q ++ (body ++ left)))) =
        subst (Ahead bytes pos) (regroup p len q body left) ahead in
      let ahead2 = Ahead-forward bytes p (len ++ (q ++ (body ++ left))) pos ahead1 in
      let ahead3 : Ahead bytes (pos + length p + 4) (q ++ (body ++ left)) =
        subst (λ n. Ahead bytes (pos + length p + n) (q ++ (body ++ left))) w
          (Ahead-forward bytes len (q ++ (body ++ left)) (pos + length p) ahead2) in
      let ahead4 = Ahead-forward bytes q (body ++ left) (pos + length p + 4) ahead3 in
      let first : parse_padding 4 (reader bytes pos position d)
          ≡ ok (reader bytes (pos + length p) position d) =
        padding-Ahead 4 bytes (len ++ (q ++ (body ++ left))) pos position d
          (subst (λ p. Ahead bytes pos (p ++ (len ++ (q ++ (body ++ left))))) is_p ahead1)
        ∙ ap (λ p. ok (reader bytes (pos + length p) position d)) (sym is_p) in
      let second : next_slice 4 (reader bytes (pos + length p) position (deeper arr d))
          ≡ ok (len, reader bytes (pos + length p + 4) position (deeper arr d)) =
        subst
          (λ n.
            next_slice n (reader bytes (pos + length p) position (deeper arr d))
            ≡ ok (len, reader bytes (pos + length p + n) position (deeper arr d)))
          w
          (slice-Ahead bytes len (q ++ (body ++ left)) (pos + length p) position (deeper arr d)
            ahead2) in
      let third : parse_padding fa (reader bytes (pos + length p + 4) position (deeper arr d))
          ≡ ok (reader bytes (pos + length p + 4 + length q) position (deeper arr d)) =
        padding-Ahead fa bytes (body ++ left) (pos + length p + 4) position (deeper arr d)
          (subst (λ q. Ahead bytes (pos + length p + 4) (q ++ (body ++ left))) is_q ahead3)
        ∙ ap (λ q. ok (reader bytes (pos + length p + 4 + length q) position (deeper arr d)))
            (sym is_q) in
      let (end, _) = ahead4 in
      let l = length-append body left in
      let number = endian.read-write 4 (length body) (omega arith) in
      (rw (first, (inc_array-deeper d valid fits).0, second, third, number) refl, ahead4)
    where
      regroup : (p l q b r : List ℕ) → p ++ l ++ q ++ b ++ r ≡ p ++ (l ++ (q ++ (b ++ r)))
      regroup p l q b r = simp append_assoc

  pub array-Reads :
      {A : Type 0} (fa : ℕ) (o : Option ℕ)
      (run : ℕ → ℕ → Deserializer → Result Failure (A × Deserializer)) (elements : ℕ → List ℕ)
      (a : A)
      → o ≡ some fa
      → ReadsUpTo (deeper arr d) d (run fa) elements a
      → Reads d d
          (λ s. parse_padding 4 s >>= λ s.
            array_deserializer endian o s >>= λ ((alignment, end), s). run alignment end s)
          (λ at. encode_array endian at fa elements)
          a
  array-Reads {A = A} fa o run elements a e reads =
      Reads-aligned d d 4
        (λ s. array_deserializer endian o s >>= λ ((alignment, end), s). run alignment end s)
        (λ at. encode_array endian at fa elements) a (array-IsPadded endian 4 fa elements refl)
        (subst
          (λ o.
            Reads d d
              (λ s. array_deserializer endian o s >>= λ ((alignment, end), s). run alignment end s)
              (λ at. encode_array endian at fa elements) a)
          (sym e) from_head)
    where
      from_head :
          Reads d d
            (λ s. array_deserializer endian (some fa) s >>= λ ((alignment, end), s).
              run alignment end s)
            (λ at. encode_array endian at fa elements)
            a
      from_head bytes left pos position ahead small =
          let at = position + pos in
          let p = zeros at 4 in
          let q = zeros (at + length p + 4) fa in
          let body = elements (at + length p + 4 + length q) in
          let len = endian.write 4 (length body) in
          let q_place : at + length p + 4 ≡ position + (pos + length p + 4) = omega arith in
          let place : at + length p + 4 + length q ≡ position + (pos + length p + 4 + length q) =
            omega arith in
          let (heads, there) =
            head-Ahead fa bytes left p q body pos position ahead small refl
              (ap (λ n. zeros n fa) q_place) in
          let l = length-append (p ++ len ++ q) body in
          let l' = length-append (p ++ len) q in
          let l'' = length-append p len in
          let w = endian.length-write 4 (length body) in
          let at_end : pos + length p + 4 + length q + length body
              ≡ pos + length (p ++ len ++ q ++ body) =
            omega arith in
          ap (λ r. r >>= λ ((alignment, end), s). run alignment end s) heads
          ∙ reads bytes left (pos + length p + 4 + length q) position
              (pos + length p + 4 + length q + length body)
              (subst (λ n. Ahead bytes (pos + length p + 4 + length q) (elements n ++ left)) place
                there)
              small (ap (λ n. pos + length p + 4 + length q + length (elements n)) place)
          ∙ ap (λ n. ok (a, reader bytes n position d)) at_end

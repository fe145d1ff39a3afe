-- ===== src/Zvariant/Dbus/RoundTrip/Combine.antt =====
-- Runs of the deserializer of zvariant/src/dbus/de.rs that read known bytes, one after the other.
use zbus.Prelude.{
  ℕ, ◌+◌, ◌^◌, ◌<◌, ◌≡◌, sym, subst, ap, ◌∙◌, List, ◌++◌, Result, ok, ◌>>=◌, length, length-append,
  append_assoc, arith,
}
use zbus.Signature.Layout.{IsAlignment}
use zbus.Zvariant.Depths.{ContainerDepths}
use zbus.Zvariant.Dbus.{Failure}
use zbus.Zvariant.Dbus.De.{Deserializer, parse_padding}
use zbus.Zvariant.Dbus.Reference.{zeros, followed}
use zbus.Zvariant.Dbus.RoundTrip.Ahead.{reader, Ahead, Ahead-forward, padding-Ahead, zeros_again}

-- The message is shorter than a length can say.
abbrev pub InRange : ℕ → List ℕ → Type 0
InRange position bytes = position + length bytes < 2 ^ 32

-- A run that reads the bytes and no more, where they lie ahead, to a value.
abbrev pub Reads :
    {A : Type 0}
    → ContainerDepths
    → ContainerDepths
    → (Deserializer → Result Failure (A × Deserializer))
    → (ℕ → List ℕ)
    → A
    → Type 0
Reads d d' run enc a =
    (bytes left : List ℕ) (pos position : ℕ)
    → Ahead bytes pos (enc (position + pos) ++ left)
    → InRange position bytes
    → run (reader bytes pos position d)
      ≡ ok (a, reader bytes (pos + length (enc (position + pos))) position d')

-- Where bytes that follow each other lie ahead, so do the first, and then the others, from where
-- they start to where both end.
pub Ahead-followed :
    (enc enc' : ℕ → List ℕ) (bytes left : List ℕ) (pos position : ℕ)
    → Ahead bytes pos (followed (position + pos) (enc (position + pos)) enc' ++ left)
    → (more : List ℕ) × Ahead bytes pos (enc (position + pos) ++ more)
      × Ahead bytes
          (pos + length (enc (position + pos)))
          (enc' (position + (pos + length (enc (position + pos)))) ++ left)
      × (pos
            + length (enc (position + pos))
            + length (enc' (position + (pos + length (enc (position + pos)))))
          ≡ pos + length (followed (position + pos) (enc (position + pos)) enc'))
Ahead-followed enc enc' bytes left pos position ahead =
    let there = enc (position + pos) in
    let same : position + pos + length there ≡ position + (pos + length there) = omega arith in
    let ahead' = subst (λ n. Ahead bytes pos (there ++ enc' n ++ left)) same ahead in
    let more = enc' (position + (pos + length there)) in
    let ahead'' : Ahead bytes pos (there ++ (more ++ left)) =
      subst (Ahead bytes pos) (append_assoc there more left) ahead' in
    let l = length-append there more in
    let l' : length (there ++ more) ≡ length (followed (position + pos) there enc') =
      ap (λ n. length (there ++ enc' n)) (sym same) in
    (more ++ left, ahead'', Ahead-forward bytes there (more ++ left) pos ahead'', omega arith)

module _ {A B : Type 0} (d d' d'' : ContainerDepths) where
  pub Reads-followed :
      (f : Deserializer → Result Failure (A × Deserializer))
      (g : A → Deserializer → Result Failure (B × Deserializer)) (enc enc' : ℕ → List ℕ) (a : A)
      (b : B)
      → Reads d d' f enc a
      → Reads d' d'' (g a) enc' b
      → Reads d d'' (λ s. f s >>= λ (a, s). g a s) (λ at. followed at (enc at) enc') b
  Reads-followed f g enc enc' a b first second bytes left pos position ahead small =
      let (more, here, later, at_end) = Ahead-followed enc enc' bytes left pos position ahead in
      ap (λ r. r >>= λ (a, s). g a s) (first bytes more pos position here small)
      ∙ second bytes left (pos + length (enc (position + pos))) position later small
      ∙ ap (λ n. ok (b, reader bytes n position d'')) at_end

-- Bytes that start with the padding for an alignment.
abbrev pub IsPadded : ℕ → (ℕ → List ℕ) → Type 0
IsPadded a enc = (at : ℕ) → at < 2 ^ 63 → enc at ≡ followed at (zeros at a) enc

module _ {B : Type 0} (d d' : ContainerDepths) where
  pub Reads-padding :
      (alignment : ℕ) (g : Deserializer → Result Failure (B × Deserializer)) (enc : ℕ → List ℕ)
      (b : B)
      → Reads d d' g enc b
      → Reads d d'
          (λ s. parse_padding alignment s >>= g)
          (λ at. followed at (zeros at alignment) enc)
          b
  Reads-padding alignment g enc b second bytes left pos position ahead small =
      let (more, here, later, at_end) =
        Ahead-followed (λ at. zeros at alignment) enc bytes left pos position ahead in
      ap (λ r. r >>= g) (padding-Ahead alignment bytes more pos position d here)
      ∙ second bytes left (pos + length (zeros (position + pos) alignment)) position later small
      ∙ ap (λ n. ok (b, reader bytes n position d')) at_end

  pub Reads-same :
      (g : Deserializer → Result Failure (B × Deserializer)) (enc enc' : ℕ → List ℕ) (b : B)
      → ((at : ℕ) → at < 2 ^ 63 → enc' at ≡ enc at)
      → Reads d d' g enc b
      → Reads d d' g enc' b
  Reads-same g enc enc' b e reads bytes left pos position ahead small =
      let (len, _) = ahead in
      let l = length-append (enc' (position + pos)) left in
      let same = e (position + pos) (omega arith) in
      reads bytes left pos position (subst (λ xs. Ahead bytes pos (xs ++ left)) same ahead) small
      ∙ ap (λ xs. ok (b, reader bytes (pos + length xs) position d')) (sym same)

  -- Padding where it may have been skipped already.
  pub Reads-aligned :
      (alignment : ℕ) (g : Deserializer → Result Failure (B × Deserializer)) (enc : ℕ → List ℕ)
      (b : B)
      → IsPadded alignment enc
      → Reads d d' g enc b
      → Reads d d' (λ s. parse_padding alignment s >>= g) enc b
  Reads-aligned alignment g enc b padded second =
      Reads-same (λ s. parse_padding alignment s >>= g) (λ at. followed at (zeros at alignment) enc)
        enc b padded (Reads-padding alignment g enc b second)

pub followed-IsPadded :
    (a : ℕ) (rest : ℕ → List ℕ) → IsAlignment a → IsPadded a (λ at. followed at (zeros at a) rest)
followed-IsPadded a rest alignment at small =
    let again = zeros_again at a (omega arith) alignment in
    ap (λ n. zeros at a ++ rest n) (omega arith)
    ∙ ap (λ xs. zeros at a ++ (xs ++ rest (at + length (zeros at a) + length xs))) (sym again)

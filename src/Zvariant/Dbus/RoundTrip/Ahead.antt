-- ===== src/Zvariant/Dbus/RoundTrip/Ahead.antt =====
-- Reading known bytes in zvariant/src/dbus/de.rs.
use zbus.Prelude.{
  ℕ, zero, suc, ◌+◌, ◌%◌, ◌^◌, ◌<◌, ◌≤◌, ◌≡◌, refl, sym, ap, ◌∙◌, inl, inr, List, [], ◌∷◌, ◌++◌, ok,
  ◌>>=◌, ltb-cases, length, take, drop, replicate, length-append, take-append, drop-append, arith,
}
use zbus.Signature.Layout.{IsAlignment}
use zbus.Zvariant.Padding.{padding_for_n_bytes, padding_for_n_bytes-IsPadding}
use zbus.Zvariant.Depths.{ContainerDepths}
use zbus.Zvariant.Dbus.De.{Deserializer, all_zero, parse_padding, next_slice}
use zbus.Zvariant.Dbus.Reference.{zeros}

abbrev pub reader : List ℕ → ℕ → ℕ → ContainerDepths → Deserializer
reader bytes pos position d = record {
  bytes = bytes;
  pos = pos;
  position = position;
  container_depths = d;
}

-- What is left of the bytes, from a place in them.
abbrev pub Ahead : List ℕ → ℕ → List ℕ → Type 0
Ahead bytes pos left = (pos + length left ≡ length bytes) × (drop pos bytes ≡ left)

drop-nil : (n : ℕ) → drop {A = ℕ} n [] ≡ []
drop-nil zero = refl
drop-nil (suc n) = refl

drop-drop : (pos n : ℕ) (bytes : List ℕ) → drop (pos + n) bytes ≡ drop n (drop pos bytes)
drop-drop zero n bytes = ap (λ k. drop k bytes) (omega arith)
drop-drop (suc pos) n [] = drop-nil (suc pos + n) ∙ sym (drop-nil n)
drop-drop (suc pos) n (b ∷ bytes) =
    let next : suc pos + n ≡ suc (pos + n) = omega arith in
    ap (λ k. drop k (b ∷ bytes)) next ∙ drop-drop pos n bytes

pub Ahead-forward :
    (bytes xs left : List ℕ) (pos : ℕ)
    → Ahead bytes pos (xs ++ left)
    → Ahead bytes (pos + length xs) left
Ahead-forward bytes xs left pos (len, e) =
    let l = length-append xs left in
    (omega arith, drop-drop pos (length xs) bytes ∙ ap (drop (length xs)) e ∙ drop-append xs left)

pub slice-Ahead :
    (bytes xs left : List ℕ) (pos position : ℕ) (d : ContainerDepths)
    → Ahead bytes pos (xs ++ left)
    → next_slice (length xs) (reader bytes pos position d)
      ≡ ok (xs, reader bytes (pos + length xs) position d)
unfolding next_slice
slice-Ahead bytes xs left pos position d (len, e) =
    let l = length-append xs left in
    elim (ltb-cases (length bytes) (pos + length xs)) [
      | inl (_, past) ↦ absurd (omega arith)
      | inr (t, _) ↦ rw t (
          ap (λ s. ok (take (length xs) s, reader bytes (pos + length xs) position d)) e
          ∙ ap (λ s. ok (s, reader bytes (pos + length xs) position d)) (take-append xs left))
    ]

length-replicate : (n b : ℕ) → length (replicate n b) ≡ n
length-replicate zero b = refl
length-replicate (suc n) b = ap suc (length-replicate n b)

pub length-zeros : (at a : ℕ) → length (zeros at a) ≡ padding_for_n_bytes at a
length-zeros at a = length-replicate (padding_for_n_bytes at a) 0

all_zero-replicate : (n : ℕ) (left : List ℕ) → all_zero n (replicate n 0 ++ left) ≡ ok tt
all_zero-replicate zero left = refl
all_zero-replicate (suc n) left = all_zero-replicate n left

pub padding-Ahead :
    (a : ℕ) (bytes left : List ℕ) (pos position : ℕ) (d : ContainerDepths)
    → Ahead bytes pos (zeros (position + pos) a ++ left)
    → parse_padding a (reader bytes pos position d)
      ≡ ok (reader bytes (pos + length (zeros (position + pos) a)) position d)
unfolding parse_padding
padding-Ahead a bytes left pos position d (len, e) =
    let p = padding_for_n_bytes (position + pos) a in
    let l = length-append (zeros (position + pos) a) left in
    let z = length-zeros (position + pos) a in
    elim (ltb-cases 0 p) [
      | inr (none_needed, least) ↦
          let stays : pos ≡ pos + length (zeros (position + pos) a) = omega arith in
          rw none_needed (ap (λ pos. ok (reader bytes pos position d)) stays)
      | inl (needed, _) ↦ elim (ltb-cases (length bytes) (pos + p)) [
        | inl (_, past) ↦ absurd (omega arith)
        | inr (within, _) ↦
            rw (needed, within)
              (ap (λ s. all_zero p s >>= λ _. ok (reader bytes (pos + p) position d)) e
                ∙ ap (λ r. r >>= λ _. ok (reader bytes (pos + p) position d))
                    (all_zero-replicate p left)
                ∙ ap (λ n. ok (reader bytes (pos + n) position d)) (sym z))
      ]
    ]

-- No padding is needed at a place that is aligned.
padding_none :
    (at a : ℕ) → at + 8 ≤ 2 ^ 64 → IsAlignment a → at % a ≡ 0 → padding_for_n_bytes at a ≡ 0
padding_none at a fits alignment there =
    let (less, aligned) = padding_for_n_bytes-IsPadding at fits a alignment in
    both_aligned a (padding_for_n_bytes at a) alignment there less aligned
  where
    both_aligned : (a p : ℕ) → IsAlignment a → at % a ≡ 0 → p < a → (at + p) % a ≡ 0 → p ≡ 0
    both_aligned a p (inl e) there less aligned =
        let there' : at % 1 ≡ 0 = rw e at there in
        let aligned' : (at + p) % 1 ≡ 0 = rw e at aligned in omega arith
    both_aligned a p (inr (inl e)) there less aligned =
        let there' : at % 2 ≡ 0 = rw e at there in
        let aligned' : (at + p) % 2 ≡ 0 = rw e at aligned in omega arith
    both_aligned a p (inr (inr (inl e))) there less aligned =
        let there' : at % 4 ≡ 0 = rw e at there in
        let aligned' : (at + p) % 4 ≡ 0 = rw e at aligned in omega arith
    both_aligned a p (inr (inr (inr e))) there less aligned =
        let there' : at % 8 ≡ 0 = rw e at there in
        let aligned' : (at + p) % 8 ≡ 0 = rw e at aligned in omega arith

pub zeros_again :
    (at a : ℕ) → at + 16 ≤ 2 ^ 64 → IsAlignment a → zeros (at + length (zeros at a)) a ≡ []
zeros_again at a fits alignment =
    let (less, aligned) = padding_for_n_bytes-IsPadding at (omega arith) a alignment in
    let z = length-zeros at a in
    let small = at_most a alignment in
    ap (λ n. replicate n 0)
      (padding_none (at + length (zeros at a)) a (omega arith) alignment
        (ap (λ n. (at + n) % a) z ∙ aligned))
  where
    at_most : (a : ℕ) → IsAlignment a → a ≤ 8
    at_most a (inl e) = omega arith
    at_most a (inr (inl e)) = omega arith
    at_most a (inr (inr (inl e))) = omega arith
    at_most a (inr (inr (inr e))) = omega arith

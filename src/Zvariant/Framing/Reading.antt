-- ===== src/Zvariant/Framing/Reading.antt =====
-- Reading framing offsets from any bytes: zvariant/src/framing_offsets.rs.
use zbus.Prelude.{
  ℕ, zero, suc, ◌+◌, ◌-◌, ◌*◌, ◌^◌, ◌≤◌, ◌<◌, ◌≡◌, inl, inr, refl, List, [], ◌∷◌, ◌++◌, Result, ok,
  err, ltb-cases, All, All-append, length, length-append, length-take, length-drop, arith, take,
  drop,
}
use zbus.Zvariant.Framing.{
  FramingOffsetSize, width, usize, Failure, invalid_length, Endi, read_last_offset_from_buffer,
  read_offsets, from_encoded_array, for_encoded_container,
}
use zbus.Zvariant.Framing.Size.{IsSmallest, smallest, for_bare_container-IsSmallest}
use zbus.Zvariant.Framing.Bytes.{width-positive, slice-inside, read_last-enough}
use zbus.Zvariant.Framing.Loop.{round_done, round_short, round_reads, round_refuses}

-- What reading ends in: an `invalid_length` error, or offsets that satisfy a predicate.
pub data Outcome {A : Type 0} (P : A → Type 0) (r : Result Failure A) : Type 0 where
  refused : (found bound : ℕ) → r ≡ err (invalid_length found bound) → Outcome P r
  gives : (a : A) → r ≡ ok a → P a → Outcome P r

module _ (endi : Endi) (s : FramingOffsetSize) (container : List ℕ) (start : ℕ)
    (fits : length container < 2 ^ 63) where
  -- The offsets read so far lie before the offsets, which they fill from the start to `i`.
  abbrev Filled : ℕ → List ℕ → Type 0
  Filled i acc = (All (λ o. o ≤ start) acc) × (start + length acc * width s ≡ i)

  loop_ends :
      (fuel i : ℕ) (acc : List ℕ)
      → i ≤ length container
      → length container < fuel + i
      → Filled i acc
      → Outcome (Filled (length container)) (read_offsets endi fuel container s start i acc)
  loop_ends zero i acc h enough filled = absurd (omega arith)
  loop_ends (suc fuel) i acc h enough (before, filled) =
      let next : usize (i + width s) ≡ i + width s = wide s in
      let positive = width-positive s in
      elim (ltb-cases i (length container)) [
        | inr (_, done) ↦
            gives acc (round_done endi s container start fuel i acc done) (before, omega arith)
        | inl (_, inside) ↦ elim (ltb-cases (length container) (usize (i + width s))) [
          | inl (_, short) ↦
              refused (usize (i + width s)) (length container)
                (round_short endi s container start fuel i acc inside short)
          | inr (_, whole) ↦
              let bytes = take (usize (i + width s) - i) (drop i container) in
              let len = length-take (usize (i + width s) - i) (drop i container) in
              let len' = length-drop i container in
              let (offset, read) = read_last-enough endi s bytes (omega arith) in
              let cut = slice-inside container i (usize (i + width s)) (omega arith) whole in
              elim (ltb-cases start offset) [
                | inl (_, beyond) ↦ refused offset start (
                    round_refuses endi s container start fuel i acc bytes offset inside whole cut
                      read beyond)
                | inr (_, fine) ↦
                    let one_more = length-append acc (offset ∷ []) in
                    let count : (length acc + 1) * width s ≡ length acc * width s + width s =
                      grind arith in
                    let filled' : start + length (acc ++ (offset ∷ [])) * width s
                        ≡ usize (i + width s) =
                      rw one_more (omega arith) in
                    rw
                      (round_reads endi s container start fuel i acc bytes offset inside whole cut
                        read fine)
                      (loop_ends fuel (usize (i + width s)) (acc ++ (offset ∷ [])) whole
                        (omega arith)
                        (All-append (λ o. o ≤ start) acc (offset ∷ []) before (fine, tt), filled'))
              ]
        ]
      ]
    where
      wide : (s : FramingOffsetSize) → usize (i + width s) ≡ i + width s
      wide FramingOffsetSize.u8 = omega arith
      wide FramingOffsetSize.u16 = omega arith
      wide FramingOffsetSize.u32 = omega arith
      wide FramingOffsetSize.u64 = omega arith

-- What a successful reading gives of a container of a length: offsets of the size for that length
-- fill the bytes counted, and none lies past the start of these bytes.
abbrev pub AreOffsets : ℕ → FramingOffsetSize → List ℕ × ℕ → Type 0
AreOffsets total s (offsets, offsets_len) =
    (offsets_len ≤ total)
    × (length offsets * width s ≡ offsets_len)
    × All (λ o. o ≤ total - offsets_len) offsets

enough_bytes : (n : ℕ) (s : FramingOffsetSize) → 0 < n → IsSmallest n 0 s → width s ≤ n
enough_bytes n FramingOffsetSize.u8 h i = omega arith
enough_bytes n FramingOffsetSize.u16 h (i, j) = omega arith
enough_bytes n FramingOffsetSize.u32 h (i, j) = omega arith
enough_bytes n FramingOffsetSize.u64 h (i, j) = omega arith

read_last-any :
    (endi : Endi) (s : FramingOffsetSize) (container : List ℕ)
    → IsSmallest (length container) 0 s
    → (offset : ℕ) × (read_last_offset_from_buffer endi s container ≡ ok offset)
unfolding read_last_offset_from_buffer
read_last-any endi s [] i = (0, refl)
read_last-any endi s (b ∷ bs) i =
    read_last-enough endi s (b ∷ bs) (enough_bytes (length (b ∷ bs)) s (omega arith) i)

-- Reading the offsets of any container of fewer than 2 ^ 63 bytes, the most that a Rust slice has,
-- neither panics nor loops: it is refused with an invalid length, or gives offsets of the size for
-- the container's length that fill the bytes counted, none of them past the start of these bytes.
pub from_encoded_array-ends :
    (endi : Endi) (container : List ℕ)
    → length container < 2 ^ 63
    → (s : FramingOffsetSize) × (for_encoded_container (length container) ≡ ok s)
      × Outcome (AreOffsets (length container) s) (from_encoded_array endi container)
unfolding from_encoded_array for_encoded_container
from_encoded_array-ends endi container fits =
    let (s, i) = smallest (length container) 0 (omega arith) in
    let chosen = (for_bare_container-IsSmallest (length container) 0 s (omega arith)).1 i in
    let (start, read) = read_last-any endi s container i in
    (
      s,
      chosen,
      elim (ltb-cases (length container) start) [
        | inl (t, _) ↦ refused start (length container) (rw (chosen, read, t) refl)
        | inr (t, within) ↦
            elim (loop_ends endi s container start fits (suc (length container)) start [] within
              (omega arith) (tt, omega arith)) [
                | refused found bound e ↦ refused found bound (rw (chosen, read, t, e) refl)
                | gives offsets e (before, filled) ↦
                    let same : length container - (length container - start) ≡ start =
                      omega arith in
                    gives (offsets, length container - start) (rw (chosen, read, t, e) refl)
                      (omega arith, omega arith, rw same before)
              ]
      ],
    )

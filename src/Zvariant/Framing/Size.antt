-- ===== src/Zvariant/Framing/Size.antt =====
-- The choice of an offset size in zvariant/src/framing_offset_size.rs.
use zbus.Prelude.{
  le→leb, gt→leb, ℕ, suc, ◌+◌, ◌*◌, ◌^◌, ◌≤◌, ◌<◌, ◌≡◌, inl, inr, refl, ◌∙◌, ◌↔◌, some, ok,
  leb-cases, arith,
}
use zbus.Zvariant.Framing.{
  FramingOffsetSize, width, usize, max, bump_up, smallest_from, for_bare_container,
  for_encoded_container,
}

-- The container and its offsets of a size, in bytes.
abbrev pub encoded_len : ℕ → ℕ → FramingOffsetSize → ℕ
encoded_len container_len num_offsets s = container_len + num_offsets * width s

-- A size that the container fits in, where no smaller one does.
abbrev pub IsSmallest : ℕ → ℕ → FramingOffsetSize → Type 0
IsSmallest c n FramingOffsetSize.u8 =
    encoded_len c n FramingOffsetSize.u8 ≤ max FramingOffsetSize.u8
IsSmallest c n FramingOffsetSize.u16 =
    (max FramingOffsetSize.u8 < encoded_len c n FramingOffsetSize.u8)
    × (encoded_len c n FramingOffsetSize.u16 ≤ max FramingOffsetSize.u16)
IsSmallest c n FramingOffsetSize.u32 =
    (max FramingOffsetSize.u16 < encoded_len c n FramingOffsetSize.u16)
    × (encoded_len c n FramingOffsetSize.u32 ≤ max FramingOffsetSize.u32)
IsSmallest c n FramingOffsetSize.u64 =
    (max FramingOffsetSize.u32 < encoded_len c n FramingOffsetSize.u32)
    × (encoded_len c n FramingOffsetSize.u64 ≤ max FramingOffsetSize.u64)

-- Where the container with 8-byte offsets fits in a `usize`.
abbrev pub Fits : ℕ → ℕ → Type 0
Fits container_len num_offsets = container_len + num_offsets * 8 < 2 ^ 64

pub smallest : (c n : ℕ) → Fits c n → (s : FramingOffsetSize) × IsSmallest c n s
smallest c n h = elim (leb-cases (c + n * 1) (max FramingOffsetSize.u8)) [
  | inl (_, le) ↦ (FramingOffsetSize.u8, le)
  | inr (_, gt) ↦ elim (leb-cases (c + n * 2) (max FramingOffsetSize.u16)) [
    | inl (_, le) ↦ (FramingOffsetSize.u16, (gt, le))
    | inr (_, gt) ↦ elim (leb-cases (c + n * 4) (max FramingOffsetSize.u32)) [
      | inl (_, le) ↦ (FramingOffsetSize.u32, (gt, le))
      | inr (_, gt) ↦ (FramingOffsetSize.u64, (gt, omega arith))
    ]
  ]
]

-- One round of the loop.
module _ (fuel c n : ℕ) (s : FramingOffsetSize)
    (sum : usize (c + usize (n * width s)) ≡ encoded_len c n s) where
  round_fits : encoded_len c n s ≤ max s → smallest_from (suc fuel) c n s ≡ ok s
  unfolding smallest_from
  round_fits h = rw (sum, le→leb (encoded_len c n s) (max s) h) refl

  round_bumps :
      (next : FramingOffsetSize)
      → max s < encoded_len c n s
      → bump_up s ≡ some next
      → smallest_from (suc fuel) c n s ≡ smallest_from fuel c n next
  unfolding smallest_from
  round_bumps next h e = rw (sum, gt→leb (encoded_len c n s) (max s) h, e) refl

smallest-bare :
    (c n : ℕ) (s : FramingOffsetSize) → Fits c n → IsSmallest c n s → for_bare_container c n ≡ ok s
unfolding for_bare_container bump_up
smallest-bare c n s h i =
    elim s as (λ s. IsSmallest c n s → smallest_from 4 c n FramingOffsetSize.u8 ≡ ok s) [
      | FramingOffsetSize.u8 ↦ λ i. round_fits 3 c n FramingOffsetSize.u8 (omega arith) i
      | FramingOffsetSize.u16 ↦ λ i.
          from_u8 (omega arith) ∙ round_fits 2 c n FramingOffsetSize.u16 (omega arith) (omega arith)
      | FramingOffsetSize.u32 ↦ λ i.
          from_u8 (omega arith)
          ∙ from_u16 (omega arith)
          ∙ round_fits 1 c n FramingOffsetSize.u32 (omega arith) (omega arith)
      | FramingOffsetSize.u64 ↦ λ i.
          from_u8 (omega arith)
          ∙ from_u16 (omega arith)
          ∙ from_u32 (omega arith)
          ∙ round_fits 0 c n FramingOffsetSize.u64 (omega arith) (omega arith)
    ]
      i
  where
    from_u8 :
        max FramingOffsetSize.u8 < encoded_len c n FramingOffsetSize.u8
        → smallest_from 4 c n FramingOffsetSize.u8 ≡ smallest_from 3 c n FramingOffsetSize.u16
    from_u8 gt = round_bumps 3 c n FramingOffsetSize.u8 (omega arith) FramingOffsetSize.u16 gt refl

    from_u16 :
        max FramingOffsetSize.u16 < encoded_len c n FramingOffsetSize.u16
        → smallest_from 3 c n FramingOffsetSize.u16 ≡ smallest_from 2 c n FramingOffsetSize.u32
    from_u16 gt =
        round_bumps 2 c n FramingOffsetSize.u16 (omega arith) FramingOffsetSize.u32 gt refl

    from_u32 :
        max FramingOffsetSize.u32 < encoded_len c n FramingOffsetSize.u32
        → smallest_from 2 c n FramingOffsetSize.u32 ≡ smallest_from 1 c n FramingOffsetSize.u64
    from_u32 gt =
        round_bumps 1 c n FramingOffsetSize.u32 (omega arith) FramingOffsetSize.u64 gt refl

-- Where the container with 8-byte offsets fits in a `usize`, the loop ends without a panic, with
-- the smallest offset size in which the container with its offsets fits.
pub for_bare_container-IsSmallest :
    (container_len num_offsets : ℕ) (s : FramingOffsetSize)
    → Fits container_len num_offsets
    → (for_bare_container container_len num_offsets ≡ ok s) ↔ IsSmallest container_len num_offsets s
for_bare_container-IsSmallest c n s h =
    let (t, i) = smallest c n h in
    let e = smallest-bare c n t h i in
    ((λ e'. let same : t ≡ s = cc in rw (← same) i), λ i. smallest-bare c n s h i)

-- The reader of an encoded container finds the offset size that its writer has chosen: the size
-- for the length of the whole, offsets included, is the size for the bare container. The whole
-- with 8-byte offsets fits in a `usize`.
pub for_encoded_container-bare :
    (container_len num_offsets : ℕ) (s : FramingOffsetSize)
    → Fits container_len num_offsets
    → for_bare_container container_len num_offsets ≡ ok s
    → for_encoded_container (encoded_len container_len num_offsets s) ≡ ok s
unfolding for_encoded_container
for_encoded_container-bare c n s h e =
    let i = (for_bare_container-IsSmallest c n s h).0 e in
    smallest-bare (encoded_len c n s) 0 s (bound s) (again s i)
  where
    bound : (s : FramingOffsetSize) → Fits (encoded_len c n s) 0
    bound FramingOffsetSize.u8 = omega arith
    bound FramingOffsetSize.u16 = omega arith
    bound FramingOffsetSize.u32 = omega arith
    bound FramingOffsetSize.u64 = omega arith

    again : (s : FramingOffsetSize) → IsSmallest c n s → IsSmallest (encoded_len c n s) 0 s
    again FramingOffsetSize.u8 i = omega arith
    again FramingOffsetSize.u16 i = (omega arith, omega arith)
    again FramingOffsetSize.u32 i = (omega arith, omega arith)
    again FramingOffsetSize.u64 i = (omega arith, omega arith)

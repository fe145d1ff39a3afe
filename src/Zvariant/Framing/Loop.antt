-- ===== src/Zvariant/Framing/Loop.antt =====
-- The rounds of the loop of `from_encoded_array` in zvariant/src/framing_offsets.rs.
use zbus.Prelude.{
  ge→ltb, lt→ltb, ℕ, suc, ◌+◌, ◌≤◌, ◌<◌, ◌≡◌, refl, List, [], ◌∷◌, ◌++◌, ok, err, length,
}
use zbus.Zvariant.Framing.{
  FramingOffsetSize, width, usize, invalid_length, Endi, slice, read_last_offset_from_buffer,
  read_offsets,
}

module _ (endi : Endi) (s : FramingOffsetSize) (container : List ℕ) (start fuel i : ℕ)
    (acc : List ℕ) where
  pub round_done :
      length container ≤ i → read_offsets endi (suc fuel) container s start i acc ≡ ok acc
  unfolding read_offsets
  round_done h = rw (ge→ltb i (length container) h) refl

  pub round_short :
      i < length container
      → length container < usize (i + width s)
      → read_offsets endi (suc fuel) container s start i acc
        ≡ err (invalid_length (usize (i + width s)) (length container))
  unfolding read_offsets
  round_short h k =
      rw (lt→ltb i (length container) h, lt→ltb (length container) (usize (i + width s)) k) refl

  module _ (bytes : List ℕ) (offset : ℕ) (inside : i < length container)
      (enough : usize (i + width s) ≤ length container)
      (cut : slice container i (usize (i + width s)) ≡ ok bytes)
      (read : read_last_offset_from_buffer endi s bytes ≡ ok offset) where
    pub round_reads :
        offset ≤ start
        → read_offsets endi (suc fuel) container s start i acc
          ≡ read_offsets endi fuel container s start (usize (i + width s)) (acc ++ (offset ∷ []))
    unfolding read_offsets
    round_reads h =
        rw
          (
            lt→ltb i (length container) inside,
            ge→ltb (length container) (usize (i + width s)) enough,
            cut,
            read,
            ge→ltb start offset h,
          )
          refl

    pub round_refuses :
        start < offset
        → read_offsets endi (suc fuel) container s start i acc ≡ err (invalid_length offset start)
    unfolding read_offsets
    round_refuses h =
        rw
          (
            lt→ltb i (length container) inside,
            ge→ltb (length container) (usize (i + width s)) enough,
            cut,
            read,
            lt→ltb start offset h,
          )
          refl

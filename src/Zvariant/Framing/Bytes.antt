-- ===== src/Zvariant/Framing/Bytes.antt =====
-- One framing offset in bytes: `write_offset` and `read_last_offset_from_buffer` of
-- zvariant/src/framing_offset_size.rs.
use zbus.Prelude.{
  ge→ltb, le→leb, ℕ, ◌+◌, ◌-◌, ◌%◌, ◌^◌, ◌≤◌, ◌<◌, ◌≡◌, refl, ap, List, [], ◌∷◌, ◌++◌, Result, ok,
  ◌>>=◌, length, take, drop, length-append, take-append, drop-append, append-nil, length-take,
  length-drop, arith,
}
use zbus.Zvariant.Framing.{
  FramingOffsetSize, width, max, Failure, Endi, slice, last_bytes, only, offset_bytes,
  read_last_offset_from_buffer,
}

pub slice-inside :
    (buffer : List ℕ) (from to : ℕ)
    → from ≤ to
    → to ≤ length buffer
    → slice buffer from to ≡ ok (take (to - from) (drop from buffer))
unfolding slice
slice-inside buffer from to h k = rw (le→leb from to h, le→leb to (length buffer) k) refl

pub slice-middle :
    (xs ys zs : List ℕ) → slice (xs ++ (ys ++ zs)) (length xs) (length xs + length ys) ≡ ok ys
slice-middle xs ys zs =
    let len = length-append xs (ys ++ zs) in
    let len' = length-append ys zs in
    let inside =
      slice-inside (xs ++ (ys ++ zs)) (length xs) (length xs + length ys) (omega arith)
        (omega arith) in
    let size : length xs + length ys - length xs ≡ length ys = omega arith in
    rw (inside, size, drop-append xs (ys ++ zs), take-append ys zs) refl

last_bytes-append : (xs ys : List ℕ) → last_bytes (xs ++ ys) (length ys) ≡ ok ys
last_bytes-append xs ys =
    let len = length-append xs ys in
    let start : length (xs ++ ys) - length ys ≡ length xs = omega arith in
    let middle : slice (xs ++ ys) (length xs) (length xs + length ys) ≡ ok ys =
      rw (append-nil ys) at (slice-middle xs ys []) in
    rw (ge→ltb (length (xs ++ ys)) (length ys) (omega arith), start, len) middle

-- The bytes that a read takes, of enough of them.
pub last_bytes-enough :
    (buffer : List ℕ) (n : ℕ)
    → n ≤ length buffer
    → (bytes : List ℕ) × (last_bytes buffer n ≡ ok bytes) × (length bytes ≡ n)
last_bytes-enough buffer n h =
    let inside =
      slice-inside buffer (length buffer - n) (length buffer) (omega arith) (omega arith) in
    let len = length-take (length buffer - (length buffer - n)) (drop (length buffer - n) buffer) in
    let len' = length-drop (length buffer - n) buffer in
    (
      take (length buffer - (length buffer - n)) (drop (length buffer - n) buffer),
      rw (ge→ltb (length buffer) n h) inside,
      omega arith,
    )

pub width-positive : (s : FramingOffsetSize) → 0 < width s
width-positive FramingOffsetSize.u8 = omega arith
width-positive FramingOffsetSize.u16 = omega arith
width-positive FramingOffsetSize.u32 = omega arith
width-positive FramingOffsetSize.u64 = omega arith

module _ (endi : Endi) where
  abbrev decode : FramingOffsetSize → List ℕ → Result Failure ℕ
  decode FramingOffsetSize.u8 bytes = only bytes
  decode FramingOffsetSize.u16 bytes = ok (endi.read_u16 bytes)
  decode FramingOffsetSize.u32 bytes = ok (endi.read_u32 bytes)
  decode FramingOffsetSize.u64 bytes = ok (endi.read_u64 bytes)

  read_last-decode :
      (s : FramingOffsetSize) (buffer : List ℕ)
      → 0 < length buffer
      → read_last_offset_from_buffer endi s buffer ≡ (last_bytes buffer (width s) >>= decode s)
  unfolding read_last_offset_from_buffer
  read_last-decode s [] h = absurd (omega arith)
  read_last-decode FramingOffsetSize.u8 (b ∷ bs) h = refl
  read_last-decode FramingOffsetSize.u16 (b ∷ bs) h = refl
  read_last-decode FramingOffsetSize.u32 (b ∷ bs) h = refl
  read_last-decode FramingOffsetSize.u64 (b ∷ bs) h = refl

  pub length-offset_bytes :
      (s : FramingOffsetSize) (offset : ℕ) → length (offset_bytes endi s offset) ≡ width s
  unfolding offset_bytes
  length-offset_bytes FramingOffsetSize.u8 offset = rw (endi.write_u8_lem (offset % 2 ^ 8)) refl
  length-offset_bytes FramingOffsetSize.u16 offset = endi.length-write_u16 (offset % 2 ^ 16)
  length-offset_bytes FramingOffsetSize.u32 offset = endi.length-write_u32 (offset % 2 ^ 32)
  length-offset_bytes FramingOffsetSize.u64 offset = endi.length-write_u64 (offset % 2 ^ 64)

  decode-offset_bytes :
      (s : FramingOffsetSize) (offset : ℕ)
      → offset ≤ max s
      → decode s (offset_bytes endi s offset) ≡ ok offset
  unfolding offset_bytes
  decode-offset_bytes FramingOffsetSize.u8 offset h =
      rw (endi.write_u8_lem (offset % 2 ^ 8)) (ap ok (omega arith))
  decode-offset_bytes FramingOffsetSize.u16 offset h =
      rw (endi.read-write_u16 (offset % 2 ^ 16) (omega arith)) (ap ok (omega arith))
  decode-offset_bytes FramingOffsetSize.u32 offset h =
      rw (endi.read-write_u32 (offset % 2 ^ 32) (omega arith)) (ap ok (omega arith))
  decode-offset_bytes FramingOffsetSize.u64 offset h =
      rw (endi.read-write_u64 (offset % 2 ^ 64) (omega arith)) (ap ok (omega arith))

  -- The offset that a buffer ends in.
  pub read_last-append :
      (s : FramingOffsetSize) (xs : List ℕ) (offset : ℕ)
      → offset ≤ max s
      → read_last_offset_from_buffer endi s (xs ++ offset_bytes endi s offset) ≡ ok offset
  read_last-append s xs offset h =
      let len = length-append xs (offset_bytes endi s offset) in
      let len' = length-offset_bytes s offset in
      let positive = width-positive s in
      let whole = read_last-decode s (xs ++ offset_bytes endi s offset) (omega arith) in
      let tail : last_bytes (xs ++ offset_bytes endi s offset) (width s)
          ≡ ok (offset_bytes endi s offset) =
        rw len' at (last_bytes-append xs (offset_bytes endi s offset)) in
      rw (whole, tail) (decode-offset_bytes s offset h)

  -- A buffer of enough bytes, or of none, is read without a panic.
  pub read_last-enough :
      (s : FramingOffsetSize) (buffer : List ℕ)
      → width s ≤ length buffer
      → (offset : ℕ) × (read_last_offset_from_buffer endi s buffer ≡ ok offset)
  read_last-enough s buffer h =
      let positive = width-positive s in
      let whole = read_last-decode s buffer (omega arith) in
      let (bytes, e, len) = last_bytes-enough buffer (width s) h in
      let (offset, d) = decoded s bytes len in (offset, rw (whole, e) d)
    where
      decoded :
          (s : FramingOffsetSize) (bytes : List ℕ)
          → length bytes ≡ width s
          → (offset : ℕ) × (decode s bytes ≡ ok offset)
      decoded FramingOffsetSize.u8 [] len = absurd (omega arith)
      decoded FramingOffsetSize.u8 (b ∷ bs) len = (b, refl)
      decoded FramingOffsetSize.u16 bytes len = (endi.read_u16 bytes, refl)
      decoded FramingOffsetSize.u32 bytes len = (endi.read_u32 bytes, refl)
      decoded FramingOffsetSize.u64 bytes len = (endi.read_u64 bytes, refl)

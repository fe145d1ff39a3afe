-- ===== src/Zvariant/Framing.antt =====
-- The framing offsets of GVariant containers: zvariant/src/framing_offset_size.rs and
-- zvariant/src/framing_offsets.rs, on a 64-bit target.
pub mod Size
pub mod Bytes
pub mod Loop
pub mod RoundTrip
pub mod Reading
use zbus.Prelude.{
  ℕ, zero, suc, ◌+◌, ◌-◌, ◌*◌, ◌%◌, ◌^◌, ◌<◌, ◌≡◌, Bool, true, false, Option, none, some, List, [],
  ◌∷◌, ◌++◌, Result, ok, err, ◌>>=◌, ltb, leb, if◌then◌else◌, length, take, drop,
}

pub data FramingOffsetSize : Type 0 where
  u8 u16 u32 u64 : FramingOffsetSize

-- `self as usize`
abbrev pub width : FramingOffsetSize → ℕ
width FramingOffsetSize.u8 = 1
width FramingOffsetSize.u16 = 2
width FramingOffsetSize.u32 = 4
width FramingOffsetSize.u64 = 8

abbrev pub usize : ℕ → ℕ
usize n = n % 2 ^ 64

abbrev pub max : FramingOffsetSize → ℕ
max FramingOffsetSize.u8 = 2 ^ 8 - 1
max FramingOffsetSize.u16 = 2 ^ 16 - 1
max FramingOffsetSize.u32 = 2 ^ 32 - 1
max FramingOffsetSize.u64 = 2 ^ 64 - 1

pub bump_up : FramingOffsetSize → Option FramingOffsetSize
bump_up FramingOffsetSize.u8 = some FramingOffsetSize.u16
bump_up FramingOffsetSize.u16 = some FramingOffsetSize.u32
bump_up FramingOffsetSize.u32 = some FramingOffsetSize.u64
bump_up FramingOffsetSize.u64 = none

-- What may go wrong: `serde::de::Error::invalid_length` with the unexpected length and the bound,
-- a Rust panic (an `expect` or a slice out of range), and a loop that does not end.
pub data Failure : Type 0 where
  invalid_length : ℕ → ℕ → Failure
  panic diverges : Failure

-- The loop of `for_bare_container`, on fuel.
pub smallest_from : ℕ → ℕ → ℕ → FramingOffsetSize → Result Failure FramingOffsetSize
smallest_from zero container_len num_offsets offset_size = err diverges
smallest_from (suc fuel) container_len num_offsets offset_size =
    if leb (usize (container_len + usize (num_offsets * width offset_size))) (max offset_size)
    then ok offset_size
    else elim (bump_up offset_size) [
      | none ↦ err panic
      | some next ↦ smallest_from fuel container_len num_offsets next
    ]

-- There are four sizes.
pub for_bare_container : ℕ → ℕ → Result Failure FramingOffsetSize
for_bare_container container_len num_offsets =
    smallest_from 4 container_len num_offsets FramingOffsetSize.u8

pub for_encoded_container : ℕ → Result Failure FramingOffsetSize
for_encoded_container container_len = for_bare_container container_len 0

-- The little-endian reading and writing of the `endi` crate, which is not part of the repository.
pub record Endi : Type 0 where
  pub write_u8 : ℕ → List ℕ
  pub write_u16 : ℕ → List ℕ
  pub write_u32 : ℕ → List ℕ
  pub write_u64 : ℕ → List ℕ
  pub read_u16 : List ℕ → ℕ
  pub read_u32 : List ℕ → ℕ
  pub read_u64 : List ℕ → ℕ
  pub write_u8_lem : (n : ℕ) → write_u8 n ≡ n ∷ []
  pub length-write_u16 : (n : ℕ) → length (write_u16 n) ≡ 2
  pub length-write_u32 : (n : ℕ) → length (write_u32 n) ≡ 4
  pub length-write_u64 : (n : ℕ) → length (write_u64 n) ≡ 8
  pub read-write_u16 : (n : ℕ) → n < 2 ^ 16 → read_u16 (write_u16 n) ≡ n
  pub read-write_u32 : (n : ℕ) → n < 2 ^ 32 → read_u32 (write_u32 n) ≡ n
  pub read-write_u64 : (n : ℕ) → n < 2 ^ 64 → read_u64 (write_u64 n) ≡ n

-- `buffer[from..to]`, which panics out of range.
pub slice : List ℕ → ℕ → ℕ → Result Failure (List ℕ)
slice buffer from to =
    if leb from to
    then if leb to (length buffer) then ok (take (to - from) (drop from buffer)) else err panic
    else err panic

-- Subtraction, which panics below 0.
abbrev checked_sub : ℕ → ℕ → Result Failure ℕ
checked_sub a b = if ltb a b then err panic else ok (a - b)

-- The subtraction `end - n` of a slice's bound panics below 0.
abbrev pub last_bytes : List ℕ → ℕ → Result Failure (List ℕ)
last_bytes buffer n =
    if ltb (length buffer) n then err panic else slice buffer (length buffer - n) (length buffer)

-- `buffer[i]`
abbrev pub only : List ℕ → Result Failure ℕ
only [] = err panic
only (b ∷ bs) = ok b

module _ (endi : Endi) where
  -- The bytes that `write_offset` hands to the writer, with its `as u8`, `as u16` and so on.
  pub offset_bytes : FramingOffsetSize → ℕ → List ℕ
  offset_bytes FramingOffsetSize.u8 offset = endi.write_u8 (offset % 2 ^ 8)
  offset_bytes FramingOffsetSize.u16 offset = endi.write_u16 (offset % 2 ^ 16)
  offset_bytes FramingOffsetSize.u32 offset = endi.write_u32 (offset % 2 ^ 32)
  offset_bytes FramingOffsetSize.u64 offset = endi.write_u64 (offset % 2 ^ 64)

  pub read_last_offset_from_buffer : FramingOffsetSize → List ℕ → Result Failure ℕ
  read_last_offset_from_buffer s [] = ok 0
  read_last_offset_from_buffer FramingOffsetSize.u8 (b ∷ bs) = last_bytes (b ∷ bs) 1 >>= only
  read_last_offset_from_buffer FramingOffsetSize.u16 (b ∷ bs) =
      last_bytes (b ∷ bs) 2 >>= λ bytes. ok (endi.read_u16 bytes)
  read_last_offset_from_buffer FramingOffsetSize.u32 (b ∷ bs) =
      last_bytes (b ∷ bs) 4 >>= λ bytes. ok (endi.read_u32 bytes)
  read_last_offset_from_buffer FramingOffsetSize.u64 (b ∷ bs) =
      last_bytes (b ∷ bs) 8 >>= λ bytes. ok (endi.read_u64 bytes)

  -- The loop of `from_encoded_array`, on fuel: the container, the offset size and the start of
  -- the offsets stay; the position and the offsets read change.
  pub read_offsets : ℕ → List ℕ → FramingOffsetSize → ℕ → ℕ → List ℕ → Result Failure (List ℕ)
  read_offsets zero container offset_size offsets_start i offsets = err diverges
  read_offsets (suc fuel) container offset_size offsets_start i offsets =
      let next = usize (i + width offset_size) in
      if ltb i (length container)
      then if ltb (length container) next
        then err (invalid_length next (length container))
        else (slice container i next >>= read_last_offset_from_buffer offset_size >>= λ offset.
            if ltb offsets_start offset
            then err (invalid_length offset offsets_start)
            else read_offsets fuel container offset_size offsets_start next
                (offsets ++ (offset ∷ [])))
      else ok offsets

  -- `FramingOffsets` is a queue of offsets: a list, its front first.
  pub from_encoded_array : List ℕ → Result Failure (List ℕ × ℕ)
  from_encoded_array container = for_encoded_container (length container) >>= λ offset_size.
      read_last_offset_from_buffer offset_size container >>= λ offsets_start.
      if ltb (length container) offsets_start
      then err (invalid_length offsets_start (length container))
      else (checked_sub (length container) offsets_start >>= λ offsets_len.
          read_offsets (suc (length container)) container offset_size offsets_start offsets_start []
          >>= λ offsets. ok (offsets, offsets_len))

  -- A writer appends bytes or fails, with an error of its own.
  module _ {W E : Type 0} (fail : Failure → E) (write : List ℕ → W → Result E W) where
    pub write_each : FramingOffsetSize → List ℕ → W → Result E W
    write_each offset_size [] writer = ok writer
    write_each offset_size (offset ∷ offsets) writer =
        write (offset_bytes offset_size offset) writer >>= write_each offset_size offsets

    pub write_all : List ℕ → W → ℕ → Result E W
    write_all [] writer container_len = ok writer
    write_all (offset ∷ offsets) writer container_len =
        elim (for_bare_container container_len (length (offset ∷ offsets))) [
          | err e ↦ err (fail e)
          | ok offset_size ↦ write_each offset_size (offset ∷ offsets) writer
        ]

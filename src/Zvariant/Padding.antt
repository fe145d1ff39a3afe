-- ===== src/Zvariant/Padding.antt =====
-- Padding to an alignment: zvariant/src/utils.rs, on a 64-bit target.
use zbus.Prelude.{ℕ, ◌+◌, ◌-◌, ◌%◌, ◌^◌, ◌≤◌, ◌<◌, ◌≡◌, ◌⊎◌, inl, inr, bit_and, arith, some}
use zbus.Prelude.Bits.{clear_low_bits}
use zbus.Signature.{Signature, alignment_dbus, alignment_gvariant}
use zbus.Signature.Layout.{IsAlignment, alignment_dbus-IsAlignment, alignment_gvariant-IsAlignment}

abbrev pub IsUsize : ℕ → Type 0
IsUsize n = n < 2 ^ 64

abbrev pub wrapping_add : ℕ → ℕ → ℕ
wrapping_add a b = (a + b) % 2 ^ 64

abbrev pub wrapping_sub : ℕ → ℕ → ℕ
wrapping_sub a b = (a + 2 ^ 64 - b) % 2 ^ 64

-- `!n`
abbrev pub complement : ℕ → ℕ
complement n = 2 ^ 64 - 1 - n

unfoldable pub padding_for_n_bytes : ℕ → ℕ → ℕ
padding_for_n_bytes value align =
    let len_rounded_up =
      bit_and (wrapping_sub (wrapping_add value align) 1) (complement (wrapping_sub align 1)) in
    wrapping_sub len_rounded_up value

-- The padding is the least number of bytes that reaches a multiple of the alignment.
abbrev pub IsPadding : ℕ → ℕ → ℕ → Type 0
IsPadding value align padding = (padding < align) × ((value + padding) % align ≡ 0)

module _ (value : ℕ) (fits : value + 8 ≤ 2 ^ 64) where
  round-up : (k : ℕ) → k < 8 → wrapping_sub (wrapping_add value (k + 1)) 1 ≡ value + k
  round-up k h = omega arith

  pad_1 : IsPadding value 1 (padding_for_n_bytes value 1)
  unfolding padding_for_n_bytes
  pad_1 = rw (round-up 0 (omega arith), (clear_low_bits (value + 0) (omega arith)).0) (omega arith)

  pad_2 : IsPadding value 2 (padding_for_n_bytes value 2)
  unfolding padding_for_n_bytes
  pad_2 = rw (round-up 1 (omega arith), (clear_low_bits (value + 1) (omega arith)).1) (omega arith)

  pad_4 : IsPadding value 4 (padding_for_n_bytes value 4)
  unfolding padding_for_n_bytes
  pad_4 = rw (round-up 3 (omega arith), (clear_low_bits (value + 3) (omega arith)).2) (omega arith)

  pad_8 : IsPadding value 8 (padding_for_n_bytes value 8)
  unfolding padding_for_n_bytes
  pad_8 = rw (round-up 7 (omega arith), (clear_low_bits (value + 7) (omega arith)).3) (omega arith)

  pub padding_for_n_bytes-IsPadding :
      (a : ℕ) → IsAlignment a → IsPadding value a (padding_for_n_bytes value a)
  padding_for_n_bytes-IsPadding a (inl e) = rw e pad_1
  padding_for_n_bytes-IsPadding a (inr (inl e)) = rw e pad_2
  padding_for_n_bytes-IsPadding a (inr (inr (inl e))) = rw e pad_4
  padding_for_n_bytes-IsPadding a (inr (inr (inr e))) = rw e pad_8

-- At a position that leaves room for 8 bytes in a `usize`, the padding for the alignment of a
-- type, in D-Bus or in GVariant, is the least number of bytes that reaches a multiple of it.
pub alignment-IsPadding :
    (s : Signature) (a value : ℕ)
    → (alignment_dbus s ≡ some a) ⊎ (alignment_gvariant s ≡ a)
    → value + 8 ≤ 2 ^ 64
    → IsPadding value a (padding_for_n_bytes value a)
alignment-IsPadding s a value (inl dbus) fits =
    padding_for_n_bytes-IsPadding value fits a (alignment_dbus-IsAlignment s a dbus)
alignment-IsPadding s a value (inr gvariant) fits =
    rw (← gvariant) (padding_for_n_bytes-IsPadding value fits _ (alignment_gvariant-IsAlignment s))

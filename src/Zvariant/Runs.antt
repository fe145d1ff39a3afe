-- ===== src/Zvariant/Runs.antt =====
-- Runs of the shared parts of zvariant on concrete inputs.
use zbus.Prelude.{
  ℕ, ◌+◌, ◌-◌, ◌*◌, ◌/◌, ◌%◌, ◌≤◌, ◌≡◌, refl, inl, ◌↔◌, some, List, [], ◌∷◌, ◌++◌, ok, err, length,
  arith,
}
use zbus.Signature.{Signature, alignment_dbus}
use zbus.Zvariant.Padding.{IsPadding, padding_for_n_bytes, alignment-IsPadding}
use zbus.Zvariant.Depths.{ContainerDepths, MaxDepthExceeded, default_depths}
use zbus.Zvariant.Depths.Nesting.{
  struct, arr, enter, enter_all, deeper, IsValid, IsRefused, structures, arrays, enter-eq-ok_iff,
  enter-eq-err_iff, enter_all_iff,
}
use zbus.Zvariant.Framing.{
  FramingOffsetSize, Endi, for_bare_container, for_encoded_container, from_encoded_array, write_all,
}
use zbus.Zvariant.Framing.Size.{IsSmallest, for_bare_container-IsSmallest}
use zbus.Zvariant.Framing.RoundTrip.{append_bytes, same, from_encoded_array-write_all}
use zbus.Zvariant.Framing.Reading.{Outcome, AreOffsets, from_encoded_array-ends}

padding_7 : padding_for_n_bytes 13 8 ≡ 3
unfolding padding_for_n_bytes
padding_7 = refl

i64_aligned : alignment_dbus Signature.i64 ≡ some 8
unfolding alignment_dbus
i64_aligned = refl

alignment-IsPadding_example : IsPadding 13 8 (padding_for_n_bytes 13 8)
alignment-IsPadding_example = alignment-IsPadding Signature.i64 8 13 (inl i64_aligned) (omega arith)

-- 32 structures, one in the other.
abbrev deep : ContainerDepths
deep = record { structure = 32; array = 0; variant = 0; maybe = 0 }

deep-IsValid : IsValid deep
deep-IsValid = (omega arith, omega arith, omega arith)

enter-eq-ok_iff_example :
    (enter arr deep ≡ ok (deeper arr deep))
    ↔ ((deeper arr deep ≡ deeper arr deep) × IsValid (deeper arr deep))
enter-eq-ok_iff_example = enter-eq-ok_iff arr deep (deeper arr deep) deep-IsValid

enter-eq-err_iff_example :
    (enter struct deep ≡ err MaxDepthExceeded.structure)
    ↔ IsRefused MaxDepthExceeded.structure (deeper struct deep)
enter-eq-err_iff_example = enter-eq-err_iff struct deep MaxDepthExceeded.structure deep-IsValid
  where
    entered : enter arr deep ≡ ok (deeper arr deep)
    entered =
        (enter-eq-ok_iff arr deep (deeper arr deep) deep-IsValid).1
          (refl, (omega arith, omega arith, omega arith))

enter_all_iff_example :
    ((out : ContainerDepths) × (enter_all (struct ∷ arr ∷ []) default_depths ≡ ok out)) ↔ (
      (structures (struct ∷ arr ∷ []) ≤ 32)
      × (arrays (struct ∷ arr ∷ []) ≤ 32)
      × (length (struct ∷ arr ∷ []) ≤ 64))
enter_all_iff_example = enter_all_iff (struct ∷ arr ∷ [])

for_bare_container-IsSmallest_example :
    (for_bare_container 254 2 ≡ ok FramingOffsetSize.u16) ↔ IsSmallest 254 2 FramingOffsetSize.u16
for_bare_container-IsSmallest_example =
    for_bare_container-IsSmallest 254 2 FramingOffsetSize.u16 (omega arith)

-- Little-endian bytes, as the `endi` crate has them.
abbrev le_16 : ℕ → List ℕ
le_16 n = n % 256 ∷ n / 256 % 256 ∷ []

abbrev le_32 : ℕ → List ℕ
le_32 n = le_16 n ++ le_16 (n / 65536)

abbrev le_64 : ℕ → List ℕ
le_64 n = le_32 n ++ le_32 (n / 4294967296)

abbrev of_le : List ℕ → ℕ
of_le [] = 0
of_le (b ∷ bs) = b + 256 * of_le bs

abbrev little : Endi
little = record {
  write_u8 = λ n. n ∷ [];
  write_u16 = le_16;
  write_u32 = le_32;
  write_u64 = le_64;
  read_u16 = of_le;
  read_u32 = of_le;
  read_u64 = of_le;
  write_u8_lem = λ n. refl;
  length-write_u16 = λ n. refl;
  length-write_u32 = λ n. refl;
  length-write_u64 = λ n. refl;
  read-write_u16 = λ n h. omega arith;
  read-write_u32 = λ n h. omega arith;
  read-write_u64 = λ n h. omega arith;
}

from_encoded_array-write_all_example :
    (out : List ℕ) × (write_all little same append_bytes (1 ∷ 3 ∷ []) (97 ∷ 0 ∷ 98 ∷ []) 3 ≡ ok out)
    × (from_encoded_array little out ≡ ok (1 ∷ 3 ∷ [], length out - 3))
from_encoded_array-write_all_example =
    from_encoded_array-write_all little (97 ∷ 0 ∷ 98 ∷ []) (1 ∷ []) (omega arith) (omega arith, tt)

from_encoded_array-ends_example :
    (s : FramingOffsetSize) × (for_encoded_container 3 ≡ ok s)
    × Outcome (AreOffsets 3 s) (from_encoded_array little (97 ∷ 98 ∷ 9 ∷ []))
from_encoded_array-ends_example = from_encoded_array-ends little (97 ∷ 98 ∷ 9 ∷ []) (omega arith)

-- ===== src/Zvariant/Depths.antt =====
-- The nesting of containers: zvariant/src/container_depths.rs, with the `gvariant` feature.
pub mod Nesting
use zbus.Prelude.{
  ℕ, ◌+◌, ◌-◌, ◌%◌, ◌≤◌, ◌<◌, ◌≡◌, refl, ◌↔◌, List, [], ◌∷◌, Result, ok, err, ◌>>=◌, ltb,
  if◌then◌else◌, length, arith,
}

-- The arguments of `Error::MaxDepthExceeded`.
pub data MaxDepthExceeded : Type 0 where
  structure array container : MaxDepthExceeded

-- Four `u8` counters.
pub record ContainerDepths : Type 0 where
  pub structure : ℕ
  pub array : ℕ
  pub variant : ℕ
  pub maybe : ℕ

abbrev pub u8 : ℕ → ℕ
u8 n = n % 256

abbrev pub max_struct_depth : ℕ
max_struct_depth = 32

abbrev pub max_array_depth : ℕ
max_array_depth = 32

abbrev pub max_total_depth : ℕ
max_total_depth = 64

abbrev pub default_depths : ContainerDepths
default_depths = record { structure = 0; array = 0; variant = 0; maybe = 0 }

unfoldable pub check : ContainerDepths → Result MaxDepthExceeded ContainerDepths
check d =
    let total = u8 (u8 (u8 (d.structure + d.array) + d.variant) + d.maybe) in
    if ltb max_struct_depth d.structure
    then err MaxDepthExceeded.structure
    else if ltb max_array_depth d.array
    then err MaxDepthExceeded.array
    else if ltb max_total_depth total
    then err MaxDepthExceeded.container
    else ok d

unfoldable pub inc_structure : ContainerDepths → Result MaxDepthExceeded ContainerDepths
inc_structure d = check (record d { structure = u8 (d.structure + 1) })

unfoldable pub inc_array : ContainerDepths → Result MaxDepthExceeded ContainerDepths
inc_array d = check (record d { array = u8 (d.array + 1) })

unfoldable pub inc_variant : ContainerDepths → Result MaxDepthExceeded ContainerDepths
inc_variant d = check (record d { variant = u8 (d.variant + 1) })

pub inc_maybe : ContainerDepths → Result MaxDepthExceeded ContainerDepths
inc_maybe d = check (record d { maybe = u8 (d.maybe + 1) })

-- `-=` on a `u8`.
pub dec_structure : ContainerDepths → ContainerDepths
dec_structure d = record d { structure = u8 (d.structure + 256 - 1) }

unfoldable pub dec_array : ContainerDepths → ContainerDepths
dec_array d = record d { array = u8 (d.array + 256 - 1) }

pub dec_maybe : ContainerDepths → ContainerDepths
dec_maybe d = record d { maybe = u8 (d.maybe + 256 - 1) }

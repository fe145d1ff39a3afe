-- ===== src/Handshake/Utf8.antt =====
-- `std::str::from_utf8`, which the lines of zbus/src/connection/handshake/common.rs go through.
use zbus.Prelude.{
  ℕ, zero, suc, ◌+◌, ◌-◌, ◌*◌, ◌≡◌, refl, Option, none, some, List, [], ◌∷◌, ◌==◌, ltb, lt→ltb,
  if◌then◌else◌, All,
}
use zbus.Text.{between, IsAscii}

-- Between two characters, or inside one: the bytes that it still wants after the next, the bits
-- so far, and the range of the next byte.
pub data Utf8State : Type 0 where
  start : Utf8State
  inside : ℕ → ℕ → ℕ → ℕ → Utf8State

-- The state after a byte, with the characters that it ends.
pub utf8_step : Utf8State → ℕ → Option (Utf8State × List ℕ)
utf8_step start b =
    if ltb b 0x80
    then some (start, b ∷ [])
    else if between 0xc2 0xdf b
    then some (inside 0 (b - 0xc0) 0x80 0xbf, [])
    else if b == 0xe0
    then some (inside 1 0 0xa0 0xbf, [])
    else if b == 0xed
    then some (inside 1 0xd 0x80 0x9f, [])
    else if between 0xe1 0xef b
    then some (inside 1 (b - 0xe0) 0x80 0xbf, [])
    else if b == 0xf0
    then some (inside 2 0 0x90 0xbf, [])
    else if between 0xf1 0xf3 b
    then some (inside 2 (b - 0xf0) 0x80 0xbf, [])
    else if b == 0xf4
    then some (inside 2 4 0x80 0x8f, [])
    else none
utf8_step (inside zero bits lo hi) b =
    if between lo hi b then some (start, (bits * 64 + (b - 0x80)) ∷ []) else none
utf8_step (inside (suc n) bits lo hi) b =
    if between lo hi b then some (inside n (bits * 64 + (b - 0x80)) 0x80 0xbf, []) else none

abbrev prepend : List ℕ → Option (List ℕ) → Option (List ℕ)
prepend cs none = none
prepend [] (some s) = some s
prepend (c ∷ cs) (some s) = some (c ∷ s)

pub from_utf8_in : Utf8State → List ℕ → Option (List ℕ)
from_utf8_in start [] = some []
from_utf8_in (inside n bits lo hi) [] = none
from_utf8_in state (b ∷ bytes) = elim (utf8_step state b) [
  | none ↦ none
  | some (state', cs) ↦ prepend cs (from_utf8_in state' bytes)
]

unfoldable pub from_utf8 : List ℕ → Option (List ℕ)
unfolding from_utf8_in utf8_step
from_utf8 bytes = from_utf8_in start bytes

utf8_step_ascii : (c : ℕ) → IsAscii c → utf8_step start c ≡ some (start, c ∷ [])
unfolding utf8_step
utf8_step_ascii c h = rw (lt→ltb c 0x80 h) refl

from_utf8_in_ascii : (s : List ℕ) → All IsAscii s → from_utf8_in start s ≡ some s
unfolding from_utf8_in
from_utf8_in_ascii [] h = refl
from_utf8_in_ascii (c ∷ cs) (h, hs) =
    rw (from_utf8_in, utf8_step_ascii c h, from_utf8_in_ascii cs hs) refl

-- ASCII bytes are their own characters.
pub from_utf8_ascii : (s : List ℕ) → All IsAscii s → from_utf8 s ≡ some s
unfolding from_utf8
from_utf8_ascii s h = from_utf8_in_ascii s h

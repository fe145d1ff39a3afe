-- ===== src/ObjectPath.antt =====
-- Object paths: zvariant/src/object_path.rs.
pub mod Grammar
mod Runs
use zbus.Prelude.{
  ℕ, suc, ◌+◌, ◌-◌, ◌≡◌, Bool, true, false, not, ◌&&◌, ◌||◌, List, [], ◌∷◌, Result, ok, err, ◌>>=◌,
  ◌==◌, ltb, if◌then◌else◌, length,
}
use zbus.Text.{is_ascii_alphanumeric}

-- The errors of serde that the validator answers with: an invalid length, and an invalid value by
-- what was unexpected and what was expected.
pub data PathError : Type 0 where
  invalid_length : PathError
  no_slash_first trailing_slash unexpected_char : ℕ → PathError
  double_slash : PathError

-- One round of the loop, at index `i` of `len`.
unfoldable pub path_step : ℕ → ℕ → ℕ → ℕ → Result PathError (Unit {0})
path_step len i prev c =
    if (i == 0) && not (c == b'/')
    then err (no_slash_first c)
    else if (c == b'/') && (prev == b'/')
    then err double_slash
    else if ltb 1 len && ((i == len - 1) && (c == b'/'))
    then err (trailing_slash c)
    else if not (is_ascii_alphanumeric c) && (not (c == b'/') && not (c == b'_'))
    then err (unexpected_char c)
    else ok tt

-- The loop, over the bytes from index `i` on.
unfoldable pub path_loop : ℕ → ℕ → ℕ → List ℕ → Result PathError (Unit {0})
path_loop len i prev [] = ok tt
path_loop len i prev (c ∷ bytes) = path_step len i prev c >>= λ _. path_loop len (i + 1) c bytes

unfoldable pub ensure_correct_object_path_str : List ℕ → Result PathError (Unit {0})
ensure_correct_object_path_str [] = err invalid_length
ensure_correct_object_path_str (c ∷ bytes) = path_loop (length (c ∷ bytes)) 0 0 (c ∷ bytes)

-- ===== src/Guid.antt =====
-- GUIDs: the validator of zbus/src/guid.rs.
pub mod Digits
mod Runs
use zbus.Prelude.{
  ℕ, ◌≡◌, Bool, true, false, not, ◌||◌, List, Result, ok, err, ◌==◌, if◌then◌else◌, any,
}
use zbus.Text.{str_len, is_ascii_hexdigit}

pub data GuidError : Type 0 where
  invalid_guid : GuidError

unfoldable pub validate_guid : List ℕ → Result GuidError (Unit {0})
validate_guid value =
    if not (str_len value == 32) || any (λ c. not (is_ascii_hexdigit c)) value
    then err invalid_guid
    else ok tt

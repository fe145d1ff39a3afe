-- ===== src/Guid/Runs.antt =====
-- Runs of the validator of GUIDs on concrete inputs.
use zbus.Prelude.{ℕ, ◌≡◌, refl, ◌↔◌, List, ok, err, length}
use zbus.Text.{codes, str_len}
use zbus.Guid.{invalid_guid, validate_guid}
use zbus.Guid.Digits.{AreHexDigits, validate_guid_iff}

abbrev sample : List ℕ
sample = codes "59e2a0fd1c9d4b1d8a70f4f7c6a1b2C3"

guid_good : validate_guid sample ≡ ok tt
unfolding validate_guid str_len
guid_good = refl

guid_short : validate_guid (codes "59e2") ≡ err invalid_guid
unfolding validate_guid str_len
guid_short = refl

validate_guid_iff_example :
    (validate_guid sample ≡ ok tt) ↔ ((length sample ≡ 32) × AreHexDigits sample)
validate_guid_iff_example = validate_guid_iff sample

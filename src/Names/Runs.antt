-- ===== src/Names/Runs.antt =====
-- Runs of the validators of names on concrete inputs.
use zbus.Prelude.{ℕ, ◌≤◌, ◌≡◌, ◌≢◌, refl, ◌↔◌, ◌⊎◌, List, ok}
use zbus.Text.{codes, str_len}
use zbus.Names.{
  bus_name, unique, well_known, bus_own_name, is_dashed_char, is_word_char,
  ensure_correct_well_known_name, ensure_correct_interface_name, ensure_correct_error_name,
  ensure_correct_unique_name, ensure_correct_property_name, unique_rest, unique_loop, unique_step,
  dotted, dotted_loop, dotted_step,
}
use zbus.Names.Grammar.{
  IsDotted, IsUnique, ensure_correct_well_known_name_iff, ensure_correct_interface_name_iff,
  ensure_correct_unique_name_iff,
}
use zbus.Names.Bus.{bus_name-eq-ok_iff}

abbrev gnome : List ℕ
gnome = codes "org.gnome.Service-for_you"

well_known_gnome : ensure_correct_well_known_name gnome ≡ ok tt
unfolding ensure_correct_well_known_name dotted dotted_loop dotted_step str_len
well_known_gnome = refl

well_known_trailing_dot : ensure_correct_well_known_name (codes "ab.") ≡ ok tt
unfolding ensure_correct_well_known_name dotted dotted_loop dotted_step str_len
well_known_trailing_dot = refl

unique_leading_dot : ensure_correct_unique_name (codes ":.a") ≡ ok tt
unfolding ensure_correct_unique_name unique_rest unique_loop unique_step str_len
unique_leading_dot = refl

-- A digit first, and characters that no member has.
property_any : ensure_correct_property_name (codes "1 +") ≡ ok tt
unfolding ensure_correct_property_name str_len
property_any = refl

ensure_correct_well_known_name_iff_example :
    (ensure_correct_well_known_name gnome ≡ ok tt)
    ↔ ((3 ≤ str_len gnome) × (str_len gnome ≤ 255) × IsDotted is_dashed_char gnome)
ensure_correct_well_known_name_iff_example = ensure_correct_well_known_name_iff gnome

ensure_correct_interface_name_iff_example :
    ((ensure_correct_interface_name gnome ≡ ok tt)
      ↔ ((3 ≤ str_len gnome) × (str_len gnome ≤ 255) × IsDotted is_word_char gnome))
    × ((ensure_correct_error_name gnome ≡ ok tt) ↔ (ensure_correct_interface_name gnome ≡ ok tt))
ensure_correct_interface_name_iff_example = ensure_correct_interface_name_iff gnome

ensure_correct_unique_name_iff_example : (ensure_correct_unique_name (codes ":1.42") ≡ ok tt) ↔ (
    (str_len (codes ":1.42") ≤ 255) × ((codes ":1.42" ≡ bus_own_name) ⊎ IsUnique (codes ":1.42")))
ensure_correct_unique_name_iff_example = ensure_correct_unique_name_iff (codes ":1.42")

bus_name-eq-ok_iff_example : (bus_name gnome ≡ ok (well_known gnome)) ↔ (
    ((well_known gnome ≡ unique gnome) × (ensure_correct_unique_name gnome ≡ ok tt))
    ⊎ ((well_known gnome ≡ well_known gnome)
        × (ensure_correct_well_known_name gnome ≡ ok tt)
        × (gnome ≢ bus_own_name)))
bus_name-eq-ok_iff_example = bus_name-eq-ok_iff gnome (well_known gnome)

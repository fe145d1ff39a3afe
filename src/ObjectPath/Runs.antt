-- ===== src/ObjectPath/Runs.antt =====
-- Runs of the validator of object paths on concrete inputs.
use zbus.Prelude.{◌≡◌, refl, ◌↔◌, ok, err}
use zbus.Text.{codes}
use zbus.ObjectPath.{PathError, path_step, path_loop, ensure_correct_object_path_str}
use zbus.ObjectPath.Grammar.{IsObjectPath, ensure_correct_object_path_str_iff}

path_good : ensure_correct_object_path_str (codes "/foo/b_r") ≡ ok tt
unfolding ensure_correct_object_path_str path_loop path_step
path_good = refl

path_trailing : ensure_correct_object_path_str (codes "/foo/") ≡ err (PathError.trailing_slash b'/')
unfolding ensure_correct_object_path_str path_loop path_step
path_trailing = refl

ensure_correct_object_path_str_iff_example :
    (ensure_correct_object_path_str (codes "/foo/b_r") ≡ ok tt) ↔ IsObjectPath (codes "/foo/b_r")
ensure_correct_object_path_str_iff_example = ensure_correct_object_path_str_iff (codes "/foo/b_r")

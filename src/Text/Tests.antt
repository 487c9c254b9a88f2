-- ===== src/Text/Tests.antt =====
-- Concrete paths.
use brunost_judge.Prelude.{◌≡◌, refl, true, false}
use brunost_judge.Text.{has_parent_part, is_absolute, is_blank}

parent_inside : has_parent_part "a/../b" ≡ true
unfolding has_parent_part
parent_inside = refl

parent_last : has_parent_part "a/.." ≡ true
unfolding has_parent_part
parent_last = refl

three_dots : has_parent_part "a/.../b..c/.b" ≡ false
unfolding has_parent_part
three_dots = refl

root_absolute : is_absolute "/etc" ≡ true
unfolding is_absolute
root_absolute = refl

blank_worker : is_blank "  " ≡ true
unfolding is_blank
blank_worker = refl

-- ===== src/Examples/Names.antt =====
-- Tests of the names.
use back_end_doc.Common.{◌≡◌, ◌≤◌, ◌↔◌, true, [], ◌∷◌, length, Bytes}
use back_end_doc.Names.{is_valid_user_name, mirror}
use back_end_doc.Names.UserName.{Infix, UserBytes, is_valid_user_name_iff}

-- "a@b.c"
abbrev mail_name : Bytes
mail_name = b'a' ∷ b'@' ∷ b'b' ∷ b'.' ∷ b'c' ∷ []

is_valid_user_name_iff_example : (is_valid_user_name mail_name ≡ true) ↔ (
    (1 ≤ length mail_name)
    × (length mail_name ≤ 30)
    × (¬ Infix mirror mail_name)
    × UserBytes mail_name)
is_valid_user_name_iff_example = is_valid_user_name_iff mail_name

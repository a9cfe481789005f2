-- ===== src/Names.antt =====
-- The validators of names: `isValidRoomName` of MatchingServer/src/service/room_service.cpp, and
-- `isValidUserName` and `isValidNickName` of MatchingServer/src/service/auth_service.cpp. A string
-- is its bytes, numbers below 256.
pub mod RoomName
pub mod UserName
pub mod NickName
use back_end_doc.Common.{
  ℕ, zero, suc, ◌/◌, ◌≡◌, Bool, true, false, not, ◌&&◌, ◌||◌, Option, none, some, List, [], ◌∷◌,
  ltb, leb, ◌==◌, if◌then◌else◌, length, is_empty, Bytes,
}

-- 'A' to 'Z', 'a' to 'z' and '0' to '9'.
abbrev pub is_alnum : ℕ → Bool
is_alnum c = (leb b'A' c && leb c b'Z') || (leb b'a' c && leb c b'z') || (leb b'0' c && leb c b'9')

-- The tests of one byte in the loop of `isValidRoomName`: `(c & 0xF0) == 0xE0` is a quotient by 16
-- of 14, and `(c & 0xC0) == 0x80` a quotient by 64 of 2.
abbrev pub room_byte : ℕ → Bool
room_byte c = is_alnum c || (c == b' ') || (c / 16 == 14) || (c / 64 == 2)

-- The loop; a '$' passes at the last index only.
unfoldable pub room_bytes : Bytes → Bool
room_bytes [] = true
room_bytes (c ∷ rest) = ((is_empty rest && (c == b'$')) || room_byte c) && room_bytes rest

unfoldable pub is_valid_room_name : Bytes → Bool
unfolding room_bytes
is_valid_room_name name =
    if is_empty name then false else if ltb 40 (length name) then false else room_bytes name

-- `name.find(c)`, as the suffix that starts at the first `c`.
unfoldable pub find_byte : ℕ → Bytes → Option Bytes
find_byte c [] = none
find_byte c (x ∷ xs) = if x == c then some (x ∷ xs) else find_byte c xs

unfoldable pub starts_with : Bytes → Bytes → Bool
starts_with [] s = true
starts_with (p ∷ ps) [] = false
starts_with (p ∷ ps) (x ∷ xs) = (x == p) && starts_with ps xs

-- `name.find(word) != npos`
unfoldable pub contains : Bytes → Bytes → Bool
unfolding starts_with
contains word [] = starts_with word []
contains word (x ∷ xs) = starts_with word (x ∷ xs) || contains word xs

abbrev pub mirror : Bytes
mirror = b'm' ∷ b'i' ∷ b'r' ∷ b'r' ∷ b'o' ∷ b'r' ∷ []

-- An '@', and a '.' at or after the first '@'.
unfoldable pub is_email : Bytes → Bool
unfolding find_byte
is_email name = elim (find_byte b'@' name) [
  | none ↦ false
  | some rest ↦ elim (find_byte b'.' rest) [ none ↦ false | some _ ↦ true ]
]

abbrev pub email_byte : ℕ → Bool
email_byte c = is_alnum c || (c == b'@') || (c == b'.') || (c == b'_') || (c == b'-') || (c == b'+')

unfoldable pub all_bytes : (ℕ → Bool) → Bytes → Bool
all_bytes p [] = true
all_bytes p (c ∷ rest) = if p c then all_bytes p rest else false

unfoldable pub is_valid_user_name : Bytes → Bool
unfolding all_bytes
is_valid_user_name name =
    if is_empty name
    then false
    else if ltb 30 (length name)
    then false
    else if contains mirror name
    then false
    else if not (is_email name)
    then all_bytes is_alnum name
    else all_bytes email_byte name

-- The class of the regular expression `^[가-힣A-Za-z0-9]+$` over `char`: the bytes of '가' and '힣'
-- are EA B0 80 and ED 9E A3, so the class is EA, B0, the range from 80 to ED, 9E, A3, and the
-- letters and digits.
abbrev pub nick_byte : ℕ → Bool
nick_byte c =
    (c == 0xea)
    || (c == 0xb0)
    || (leb 0x80 c && leb c 0xed)
    || (c == 0x9e)
    || (c == 0xa3)
    || is_alnum c

unfoldable pub is_valid_nick_name : Bytes → Bool
unfolding all_bytes
is_valid_nick_name str =
    if ltb 24 (length str) then false else if is_empty str then false else all_bytes nick_byte str

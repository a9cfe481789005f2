-- ===== src/Names/NickName.antt =====
-- Which nicknames `isValidNickName` of MatchingServer/src/service/auth_service.cpp accepts.
use back_end_doc.Common.{ℕ, ◌≤◌, ◌≡◌, ◌↔◌, ◌⊎◌, refl, true, [], ◌∷◌, arith, length, Bytes, All}
use back_end_doc.Names.{nick_byte, all_bytes, is_valid_nick_name}
use back_end_doc.Names.RoomName.{IsAlnum}

-- A letter, a digit, or a byte from 80 to ED. The four single bytes of the class lie in the range.
abbrev pub NickByte : ℕ → Type 0
NickByte c = IsAlnum c ⊎ ((0x80 ≤ c) × (c ≤ 0xed))

NickByte-of : (c : ℕ) → nick_byte c ≡ true → NickByte c
NickByte-of c h = ground arith

nick_byte-of : (c : ℕ) → NickByte c → nick_byte c ≡ true
nick_byte-of c h = ground arith

nick_bytes-of : (name : Bytes) → All NickByte name → all_bytes nick_byte name ≡ true
unfolding all_bytes
nick_bytes-of [] h = refl
nick_bytes-of (c ∷ rest) h = ground (arith, nick_byte-of c h.0, nick_bytes-of rest h.1)

NickBytes-of : (name : Bytes) → all_bytes nick_byte name ≡ true → All NickByte name
unfolding all_bytes
NickBytes-of [] h = tt
NickBytes-of (c ∷ rest) h =
    (NickByte-of c (ground arith), NickBytes-of rest (ground (arith, NickByte-of c)))

-- `isValidNickName` accepts exactly the names of 1 to 24 bytes of which each is a letter, a digit or
-- a byte from 80 to ED, so the bytes of text that is not Korean too.
pub is_valid_nick_name_iff :
    (name : Bytes)
    → (is_valid_nick_name name ≡ true)
      ↔ ((1 ≤ length name) × (length name ≤ 24) × All NickByte name)
unfolding is_valid_nick_name
is_valid_nick_name_iff [] = (λ h. absurd (cc), λ h. absurd (omega arith))
is_valid_nick_name_iff (c ∷ rest) = (
  λ h. (omega arith, ground arith, NickBytes-of (c ∷ rest) (ground arith)),
  λ h. ground (arith, nick_bytes-of (c ∷ rest) h.2),
)

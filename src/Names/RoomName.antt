-- ===== src/Names/RoomName.antt =====
-- Which room names `isValidRoomName` of MatchingServer/src/service/room_service.cpp accepts.
use back_end_doc.Common.{
  ℕ, ◌≤◌, ◌≡◌, ◌↔◌, ◌⊎◌, inl, inr, refl, ap, true, [], ◌∷◌, ◌++◌, arith, ◌==◌, length, Bytes, All,
  Bool-cases,
}
use back_end_doc.Names.{room_byte, room_bytes, is_valid_room_name}

abbrev pub IsAlnum : ℕ → Type 0
IsAlnum c = ((b'A' ≤ c) × (c ≤ b'Z')) ⊎ ((b'a' ≤ c) × (c ≤ b'z')) ⊎ ((b'0' ≤ c) × (c ≤ b'9'))

-- A letter, a digit, a space, a first byte of three (E0 to EF) or a continuation byte (80 to BF).
abbrev pub RoomByte : ℕ → Type 0
RoomByte c = IsAlnum c ⊎ (c ≡ b' ') ⊎ ((0xe0 ≤ c) × (c ≤ 0xef)) ⊎ ((0x80 ≤ c) × (c ≤ 0xbf))

-- Such bytes, with at most one '$' behind them.
abbrev pub RoomBytes : Bytes → Type 0
RoomBytes name =
    All RoomByte name ⊎ ((init : Bytes) × (name ≡ init ++ b'$' ∷ []) × All RoomByte init)

RoomByte-of : (c : ℕ) → room_byte c ≡ true → RoomByte c
RoomByte-of c h = ground arith

room_byte-of : (c : ℕ) → RoomByte c → room_byte c ≡ true
room_byte-of c h = ground arith

RoomBytes-cons : (c : ℕ) (rest : Bytes) → RoomByte c → RoomBytes rest → RoomBytes (c ∷ rest)
RoomBytes-cons c rest h (inl all) = inl (h, all)
RoomBytes-cons c rest h (inr (init, e, all)) = inr (c ∷ init, ap (◌∷◌ c) e, (h, all))

last_byte : (c : ℕ) → room_bytes (c ∷ []) ≡ true → (c ≡ b'$') ⊎ RoomByte c
unfolding room_bytes
last_byte c h = elim (Bool-cases (c == b'$')) [
  | inl dollar ↦ inl (ground arith)
  | inr other ↦ inr (RoomByte-of c (ground arith))
]

RoomBytes-of : (name : Bytes) → room_bytes name ≡ true → RoomBytes name
unfolding room_bytes
RoomBytes-of [] h = inl tt
RoomBytes-of (c ∷ []) h = elim (last_byte c h) [
  | inl e ↦ inr ([], ap (λ x. x ∷ []) e, tt)
  | inr b ↦ inl (b, tt)
]
RoomBytes-of (c ∷ d ∷ rest) h =
    RoomBytes-cons c (d ∷ rest) (RoomByte-of c (ground arith))
      (RoomBytes-of (d ∷ rest) (ground arith))

room_bytes-All : (name : Bytes) → All RoomByte name → room_bytes name ≡ true
unfolding room_bytes
room_bytes-All [] h = refl
room_bytes-All (c ∷ rest) h = ground (arith, room_byte-of c h.0, room_bytes-All rest h.1)

room_bytes-dollar : (init : Bytes) → All RoomByte init → room_bytes (init ++ b'$' ∷ []) ≡ true
unfolding room_bytes
room_bytes-dollar [] h = refl
room_bytes-dollar (c ∷ rest) h = ground (arith, room_byte-of c h.0, room_bytes-dollar rest h.1)

room_bytes-of : (name : Bytes) → RoomBytes name → room_bytes name ≡ true
room_bytes-of name (inl all) = room_bytes-All name all
room_bytes-of name (inr (init, e, all)) = rw e (room_bytes-dollar init all)

-- `isValidRoomName` accepts exactly the names of 1 to 40 bytes of which each is a letter, a digit,
-- a space, a byte from E0 to EF or a byte from 80 to BF, but for the last, which may be a '$'.
pub is_valid_room_name_iff :
    (name : Bytes)
    → (is_valid_room_name name ≡ true) ↔ ((1 ≤ length name) × (length name ≤ 40) × RoomBytes name)
unfolding is_valid_room_name
is_valid_room_name_iff [] = (λ h. absurd (cc), λ h. absurd (omega arith))
is_valid_room_name_iff (c ∷ rest) = (
  λ h. (omega arith, ground arith, RoomBytes-of (c ∷ rest) (ground arith)),
  λ h. ground (arith, room_bytes-of (c ∷ rest) h.2),
)

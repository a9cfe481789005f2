-- ===== src/Names/UserName.antt =====
-- Which user names `isValidUserName` of MatchingServer/src/service/auth_service.cpp accepts.
use back_end_doc.Common.{
  ℕ, ◌≤◌, ◌≡◌, ◌↔◌, ◌⊎◌, inl, inr, refl, ap, Bool, true, false, not, ◌∷◌, ◌++◌, [], arith, length,
  Bytes, All, Bool-cases, Option-cases, Option, none, some, ◌==◌, if◌then◌else◌,
}
use back_end_doc.Names.{
  find_byte, starts_with, contains, mirror, is_email, email_byte, all_bytes, is_alnum,
  is_valid_user_name,
}
use back_end_doc.Names.RoomName.{IsAlnum}

-- `word` stands somewhere in `s`.
abbrev pub Infix : Bytes → Bytes → Type 0
Infix word s = (before : Bytes) × (after : Bytes) × (s ≡ before ++ (word ++ after))

starts_with-append : (word s : Bytes) → starts_with word (word ++ s) ≡ true
unfolding starts_with
starts_with-append [] s = refl
starts_with-append (p ∷ ps) s = ground (arith, starts_with-append ps s)

starts_with-split :
    (word s : Bytes) → starts_with word s ≡ true → (after : Bytes) × (s ≡ word ++ after)
unfolding starts_with
starts_with-split [] s h = (s, refl)
starts_with-split (p ∷ ps) [] h = absurd (cc)
starts_with-split (p ∷ ps) (x ∷ xs) h =
    let (after, e) = starts_with-split ps xs (ground arith) in (after, ground (arith, e))

contains-Infix : (word s : Bytes) → contains word s ≡ true → Infix word s
unfolding contains
contains-Infix word [] h = let (after, e) = starts_with-split word [] h in ([], after, e)
contains-Infix word (x ∷ xs) h = elim (Bool-cases (starts_with word (x ∷ xs))) [
  | inl here ↦ let (after, e) = starts_with-split word (x ∷ xs) here in ([], after, e)
  | inr later ↦
      let (before, after, e) = contains-Infix word xs (ground arith) in
      (x ∷ before, after, ap (◌∷◌ x) e)
]

contains_here : (word s : Bytes) → starts_with word s ≡ true → contains word s ≡ true
unfolding contains
contains_here word [] h = h
contains_here word (x ∷ xs) h = ground arith

contains-append : (word before after : Bytes) → contains word (before ++ (word ++ after)) ≡ true
unfolding contains
contains-append word [] after = contains_here word (word ++ after) (starts_with-append word after)
contains-append word (x ∷ xs) after = ground (arith, contains-append word xs after)

Infix-contains : (word s : Bytes) → Infix word s → contains word s ≡ true
Infix-contains word s (before, after, e) = rw e (contains-append word before after)

-- An '@' with a '.' behind it.
abbrev pub IsEmail : Bytes → Type 0
IsEmail s = (user : Bytes) × (rest : Bytes) × (s ≡ user ++ b'@' ∷ rest) × Infix (b'.' ∷ []) rest

abbrev found : Option Bytes → Bool
found none = false
found (some _) = true

find_byte_split :
    (c : ℕ) (s r : Bytes)
    → find_byte c s ≡ some r
    → (before : Bytes) × (after : Bytes) × (s ≡ before ++ c ∷ after) × (r ≡ c ∷ after)
unfolding find_byte
find_byte_split c [] r h = absurd (cc)
find_byte_split c (x ∷ xs) r h = elim (Bool-cases (x == c)) [
  | inl hit ↦ ([], xs, ground arith, ground arith)
  | inr miss ↦
      let (before, after, e, er) = find_byte_split c xs r (ground arith) in
      (x ∷ before, after, ap (◌∷◌ x) e, er)
]

find_byte-append : (c : ℕ) (before after : Bytes) → found (find_byte c (before ++ c ∷ after)) ≡ true
unfolding find_byte
find_byte-append c [] after = ground arith
find_byte-append c (x ∷ xs) after = ground (arith, find_byte-append c xs after)

find_byte-behind :
    (c : ℕ) (before after : Bytes)
    → found (find_byte c after) ≡ true
    → found (find_byte c (before ++ after)) ≡ true
unfolding find_byte
find_byte-behind c [] after h = h
find_byte-behind c (x ∷ xs) after h = ground (arith, find_byte-behind c xs after)

is_email-append :
    (user rest : Bytes) → found (find_byte b'.' rest) ≡ true → is_email (user ++ b'@' ∷ rest) ≡ true
unfolding is_email
is_email-append [] rest h = ground arith
is_email-append (x ∷ xs) rest h = ground (
  arith,
  is_email-append xs rest,
  find_byte-behind b'.' xs (b'@' ∷ rest),
  find_byte-behind b'.' (b'@' ∷ []) rest,
)

is_email-of : (s : Bytes) → IsEmail s → is_email s ≡ true
is_email-of s (user, rest, e, (before, after, e')) =
    rw e (is_email-append user rest (rw e' (find_byte-append b'.' before after)))

IsEmail-of : (s : Bytes) → is_email s ≡ true → IsEmail s
unfolding is_email
IsEmail-of s h = elim (Option-cases (find_byte b'@' s)) [
  | inl missing ↦ absurd (ground arith)
  | inr (r, hit) ↦
      let (user, rest, e, er) = find_byte_split b'@' s r hit in
      (user, rest, e, domain rest (ground arith))
]
  where
    domain : (rest : Bytes) → found (find_byte b'.' rest) ≡ true → Infix (b'.' ∷ []) rest
    domain rest ok = elim (Option-cases (find_byte b'.' rest)) [
      | inl missing ↦ absurd (ground arith)
      | inr (r, hit) ↦
          let (before, after, e, er) = find_byte_split b'.' rest r hit in (before, after, e)
    ]

-- A letter, a digit, or one of '@', '.', '_', '-', '+'.
abbrev pub EmailByte : ℕ → Type 0
EmailByte c = IsAlnum c ⊎ (c ≡ b'@') ⊎ (c ≡ b'.') ⊎ (c ≡ b'_') ⊎ (c ≡ b'-') ⊎ (c ≡ b'+')

all_bytes-All :
    {P : ℕ → Type 0} (p : ℕ → Bool) (s : Bytes)
    → ((c : ℕ) → p c ≡ true → P c)
    → all_bytes p s ≡ true
    → All P s
unfolding all_bytes
all_bytes-All p [] sound h = tt
all_bytes-All p (c ∷ rest) sound h = elim (Bool-cases (p c)) [
  | inl e ↦ (sound c e, all_bytes-All p rest sound (ground arith))
  | inr e ↦ absurd (ground arith)
]

All-all_bytes :
    {P : ℕ → Type 0} (p : ℕ → Bool) (s : Bytes)
    → ((c : ℕ) → P c → p c ≡ true)
    → All P s
    → all_bytes p s ≡ true
unfolding all_bytes
All-all_bytes p [] complete h = refl
All-all_bytes p (c ∷ rest) complete h = rw (complete c h.0) (All-all_bytes p rest complete h.1)

-- The bytes that a name may have: those of an address, or letters and digits.
abbrev pub UserBytes : Bytes → Type 0
UserBytes s = (IsEmail s × All EmailByte s) ⊎ (¬ IsEmail s × All IsAlnum s)

user_bytes : Bytes → Bool
user_bytes s = if not (is_email s) then all_bytes is_alnum s else all_bytes email_byte s

UserBytes-of : (s : Bytes) → user_bytes s ≡ true → UserBytes s
unfolding user_bytes
UserBytes-of s h = elim (Bool-cases (is_email s)) [
  | inl e ↦ inl (IsEmail-of s e, all_bytes-All email_byte s (λ c x. ground arith) (ground arith))
  | inr e ↦ inr (
    λ m. absurd (cc (is_email-of s m)),
    all_bytes-All is_alnum s (λ c x. ground arith) (ground arith),
  )
]

user_bytes-of : (s : Bytes) → UserBytes s → user_bytes s ≡ true
unfolding user_bytes
user_bytes-of s (inl (m, all)) =
    rw (is_email-of s m) (All-all_bytes email_byte s (λ c x. ground arith) all)
user_bytes-of s (inr (m, all)) = elim (Bool-cases (is_email s)) [
  | inl e ↦ absurd (m (IsEmail-of s e))
  | inr e ↦ rw e (All-all_bytes is_alnum s (λ c x. ground arith) all)
]

-- `isValidUserName` accepts exactly the names of 1 to 30 bytes that do not have "mirror" anywhere,
-- in these small letters, and are either e-mail addresses (an '@' with a '.' behind it) of letters,
-- digits and "@._-+", or not addresses and of letters and digits alone.
pub is_valid_user_name_iff :
    (s : Bytes)
    → (is_valid_user_name s ≡ true)
      ↔ ((1 ≤ length s) × (length s ≤ 30) × (¬ Infix mirror s) × UserBytes s)
unfolding is_valid_user_name user_bytes
is_valid_user_name_iff [] = (λ h. absurd (cc), λ h. absurd (omega arith))
is_valid_user_name_iff (c ∷ rest) = (sound, complete)
  where
    s : Bytes
    s = c ∷ rest

    sound :
        is_valid_user_name s ≡ true
        → (1 ≤ length s) × (length s ≤ 30) × (¬ Infix mirror s) × UserBytes s
    sound h = (
      omega arith,
      ground arith,
      λ i. ground (arith, Infix-contains mirror s i),
      UserBytes-of s (ground arith),
    )

    complete :
        (1 ≤ length s) × (length s ≤ 30) × (¬ Infix mirror s) × UserBytes s
        → is_valid_user_name s ≡ true
    complete h = elim (Bool-cases (contains mirror s)) [
      | inl bad ↦ absurd (h.2 (contains-Infix mirror s bad))
      | inr fine ↦ rw (fine, is_valid_user_name) (ground (arith, user_bytes-of s h.3))
    ]

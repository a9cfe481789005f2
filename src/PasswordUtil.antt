-- ===== src/PasswordUtil.antt =====
-- MatchingServer/src/util/password_util.cpp: the SHA-256 digest of a password, written in
-- hexadecimal. The digest is the parameter of `Engine`.
use back_end_doc.Common.{
  ℕ, ◌+◌, ◌-◌, ◌/◌, ◌%◌, ◌<◌, ◌≡◌, ◌↔◌, refl, Bool, true, [], ◌∷◌, ltb, if◌then◌else◌, arith, Bytes,
  bytes_eq, bytes_eq_refl, bytes_eq-eq, All, length, leb, ◌*◌, ◌≤◌, ◌&&◌, ◌||◌,
}
use back_end_doc.World.{Engine}

hex_digit : ℕ → ℕ
hex_digit n = if ltb n 10 then b'0' + n else b'a' + (n - 10)

-- std::hex << std::setw(2) << std::setfill('0') for each byte.
to_hex : Bytes → Bytes
unfolding hex_digit
to_hex [] = []
to_hex (b ∷ bs) = hex_digit (b / 16) ∷ hex_digit (b % 16) ∷ to_hex bs

unfoldable pub hash_password : Engine → Bytes → Bytes
unfolding to_hex
hash_password e password = to_hex (e.sha256 password)

unfoldable pub verify_password : Engine → Bytes → Bytes → Bool
verify_password e password hashed = bytes_eq (hash_password e password) hashed

hex_digit_injective : (m n : ℕ) → m < 16 → n < 16 → hex_digit m ≡ hex_digit n → m ≡ n
unfolding hex_digit
hex_digit_injective m n hm hn h = ground arith

to_hex_injective :
    (xs ys : Bytes)
    → All (λ b. b < 256) xs
    → All (λ b. b < 256) ys
    → to_hex xs ≡ to_hex ys
    → xs ≡ ys
unfolding to_hex
to_hex_injective [] [] hx hy h = refl
to_hex_injective [] (y ∷ ys) hx hy h = absurd (cc)
to_hex_injective (x ∷ xs) [] hx hy h = absurd (cc)
to_hex_injective (x ∷ xs) (y ∷ ys) hx hy h = ground (
  arith,
  hex_digit_injective (x / 16) (y / 16),
  hex_digit_injective (x % 16) (y % 16),
  to_hex_injective xs ys hx.1 hy.1,
)

-- `verifyPassword` accepts a password against the stored hash of another exactly when the two have
-- one digest: the text in hexadecimal loses nothing.
pub verify-hash :
    (e : Engine) (p q : Bytes)
    → (verify_password e p (hash_password e q) ≡ true) ↔ (e.sha256 p ≡ e.sha256 q)
unfolding verify_password hash_password
verify-hash e p q = (
  λ h.
      to_hex_injective (e.sha256 p) (e.sha256 q) (e.sha256_bytes p) (e.sha256_bytes q)
        (bytes_eq-eq _ _ h),
  λ h. rw h (bytes_eq_refl _),
)

-- 0 to 9 and a to f.
abbrev pub is_hex : ℕ → Bool
is_hex c = (leb b'0' c && leb c b'9') || (leb b'a' c && leb c b'f')

hex_digit-is_hex : (n : ℕ) → n < 16 → is_hex (hex_digit n) ≡ true
unfolding hex_digit
hex_digit-is_hex n h = ground arith

to_hex-bounds :
    (bs : Bytes)
    → All (λ b. b < 256) bs
    → (length (to_hex bs) ≡ 2 * length bs) × All (λ c. is_hex c ≡ true) (to_hex bs)
unfolding to_hex
to_hex-bounds [] h = (refl, tt)
to_hex-bounds (b ∷ bs) h =
    let rest = to_hex-bounds bs h.1 in
    (
      omega (arith, rest.0),
      (
        hex_digit-is_hex (b / 16) (omega (arith, h.0)),
        (hex_digit-is_hex (b % 16) (omega arith), rest.1),
      ),
    )

-- Where the digest has 32 bytes, what is stored of a password are 64 digits in hexadecimal, which fit
-- into the column of 255 characters.
pub hash_password-bounds :
    (e : Engine) (password : Bytes)
    → length (e.sha256 password) ≡ 32
    → (length (hash_password e password) ≡ 64)
      × (length (hash_password e password) ≤ 255)
      × All (λ c. is_hex c ≡ true) (hash_password e password)
unfolding hash_password
hash_password-bounds e password h =
    let b = to_hex-bounds (e.sha256 password) (e.sha256_bytes password) in
    (omega (arith, b.0, h), omega (arith, b.0, h), b.1)

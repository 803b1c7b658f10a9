-- ===== src/Accounts/Totp.antt =====
-- Time-based one-time passwords (`_totp` and `verify_totp` of
-- backend/app/services/auth_service.py). The digest of HMAC-SHA1, as a list of bytes, of the secret
-- and the counter is a parameter: it stands for `base64`, `struct.pack`, `hmac` and `hashlib`.
use Prim.Native.Char.{Char}
use aegis_platform_server_te.Prelude.{
  ℕ, zero, suc, ◌+◌, ◌-◌, ◌*◌, ◌/◌, ◌%◌, ◌≤◌, ◌≡◌, ◌⊎◌, inl, inr, Bool, true, ◌||◌, List, [], ◌∷◌,
  String, str_eq, str_eq_refl, strip, drop, take, arith, Bool-cases,
}

-- The character of a text at a position.
char_at : String → ℕ → Char
char_at (String.◌∷◌ c s) zero = c
char_at (String.◌∷◌ c s) (suc n) = char_at s n
char_at String.[] n = "0"

-- The decimal digit of a number below ten.
digit : ℕ → Char
unfolding char_at
digit n = char_at "0123456789" n

-- `f"{code:06d}"` of a number below a million.
unfoldable pub six_digits : ℕ → String
unfolding digit
six_digits n = String.◌∷◌ (digit (n / 100000 % 10)) (
    String.◌∷◌ (digit (n / 10000 % 10)) (
      String.◌∷◌ (digit (n / 1000 % 10)) (
        String.◌∷◌ (digit (n / 100 % 10))
          (String.◌∷◌ (digit (n / 10 % 10)) (String.◌∷◌ (digit (n % 10)) String.[])))))

-- `struct.unpack(">I", bytes)[0]`
abbrev big_endian : List ℕ → ℕ → ℕ
big_endian [] n = n
big_endian (b ∷ bs) n = big_endian bs (n * 256 + b)

abbrev last_byte : List ℕ → ℕ
last_byte [] = 0
last_byte (b ∷ []) = b
last_byte (b ∷ c ∷ bs) = last_byte (c ∷ bs)

-- `(struct.unpack(">I", h[o : o + 4])[0] & 0x7FFFFFFF) % 1_000_000` with `o = h[-1] & 0x0F`.
unfoldable pub truncated : List ℕ → ℕ
truncated h = big_endian (take 4 (drop (last_byte h % 16) h)) 0 % 2147483648 % 1000000

module _ (digest : String → ℕ → List ℕ) where
  unfoldable pub totp : String → ℕ → String
  totp secret for_time = six_digits (truncated (digest secret (for_time / 30)))

  -- The window of one step on either side.
  unfoldable pub verify_totp : String → String → ℕ → Bool
  verify_totp secret code now =
      str_eq (totp secret (now - 30)) (strip code)
      || (str_eq (totp secret now) (strip code) || str_eq (totp secret (now + 30)) (strip code))

  within_step :
      (t now : ℕ)
      → 30 ≤ now
      → t ≤ now
      → now ≤ t + 30
      → ((now / 30) ≡ (t / 30)) ⊎ (((now - 30) / 30) ≡ (t / 30))
  within_step t now h k l = ground arith

  -- A code is accepted for at least thirty seconds after the second for which it was made, however
  -- the step boundaries fall, with any spaces around it.
  pub totp-verify :
      (secret code : String) (t now : ℕ)
      → strip code ≡ totp secret t
      → 30 ≤ now
      → t ≤ now
      → now ≤ t + 30
      → verify_totp secret code now ≡ true
  unfolding verify_totp totp
  totp-verify secret code t now same h k l = elim (within_step t now h k l) [
    | inl e ↦ rw (same, e, str_eq_refl) (ground arith)
    | inr e ↦ rw (same, e, str_eq_refl) (ground arith)
  ]

  -- Every six-digit code that is accepted is the one of a second at most thirty away.
  pub verify-totp :
      (secret code : String) (now : ℕ)
      → 30 ≤ now
      → verify_totp secret code now ≡ true
      → (t : ℕ) × (now ≤ t + 30) × (t ≤ now + 30) × (str_eq (totp secret t) (strip code) ≡ true)
  unfolding verify_totp
  verify-totp secret code now h e =
      elim (Bool-cases (str_eq (totp secret (now - 30)) (strip code))) [
        | inl before ↦ (now - 30, omega arith, omega arith, before)
        | inr not_before ↦ elim (Bool-cases (str_eq (totp secret now) (strip code))) [
          | inl current ↦ (now, omega arith, omega arith, current)
          | inr not_current ↦
              (now + 30, omega arith, omega arith, rw (not_before, not_current) at e)
        ]
      ]

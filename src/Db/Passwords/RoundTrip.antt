-- ===== src/Db/Passwords/RoundTrip.antt =====
-- hub/db.py: a password is verified against its own hash.
use vortex_portal.Base.{
  ℕ, ◌+◌, ◌*◌, ◌/◌, ◌%◌, ◌<◌, ◌≡◌, refl, ap, ◌∙◌, true, false, ◌&&◌, ◌||◌, some, [], ◌∷◌, ◌++◌, leb,
  ◌==◌, All, arith,
}
use vortex_portal.Base.Text.{Text, codes, text_eq, text_eq_refl, strip, lstrip, rstrip, is_space}
use vortex_portal.Router.Connection.{Bytes}
use vortex_portal.Db.Passwords.{
  hex_digit, hex, nibble, fromhex, cut, digits_of, int_of, split_stored, hash_password,
  verify_stored, verify_password,
}

abbrev pub IsByte : ℕ → Type 0
IsByte b = b < 256

nibble-hex_digit : (n : ℕ) → n < 16 → nibble (hex_digit n) ≡ some n
nibble-hex_digit n h = ground arith

gapless :
    (n : ℕ)
    → n < 16
    → ((hex_digit n == 32) || (leb 9 (hex_digit n) && leb (hex_digit n) 13)) ≡ false
gapless n h = ground arith

-- No digit is a dollar sign.
hex_digit_plain : (n : ℕ) → (hex_digit n == b'$') ≡ false
hex_digit_plain n = ground arith

-- bytes.fromhex(b.hex()) == b
fromhex-hex : (bs : Bytes) → All IsByte bs → fromhex (hex bs) ≡ some bs
unfolding fromhex hex
fromhex-hex [] h = refl
fromhex-hex (b ∷ bs) h =
    let high : b / 16 < 16 = omega (arith, h.0) in
    let low : b % 16 < 16 = omega arith in
    let whole : b / 16 * 16 + b % 16 ≡ b = omega arith in
    rw
      (
        gapless (b / 16) high,
        nibble-hex_digit (b / 16) high,
        nibble-hex_digit (b % 16) low,
        fromhex-hex bs h.1,
      )
      (ap (λ x. some (x ∷ bs)) whole)

cut-hex : (bs : Bytes) (t : Text) → cut (hex bs ++ b'$' ∷ t) ≡ (hex bs, some t)
unfolding cut hex
cut-hex [] t = refl
cut-hex (b ∷ bs) t = rw (hex_digit_plain (b / 16), hex_digit_plain (b % 16), cut-hex bs t) refl

iterations : int_of (codes "200000") ≡ some 200000
unfolding int_of digits_of strip lstrip rstrip is_space
iterations = refl

module _ (pbkdf2 : Text → Bytes → ℕ → Bytes) where
  stored_fields :
      (password : Text) (salt : Bytes)
      → split_stored (hash_password pbkdf2 password salt)
        ≡ some (record {
          algo = codes "pbkdf2_sha256";
          iters = codes "200000";
          salt = hex salt;
          digest = hex (pbkdf2 password salt 200000);
        })
  unfolding split_stored hash_password cut
  stored_fields password salt = rw (cut-hex salt (hex (pbkdf2 password salt 200000))) refl

  accepts :
      (password attempt : Text) (salt : Bytes)
      → All IsByte salt
      → All IsByte (pbkdf2 password salt 200000)
      → verify_password pbkdf2 attempt (hash_password pbkdf2 password salt)
        ≡ text_eq (pbkdf2 attempt salt 200000) (pbkdf2 password salt 200000)
  unfolding verify_password text_eq
  accepts password attempt salt s d =
      ap (verify_stored pbkdf2 attempt) (stored_fields password salt)
      ∙ rw (fromhex-hex salt s, fromhex-hex (pbkdf2 password salt 200000) d, iterations) refl

  -- A stored hash accepts exactly the passwords that PBKDF2 takes to the same digest under its
  -- salt, the password that it was made of among them.
  pub verify_password-hash_password :
      (password attempt : Text) (salt : Bytes)
      → All IsByte salt
      → All IsByte (pbkdf2 password salt 200000)
      → (verify_password pbkdf2 attempt (hash_password pbkdf2 password salt)
          ≡ text_eq (pbkdf2 attempt salt 200000) (pbkdf2 password salt 200000))
        × (verify_password pbkdf2 password (hash_password pbkdf2 password salt) ≡ true)
  verify_password-hash_password password attempt salt s d = (
    accepts password attempt salt s d,
    accepts password password salt s d ∙ text_eq_refl (pbkdf2 password salt 200000),
  )

-- ===== src/Db/Passwords.antt =====
-- hub/db.py, `hash_password` and `verify_password`. The salt is what `os.urandom` drew, and PBKDF2
-- is a parameter. `int` reads ASCII digits; more iterations than a C long holds do not occur.
pub mod RoundTrip
use vortex_portal.Base.{
  ℕ, zero, suc, ◌+◌, ◌-◌, ◌*◌, ◌/◌, ◌%◌, Bool, true, false, ◌&&◌, ◌||◌, not, Option, none, some,
  List, [], ◌∷◌, ◌++◌, if◌then◌else◌, leb, ltb, ◌==◌,
}
use vortex_portal.Base.Text.{Text, codes, text_eq, strip}
use vortex_portal.Router.Connection.{Bytes}

abbrev pub hex_digit : ℕ → ℕ
hex_digit n = if ltb n 10 then 48 + n else 87 + n

-- bytes.hex
unfoldable pub hex : Bytes → Text
hex [] = []
hex (b ∷ bs) = hex_digit (b / 16) ∷ hex_digit (b % 16) ∷ hex bs

abbrev pub nibble : ℕ → Option ℕ
nibble c =
    if leb 48 c && leb c 57
    then some (c - 48)
    else if leb 97 c && leb c 102
    then some (c - 87)
    else if leb 65 c && leb c 70
    then some (c - 55)
    else none

-- The whitespace that `fromhex` passes over between two bytes.
abbrev pub is_gap : ℕ → Bool
is_gap c = c == 32 || (leb 9 c && leb c 13)

abbrev pub byte_of : Option ℕ → Option ℕ → Option Bytes → Option Bytes
byte_of none l bs = none
byte_of (some h) none bs = none
byte_of (some h) (some l) none = none
byte_of (some h) (some l) (some bs) = some ((h * 16 + l) ∷ bs)

-- bytes.fromhex; none is the ValueError.
unfoldable pub fromhex : Text → Option Bytes
fromhex [] = some []
fromhex (c ∷ []) = if is_gap c then some [] else none
fromhex (c ∷ d ∷ s) =
    let later = fromhex (d ∷ s) in
    let rest = fromhex s in if is_gap c then later else byte_of (nibble c) (nibble d) rest

-- The text before the first dollar sign, and that behind it.
unfoldable pub cut : Text → Text × Option Text
cut [] = ([], none)
cut (c ∷ s) = let rest = cut s in if c == b'$' then ([], some s) else (c ∷ rest.0, rest.1)

-- Digits with single underscores between them; `wanted` tells that a digit has to follow.
unfoldable pub digits_of : Bool → ℕ → Text → Option ℕ
digits_of wanted n [] = if wanted then none else some n
digits_of wanted n (c ∷ s) =
    let digit = digits_of false (n * 10 + (c - 48)) s in
    let gap = digits_of true n s in
    if leb 48 c && leb c 57 then digit else if not wanted && c == b'_' then gap else none

-- The number of iterations that `int` reads; none where it raises or gives a negative number, which
-- makes PBKDF2 raise ValueError, as 0 does.
unfoldable pub int_of : Text → Option ℕ
unfolding digits_of
int_of t = elim (strip t) [
  | [] ↦ none
  | c ∷ s ↦ if c == b'+' then digits_of true 0 s else digits_of true 0 (c ∷ s)
]

-- The four fields of a stored hash; split("$", 3) leaves later dollar signs in the last one.
pub record Stored : Type 0 where
  pub algo : Text
  pub iters : Text
  pub salt : Text
  pub digest : Text

abbrev last_field : Text → Text → Text × Option Text → Option Stored
last_field algo iters (salt, none) = none
last_field algo iters (salt, some digest) =
    some (record { algo = algo; iters = iters; salt = salt; digest = digest })

abbrev third_field : Text → Text × Option Text → Option Stored
third_field algo (iters, none) = none
third_field algo (iters, some s) = last_field algo iters (cut s)

abbrev second_field : Text × Option Text → Option Stored
second_field (algo, none) = none
second_field (algo, some s) = third_field algo (cut s)

unfoldable pub split_stored : Text → Option Stored
unfolding cut
split_stored stored = second_field (cut stored)

module _ (pbkdf2 : Text → Bytes → ℕ → Bytes) where
  unfoldable pub hash_password : Text → Bytes → Text
  unfolding hex
  hash_password password salt =
      codes "pbkdf2_sha256$200000$" ++ (hex salt ++ b'$' ∷ hex (pbkdf2 password salt 200000))

  abbrev pub matches_digest : Text → Option Bytes → Option Bytes → Option ℕ → Bool
  matches_digest password none expected iters = false
  matches_digest password (some salt) none iters = false
  matches_digest password (some salt) (some expected) none = false
  matches_digest password (some salt) (some expected) (some zero) = false
  matches_digest password (some salt) (some expected) (some (suc n)) =
      text_eq (pbkdf2 password salt (suc n)) expected

  abbrev pub verify_stored : Text → Option Stored → Bool
  verify_stored password none = false
  verify_stored password (some s) =
      text_eq s.algo (codes "pbkdf2_sha256")
      && matches_digest password (fromhex s.salt) (fromhex s.digest) (int_of s.iters)

  unfoldable pub verify_password : Text → Text → Bool
  unfolding split_stored fromhex int_of
  verify_password password stored = verify_stored password (split_stored stored)

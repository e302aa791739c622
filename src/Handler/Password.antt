-- ===== src/Handler/Password.antt =====
-- The password and token helpers of LoginHandler.cpp and RegisterHandler.cpp.
pub mod Hex
pub mod Verify
use bit_atm.Prelude.{
  ℕ, ◌+◌, ◌-◌, ◌*◌, ◌/◌, ◌%◌, Bool, false, ◌&&◌, ◌||◌, Option, none, some, [], ◌∷◌, ◌++◌, ltb, leb,
  ◌==◌, if◌then◌else◌, Str, text, str_eq, is_space, split_at,
}
use bit_atm.Error.{crypto, std_error}
use bit_atm.Action.{Action, pure, throw, gets, ◌>>=◌, ◌>>◌, skip, next_tick}

-- std::hex with setw(2) and setfill('0').
abbrev pub hex_digit : ℕ → ℕ
hex_digit d = if ltb d 10 then 48 + d else 87 + d

unfoldable pub to_hex : Str → Str
to_hex [] = []
to_hex (b ∷ bs) = hex_digit (b / 16) ∷ hex_digit (b % 16) ∷ to_hex bs

abbrev pub hex_value : ℕ → Option ℕ
hex_value c =
    if leb 48 c && leb c 57
    then some (c - 48)
    else if leb 97 c && leb c 102
    then some (c - 87)
    else if leb 65 c && leb c 70
    then some (c - 55)
    else none

-- std::stoi(two characters, nullptr, 16) as an unsigned char; `none` is std::invalid_argument.
abbrev pub two_digits : Option ℕ → Option ℕ → Option ℕ
two_digits none low = none
two_digits (some h) none = some h
two_digits (some h) (some l) = some (h * 16 + l)

abbrev pub minus_digit : Option ℕ → Option ℕ
minus_digit none = none
minus_digit (some d) = some ((256 - d) % 256)

abbrev pub hex_byte : ℕ → ℕ → Option ℕ
hex_byte a b =
    if is_space a || a == b'+'
    then hex_value b
    else if a == b'-'
    then minus_digit (hex_value b)
    else two_digits (hex_value a) (hex_value b)

abbrev pub cons_byte : Option ℕ → Option Str → Option Str
cons_byte none bs = none
cons_byte (some b) none = none
cons_byte (some b) (some bs) = some (b ∷ bs)

-- A last single character is not read.
unfoldable pub from_hex : Str → Option Str
from_hex [] = some []
from_hex (a ∷ []) = some []
from_hex (a ∷ b ∷ s) = cons_byte (hex_byte a b) (from_hex s)

abbrev pub crypto_check : Bool → Str → Action (Unit {0})
crypto_check b m = if b then skip else throw (crypto m)

abbrev pub or_crypto : Option Str → Str → Action Str
or_crypto none m = throw (crypto m)
or_crypto (some s) m = pure s

abbrev pub or_std : Option Str → Action Str
or_std none = throw (std_error (text "stoi"))
or_std (some s) = pure s

unfoldable pub random : ℕ → Str → Action Str
random n failed = do t ← next_tick; env ← gets (λ w. w.env); or_crypto (env.rand_bytes t n) failed

-- EVP_KDF_fetch, EVP_KDF_CTX_new and EVP_KDF_derive of LoginHandler's verifyPassword.
unfoldable pub derive_verify : Str → Str → Action Str
derive_verify password salt_bytes = do
  t ← next_tick
  env ← gets (λ w. w.env)
  crypto_check (env.kdf_fetch t (text "ARGON2ID")) (text "LoginHandler: Argon2id not available")
  crypto_check (env.kdf_ctx_new t) (text "LoginHandler: EVP_KDF_CTX_new failed")
  or_crypto
      (env.kdf_derive (text "ARGON2ID")
        (record { pass = password; salt = salt_bytes; memcost = 65536; iter = 3; lanes = 4 }) 32)
      (text "LoginHandler: Argon2id verify failed")

unfoldable pub verify_parts : Str → Option (Str × Str) → Action Bool
unfolding derive_verify
verify_parts password none = pure false
verify_parts password (some (salt_hex, expected)) = do
  salt ← or_std (from_hex salt_hex)
  out ← derive_verify password salt
  pure (str_eq (to_hex out) expected)

-- LoginHandler's verifyPassword, against "saltHex:hashHex".
unfoldable pub verify_password : Str → Str → Action Bool
unfolding verify_parts
verify_password password stored = verify_parts password (split_at b':' stored)

-- LoginHandler's generateToken.
unfoldable pub login_token : Action Str
unfolding random
login_token = do bytes ← random 32 (text "LoginHandler: RAND_bytes failed"); pure (to_hex bytes)

-- EVP_KDF_fetch, EVP_KDF_CTX_new and EVP_KDF_derive of RegisterHandler's hashPassword.
unfoldable pub derive_hash : Str → Str → Action Str
derive_hash password salt_bytes = do
  t ← next_tick
  env ← gets (λ w. w.env)
  crypto_check (env.kdf_fetch t (text "ARGON2ID"))
      (text "RegisterHandler: Argon2id not available in this OpenSSL build")
  crypto_check (env.kdf_ctx_new t) (text "RegisterHandler: EVP_KDF_CTX_new failed")
  or_crypto
      (env.kdf_derive (text "ARGON2ID")
        (record { pass = password; salt = salt_bytes; memcost = 65536; iter = 3; lanes = 4 }) 32)
      (text "RegisterHandler: Argon2id derive failed")

-- RegisterHandler's hashPassword and generateToken.
unfoldable pub hash_password : Str → Action Str
unfolding derive_hash random
hash_password password = do
  salt ← random 16 (text "RegisterHandler: RAND_bytes failed")
  out ← derive_hash password salt
  pure (to_hex salt ++ b':' ∷ to_hex out)

unfoldable pub register_token : Action Str
unfolding random
register_token = do
  bytes ← random 32 (text "RegisterHandler: RAND_bytes for token failed")
  pure (to_hex bytes)

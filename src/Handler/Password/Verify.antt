-- ===== src/Handler/Password/Verify.antt =====
-- verifyPassword of LoginHandler against what hashPassword of RegisterHandler stores.
use bit_atm.Prelude.{ℕ, ◌≡◌, true, ◌∷◌, ◌++◌, Option, Str, text}
use bit_atm.World.{World, Env}
use bit_atm.Handler.Password.{to_hex}

-- The KDF is there, and a context of it.
pub record HasKdf (env : Env) : Type 0 where
  pub fetched : (t : ℕ) → env.kdf_fetch t (text "ARGON2ID") ≡ true
  pub made : (t : ℕ) → env.kdf_ctx_new t ≡ true

-- Argon2id with 64 MiB of memory, three passes over it and four lanes, to 32 bytes.
abbrev pub argon2id : Env → Str → Str → Option Str
argon2id env password salt_bytes =
    env.kdf_derive (text "ARGON2ID")
      (record { pass = password; salt = salt_bytes; memcost = 65536; iter = 3; lanes = 4 }) 32

stored : Str → Str → Str
stored salt out = to_hex salt ++ b':' ∷ to_hex out

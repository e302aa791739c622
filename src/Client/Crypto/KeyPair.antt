-- ===== src/Client/Crypto/KeyPair.antt =====
-- RSA-OAEP key pairs, and the keys and texts that the client makes.
use bit_atm.Prelude.{ℕ, ◌≡◌, ◌≤◌, true, some, length, Str, suc}
use bit_atm.Error.{Error, Result, ok, err}
use bit_atm.Client.Throwing.{next, returns, ◌>>=◌}
use bit_atm.Client.Crypto.{
  OpenSsl, key_size, calls, evp, generate_key, encrypt, encrypt_rsa, decrypt_rsa, pem_to_public,
  pem_to_private,
}
use bit_atm.Client.Crypto.RoundTrip.{IsAead, Works}

-- A key pair of RSA-OAEP: what the public key wraps, of up to 190 bytes, the private key unwraps.
pub record IsKeyPair (o : OpenSsl) (public private : Str) : Type 0 where
  pub reads_public : o.reads_public public ≡ true
  pub reads_private : o.reads_private private ≡ true
  pub wraps :
      (t : ℕ) (d : Str)
      → length d ≤ 190
      → (w : Str) × (o.rsa_wrap t public d ≡ some w) × (o.rsa_unwrap private w ≡ some d)

module _ (o : OpenSsl) (works : Works o) where
  pub key_lem :
      (t : ℕ) → IsAead o → (key : Str) × ((generate_key o t).0 ≡ ok key) × (length key ≡ key_size)
  unfolding generate_key calls
  key_lem t aead =
      let (key, e) = works.random t key_size in (key, rw e, aead.iv_length t key_size key e)

  module _ (public private : Str) (pair : IsKeyPair o public private) where
    pub wrap_lem :
        (key : Str) (t : ℕ)
        → length key ≤ 190
        → (w : Str) × ((encrypt_rsa o key public t).0 ≡ ok w) × (o.rsa_unwrap private w ≡ some key)
    unfolding encrypt_rsa pem_to_public ◌>>=◌ calls evp returns
    wrap_lem key t h =
        let (w, e, u) = pair.wraps (suc (suc (suc (suc (suc t))))) key h in
        (
          w,
          rw (
            works.prepares t,
            pair.reads_public,
            works.prepares (suc t),
            works.prepares (suc (suc t)),
            works.prepares (suc (suc (suc t))),
            works.prepares (suc (suc (suc (suc t)))),
            e,
          ),
          u,
        )

    pub unwrap_lem :
        (key w : Str) (t : ℕ)
        → o.rsa_unwrap private w ≡ some key
        → (decrypt_rsa o w private t).0 ≡ ok key
    unfolding decrypt_rsa pem_to_private ◌>>=◌ calls evp returns
    unwrap_lem key w t e = rw (
      works.prepares t,
      pair.reads_private,
      works.prepares (suc t),
      works.prepares (suc (suc t)),
      works.prepares (suc (suc (suc t))),
      works.prepares (suc (suc (suc (suc t)))),
      e,
    )

module _ (o : OpenSsl) (d key : Str) where
  thrown : (e : Error) (c : Str) → err e ≡ ok c → ⊥
  thrown e c h = cc

  base64_inv :
      (c : Str) (r : Result Str × ℕ)
      → (next (λ x. returns (o.to_base64 x)) r).0 ≡ ok c
      → (x : Str) × (c ≡ o.to_base64 x)
  unfolding returns
  base64_inv c (ok x, t) h = (x, cc)
  base64_inv c (err e, t) h = absurd (thrown e c h)

  pub body_lem : (t : ℕ) (c : Str) → (encrypt o d key t).0 ≡ ok c → (x : Str) × (c ≡ o.to_base64 x)
  unfolding encrypt ◌>>=◌
  body_lem t c h = base64_inv c _ h

-- ===== src/Client/Crypto/Authentic.antt =====
-- AesGcmStrategy::decrypt: what it accepts.
use bit_atm.Prelude.{
  ℕ, ◌+◌, ◌≡◌, ◌≤◌, refl, Bool, true, false, not, Option, none, some, ◌==◌, ==_iff, arith, ltb,
  length, Str, text,
}
use bit_atm.Error.{Error, Result, ok, err}
use bit_atm.Client.Throwing.{next, returns, throws, given, ◌>>=◌}
use bit_atm.Client.Crypto.{
  OpenSsl, Crypto, key_size, iv_size, tag_size, iv_of, cipher_of, tag_of, calls, evp, ensure,
  aes_decrypt,
}

module _ {A B : Type 0} (f : A → Crypto B) (b : B) where
  clash : (e : Error) → {A : Type 0} {a : A} → err e ≡ ok a → ⊥
  clash e h = cc

  next_inv :
      (r : Result A × ℕ)
      → (next f r).0 ≡ ok b
      → (a : A) × (u : ℕ) × (r.0 ≡ ok a) × ((f a u).0 ≡ ok b)
  next_inv (ok a, u) h = (a, u, refl, h)
  next_inv (err e, u) h = absurd (clash e h)

  bind_inv :
      (m : Crypto A) (t : ℕ)
      → ((m >>= f) t).0 ≡ ok b
      → (a : A) × (u : ℕ) × ((m t).0 ≡ ok a) × ((f a u).0 ≡ ok b)
  unfolding ◌>>=◌
  bind_inv m t h = next_inv (m t) h

ensure_inv : (b : Bool) (m : Str) (t : ℕ) → (ensure b m t).0 ≡ ok tt → b ≡ true
unfolding throws returns
ensure_inv true m t h = refl
ensure_inv false m t h = cc

module _ {A : Type 0} where
  given_inv : (m : Str) (o : Option A) (a : A) → given m o ≡ ok a → o ≡ some a
  given_inv m none a h = cc
  given_inv m (some b) a h = cc

  calls_inv : (f : ℕ → Option A) (m : Str) (t : ℕ) (a : A) → (calls f m t).0 ≡ ok a → f t ≡ some a
  unfolding calls
  calls_inv f m t a h = given_inv m (f t) a h

long_enough : (n : ℕ) → not (ltb n 28) ≡ true → 28 ≤ n
long_enough n h = ground arith

module _ (o : OpenSsl) where
  -- Whatever decrypt returns, the key has 32 bytes, the input has room for an IV and a tag, and the
  -- tag at its end is right for the IV at its front and the ciphertext between, which opens to what
  -- is returned.
  pub aes_decrypt-Authentic :
      (bytes key d : Str) (t : ℕ)
      → (aes_decrypt o bytes key t).0 ≡ ok d
      → (length key ≡ key_size)
        × (iv_size + tag_size ≤ length bytes)
        × (o.gcm_open key (iv_of o bytes) (cipher_of o bytes) (tag_of o bytes) ≡ some d)
  unfolding aes_decrypt
  aes_decrypt-Authentic bytes key d t h0 =
      let (a0, t0, k, h1) =
        bind_inv _ d
          (ensure (length key == key_size) (text "AES-256-GCM decrypt: key must be 32 bytes")) t
          h0 in
      let (a1, t1, s, h2) =
        bind_inv _ d
          (ensure (not (ltb (length bytes) (iv_size + tag_size)))
            (text "AES-256-GCM decrypt: ciphertext too short"))
          t0 h1 in
      let (a2, t2, e2, h3) = bind_inv _ d (evp o _) t1 h2 in
      let (a3, t3, e3, h4) = bind_inv _ d (evp o _) t2 h3 in
      let (a4, t4, e4, h5) = bind_inv _ d (evp o _) t3 h4 in
      let (a5, t5, e5, h6) = bind_inv _ d (evp o _) t4 h5 in
      (
        (==_iff (length key) key_size).0 (ensure_inv _ _ t k),
        long_enough (length bytes) (ensure_inv _ _ t0 s),
        calls_inv _ _ t5 d h6,
      )

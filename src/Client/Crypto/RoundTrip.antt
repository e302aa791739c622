-- ===== src/Client/Crypto/RoundTrip.antt =====
-- The cryptography: what decrypt makes of what encrypt wrote, and what it accepts.
use bit_atm.Prelude.{
  ℕ, zero, suc, ◌+◌, ◌-◌, ◌≡◌, refl, ap, ◌∙◌, true, false, some, List, [], ◌∷◌, ◌++◌, arith, ltb,
  ==_iff, length, length-append, Str,
}
use mathlib.Core.List.{append_assoc}
use bit_atm.Error.{Result, ok}
use bit_atm.Client.Throwing.{next, returns, ◌>>=◌}
use bit_atm.Client.Crypto.{
  OpenSsl, Crypto, take, drop, key_size, iv_size, tag_size, iv_of, cipher_of, tag_of, calls, evp,
  aes_encrypt, aes_decrypt, encrypt, decrypt,
}

module _ {A : Type 0} where
  take-append : (n : ℕ) (xs ys : List A) → length xs ≡ n → take n (xs ++ ys) ≡ xs
  take-append zero [] ys h = refl
  take-append zero (x ∷ xs) ys h = ground arith
  take-append (suc n) [] ys h = ground arith
  take-append (suc n) (x ∷ xs) ys h = ap (λ l. x ∷ l) (take-append n xs ys (omega (arith, h)))

  drop-append : (n : ℕ) (xs ys : List A) → length xs ≡ n → drop n (xs ++ ys) ≡ ys
  drop-append zero [] ys h = refl
  drop-append zero (x ∷ xs) ys h = ground arith
  drop-append (suc n) [] ys h = ground arith
  drop-append (suc n) (x ∷ xs) ys h = drop-append n xs ys (omega (arith, h))

module _ (o : OpenSsl) where
  -- GCM opens what it sealed, RAND_bytes and the tag have their sizes, and base64 decodes.
  pub record IsAead : Type 0 where
    pub opens : (k iv d : Str) → o.gcm_open k iv (o.gcm_cipher k iv d) (o.gcm_tag k iv d) ≡ some d
    pub iv_length : (t n : ℕ) (iv : Str) → o.rand_bytes t n ≡ some iv → length iv ≡ n
    pub tag_length : (k iv d : Str) → length (o.gcm_tag k iv d) ≡ tag_size
    pub base64 : (d : Str) → o.from_base64 (o.to_base64 d) ≡ d

  -- No call fails but for its inputs.
  pub record Works : Type 0 where
    pub prepares : (t : ℕ) → o.prepares t ≡ true
    pub random : (t n : ℕ) → (b : Str) × (o.rand_bytes t n ≡ some b)

  module _ (iv c tag : Str) (hi : length iv ≡ iv_size) (ht : length tag ≡ tag_size) where
    size : length (iv ++ c ++ tag) ≡ 28 + length c
    size = rw (length-append (iv ++ c) tag, length-append iv c) (omega (arith, hi, ht))

    iv_of_lem : iv_of o (iv ++ c ++ tag) ≡ iv
    iv_of_lem = rw (append_assoc iv c tag) (take-append 12 iv (c ++ tag) hi)

    tag_of_lem : tag_of o (iv ++ c ++ tag) ≡ tag
    tag_of_lem =
        rw size
          (drop-append (28 + length c - 16) (iv ++ c) tag (length-append iv c ∙ omega (arith, hi)))

    cipher_of_lem : cipher_of o (iv ++ c ++ tag) ≡ c
    cipher_of_lem =
        rw (size, append_assoc iv c tag, drop-append 12 iv (c ++ tag) hi)
          (take-append (28 + length c - 12 - 16) c tag (omega arith))

  module _ (works : Works) where
    evp_lem : (m : Str) (t : ℕ) → evp o m t ≡ (ok tt, suc t)
    unfolding evp calls
    evp_lem m t = rw (works.prepares t)

    aes_decrypt_lem :
        (bytes key d : Str) (t : ℕ)
        → length key ≡ key_size
        → ltb (length bytes) 28 ≡ false
        → o.gcm_open key (iv_of o bytes) (cipher_of o bytes) (tag_of o bytes) ≡ some d
        → (aes_decrypt o bytes key t).0 ≡ ok d
    unfolding aes_decrypt ◌>>=◌ returns calls evp
    aes_decrypt_lem bytes key d t hk hs h = rw (
      (==_iff (length key) key_size).1 hk,
      hs,
      works.prepares t,
      works.prepares (suc t),
      works.prepares (suc (suc t)),
      works.prepares (suc (suc (suc t))),
      h,
    )

    aes_encrypt_lem :
        (d key iv : Str) (t : ℕ)
        → length key ≡ key_size
        → o.rand_bytes t iv_size ≡ some iv
        → (aes_encrypt o d key t).0 ≡ ok (iv ++ o.gcm_cipher key iv d ++ o.gcm_tag key iv d)
    unfolding aes_encrypt ◌>>=◌ returns calls evp
    aes_encrypt_lem d key iv t hk h = rw (
      (==_iff (length key) key_size).1 hk,
      h,
      works.prepares (suc t),
      works.prepares (suc (suc t)),
      works.prepares (suc (suc (suc t))),
      works.prepares (suc (suc (suc (suc t)))),
      works.prepares (suc (suc (suc (suc (suc t))))),
    )

    module _ (aead : IsAead) where
      aes_round :
          (d key iv : Str) (t : ℕ)
          → length key ≡ key_size
          → length iv ≡ iv_size
          → (aes_decrypt o (iv ++ o.gcm_cipher key iv d ++ o.gcm_tag key iv d) key t).0 ≡ ok d
      aes_round d key iv t hk hi =
          aes_decrypt_lem _ key d t hk
            (rw (size iv (o.gcm_cipher key iv d) (o.gcm_tag key iv d) hi (aead.tag_length key iv d))
              (ground arith))
            (rw
              (
                iv_of_lem iv (o.gcm_cipher key iv d) (o.gcm_tag key iv d) hi
                    (aead.tag_length key iv d),
                tag_of_lem iv (o.gcm_cipher key iv d) (o.gcm_tag key iv d) hi
                    (aead.tag_length key iv d),
                cipher_of_lem iv (o.gcm_cipher key iv d) (o.gcm_tag key iv d) hi
                    (aead.tag_length key iv d),
              )
              (aead.opens key iv d))

  module _ {A B : Type 0} (f : A → Crypto B) (a : A) (b : B) (h : (u : ℕ) → (f a u).0 ≡ ok b) where
    next_ok : (r : Result A × ℕ) → r.0 ≡ ok a → (next f r).0 ≡ ok b
    next_ok (r, u) e = rw e (h u)

    first_ok : (m : Crypto A) (t : ℕ) → (m t).0 ≡ ok a → ((m >>= f) t).0 ≡ ok b
    unfolding ◌>>=◌
    first_ok m t e = next_ok (m t) e

  -- If GCM opens what it sealed, sizes are right, base64 decodes and no call of OpenSSL fails, then
  -- CryptoEngine::encrypt with a key of 32 bytes returns a text that decrypt with that key turns back
  -- into the plaintext, if that is UTF-8.
  pub decrypt-encrypt :
      IsAead
      → Works
      → (d key : Str) (t : ℕ) → length key ≡ key_size
      → o.from_utf8 d ≡ d
      → (c : Str) × ((encrypt o d key t).0 ≡ ok c) × ((u : ℕ) → (decrypt o c key u).0 ≡ ok d)
  unfolding encrypt decrypt returns
  decrypt-encrypt aead works d key t hk hd =
      let (iv, hi) = works.random t iv_size in
      let sealed = iv ++ o.gcm_cipher key iv d ++ o.gcm_tag key iv d in
      (
        o.to_base64 sealed,
        first_ok _ sealed (o.to_base64 sealed) (λ u. refl) (aes_encrypt o d key) t
            (aes_encrypt_lem works d key iv t hk hi),
        λ u.
            first_ok _ d d (λ u. ap ok hd) (aes_decrypt o (o.from_base64 (o.to_base64 sealed)) key)
              u
              (rw (aead.base64 sealed)
                (aes_round works aead d key iv u hk (aead.iv_length t iv_size iv hi))),
      )

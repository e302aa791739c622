-- ===== src/Client/Crypto.antt =====
-- frontend/src/AesGcmStrategy.cpp, RsaOaepStrategy.cpp, OpensslAdapter.cpp and CryptoEngine.cpp.
-- OpenSSL and Qt's conversions are a parameter. Each function is given the step at which it is called
-- and returns the next one.
pub mod RoundTrip
pub mod Authentic
pub mod KeyPair
use bit_atm.Prelude.{
  ℕ, zero, suc, ◌+◌, ◌-◌, Bool, true, false, not, Option, none, some, List, [], ◌∷◌, ◌++◌, ltb,
  ◌==◌, if◌then◌else◌, length, Str, text,
}
use bit_atm.Client.Throwing.{Throwing, returns, throws, given, ◌>>=◌, ◌>>◌}

-- OpenSSL, and the conversions of QByteArray and QString.
pub record OpenSsl : Type 0 where
  -- RAND_bytes of a size, at a step.
  pub rand_bytes : ℕ → ℕ → Option Str
  -- Whether a call at a step succeeds that only prepares, allocates or reads out.
  pub prepares : ℕ → Bool
  -- AES-256-GCM of a key, an IV and a text: the ciphertext, the tag, and the text if the tag fits.
  pub gcm_cipher : Str → Str → Str → Str
  pub gcm_tag : Str → Str → Str → Str
  pub gcm_open : Str → Str → Str → Str → Option Str
  -- The PEM texts of the key pair that EVP_PKEY_keygen makes at a step.
  pub rsa_keygen : ℕ → Option (Str × Str)
  -- PEM_read_bio_PUBKEY and PEM_read_bio_PrivateKey succeed.
  pub reads_public : Str → Bool
  pub reads_private : Str → Bool
  -- RSA-OAEP with a PEM key, at a step since OAEP is randomized.
  pub rsa_wrap : ℕ → Str → Str → Option Str
  pub rsa_unwrap : Str → Str → Option Str
  pub to_base64 : Str → Str
  pub from_base64 : Str → Str
  -- QString::fromUtf8, which replaces what is not UTF-8.
  pub from_utf8 : Str → Str

abbrev pub Crypto : Type 0 → Type 0
Crypto = Throwing ℕ

unfoldable pub calls : {A : Type 0} → (ℕ → Option A) → Str → Crypto A
calls f m t = (given m (f t), suc t)

abbrev pub succeeds : Bool → Option (Unit {0})
succeeds true = some tt
succeeds false = none

-- if (!b) throw CryptoException(message)
abbrev pub ensure : Bool → Str → Crypto (Unit {0})
ensure b m = if b then returns tt else throws m

module _ {A : Type 0} where
  abbrev pub take : ℕ → List A → List A
  take zero xs = []
  take (suc n) [] = []
  take (suc n) (x ∷ xs) = x ∷ take n xs

  abbrev pub drop : ℕ → List A → List A
  drop zero xs = xs
  drop (suc n) [] = []
  drop (suc n) (x ∷ xs) = drop n xs

-- KEY_SIZE, IV_SIZE and TAG_SIZE.
abbrev pub key_size : ℕ
key_size = 32

abbrev pub iv_size : ℕ
iv_size = 12

abbrev pub tag_size : ℕ
tag_size = 16

module _ (o : OpenSsl) where
  -- A call of OpenSSL that must not fail.
  unfoldable pub evp : Str → Crypto (Unit {0})
  evp m = calls (λ t. succeeds (o.prepares t)) m

  -- AesGcmStrategy::encrypt; the final step of GCM adds no byte.
  unfoldable pub aes_encrypt : Str → Str → Crypto Str
  unfolding evp text
  aes_encrypt bytes key = do
    ensure (length key == key_size) (text "AES-256-GCM encrypt: key must be 32 bytes")
    iv ← calls (λ t. o.rand_bytes t iv_size) (text "AES-256-GCM encrypt: RAND_bytes failed")
    evp (text "AES-256-GCM encrypt: EVP_CIPHER_CTX_new failed")
    evp (text "AES-256-GCM encrypt: EVP_EncryptInit_ex failed")
    evp (text "AES-256-GCM encrypt: EVP_EncryptUpdate failed")
    evp (text "AES-256-GCM encrypt: EVP_EncryptFinal_ex failed")
    evp (text "AES-256-GCM encrypt: EVP_CTRL_GCM_GET_TAG failed")
    returns (iv ++ o.gcm_cipher key iv bytes ++ o.gcm_tag key iv bytes)

  abbrev pub iv_of : Str → Str
  iv_of bytes = take iv_size bytes

  abbrev pub tag_of : Str → Str
  tag_of bytes = drop (length bytes - tag_size) bytes

  abbrev pub cipher_of : Str → Str
  cipher_of bytes = take (length bytes - iv_size - tag_size) (drop iv_size bytes)

  -- AesGcmStrategy::decrypt.
  unfoldable pub aes_decrypt : Str → Str → Crypto Str
  unfolding evp text
  aes_decrypt bytes key = do
    ensure (length key == key_size) (text "AES-256-GCM decrypt: key must be 32 bytes")
    ensure (not (ltb (length bytes) (iv_size + tag_size)))
        (text "AES-256-GCM decrypt: ciphertext too short")
    evp (text "AES-256-GCM decrypt: EVP_CIPHER_CTX_new failed")
    evp (text "AES-256-GCM decrypt: EVP_DecryptInit_ex failed")
    evp (text "AES-256-GCM decrypt: EVP_CTRL_GCM_SET_TAG failed")
    evp (text "AES-256-GCM decrypt: EVP_DecryptUpdate failed")
    calls (λ t. o.gcm_open key (iv_of bytes) (cipher_of bytes) (tag_of bytes))
        (text "AES-256-GCM decrypt: authentication tag mismatch — data tampered")

  -- AesGcmStrategy::generateKey, which is CryptoEngine::generateAESKey.
  unfoldable pub generate_key : Crypto Str
  unfolding text
  generate_key =
      calls (λ t. o.rand_bytes t key_size) (text "AES-256-GCM generateKey: RAND_bytes failed")

  -- RsaOaepStrategy::generateKeypair, with publicKeyToPem and privateKeyToPem.
  unfoldable pub generate_keypair : Crypto (Str × Str)
  unfolding evp text
  generate_keypair = do
    evp (text "RSA generateKeypair: EVP_PKEY_CTX_new_id failed")
    evp (text "RSA generateKeypair: EVP_PKEY_keygen_init failed")
    evp (text "RSA generateKeypair: EVP_PKEY_CTX_set_rsa_keygen_bits failed")
    pair ← calls o.rsa_keygen (text "RSA generateKeypair: EVP_PKEY_keygen failed")
    evp (text "OpensslAdapter: BIO_new failed")
    evp (text "OpensslAdapter: PEM_write_bio_PUBKEY failed")
    evp (text "OpensslAdapter: BIO_new failed")
    evp (text "OpensslAdapter: PEM_write_bio_PrivateKey failed")
    returns pair

  -- OpensslAdapter::pemToPublicKey.
  unfoldable pub pem_to_public : Str → Crypto (Unit {0})
  unfolding evp text
  pem_to_public pem = do
    evp (text "OpensslAdapter: BIO_new_mem_buf failed")
    ensure (o.reads_public pem) (text "OpensslAdapter: PEM_read_bio_PUBKEY failed")

  -- OpensslAdapter::pemToPrivateKey.
  unfoldable pub pem_to_private : Str → Crypto (Unit {0})
  unfolding evp text
  pem_to_private pem = do
    evp (text "OpensslAdapter: BIO_new_mem_buf failed")
    ensure (o.reads_private pem) (text "OpensslAdapter: PEM_read_bio_PrivateKey failed")

  -- RsaOaepStrategy::encryptWithPublic.
  unfoldable pub encrypt_rsa : Str → Str → Crypto Str
  unfolding evp text pem_to_public
  encrypt_rsa bytes public_key = do
    pem_to_public public_key
    evp (text "RSA encryptWithPublic: EVP_PKEY_CTX_new failed")
    evp (text "RSA encryptWithPublic: EVP_PKEY_encrypt_init failed")
    evp (text "RSA encryptWithPublic: set OAEP padding failed")
    evp (text "RSA encryptWithPublic: EVP_PKEY_encrypt (size query) failed")
    calls (λ t. o.rsa_wrap t public_key bytes)
        (text "RSA encryptWithPublic: EVP_PKEY_encrypt failed")

  -- RsaOaepStrategy::decryptWithPrivate.
  unfoldable pub decrypt_rsa : Str → Str → Crypto Str
  unfolding evp text pem_to_private
  decrypt_rsa bytes private_key = do
    pem_to_private private_key
    evp (text "RSA decryptWithPrivate: EVP_PKEY_CTX_new failed")
    evp (text "RSA decryptWithPrivate: EVP_PKEY_decrypt_init failed")
    evp (text "RSA decryptWithPrivate: set OAEP padding failed")
    evp (text "RSA decryptWithPrivate: EVP_PKEY_decrypt (size query) failed")
    calls (λ t. o.rsa_unwrap private_key bytes)
        (text "RSA decryptWithPrivate: EVP_PKEY_decrypt failed")

  -- CryptoEngine::encrypt; a QString is its UTF-8 text here.
  unfoldable pub encrypt : Str → Str → Crypto Str
  unfolding aes_encrypt
  encrypt plaintext aes_key = do
    sealed ← aes_encrypt plaintext aes_key
    returns (o.to_base64 sealed)

  -- CryptoEngine::decrypt.
  unfoldable pub decrypt : Str → Str → Crypto Str
  unfolding aes_decrypt
  decrypt ciphertext aes_key = do
    plain ← aes_decrypt (o.from_base64 ciphertext) aes_key
    returns (o.from_utf8 plain)

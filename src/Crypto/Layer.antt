-- ===== src/Crypto/Layer.antt =====
-- reference/src/crypto: the primitives that the application supplies, as an interface, and what the
-- code relies on. Keys, signatures of the platform and randomness are values: a random choice is an
-- argument of the function that makes it.
use zssp.Base.{ℕ, ◌≡◌, Bool, true, List, Option, some, length}
use zssp.Base.Bytes.{AllBytes}
use zssp.Crypto.{Sha512}

pub record CryptoLayer : Type 1 where
  pub KeyPair : Type 0
  pub PublicKey : Type 0
  pub Kem : Type 0
  pub sha : Sha512
  pub hmac : List ℕ → List ℕ → List ℕ
  -- Key, nonce, associated data and buffer, to the buffer and the tag.
  pub aead_encrypt : List ℕ → List ℕ → Option (List ℕ) → List ℕ → List ℕ × List ℕ
  pub aead_decrypt : List ℕ → List ℕ → Option (List ℕ) → List ℕ → List ℕ → List ℕ × Bool
  pub public_key_bytes : KeyPair → List ℕ
  pub from_bytes : List ℕ → Option PublicKey
  pub to_bytes : PublicKey → List ℕ
  pub agree : KeyPair → PublicKey → List ℕ
  -- The public key that `generate` gives with a private one.
  pub kem_public : Kem → List ℕ
  pub encapsulate : ℕ → List ℕ → Option (List ℕ × List ℕ)
  pub decapsulate : Kem → List ℕ → Option (List ℕ)

-- What the documentation of the interfaces asks of an implementation.
pub record IsLawful (c : CryptoLayer) : Type 0 where
  pub public_key : c.KeyPair → c.PublicKey
  pub hmac_size : (key input : List ℕ) → length (c.hmac key input) ≡ 64
  -- Decryption gives back what was encrypted and finds its tag right.
  pub aead_inverse :
      (key nonce : List ℕ) (aad : Option (List ℕ)) (buffer : List ℕ)
      → let (sealed, tag) = c.aead_encrypt key nonce aad buffer in
        c.aead_decrypt key nonce aad sealed tag ≡ (buffer, true)
  pub aead_size :
      (key nonce : List ℕ) (aad : Option (List ℕ)) (buffer : List ℕ)
      → length (c.aead_encrypt key nonce aad buffer).0 ≡ length buffer
  -- Decryption is in place.
  pub decrypt_size :
      (key nonce : List ℕ) (aad : Option (List ℕ)) (buffer tag : List ℕ)
      → length (c.aead_decrypt key nonce aad buffer tag).0 ≡ length buffer
  pub tag_size :
      (key nonce : List ℕ) (aad : Option (List ℕ)) (buffer : List ℕ)
      → length (c.aead_encrypt key nonce aad buffer).1 ≡ 16
  pub tag_bytes :
      (key nonce : List ℕ) (aad : Option (List ℕ)) (buffer : List ℕ)
      → AllBytes (c.aead_encrypt key nonce aad buffer).1
  pub public_size : (secret : c.KeyPair) → length (c.public_key_bytes secret) ≡ 49
  pub from_bytes_public :
      (secret : c.KeyPair) → c.from_bytes (c.public_key_bytes secret) ≡ some (public_key secret)
  pub to_bytes_public :
      (secret : c.KeyPair) → c.to_bytes (public_key secret) ≡ c.public_key_bytes secret
  -- Both sides of a key agreement get the same secret.
  pub agree_comm : (a b : c.KeyPair) → c.agree a (public_key b) ≡ c.agree b (public_key a)
  pub kem_size : (secret : c.Kem) → length (c.kem_public secret) ≡ 1568
  -- What was encapsulated for a key is decapsulated with it.
  pub kem_inverse :
      (secret : c.Kem) (random : ℕ)
      → (ciphertext plain : List ℕ) × (c.encapsulate random (c.kem_public secret)
          ≡ some (ciphertext, plain))
        × (length ciphertext ≡ 1568)
        × (c.decapsulate secret ciphertext ≡ some plain)

-- ===== src/Crypto/Sample.antt =====
-- A crypto layer for the tests: no secrecy, but the sizes and the laws of the real one.
use zssp.Base.{
  ℕ, zero, suc, ◌+◌, ◌<◌, refl, ap, true, List, [], ◌∷◌, Option, none, some, replicate, arith,
  length-replicate,
}
use zssp.Base.Bytes.{AllBytes}
use zssp.Crypto.{Sha512}
use zssp.Crypto.Layer.{CryptoLayer, IsLawful}

pub replicate-AllBytes : (n b : ℕ) → b < 256 → AllBytes (replicate n b)
replicate-AllBytes zero b h = tt
replicate-AllBytes (suc n) b h = (h, replicate-AllBytes n b h)

abbrev pub sample_sha : Sha512
sample_sha = record {
  digest = λ m. replicate 64 0;
  digest_size = λ m. refl;
  digest_bytes = λ m. replicate-AllBytes 64 0 (omega arith);
}

abbrev pub head_of : List ℕ → Option ℕ
head_of [] = none
head_of (b ∷ bs) = some b

abbrev pub one_byte : Option ℕ → Option (List ℕ)
one_byte none = none
one_byte (some b) = some (b ∷ [])

abbrev pub sample : CryptoLayer
sample = record {
  KeyPair = ℕ;
  PublicKey = ℕ;
  Kem = ℕ;
  sha = sample_sha;
  hmac = λ key input. replicate 64 1;
  aead_encrypt = λ key nonce aad buffer. (buffer, replicate 16 7);
  aead_decrypt = λ key nonce aad buffer tag. (buffer, true);
  public_key_bytes = λ secret. secret ∷ replicate 48 0;
  from_bytes = head_of;
  to_bytes = λ public. public ∷ replicate 48 0;
  agree = λ secret public. (secret + public) ∷ [];
  kem_public = λ secret. replicate 1568 0;
  encapsulate = λ random public. some (random ∷ replicate 1567 0, random ∷ []);
  decapsulate = λ secret ciphertext. one_byte (head_of ciphertext);
}

abbrev pub sample_laws : IsLawful sample
sample_laws = record {
  public_key = λ secret. secret;
  hmac_size = λ key input. refl;
  aead_inverse = λ key nonce aad buffer. refl;
  aead_size = λ key nonce aad buffer. refl;
  decrypt_size = λ key nonce aad buffer tag. refl;
  tag_size = λ key nonce aad buffer. refl;
  tag_bytes = λ key nonce aad buffer. replicate-AllBytes 16 7 (omega arith);
  public_size = λ secret. refl;
  from_bytes_public = λ secret. refl;
  to_bytes_public = λ secret. refl;
  agree_comm = λ a b. ap (λ n. n ∷ []) (omega arith);
  kem_size = λ secret. length-replicate 1568 zero;
  kem_inverse = λ secret random. (
    random ∷ replicate 1567 0,
    random ∷ [],
    refl,
    omega (arith, length-replicate 1567 zero),
    refl,
  );
}

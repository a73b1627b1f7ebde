-- ===== src/Noise/Seal.antt =====
-- Encryption on one side and decryption on the other leave both with the same state.
use zssp.Base.{ℕ, ◌≡◌, refl, true, List, ◌++◌, some, length, take-append, drop-append}
use zssp.Base.Bytes.{AllBytes}
use zssp.Crypto.Layer.{CryptoLayer, IsLawful}
use zssp.Noise.{SymmetricState, mix_hash, encrypt_and_hash_in_place, decrypt_and_hash_in_place}

module _ (c : CryptoLayer) (lawful : IsLawful c) where
  -- What `encrypt_and_hash_in_place` appends to a packet for some plaintext, and the state after it.
  pub record Sealed (s : SymmetricState) (iv plain : List ℕ) (s' : SymmetricState)
      (sealed tag : List ℕ) : Type 0 where
    pub appends :
        (packet : List ℕ)
        → encrypt_and_hash_in_place c s iv (length packet) (packet ++ plain)
          ≡ (s', packet ++ (sealed ++ tag))
    pub size : length sealed ≡ length plain
    pub tag_size : length tag ≡ 16
    pub tag_bytes : AllBytes tag
    pub opens : decrypt_and_hash_in_place c s iv sealed tag ≡ (s', plain, true)

  pub encrypt_and_hash_in_place-Sealed :
      (s : SymmetricState) (iv plain : List ℕ)
      → (s' : SymmetricState) × (sealed tag : List ℕ) × Sealed s iv plain s' sealed tag
  unfolding encrypt_and_hash_in_place decrypt_and_hash_in_place mix_hash
  encrypt_and_hash_in_place-Sealed s iv plain =
      let (sealed, tag) = c.aead_encrypt s.k iv (some s.h) plain in
      (
        record s { h = c.sha.digest (s.h ++ (sealed ++ tag)) },
        sealed,
        tag,
        record {
          appends = λ packet.
              rw
                (
                  drop-append packet plain (length packet) refl,
                  take-append packet plain (length packet) refl,
                  drop-append packet (sealed ++ tag) (length packet) refl,
                )
                refl;
          size = lawful.aead_size s.k iv (some s.h) plain;
          tag_size = lawful.tag_size s.k iv (some s.h) plain;
          tag_bytes = lawful.tag_bytes s.k iv (some s.h) plain;
          opens = rw (lawful.aead_inverse s.k iv (some s.h) plain) refl;
        },
      )

-- ===== src/Noise.antt =====
-- reference/src/symmetric_state.rs: the symmetric state of a Noise handshake.
pub mod Kdf
pub mod Seal
mod Tests
use zssp.Base.{
  ℕ, ◌+◌, ◌*◌, ◌%◌, ◌^◌, Bool, List, [], ◌∷◌, ◌++◌, Option, some, take, drop, replicate,
}
use zssp.Base.Bytes.{to_be_bytes}
use zssp.Crypto.Layer.{CryptoLayer}
use zssp.Proto.Handshake.{aes_256_key_size, hashlen, label_kbkdf_chain}

pub record SymmetricState : Type 0 where
  pub k : List ℕ
  pub ck : List ℕ
  pub h : List ℕ

-- The input of the HMAC for output `i`: the counter, the label, a zero, the chaining key, and the size
-- of all outputs in bits as a `u16`.
unfoldable pub kbkdf_buffer : ℕ → List ℕ → List ℕ → ℕ → List ℕ
kbkdf_buffer i label ck num_outputs =
    (i ∷ []) ++ (label ++ ((0 ∷ []) ++ (ck ++ to_be_bytes 2 (num_outputs * 8 * hashlen % 2 ^ 16))))

unfoldable pub initialize : List ℕ → SymmetricState
initialize h = record { k = replicate aes_256_key_size 0; ck = h; h = h }

module _ (c : CryptoLayer) where
  -- Output `i` of `kbkdf`.
  unfoldable pub kbkdf : SymmetricState → List ℕ → List ℕ → ℕ → ℕ → List ℕ
  unfolding kbkdf_buffer
  kbkdf s input_key_material label num_outputs i =
      c.hmac input_key_material (kbkdf_buffer i label s.ck num_outputs)

  unfoldable pub mix_key : SymmetricState → List ℕ → SymmetricState
  unfolding kbkdf
  mix_key s input_key_material =
      let next_ck = kbkdf s input_key_material label_kbkdf_chain 2 1 in
      let temp_k = kbkdf s input_key_material label_kbkdf_chain 2 2 in
      record s { ck = next_ck; k = take aes_256_key_size temp_k }

  unfoldable pub mix_hash : SymmetricState → List ℕ → SymmetricState
  mix_hash s bytes = record s { h = c.sha.digest (s.h ++ bytes) }

  unfoldable pub mix_key_and_hash : SymmetricState → List ℕ → SymmetricState
  unfolding kbkdf mix_hash
  mix_key_and_hash s input_key_material =
      let next_ck = kbkdf s input_key_material label_kbkdf_chain 3 1 in
      let temp_h = kbkdf s input_key_material label_kbkdf_chain 3 2 in
      let temp_k = kbkdf s input_key_material label_kbkdf_chain 3 3 in
      let mixed = mix_hash (record s { ck = next_ck }) temp_h in
      record mixed { k = take aes_256_key_size temp_k }

  unfoldable pub encrypt_and_hash_in_place :
      SymmetricState → List ℕ → ℕ → List ℕ → SymmetricState × List ℕ
  unfolding mix_hash
  encrypt_and_hash_in_place s iv plaintext_start buffer =
      let (sealed, tag) = c.aead_encrypt s.k iv (some s.h) (drop plaintext_start buffer) in
      let buffer' = take plaintext_start buffer ++ (sealed ++ tag) in
      (mix_hash s (drop plaintext_start buffer'), buffer')

  unfoldable pub decrypt_and_hash_in_place :
      SymmetricState → List ℕ → List ℕ → List ℕ → SymmetricState × List ℕ × Bool
  decrypt_and_hash_in_place s iv buffer tag =
      let (plain, is_auth) = c.aead_decrypt s.k iv (some s.h) buffer tag in
      (record s { h = c.sha.digest (s.h ++ (buffer ++ tag)) }, plain, is_auth)

  unfoldable pub split : SymmetricState → List ℕ × List ℕ
  unfolding kbkdf
  split s = (
    take aes_256_key_size (kbkdf s [] label_kbkdf_chain 2 1),
    take aes_256_key_size (kbkdf s [] label_kbkdf_chain 2 2),
  )

  unfoldable pub get_ask : SymmetricState → List ℕ → List ℕ × List ℕ
  unfolding kbkdf
  get_ask s label =
      (take aes_256_key_size (kbkdf s s.h label 2 1), take aes_256_key_size (kbkdf s s.h label 2 2))

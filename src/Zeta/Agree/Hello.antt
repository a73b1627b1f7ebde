-- ===== src/Zeta/Agree/Hello.antt =====
-- The responder reads from a hello what the initiator has put into it.
use mathlib.Core.List.{append_assoc}
use zssp.Base.{
  ℕ, ◌<◌, ◌≡◌, refl, ap, ◌∙◌, List, ◌++◌, Option, length, drop, arith, u32_mod, length-append,
  take-append, drop-append, drop-append_tail, length-drop, true, ◌-◌,
}
use zssp.Base.Bytes.{
  to_be_bytes, from_be_bytes, length-to_be_bytes, from_be_bytes-to_be_bytes, drop-AllBytes,
}
use zssp.Crypto.Layer.{CryptoLayer, IsLawful}
use zssp.Noise.{SymmetricState, initialize, mix_hash}
use zssp.Noise.Seal.{Sealed, encrypt_and_hash_in_place-Sealed}
use zssp.Challenge.{gen_null_response}
use zssp.Proto.Handshake.{handshake_hello_size, protocol_name_noise_xk}
use zssp.Ratchet.{RatchetState, bytes_eq, bytes_eq_self}
use zssp.Results.{ok, ReceiveError}
use zssp.Zeta.Hello.{Offer, create_a1_state, fingerprint_or_zero}
use zssp.Zeta.Nonce.{to_nonce, drop-to_nonce-from_be_bytes}
use zssp.Zeta.Tokens.{read-append, read_whole, read_e, write_e, mix_dh}
use zssp.Zeta.X1.{read_x1, non_zero_pos}

abbrev pub last_eight : List ℕ → List ℕ
last_eight x1 = drop (length x1 - 8) x1

module _ (c : CryptoLayer) (lawful : IsLawful c) where
  -- Both sides up to the first block that is encrypted.
  unfoldable pub hello_start : c.KeyPair → c.PublicKey → List ℕ → SymmetricState
  hello_start e s_remote kid =
      mix_dh c
        (write_e c
          (mix_hash c (mix_hash c (initialize protocol_name_noise_xk) kid) (c.to_bytes s_remote)) e
          kid).0
        e s_remote

  -- The blocks of a hello with these fingerprints, and the states of the initiator.
  pub record Layout (rng : Offer c) (s_remote : c.PublicKey) (kid : ℕ) (rs1 : RatchetState)
      (rs2 : Option RatchetState) : Type 0 where
    pub noise1 : SymmetricState
    pub noise2 : SymmetricState
    pub sealed1 : List ℕ
    pub tag1 : List ℕ
    pub sealed2 : List ℕ
    pub tag2 : List ℕ
    pub block1 :
        Sealed c lawful
          (hello_start rng.e_secret s_remote (to_be_bytes 4 kid))
          (to_nonce 0 0)
          (c.kem_public rng.e1_secret)
          noise1
          sealed1
          tag1
    pub block2 :
        Sealed c lawful noise1
          (to_nonce 0 1)
          (rs1.fingerprint ++ fingerprint_or_zero rs2)
          noise2
          sealed2
          tag2
    pub noise :
        (identity : List ℕ) → (create_a1_state c rng s_remote kid rs1 rs2 identity).noise ≡ noise2
    pub nonce :
        (identity : List ℕ)
        → (create_a1_state c rng s_remote kid rs1 rs2 identity).packet.nonce
          ≡ to_nonce 0 (
              from_be_bytes (
                last_eight (
                  ((to_be_bytes 4 kid ++ c.public_key_bytes rng.e_secret) ++ (sealed1 ++ tag1))
                  ++ (sealed2 ++ tag2))))
    pub payload :
        (identity : List ℕ)
        → (create_a1_state c rng s_remote kid rs1 rs2 identity).packet.payload
          ≡ (((to_be_bytes 4 kid ++ c.public_key_bytes rng.e_secret) ++ (sealed1 ++ tag1))
              ++ (sealed2 ++ tag2))
            ++ gen_null_response c.sha (to_be_bytes 8) rng.pow

  pub create_a1_state-Layout :
      (rng : Offer c) (s_remote : c.PublicKey) (kid : ℕ) (rs1 : RatchetState)
      (rs2 : Option RatchetState)
      → Layout rng s_remote kid rs1 rs2
  unfolding create_a1_state write_e hello_start
  create_a1_state-Layout rng s_remote kid rs1 rs2 =
      let x0 = to_be_bytes 4 kid ++ c.public_key_bytes rng.e_secret in
      let (n1, sealed1, tag1, b1) =
        encrypt_and_hash_in_place-Sealed c lawful
          (hello_start rng.e_secret s_remote (to_be_bytes 4 kid)) (to_nonce 0 0)
          (c.kem_public rng.e1_secret) in
      let (n2, sealed2, tag2, b2) =
        encrypt_and_hash_in_place-Sealed c lawful n1 (to_nonce 0 1)
          (rs1.fingerprint ++ fingerprint_or_zero rs2) in
      record {
        noise1 = n1;
        noise2 = n2;
        sealed1 = sealed1;
        tag1 = tag1;
        sealed2 = sealed2;
        tag2 = tag2;
        block1 = b1;
        block2 = b2;
        noise = λ identity. rw (b1.appends x0, b2.appends (x0 ++ (sealed1 ++ tag1))) refl;
        nonce = λ identity. rw (b1.appends x0, b2.appends (x0 ++ (sealed1 ++ tag1))) refl;
        payload = λ identity. rw (b1.appends x0, b2.appends (x0 ++ (sealed1 ++ tag1))) refl;
      }

  -- The packet without the response, its blocks bracketed as they are read.
  unfoldable pub hello_bytes :
      {rng : Offer c} {s_remote : c.PublicKey} {kid : ℕ} {rs1 : RatchetState}
      {rs2 : Option RatchetState}
      → Layout rng s_remote kid rs1 rs2
      → List ℕ
  hello_bytes {rng = rng} {kid = kid} l =
      to_be_bytes 4 kid
      ++ (c.public_key_bytes rng.e_secret ++ (l.sealed1 ++ (l.tag1 ++ (l.sealed2 ++ l.tag2))))

  pub read_x1-hello_bytes :
      (rng : Offer c) (s : c.KeyPair) (kid : ℕ) (rs1 : RatchetState) (rs2 : Option RatchetState)
      → 0 < kid
      → kid < u32_mod
      → length rs1.fingerprint ≡ 32
      → length (fingerprint_or_zero rs2) ≡ 32
      → (l : Layout rng (lawful.public_key s) kid rs1 rs2)
      → read_x1 c s (hello_bytes l)
        ≡ ok (record {
          kid_send = kid;
          e_remote = lawful.public_key rng.e_secret;
          e1_public = c.kem_public rng.e1_secret;
          rf1 = rs1.fingerprint;
          rf2 = fingerprint_or_zero rs2;
          noise = l.noise2;
        })
  unfolding hello_bytes read_x1 read_e mix_dh hello_start write_e
  read_x1-hello_bytes rng s kid rs1 rs2 pos small size1 size2 l =
      let pub_key = c.public_key_bytes rng.e_secret in
      let rest2 = l.sealed2 ++ l.tag2 in
      let rest1 = l.sealed1 ++ (l.tag1 ++ rest2) in
      let opens1 =
        rw (lawful.to_bytes_public s, lawful.agree_comm rng.e_secret s) at l.block1.opens in
      let size = length-append rs1.fingerprint (fingerprint_or_zero rs2) in
      rw
        (
          read-append {E = ReceiveError} 4 (to_be_bytes 4 kid) (pub_key ++ rest1)
              (length-to_be_bytes 4 kid),
          from_be_bytes-to_be_bytes 4 kid (omega arith),
          non_zero_pos kid pos,
          read-append {E = ReceiveError} 49 pub_key rest1 (lawful.public_size rng.e_secret),
          lawful.from_bytes_public rng.e_secret,
          read-append {E = ReceiveError} 1568 l.sealed1 (l.tag1 ++ rest2)
              (l.block1.size ∙ lawful.kem_size rng.e1_secret),
          read-append {E = ReceiveError} 16 l.tag1 rest2 l.block1.tag_size,
          opens1,
          read-append {E = ReceiveError} 64 l.sealed2 l.tag2 (omega arith),
          read_whole {E = ReceiveError} 16 l.tag2 l.block2.tag_size,
          l.block2.opens,
          take-append rs1.fingerprint (fingerprint_or_zero rs2) 32 size1,
          drop-append rs1.fingerprint (fingerprint_or_zero rs2) 32 size1,
        )
        refl

  pub payload-hello_bytes :
      {rng : Offer c} {s_remote : c.PublicKey} {kid : ℕ} {rs1 : RatchetState}
      {rs2 : Option RatchetState} (l : Layout rng s_remote kid rs1 rs2) (identity : List ℕ)
      → (create_a1_state c rng s_remote kid rs1 rs2 identity).packet.payload
        ≡ hello_bytes l ++ gen_null_response c.sha (to_be_bytes 8) rng.pow
  unfolding hello_bytes
  payload-hello_bytes l identity = rw (l.payload identity) (simp append_assoc)

  front :
      {rng : Offer c} {s_remote : c.PublicKey} {kid : ℕ} {rs1 : RatchetState}
      {rs2 : Option RatchetState}
      → Layout rng s_remote kid rs1 rs2
      → List ℕ
  front {rng = rng} {kid = kid} l =
      to_be_bytes 4 kid ++ (c.public_key_bytes rng.e_secret ++ (l.sealed1 ++ (l.tag1 ++ l.sealed2)))

  hello_bytes-front :
      {rng : Offer c} {s_remote : c.PublicKey} {kid : ℕ} {rs1 : RatchetState}
      {rs2 : Option RatchetState} (l : Layout rng s_remote kid rs1 rs2)
      → hello_bytes l ≡ front l ++ l.tag2
  unfolding hello_bytes front
  hello_bytes-front l = simp append_assoc

  -- The packet has the size of a hello.
  pub length-hello_bytes :
      {rng : Offer c} {s_remote : c.PublicKey} {kid : ℕ} {rs1 : RatchetState}
      {rs2 : Option RatchetState} (l : Layout rng s_remote kid rs1 rs2)
      → length rs1.fingerprint ≡ 32
      → length (fingerprint_or_zero rs2) ≡ 32
      → length (hello_bytes l) ≡ handshake_hello_size
  unfolding hello_bytes
  length-hello_bytes {rng = rng} {kid = kid} {rs1 = rs1} {rs2 = rs2} l size1 size2 =
      let rest2 = l.sealed2 ++ l.tag2 in
      let rest1 = l.sealed1 ++ (l.tag1 ++ rest2) in
      omega (
        arith,
        length-append (to_be_bytes 4 kid) (c.public_key_bytes rng.e_secret ++ rest1),
        length-append (c.public_key_bytes rng.e_secret) rest1,
        length-append l.sealed1 (l.tag1 ++ rest2),
        length-append l.tag1 rest2,
        length-append l.sealed2 l.tag2,
        length-append rs1.fingerprint (fingerprint_or_zero rs2),
        length-to_be_bytes 4 kid,
        lawful.public_size rng.e_secret,
        l.block1.size,
        lawful.kem_size rng.e1_secret,
        l.block1.tag_size,
        l.block2.size,
        l.block2.tag_size,
      )

  -- The nonce has the last bytes of the packet.
  pub nonce-hello_bytes :
      {rng : Offer c} {s_remote : c.PublicKey} {kid : ℕ} {rs1 : RatchetState}
      {rs2 : Option RatchetState} (l : Layout rng s_remote kid rs1 rs2) (identity : List ℕ)
      → bytes_eq
          (drop 4 (create_a1_state c rng s_remote kid rs1 rs2 identity).packet.nonce)
          (last_eight (hello_bytes l))
        ≡ true
  unfolding hello_bytes
  nonce-hello_bytes {rng = rng} {kid = kid} l identity =
      let written =
        ((to_be_bytes 4 kid ++ c.public_key_bytes rng.e_secret) ++ (l.sealed1 ++ l.tag1))
        ++ (l.sealed2 ++ l.tag2) in
      let as_read : written ≡ hello_bytes l = simp append_assoc in
      let bracketed = as_read ∙ hello_bytes-front l in
      let last : last_eight (front l ++ l.tag2) ≡ drop (length l.tag2 - 8) l.tag2 =
        drop-append_tail 8 (front l) l.tag2 (omega (arith, l.block2.tag_size)) in
      let size : length (drop (length l.tag2 - 8) l.tag2) ≡ 8 =
        omega (arith, length-drop (length l.tag2 - 8) l.tag2, l.block2.tag_size) in
      let bytes = drop-AllBytes (length l.tag2 - 8) l.tag2 l.block2.tag_bytes in
      let same = drop-to_nonce-from_be_bytes 0 (drop (length l.tag2 - 8) l.tag2) size bytes in
      rw
        (
          l.nonce identity,
          ap last_eight bracketed ∙ last,
          ap last_eight (hello_bytes-front l) ∙ last,
          same,
        )
        (bytes_eq_self (drop (length l.tag2 - 8) l.tag2))

  -- The responder reads the initiator's keys and fingerprints, and comes to its state.
  pub read_x1-create_a1_state :
      (rng : Offer c) (s : c.KeyPair) (kid : ℕ) (rs1 : RatchetState) (rs2 : Option RatchetState)
      (identity : List ℕ)
      → 0 < kid
      → kid < u32_mod
      → length rs1.fingerprint ≡ 32
      → length (fingerprint_or_zero rs2) ≡ 32
      → (l : Layout rng (lawful.public_key s) kid rs1 rs2)
      → read_x1 c s (hello_bytes l)
        ≡ ok (record {
          kid_send = kid;
          e_remote = lawful.public_key rng.e_secret;
          e1_public = c.kem_public rng.e1_secret;
          rf1 = rs1.fingerprint;
          rf2 = fingerprint_or_zero rs2;
          noise = (create_a1_state c rng (lawful.public_key s) kid rs1 rs2 identity).noise;
        })
  read_x1-create_a1_state rng s kid rs1 rs2 identity pos small size1 size2 l =
      rw (l.noise identity) (read_x1-hello_bytes rng s kid rs1 rs2 pos small size1 size2 l)

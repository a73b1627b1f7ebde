-- ===== src/Zeta/Agree/Completion.antt =====
-- The responder reads from the third packet what the initiator has put into it.
use mathlib.Core.List.{append_assoc}
use zssp.Base.{
  ℕ, ◌-◌, ◌≡◌, refl, ◌∙◌, List, [], ◌++◌, length, arith, length-append, true, ◌≤◌, ◌+◌, ◌==◌, leb,
}
use zssp.Crypto.Layer.{CryptoLayer, IsLawful}
use zssp.Noise.{SymmetricState}
use zssp.Noise.Seal.{Sealed, encrypt_and_hash_in_place-Sealed}
use zssp.Proto.Handshake.{
  handshake_completion_min_size, handshake_completion_max_size, identity_max_size,
}
use zssp.Results.{ok, ReceiveError}
use zssp.Zeta.Data.{StateB2}
use zssp.Zeta.Nonce.{to_nonce}
use zssp.Zeta.Tokens.{read-append, mix_dh}
use zssp.Zeta.X2.{write_x3}
use zssp.Zeta.X3.{read_x3, x3_identity}

module _ (c : CryptoLayer) (lawful : IsLawful c) where
  -- The blocks of the third packet.
  pub record Layout (noise : SymmetricState) (s e : c.KeyPair) (identity : List ℕ) : Type 0 where
    pub noise1 : SymmetricState
    pub noise2 : SymmetricState
    pub sealed1 : List ℕ
    pub tag1 : List ℕ
    pub sealed2 : List ℕ
    pub tag2 : List ℕ
    pub block1 : Sealed c lawful noise (to_nonce 2 1) (c.public_key_bytes s) noise1 sealed1 tag1
    pub block2 :
        Sealed c lawful
          (mix_dh c noise1 s (lawful.public_key e))
          (to_nonce 2 0)
          identity
          noise2
          sealed2
          tag2

  unfoldable pub completion_bytes :
      {noise : SymmetricState} {s e : c.KeyPair} {identity : List ℕ}
      → Layout noise s e identity
      → List ℕ
  completion_bytes l = (l.sealed1 ++ l.tag1) ++ (l.sealed2 ++ l.tag2)

  unfoldable pub completion_blocks :
      {noise : SymmetricState} {s e : c.KeyPair} {identity : List ℕ}
      → Layout noise s e identity
      → List ℕ
  completion_blocks l = l.sealed1 ++ (l.tag1 ++ (l.sealed2 ++ l.tag2))

  pub write_x3-Layout :
      (noise : SymmetricState) (s e : c.KeyPair) (identity : List ℕ)
      → (l : Layout noise s e identity) × (write_x3 c noise s (lawful.public_key e) identity
          ≡ (l.noise2, completion_bytes l))
  unfolding write_x3 completion_bytes
  write_x3-Layout noise s e identity =
      let (n1, sealed1, tag1, b1) =
        encrypt_and_hash_in_place-Sealed c lawful noise (to_nonce 2 1) (c.public_key_bytes s) in
      let (n2, sealed2, tag2, b2) =
        encrypt_and_hash_in_place-Sealed c lawful (mix_dh c n1 s (lawful.public_key e))
          (to_nonce 2 0) identity in
      (
        record {
          noise1 = n1;
          noise2 = n2;
          sealed1 = sealed1;
          tag1 = tag1;
          sealed2 = sealed2;
          tag2 = tag2;
          block1 = b1;
          block2 = b2;
        },
        rw (b1.appends [], b2.appends (sealed1 ++ tag1)) refl,
      )

  pub read_x3-completion_blocks :
      (b : StateB2 c) (s : c.KeyPair) (identity : List ℕ) (l : Layout b.noise s b.e_secret identity)
      → read_x3 b (completion_blocks l) ≡ ok (lawful.public_key s, identity, l.noise2)
  unfolding completion_blocks read_x3 mix_dh
  read_x3-completion_blocks b s identity l =
      let rest2 = l.sealed2 ++ l.tag2 in
      let opens2 = rw (lawful.agree_comm s b.e_secret) at l.block2.opens in
      let rest_size : length rest2 - 16 ≡ length l.sealed2 =
        omega (arith, length-append l.sealed2 l.tag2, l.block2.tag_size) in
      rw
        (
          read-append {E = ReceiveError} 49 l.sealed1 (l.tag1 ++ rest2)
              (l.block1.size ∙ lawful.public_size s),
          read-append {E = ReceiveError} 16 l.tag1 rest2 l.block1.tag_size,
          l.block1.opens,
          lawful.from_bytes_public s,
          rest_size,
          read-append {E = ReceiveError} (length l.sealed2) l.sealed2 l.tag2 refl,
          opens2,
        )
        refl

  pub completion_bytes-completion_blocks :
      {noise : SymmetricState} {s e : c.KeyPair} {identity : List ℕ} (l : Layout noise s e identity)
      → completion_bytes l ≡ completion_blocks l
  unfolding completion_bytes completion_blocks
  completion_bytes-completion_blocks l = simp append_assoc

  length-completion_blocks :
      {noise : SymmetricState} {s e : c.KeyPair} {identity : List ℕ} (l : Layout noise s e identity)
      → length (completion_blocks l) ≡ handshake_completion_min_size + length identity
  unfolding completion_blocks
  length-completion_blocks {s = s} l =
      let rest2 = l.sealed2 ++ l.tag2 in
      omega (
        arith,
        length-append l.sealed1 (l.tag1 ++ rest2),
        length-append l.tag1 rest2,
        length-append l.sealed2 l.tag2,
        lawful.public_size s,
        l.block1.size,
        l.block1.tag_size,
        l.block2.size,
        l.block2.tag_size,
      )

  -- The packet passes the tests of the responder, who offered this key id.
  pub x3_identity-completion_blocks :
      (b : StateB2 c) (s : c.KeyPair) (identity : List ℕ) (l : Layout b.noise s b.e_secret identity)
      → length identity ≤ identity_max_size
      → x3_identity b b.kid_recv (completion_blocks l)
        ≡ ok (lawful.public_key s, identity, l.noise2)
  unfolding x3_identity
  x3_identity-completion_blocks b s identity l small =
      let size = length-completion_blocks l in
      let least : leb handshake_completion_min_size (length (completion_blocks l)) ≡ true =
        ground (arith, size) in
      let most : leb (length (completion_blocks l)) handshake_completion_max_size ≡ true =
        ground (arith, size) in
      let same : (b.kid_recv == b.kid_recv) ≡ true = ground arith in
      rw (least, most, same) (read_x3-completion_blocks b s identity l)

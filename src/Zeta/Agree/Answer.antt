-- ===== src/Zeta/Agree/Answer.antt =====
-- The initiator reads from an answer what the responder has put into it.
use mathlib.Core.List.{append_assoc}
use zssp.Base.{
  ℕ, ◌<◌, ◌≡◌, refl, sym, ap, ◌∙◌, true, Bool, List, [], ◌++◌, some, length, arith, u32_mod, ◌-◌,
  ◌^◌, ◌==◌, leb, false, drop, replicate, subst, drop-append_tail, length-append, length-drop,
}
use zssp.Base.Bytes.{
  to_be_bytes, from_be_bytes, be_fold, length-to_be_bytes, from_be_bytes-to_be_bytes, AllBytes,
  append-AllBytes, drop-AllBytes, from_be_bytes-lt,
}
use zssp.Crypto.Layer.{CryptoLayer, IsLawful}
use zssp.Noise.{SymmetricState, mix_key, mix_key_and_hash}
use zssp.Noise.Seal.{Sealed, encrypt_and_hash_in_place-Sealed}
use zssp.Proto.Handshake.{handshake_response_size}
use zssp.Ratchet.{bytes_eq_self}
use zssp.Results.{ok, ReceiveError}
use zssp.Zeta.Data.{StateA1, Zeta}
use zssp.Zeta.Keys.{gen_kid, key_ref}
use zssp.Zeta.Nonce.{to_nonce, from_nonce-to_nonce, drop-to_nonce-from_be_bytes}
use zssp.Zeta.Tokens.{read-append, read_whole, read_e, write_e, mix_dh}
use zssp.Zeta.X1.{Answer, HelloRead, write_x2, x2_counter, non_zero_pos}
use zssp.Zeta.X2.{Ratcheted, read_x2, find_key, test_ratchet_key, with_state, x2_guards, same_kid}

abbrev last_three : List ℕ → List ℕ
last_three x2 = drop (length x2 - 3) x2

==_self : (n : ℕ) → (n == n) ≡ true
==_self n = ground arith

leb-false : (m n : ℕ) → n < m → leb m n ≡ false
leb-false m n h = ground arith

-- The counter of an answer has 24 bits, and its nonce ends with the last three bytes.
x2_counter_lem :
    (x2 : List ℕ)
    → length (last_three x2) ≡ 3
    → AllBytes (last_three x2)
    → (x2_counter x2 < 2 ^ 24) × (drop 9 (to_nonce 1 (x2_counter x2)) ≡ last_three x2)
unfolding x2_counter to_nonce from_be_bytes be_fold
x2_counter_lem x2 size bytes =
    let bs = replicate 5 0 ++ last_three x2 in
    let fits : from_be_bytes (last_three x2) < 2 ^ 24 =
      subst (λ m. from_be_bytes (last_three x2) < 256 ^ m) size
        (from_be_bytes-lt (last_three x2) bytes) in
    (
      fits,
      ap (drop 5) (
          drop-to_nonce-from_be_bytes 1 bs (omega arith)
            (append-AllBytes (replicate 5 0) (last_three x2) (omega arith) bytes)),
    )

module _ (c : CryptoLayer) (lawful : IsLawful c) where
  -- The responder up to the first block that is encrypted.
  unfoldable pub answer_start : SymmetricState → c.KeyPair → c.PublicKey → SymmetricState
  answer_start noise e e_remote = mix_dh c (write_e c noise e []).0 e e_remote

  -- The state behind the secret of the encapsulation and the ratchet key.
  abbrev pub ratcheted : SymmetricState → List ℕ → List ℕ → SymmetricState
  ratcheted noise secret ratchet_key = mix_key_and_hash c (mix_key c noise secret) ratchet_key

  -- The blocks of an answer with this key id.
  pub record Layout (noise : SymmetricState) (e_remote : c.PublicKey)
      (ratchet_key ekem1 secret : List ℕ) (kid : ℕ) (e : c.KeyPair) : Type 0 where
    pub noise1 : SymmetricState
    pub noise2 : SymmetricState
    pub sealed1 : List ℕ
    pub tag1 : List ℕ
    pub sealed2 : List ℕ
    pub tag2 : List ℕ
    pub block1 :
        Sealed c lawful (answer_start noise e e_remote) (to_nonce 1 0) ekem1 noise1 sealed1 tag1
    pub block2 :
        Sealed c lawful
          (ratcheted noise1 secret ratchet_key)
          (to_nonce 1 0)
          (to_be_bytes 4 kid)
          noise2
          sealed2
          tag2

  -- The packet, its blocks bracketed as they are written, and as they are read.
  unfoldable pub answer_bytes :
      {noise : SymmetricState} {e_remote : c.PublicKey} {k ekem1 secret : List ℕ} {kid : ℕ}
      {e : c.KeyPair}
      → Layout noise e_remote k ekem1 secret kid e
      → List ℕ
  answer_bytes {e = e} l = (c.public_key_bytes e ++ (l.sealed1 ++ l.tag1)) ++ (l.sealed2 ++ l.tag2)

  unfoldable pub answer_blocks :
      {noise : SymmetricState} {e_remote : c.PublicKey} {k ekem1 secret : List ℕ} {kid : ℕ}
      {e : c.KeyPair}
      → Layout noise e_remote k ekem1 secret kid e
      → List ℕ
  answer_blocks {e = e} l = c.public_key_bytes e ++ (l.sealed1 ++ (l.tag1 ++ (l.sealed2 ++ l.tag2)))

  pub write_x2-Layout :
      (session_map : List (ℕ × ℕ)) (hello : HelloRead c) (k ekem1 secret : List ℕ) (kid : ℕ)
      (rng : Answer c)
      → c.encapsulate rng.encapsulation hello.e1_public ≡ some (ekem1, secret)
      → gen_kid {E = ReceiveError} session_map rng.kids ≡ ok kid
      → (l : Layout hello.noise hello.e_remote k ekem1 secret kid rng.e_secret) × (write_x2 c
            session_map hello k rng
          ≡ ok (l.noise2, answer_bytes l, kid))
  unfolding write_x2 write_e answer_start answer_bytes
  write_x2-Layout session_map hello k ekem1 secret kid rng kem kids =
      let x0 = c.public_key_bytes rng.e_secret in
      let (n1, sealed1, tag1, b1) =
        encrypt_and_hash_in_place-Sealed c lawful
          (answer_start hello.noise rng.e_secret hello.e_remote) (to_nonce 1 0) ekem1 in
      let (n2, sealed2, tag2, b2) =
        encrypt_and_hash_in_place-Sealed c lawful (ratcheted n1 secret k) (to_nonce 1 0)
          (to_be_bytes 4 kid) in
      (
        record {
          noise1 = n1;
          noise2 = n2;
          sealed1 = sealed1;
          tag1 = tag1;
          sealed2 = sealed2;
          tag2 = tag2;
          block1 = b1;
          block2 = b2;
        },
        rw (kem, b1.appends x0, kids, b2.appends (x0 ++ (sealed1 ++ tag1))) refl,
      )

  -- The test of the ratchet key that the responder used gives its key id and its state.
  pub test_ratchet_key-Sealed :
      (noise n2 : SymmetricState) (k sealed2 tag2 : List ℕ) (kid : ℕ)
      → 0 < kid
      → kid < u32_mod
      → Sealed c lawful
          (mix_key_and_hash c noise k)
          (to_nonce 1 0)
          (to_be_bytes 4 kid)
          n2
          sealed2
          tag2
      → test_ratchet_key c noise sealed2 tag2 k ≡ some (kid, n2)
  unfolding test_ratchet_key with_state
  test_ratchet_key-Sealed noise n2 k sealed2 tag2 kid pos small block =
      rw (block.opens, from_be_bytes-to_be_bytes 4 kid (omega arith), non_zero_pos kid pos) refl

  -- The initiator comes to the ratchet keys with the state of the responder.
  pub read_x2-answer_blocks :
      (zeta : Zeta c) (disallowed : Bool) (a : StateA1 c) (k ekem1 secret : List ℕ) (kid : ℕ)
      (e : c.KeyPair) (r : Ratcheted)
      → length ekem1 ≡ 1568
      → c.decapsulate a.e1_secret ekem1 ≡ some secret
      → (l : Layout a.noise (lawful.public_key a.e_secret) k ekem1 secret kid e)
      → find_key zeta disallowed (test_ratchet_key c (mix_key c l.noise1 secret) l.sealed2 l.tag2)
        ≡ some r
      → read_x2 zeta disallowed a (answer_blocks l) ≡ ok (lawful.public_key e, r)
  unfolding answer_blocks read_x2 read_e mix_dh answer_start write_e
  read_x2-answer_blocks zeta disallowed a k ekem1 secret kid e r size kem l found =
      let pub_key = c.public_key_bytes e in
      let rest2 = l.sealed2 ++ l.tag2 in
      let rest1 = l.sealed1 ++ (l.tag1 ++ rest2) in
      let opens1 = rw (lawful.agree_comm e a.e_secret) at l.block1.opens in
      rw
        (
          read-append {E = ReceiveError} 49 pub_key rest1 (lawful.public_size e),
          lawful.from_bytes_public e,
          read-append {E = ReceiveError} 1568 l.sealed1 (l.tag1 ++ rest2) (l.block1.size ∙ size),
          read-append {E = ReceiveError} 16 l.tag1 rest2 l.block1.tag_size,
          opens1,
          kem,
          read-append {E = ReceiveError} 4 l.sealed2 l.tag2
              (l.block2.size ∙ length-to_be_bytes 4 kid),
          read_whole {E = ReceiveError} 16 l.tag2 l.block2.tag_size,
          found,
        )
        refl

  pub answer_bytes-answer_blocks :
      {noise : SymmetricState} {e_remote : c.PublicKey} {k ekem1 secret : List ℕ} {kid : ℕ}
      {e : c.KeyPair} (l : Layout noise e_remote k ekem1 secret kid e)
      → answer_bytes l ≡ answer_blocks l
  unfolding answer_bytes answer_blocks
  answer_bytes-answer_blocks l = simp append_assoc

  -- The packet has the size of an answer.
  pub length-answer_blocks :
      {noise : SymmetricState} {e_remote : c.PublicKey} {k ekem1 secret : List ℕ} {kid : ℕ}
      {e : c.KeyPair} (l : Layout noise e_remote k ekem1 secret kid e)
      → length ekem1 ≡ 1568
      → length (answer_blocks l) ≡ handshake_response_size
  unfolding answer_blocks
  length-answer_blocks {kid = kid} {e = e} l size =
      let rest2 = l.sealed2 ++ l.tag2 in
      omega (
        arith,
        length-append (c.public_key_bytes e) (l.sealed1 ++ (l.tag1 ++ rest2)),
        length-append l.sealed1 (l.tag1 ++ rest2),
        length-append l.tag1 rest2,
        length-append l.sealed2 l.tag2,
        length-to_be_bytes 4 kid,
        lawful.public_size e,
        l.block1.size,
        l.block1.tag_size,
        l.block2.size,
        l.block2.tag_size,
      )

  -- The last three bytes of the packet.
  last_bytes-answer_blocks :
      {noise : SymmetricState} {e_remote : c.PublicKey} {k ekem1 secret : List ℕ} {kid : ℕ}
      {e : c.KeyPair} (l : Layout noise e_remote k ekem1 secret kid e)
      → last_three (answer_blocks l) ≡ last_three l.tag2
  unfolding answer_blocks
  last_bytes-answer_blocks {e = e} l =
      let front = c.public_key_bytes e ++ (l.sealed1 ++ (l.tag1 ++ l.sealed2)) in
      let bracketed : answer_blocks l ≡ front ++ l.tag2 = simp append_assoc in
      ap last_three bracketed ∙ drop-append_tail 3 front l.tag2 (omega (arith, l.block2.tag_size))

  -- The initiator, which awaits an answer under this key id, lets the packet through its tests.
  pub x2_guards-answer_blocks :
      {noise : SymmetricState} {e_remote : c.PublicKey} {k ekem1 secret : List ℕ} {kid : ℕ}
      {e : c.KeyPair} (l : Layout noise e_remote k ekem1 secret kid e) (zeta : Zeta c)
      (kid_recv : ℕ)
      → length ekem1 ≡ 1568
      → (key_ref zeta true).recv.kid ≡ some kid_recv
      → x2_guards zeta kid_recv (to_nonce 1 (x2_counter (answer_blocks l))) (answer_blocks l)
        ≡ ok tt
  unfolding x2_guards same_kid
  x2_guards-answer_blocks l zeta kid_recv size own =
      let x2 = answer_blocks l in
      let last = last_bytes-answer_blocks l in
      let tail_size : length (last_three l.tag2) ≡ 3 =
        omega (arith, length-drop (length l.tag2 - 3) l.tag2, l.block2.tag_size) in
      let tail_bytes = drop-AllBytes (length l.tag2 - 3) l.tag2 l.block2.tag_bytes in
      let (small, behind) =
        x2_counter_lem x2 (subst (λ bs. length bs ≡ 3) (sym last) tail_size)
          (subst AllBytes (sym last) tail_bytes) in
      rw
        (
          own,
          ==_self kid_recv,
          from_nonce-to_nonce {E = ReceiveError} 1 (x2_counter x2) (omega arith),
          behind,
          bytes_eq_self (last_three x2),
          leb-false 16777216 (x2_counter x2) small,
          length-answer_blocks l size,
        )
        refl

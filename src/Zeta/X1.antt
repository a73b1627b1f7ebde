-- ===== src/Zeta/X1.antt =====
-- reference/src/zeta.rs: the responder gets the first packet of a handshake, without the response to
-- a challenge, and answers with the second. The key pair, the randomness of the encapsulation and the
-- random numbers for the key id are arguments.
use zssp.Base.{
  ◌<◌, ◌≡◌, arith, ℕ, ◌+◌, ◌-◌, Bool, true, not, List, [], ◌++◌, Option, none, some, length, take,
  drop, replicate, ◌==◌, if◌then◌else◌,
}
use zssp.Base.Bytes.{to_be_bytes, from_be_bytes}
use zssp.Crypto.{secure_eq}
use zssp.Crypto.Layer.{CryptoLayer}
use zssp.Noise.{
  SymmetricState, initialize, mix_hash, mix_key, mix_key_and_hash, encrypt_and_hash_in_place,
  decrypt_and_hash_in_place, get_ask,
}
use zssp.Proto.{kid_size, aes_gcm_tag_size}
use zssp.Proto.Handshake.{
  handshake_hello_size, packet_type_handshake_hello, packet_type_handshake_response, ratchet_size,
  protocol_name_noise_xk, label_header_key, kyber_public_key_size,
}
use zssp.Ratchet.{RatchetState, bytes_eq, empty}
use zssp.Results.{
  Outcome, ok, err, ReceiveError, storage_error, fault, invalid_packet, failed_auth, fail_if, ok_or,
  ◌>>=◌, ◌>>◌,
}
use zssp.Zeta.Data.{App, IoResult, done, failed, Sent, StateB2}
use zssp.Zeta.Keys.{gen_kid}
use zssp.Zeta.Nonce.{to_nonce}
use zssp.Zeta.Tokens.{read, read_e, write_e, mix_dh}

-- `NonZeroU32::new`.
unfoldable pub non_zero : ℕ → Option ℕ
non_zero kid = if kid == 0 then none else some kid

pub non_zero_pos : (kid : ℕ) → 0 < kid → non_zero kid ≡ some kid
unfolding non_zero
non_zero_pos kid h = ground arith

-- What the random generator gives for one answer.
pub record Answer (c : CryptoLayer) : Type 0 where
  pub e_secret : c.KeyPair
  pub encapsulation : ℕ
  pub kids : List ℕ

-- A lookup of a fingerprint, as it is written for one that is not all zeros.
unfoldable pub restore :
    (List ℕ → IoResult (Option RatchetState))
    → Bool
    → List ℕ
    → Outcome ReceiveError (Option RatchetState)
restore restore_by_fingerprint skip rf =
    if skip
    then ok none
    else elim (restore_by_fingerprint rf) as (λ _. Outcome ReceiveError (Option RatchetState)) [
      | done rs ↦ ok rs
      | failed e ↦ err (storage_error e)
    ]

-- The counter of the answer: its last three bytes.
unfoldable pub x2_counter : List ℕ → ℕ
x2_counter x2 = from_be_bytes (replicate 5 0 ++ drop (length x2 - 3) x2)

module _ (c : CryptoLayer) where
  -- The ratchet state for the two fingerprints of a hello: the second lookup is for the first
  -- fingerprint too, as in the source.
  unfoldable pub find_ratchet_state : App c → List ℕ → List ℕ → Outcome ReceiveError RatchetState
  find_ratchet_state app rf1 rf2 = do
    first ← restore app.restore_by_fingerprint (secure_eq rf1 (replicate ratchet_size 0)) rf1
    elim first as (λ _. Outcome ReceiveError RatchetState) [
      | some rs ↦ ok rs
      | none ↦ do
        second ← restore app.restore_by_fingerprint (secure_eq rf2 (replicate ratchet_size 0)) rf1
        elim second as (λ _. Outcome ReceiveError RatchetState) [
          | some rs ↦ ok rs
          | none ↦
              if app.hello_requires_recognized_ratchet
              then err (fault failed_auth true)
              else ok empty
        ]
    ]

  -- What a hello says: the key id and the ephemeral keys of the peer, its fingerprints, and the state
  -- after it.
  pub record HelloRead : Type 0 where
    pub kid_send : ℕ
    pub e_remote : c.PublicKey
    pub e1_public : List ℕ
    pub rf1 : List ℕ
    pub rf2 : List ℕ
    pub noise : SymmetricState

  -- Message pattern 1.
  unfoldable pub read_x1 : c.KeyPair → List ℕ → Outcome ReceiveError HelloRead
  read_x1 s_secret x1 = do
    (kid, rest) ← read kid_size x1
    let noise = mix_hash c (initialize protocol_name_noise_xk) kid
    kid_send ← ok_or (non_zero (from_be_bytes kid)) (fault invalid_packet true)
    let noise = mix_hash c noise (c.public_key_bytes s_secret)
    (noise, e, rest) ← read_e c noise rest
    e_remote ← ok_or e (fault failed_auth true)
    let noise = mix_dh c noise s_secret e_remote
    (e1, rest) ← read kyber_public_key_size rest
    (tag, rest) ← read aes_gcm_tag_size rest
    let (noise, e1_public, is_auth) =
        decrypt_and_hash_in_place c noise (to_nonce packet_type_handshake_hello 0) e1 tag
    fail_if (not is_auth) (fault failed_auth true)
    (payload, rest) ← read (ratchet_size + ratchet_size) rest
    (tag, rest) ← read aes_gcm_tag_size rest
    let (noise, rfs, is_auth) =
        decrypt_and_hash_in_place c noise (to_nonce packet_type_handshake_hello 1) payload tag
    fail_if (not is_auth) (fault failed_auth true)
    ok (record {
      kid_send = kid_send;
      e_remote = e_remote;
      e1_public = e1_public;
      rf1 = take ratchet_size rfs;
      rf2 = drop ratchet_size rfs;
      noise = noise;
    })

  -- Message pattern 2: the state, the packet and the key id that is offered.
  unfoldable pub write_x2 :
      List (ℕ × ℕ)
      → HelloRead
      → List ℕ
      → Answer c
      → Outcome ReceiveError (SymmetricState × List ℕ × ℕ)
  write_x2 session_map hello ratchet_key rng = do
    let (noise, x2) = write_e c hello.noise rng.e_secret []
    let noise = mix_dh c noise rng.e_secret hello.e_remote
    (ekem1, ekem1_secret) ←
        ok_or (c.encapsulate rng.encapsulation hello.e1_public) (fault failed_auth true)
    let (noise, x2) =
        encrypt_and_hash_in_place c noise (to_nonce packet_type_handshake_response 0) (length x2)
          (x2 ++ ekem1)
    let noise = mix_key c noise ekem1_secret
    let noise = mix_key_and_hash c noise ratchet_key
    kid_recv ← gen_kid session_map rng.kids
    let (noise, x2) =
        encrypt_and_hash_in_place c noise (to_nonce packet_type_handshake_response 0) (length x2)
          (x2 ++ to_be_bytes 4 kid_recv)
    ok (noise, x2, kid_recv)

  -- The new entry of `b2_map`, and what is sent.
  unfoldable pub received_x1_trans :
      App c
      → c.KeyPair
      → List (ℕ × ℕ)
      → List ℕ
      → List ℕ
      → Answer c
      → Outcome ReceiveError (StateB2 c × Sent)
  received_x1_trans app s_secret session_map n x1 rng = do
    fail_if (not (handshake_hello_size == length x1)) (fault invalid_packet true)
    fail_if (not (bytes_eq (drop 4 n) (drop (length x1 - 8) x1))) (fault failed_auth true)
    hello ← read_x1 s_secret x1
    ratchet_state ← find_ratchet_state app hello.rf1 hello.rf2
    let (hk_send, hk_recv) = get_ask c hello.noise label_header_key
    (noise, x2, kid_recv) ← write_x2 session_map hello ratchet_state.key rng
    ok (
      record {
        ratchet_state = ratchet_state;
        kid_send = hello.kid_send;
        kid_recv = kid_recv;
        hk_send = hk_send;
        e_secret = rng.e_secret;
        noise = noise;
        defrag = hk_recv;
      },
      record {
        packet = record {
          kid = hello.kid_send;
          nonce = to_nonce packet_type_handshake_response (x2_counter x2);
          payload = x2;
        };
        hk = some hk_send;
      },
    )

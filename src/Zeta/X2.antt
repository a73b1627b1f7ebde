-- ===== src/Zeta/X2.antt =====
-- reference/src/zeta.rs: the initiator gets the second packet of a handshake and answers with the third.
use zssp.Base.{
  ℕ, ◌+◌, ◌-◌, Bool, true, false, not, ◌||◌, List, [], ◌∷◌, ◌++◌, Option, none, some, length, drop,
  replicate, ◌==◌, leb, if◌then◌else◌,
}
use zssp.Base.Bytes.{from_be_bytes}
use zssp.Crypto.Layer.{CryptoLayer}
use zssp.Noise.{
  SymmetricState, mix_key, mix_key_and_hash, encrypt_and_hash_in_place, decrypt_and_hash_in_place,
  get_ask, split,
}
use zssp.Proto.{kid_size, aes_gcm_tag_size, counter_window_max_skip_ahead}
use zssp.Proto.Handshake.{
  handshake_response_size, packet_type_handshake_response, packet_type_handshake_completion,
  ratchet_size, label_ratchet_state, label_kex_key, kyber_ciphertext_size,
}
use zssp.Ratchet.{RatchetState, CompareAndSwap, bytes_eq}
use zssp.Results.{
  Outcome, ok, err, panic, unfinished, ReceiveError, byzantine_fault, max_key_lifetime_exceeded,
  rejected, storage_error, write_error, fault, invalid_packet, failed_auth, unknown_local_key_id,
  out_of_sequence, fail_if, ok_or, ◌>>=◌, ◌>>◌,
}
use zssp.Zeta.Data.{
  App, DuplexKey, IoResult, done, failed, Packet, Settings, StateA1, Zeta, ZetaAutomata, null, s1,
  s2, a1, a3, r1, r2,
}
use zssp.Zeta.Control.{Step, stop, continue}
use zssp.Zeta.Keys.{SessionMap, key_ref, key_mut}
use zssp.Zeta.Nonce.{to_nonce, from_nonce}
use zssp.Zeta.Timers.{Randoms, timeout_trans}
use zssp.Zeta.Tokens.{read, read_e, mix_dh}
use zssp.Zeta.X1.{non_zero}

-- The session has this key id for packets that come in.
unfoldable pub same_kid : ℕ → Option ℕ → Bool
same_kid kid none = false
same_kid kid (some kid') = kid == kid'

-- `save_ratchet_state`, where the answer has to be that the update is saved.
unfoldable pub saved : IoResult Bool → Outcome ReceiveError (Unit {0})
saved (done is_saved) = fail_if (not is_saved) (fault out_of_sequence true)
saved (failed e) = err (storage_error e)

-- The ratchet key that the responder used: its number, its chain length, and whether it is the zero
-- key, with the key id of the responder and the state.
pub record Ratcheted : Type 0 where
  pub ratchet_i : ℕ
  pub chain_len : ℕ
  pub should_warn_missing_ratchet : Bool
  pub kid_send : ℕ
  pub noise : SymmetricState

unfoldable pub with_state : SymmetricState → Option ℕ → Option (ℕ × SymmetricState)
with_state noise none = none
with_state noise (some kid) = some (kid, noise)

module _ (c : CryptoLayer) where
  unfoldable pub test_ratchet_key :
      SymmetricState → List ℕ → List ℕ → List ℕ → Option (ℕ × SymmetricState)
  test_ratchet_key noise payload tag ratchet_key =
      let noise = mix_key_and_hash c noise ratchet_key in
      let (noise, kid2, is_auth) =
        decrypt_and_hash_in_place c noise (to_nonce packet_type_handshake_response 0) payload tag in
      if is_auth then with_state noise (non_zero (from_be_bytes kid2)) else none

  -- Message pattern 3.
  unfoldable pub write_x3 :
      SymmetricState → c.KeyPair → c.PublicKey → List ℕ → SymmetricState × List ℕ
  write_x3 noise s_secret e_remote identity =
      let (noise, x3) =
        encrypt_and_hash_in_place c noise (to_nonce packet_type_handshake_completion 1) 0
          (c.public_key_bytes s_secret) in
      let noise = mix_dh c noise s_secret e_remote in
      encrypt_and_hash_in_place c noise (to_nonce packet_type_handshake_completion 0) (length x3)
        (x3 ++ identity)

  -- `RatchetState::new` with the next key and fingerprint.
  unfoldable pub new_ratchet_state : SymmetricState → ℕ → RatchetState
  new_ratchet_state noise chain_len =
      let (rk, rf) = get_ask c noise label_ratchet_state in
      record { key = rk; fingerprint = rf; chain_len = chain_len + 1 }

module _ {c : CryptoLayer} where
  -- The zero key, where the application allows it.
  unfoldable pub try_zero :
      Zeta c → Bool → (List ℕ → Option (ℕ × SymmetricState)) → ℕ → Option Ratcheted
  try_zero zeta disallowed test ratchet_i =
      if disallowed then none else elim (test (replicate ratchet_size 0)) [
        | none ↦ none
        | some (kid, noise) ↦ some (record {
          ratchet_i = ratchet_i;
          chain_len = 0;
          should_warn_missing_ratchet = true;
          kid_send = kid;
          noise = noise;
        })
      ]

  -- The first key, the second key, the zero key.
  unfoldable pub find_key :
      Zeta c → Bool → (List ℕ → Option (ℕ × SymmetricState)) → Option Ratcheted
  find_key zeta disallowed test =
      let found : RatchetState → ℕ → ℕ → SymmetricState → Ratcheted = λ rs i kid noise. record {
        ratchet_i = i;
        chain_len = rs.chain_len;
        should_warn_missing_ratchet = false;
        kid_send = kid;
        noise = noise;
      } in
      elim (test zeta.ratchet_state1.key) [
        | some (kid, noise) ↦ some (found zeta.ratchet_state1 1 kid noise)
        | none ↦ elim zeta.ratchet_state2 [
          | none ↦ try_zero zeta disallowed test 2
          | some rs ↦ elim (test rs.key) [
            | some (kid, noise) ↦ some (found rs 2 kid noise)
            | none ↦ try_zero zeta disallowed test 2
          ]
        ]
      ]

  -- Message pattern 2: the ephemeral key of the responder and the ratchet key it used.
  unfoldable pub read_x2 :
      Zeta c → Bool → StateA1 c → List ℕ → Outcome ReceiveError (c.PublicKey × Ratcheted)
  read_x2 zeta disallowed a x2 = do
    (noise, e, rest) ← read_e c a.noise x2
    e_remote ← ok_or e (fault failed_auth true)
    let noise = mix_dh c noise a.e_secret e_remote
    (ekem1, rest) ← read kyber_ciphertext_size rest
    (tag, rest) ← read aes_gcm_tag_size rest
    let (noise, ekem1, is_auth) =
        decrypt_and_hash_in_place c noise (to_nonce packet_type_handshake_response 0) ekem1 tag
    fail_if (not is_auth) (fault failed_auth true)
    ekem1_secret ← ok_or (c.decapsulate a.e1_secret ekem1) (fault failed_auth true)
    let noise = mix_key c noise ekem1_secret
    (payload, rest) ← read kid_size rest
    (tag, rest) ← read aes_gcm_tag_size rest
    ratcheted ←
        ok_or (find_key zeta disallowed (test_ratchet_key c noise payload tag))
          (fault failed_auth true)
    ok (e_remote, ratcheted)

  -- The update of the storage.
  unfoldable pub x2_update : Zeta c → ℕ → RatchetState → CompareAndSwap
  x2_update zeta ratchet_i rs = record {
    new_state1 = rs;
    new_state2 = if ratchet_i == 1 then some zeta.ratchet_state1 else zeta.ratchet_state2;
    new_state1_was_just_added = true;
    cur_state1 = zeta.ratchet_state1;
    cur_state2 = zeta.ratchet_state2;
    cur_state1_was_just_deleted = ratchet_i == 2;
    cur_state2_was_just_deleted = ratchet_i == 1;
  }

  -- The session that has sent the third packet.
  unfoldable pub to_a3 :
      Settings → ℕ → Zeta c → SymmetricState → ℕ → RatchetState → List ℕ → Packet → Zeta c
  to_a3 settings time zeta noise kid_send rs identity packet =
      let (kek_recv, kek_send) = get_ask c noise label_kex_key in
      let (nk_recv, nk_send) = split c noise in
      let key : DuplexKey = record {
        send = record { kek = some kek_send; nk = some nk_send; kid = some kid_send };
        recv = record (key_ref zeta true).recv { kek = some kek_recv; nk = some nk_recv };
      } in
      record (key_mut zeta true key) {
        ratchet_state2 = some zeta.ratchet_state1;
        ratchet_state1 = rs;
        key_creation_counter = zeta.send_counter;
        resend_timer = time + settings.resend_time;
        timeout_timer = time + settings.initial_offer_timeout;
        beta = a3 identity packet;
      }

  -- The transition where the session is in state A1: the new session, the packet, and the warning.
  unfoldable pub a1_to_a3 :
      Settings
      → App c
      → c.KeyPair
      → Zeta c
      → StateA1 c
      → List ℕ
      → Outcome ReceiveError (Zeta c × Packet × Bool)
  a1_to_a3 settings app s_secret zeta a x2 = do
    (e_remote, r) ← read_x2 zeta app.initiator_disallows_downgrade a x2
    let (noise, x3) = write_x3 c r.noise s_secret e_remote a.identity
    let rs = new_ratchet_state c noise r.chain_len
    saved (app.save_ratchet_state zeta.s_remote zeta.session_data (x2_update zeta r.ratchet_i rs))
    let packet : Packet = record {
      kid = r.kid_send;
      nonce = to_nonce packet_type_handshake_completion 0;
      payload = x3;
    }
    ok (
      to_a3 settings app.time zeta noise r.kid_send rs a.identity packet,
      packet,
      r.should_warn_missing_ratchet,
    )

  -- The closure of `received_x2_trans` fails in every other state.
  unfoldable pub in_a1 :
      {A : Type 0} → ZetaAutomata c → (StateA1 c → Outcome ReceiveError A) → Outcome ReceiveError A
  in_a1 (a1 a) f = f a
  in_a1 null f = err (fault failed_auth true)
  in_a1 s1 f = err (fault failed_auth true)
  in_a1 s2 f = err (fault failed_auth true)
  in_a1 (a3 identity packet) f = err (fault failed_auth true)
  in_a1 (r1 noise e_secret k1) f = err (fault failed_auth true)
  in_a1 (r2 k2) f = err (fault failed_auth true)

  unfoldable pub x2_result :
      Settings → App c → c.KeyPair → Zeta c → List ℕ → Outcome ReceiveError (Zeta c × Packet × Bool)
  x2_result settings app s_secret zeta x2 =
      in_a1 zeta.beta (λ a. a1_to_a3 settings app s_secret zeta a x2)

  -- The tests in front of the closure.
  unfoldable pub x2_guards : Zeta c → ℕ → List ℕ → List ℕ → Outcome ReceiveError (Unit {0})
  x2_guards zeta kid n x2 = do
    fail_if (not (handshake_response_size == length x2)) (fault invalid_packet true)
    fail_if (not (same_kid kid (key_ref zeta true).recv.kid)) (fault unknown_local_key_id true)
    (packet_type, counter) ← from_nonce n
    fail_if
        (leb counter_window_max_skip_ahead counter
          || not (bytes_eq (drop 9 n) (drop (length x2 - 3) x2)))
        (fault failed_auth true)

  -- A fault after the tests is a timeout too; other errors leave the session as it is.
  unfoldable pub x2_finish :
      Settings
      → ℕ
      → c.KeyPair
      → Zeta c
      → SessionMap
      → ℕ
      → Randoms c
      → Outcome ReceiveError (Zeta c × Packet × Bool)
      → Step c ReceiveError Bool
  x2_finish settings session s_secret zeta m time rng (ok (zeta', packet, should_warn)) = record {
    zeta = zeta';
    maps = m;
    sent = record { packet = packet; hk = some zeta'.hk_send } ∷ [];
    result = ok should_warn;
  }
  x2_finish settings session s_secret zeta m time rng (err (byzantine_fault f)) =
      let t = timeout_trans false settings session s_secret zeta m time rng in
      record {
        zeta = t.zeta;
        maps = t.maps;
        sent = t.sent;
        result = t.result >>= λ _. err (byzantine_fault f);
      }
  x2_finish settings session s_secret zeta m time rng (err max_key_lifetime_exceeded) =
      stop zeta m (err max_key_lifetime_exceeded)
  x2_finish settings session s_secret zeta m time rng (err rejected) = stop zeta m (err rejected)
  x2_finish settings session s_secret zeta m time rng (err (storage_error e)) =
      stop zeta m (err (storage_error e))
  x2_finish settings session s_secret zeta m time rng (err (write_error e)) =
      stop zeta m (err (write_error e))
  x2_finish settings session s_secret zeta m time rng panic = stop zeta m panic
  x2_finish settings session s_secret zeta m time rng unfinished = stop zeta m unfinished

  unfoldable pub received_x2_trans :
      Settings
      → App c
      → ℕ
      → c.KeyPair
      → Zeta c
      → SessionMap
      → Randoms c
      → ℕ
      → List ℕ
      → List ℕ
      → Step c ReceiveError Bool
  received_x2_trans settings app session s_secret zeta m rng kid n x2 =
      continue zeta m (x2_guards zeta kid n x2) λ u.
        x2_finish settings session s_secret zeta m app.time rng
          (x2_result settings app s_secret zeta x2)

-- ===== src/Zeta/K1.antt =====
-- reference/src/zeta.rs: the first message of a rekeying.
use zssp.Base.{ℕ, ◌+◌, ◌-◌, Bool, true, false, not, List, [], ◌++◌, some, length, take, drop, ◌==◌}
use zssp.Base.Bytes.{to_be_bytes, from_be_bytes}
use zssp.Crypto.Layer.{CryptoLayer}
use zssp.Noise.{
  SymmetricState, initialize, mix_hash, mix_key_and_hash, encrypt_and_hash_in_place,
  decrypt_and_hash_in_place, get_ask, split,
}
use zssp.Proto.{kid_size, aes_gcm_tag_size}
use zssp.Proto.Handshake.{
  rekey_size, packet_type_rekey_init, packet_type_rekey_complete, protocol_name_noise_kk,
  label_kex_key,
}
use zssp.Ratchet.{RatchetState, CompareAndSwap}
use zssp.Results.{
  Outcome, ok, err, panic, unfinished, ReceiveError, byzantine_fault, max_key_lifetime_exceeded,
  rejected, storage_error, write_error, FaultType, fault, invalid_packet, failed_auth,
  unknown_local_key_id, out_of_sequence, fail_if, ok_or, unwrap, ◌>>=◌, ◌>>◌,
}
use zssp.Zeta.Data.{App, DuplexKey, Settings, Zeta, ZetaAutomata, null, s1, s2, a1, a3, r1, r2}
use zssp.Zeta.Auth.{authenticate, stop_expired}
use zssp.Zeta.Control.{Step, send_control, continue}
use zssp.Zeta.Keys.{SessionMap, key_ref, key_mut, remap}
use zssp.Zeta.Nonce.{to_nonce}
use zssp.Zeta.Tokens.{read, read_e, write_e, mix_dh}
use zssp.Zeta.X1.{non_zero}
use zssp.Zeta.X2.{same_kid, saved, new_ratchet_state}

module _ (c : CryptoLayer) where
  -- The key id at the end of a message, where zero is this fault.
  unfoldable pub read_kid :
      SymmetricState → ℕ → FaultType → List ℕ → Outcome ReceiveError (SymmetricState × ℕ)
  read_kid noise packet_type zero_kid packet = do
    (payload, rest) ← read kid_size packet
    (tag, rest) ← read aes_gcm_tag_size rest
    let (noise, kid, is_auth) =
        decrypt_and_hash_in_place c noise (to_nonce packet_type 0) payload tag
    fail_if (not is_auth) (fault failed_auth true)
    kid_send ← ok_or (non_zero (from_be_bytes kid)) (fault zero_kid true)
    ok (noise, kid_send)

  -- Message pattern 2.
  unfoldable pub write_k2 :
      SymmetricState → c.KeyPair → c.PublicKey → c.KeyPair → ℕ → SymmetricState × List ℕ
  write_k2 noise s_secret e_remote e_secret new_kid_recv =
      let (noise, k2) = write_e c noise e_secret [] in
      let noise = mix_dh c noise e_secret e_remote in
      let noise = mix_dh c noise s_secret e_remote in
      encrypt_and_hash_in_place c noise (to_nonce packet_type_rekey_complete 0) (length k2)
        (k2 ++ to_be_bytes 4 new_kid_recv)

module _ {c : CryptoLayer} where
  unfoldable pub rekeys_as_bob : ZetaAutomata c → Bool → Bool
  rekeys_as_bob s2 was_bob = true
  rekeys_as_bob (r1 noise e_secret k1) was_bob = was_bob
  rekeys_as_bob null was_bob = false
  rekeys_as_bob s1 was_bob = false
  rekeys_as_bob (a1 a) was_bob = false
  rekeys_as_bob (a3 identity packet) was_bob = false
  rekeys_as_bob (r2 k2) was_bob = false

  -- The session answers a rekeying.
  unfoldable pub should_rekey_as_bob : Zeta c → Bool
  should_rekey_as_bob zeta = rekeys_as_bob zeta.beta zeta.was_bob

  -- The tests of the first message: the session with its counter, and the message.
  unfoldable pub k1_auth : Zeta c → ℕ → List ℕ → List ℕ → Outcome ReceiveError (Zeta c × List ℕ)
  k1_auth zeta kid n k1 = do
    fail_if (not (length k1 == rekey_size)) (fault invalid_packet true)
    fail_if (not (same_kid kid (key_ref zeta false).recv.kid)) (fault unknown_local_key_id false)
    fail_if (not (should_rekey_as_bob zeta)) (fault out_of_sequence false)
    let i = length k1 - aes_gcm_tag_size
    kek ← unwrap (key_ref zeta false).recv.kek
    authenticate zeta kek n (take i k1) (drop i k1)

  -- Message pattern 1: the ephemeral key and the key id of the peer, and the state.
  unfoldable pub read_k1 :
      Zeta c → c.KeyPair → List ℕ → Outcome ReceiveError (c.PublicKey × SymmetricState × ℕ)
  read_k1 zeta s_secret k1 = do
    let noise = mix_hash c (initialize protocol_name_noise_kk) (c.to_bytes zeta.s_remote)
    let noise = mix_hash c noise (c.public_key_bytes s_secret)
    let noise = mix_key_and_hash c noise zeta.ratchet_state1.key
    (noise, e, rest) ← read_e c noise k1
    e_remote ← ok_or e (fault failed_auth true)
    let noise = mix_dh c noise s_secret e_remote
    let noise = mix_dh c noise s_secret zeta.s_remote
    (noise, kid_send) ← read_kid c noise packet_type_rekey_init failed_auth rest
    ok (e_remote, noise, kid_send)

  unfoldable pub k1_update : Zeta c → RatchetState → CompareAndSwap
  k1_update zeta rs = record {
    new_state1 = rs;
    new_state2 = some zeta.ratchet_state1;
    new_state1_was_just_added = true;
    cur_state1 = zeta.ratchet_state1;
    cur_state2 = zeta.ratchet_state2;
    cur_state1_was_just_deleted = false;
    cur_state2_was_just_deleted = true;
  }

  unfoldable pub next_ratchet_state : Zeta c → SymmetricState → RatchetState
  next_ratchet_state zeta noise = new_ratchet_state c noise zeta.ratchet_state1.chain_len

  -- The session after the first message: it has sent the second, `k2`.
  unfoldable pub to_r2 : Settings → ℕ → Zeta c → SymmetricState → ℕ → ℕ → List ℕ → Zeta c
  to_r2 settings time zeta noise kid_send new_kid_recv k2 =
      let (kek_send, kek_recv) = get_ask c noise label_kex_key in
      let (nk_send, nk_recv) = split c noise in
      let key : DuplexKey = record {
        send = record { kek = some kek_send; nk = some nk_send; kid = some kid_send };
        recv = record { kek = some kek_recv; nk = some nk_recv; kid = some new_kid_recv };
      } in
      record (key_mut zeta true key) {
        ratchet_state2 = some zeta.ratchet_state1;
        ratchet_state1 = next_ratchet_state zeta noise;
        key_creation_counter = zeta.send_counter;
        timeout_timer = time + settings.rekey_timeout;
        resend_timer = time + settings.resend_time;
        beta = r2 k2;
      }

  -- The closure of `received_k1_trans`: `remap` comes before the update of the storage.
  unfoldable pub k1_result :
      Settings
      → App c
      → ℕ
      → c.KeyPair
      → Zeta c
      → SessionMap
      → c.KeyPair
      → List ℕ
      → List ℕ
      → Step c ReceiveError (Unit {0})
  k1_result settings app session s_secret zeta m e_secret kids k1 =
      continue zeta m (read_k1 zeta s_secret k1) λ (e_remote, noise, kid_send).
        continue zeta m (remap session zeta kids m) λ (m', new_kid_recv).
          let (noise, k2) = write_k2 c noise s_secret e_remote e_secret new_kid_recv in
          let update = k1_update zeta (next_ratchet_state zeta noise) in
          continue zeta m' (saved (app.save_ratchet_state zeta.s_remote zeta.session_data update))
            λ done.
              let zeta' = to_r2 settings app.time zeta noise kid_send new_kid_recv k2 in
              let (zeta'', sent, is_sent) =
                send_control settings zeta' packet_type_rekey_complete k2 in
              record { zeta = zeta''; maps = m'; sent = sent; result = ok tt }

  -- A fault expires the session.
  unfoldable pub expire_if :
      {A : Type 0} → Step c ReceiveError A → Outcome ReceiveError A → Step c ReceiveError A
  expire_if s (err (byzantine_fault f)) = stop_expired s.zeta s.maps (err (byzantine_fault f))
  expire_if s (err max_key_lifetime_exceeded) = s
  expire_if s (err rejected) = s
  expire_if s (err (storage_error e)) = s
  expire_if s (err (write_error e)) = s
  expire_if s (ok a) = s
  expire_if s panic = s
  expire_if s unfinished = s

  unfoldable pub expire_on_fault : {A : Type 0} → Step c ReceiveError A → Step c ReceiveError A
  expire_on_fault s = expire_if s s.result

  unfoldable pub received_k1_trans :
      Settings
      → App c
      → ℕ
      → c.KeyPair
      → Zeta c
      → SessionMap
      → c.KeyPair
      → List ℕ
      → ℕ
      → List ℕ
      → List ℕ
      → Step c ReceiveError (Unit {0})
  received_k1_trans settings app session s_secret zeta m e_secret kids kid n k1 =
      continue zeta m (k1_auth zeta kid n k1) λ (zeta, k1).
        expire_on_fault (k1_result settings app session s_secret zeta m e_secret kids k1)

-- ===== src/Zeta/K2.antt =====
-- reference/src/zeta.rs: the second message of a rekeying.
use zssp.Base.{ℕ, ◌+◌, ◌-◌, Bool, true, false, not, List, [], none, some, length, take, drop, ◌==◌}
use zssp.Crypto.Layer.{CryptoLayer}
use zssp.Noise.{SymmetricState, get_ask, split}
use zssp.Proto.{aes_gcm_tag_size}
use zssp.Proto.Handshake.{
  rekey_size, packet_type_rekey_complete, packet_type_key_confirm, label_kex_key,
}
use zssp.Ratchet.{RatchetState, CompareAndSwap}
use zssp.Results.{
  Outcome, ok, panic, ReceiveError, fault, invalid_packet, failed_auth, unknown_local_key_id,
  out_of_sequence, fail_if, ok_or, unwrap, ◌>>=◌, ◌>>◌,
}
use zssp.Zeta.Data.{App, DuplexKey, Settings, Zeta, ZetaAutomata, null, s1, s2, a1, a3, r1, r2}
use zssp.Zeta.Auth.{authenticate}
use zssp.Zeta.Control.{Step, send_control, stop, continue}
use zssp.Zeta.Keys.{SessionMap, key_ref, key_mut}
use zssp.Zeta.Tokens.{read_e, mix_dh}
use zssp.Zeta.X1.{}
use zssp.Zeta.X2.{same_kid, saved}
use zssp.Zeta.K1.{read_kid, next_ratchet_state, expire_on_fault}

module _ {c : CryptoLayer} where
  unfoldable pub k2_update : Zeta c → RatchetState → CompareAndSwap
  k2_update zeta rs = record {
    new_state1 = rs;
    new_state2 = none;
    new_state1_was_just_added = true;
    cur_state1 = zeta.ratchet_state1;
    cur_state2 = zeta.ratchet_state2;
    cur_state1_was_just_deleted = true;
    cur_state2_was_just_deleted = true;
  }

  unfoldable pub is_r1 : ZetaAutomata c → Bool
  is_r1 (r1 noise e_secret k1) = true
  is_r1 null = false
  is_r1 s1 = false
  is_r1 s2 = false
  is_r1 (a1 a) = false
  is_r1 (a3 identity packet) = false
  is_r1 (r2 k2) = false

  -- The tests of the second message.
  unfoldable pub k2_auth : Zeta c → ℕ → List ℕ → List ℕ → Outcome ReceiveError (Zeta c × List ℕ)
  k2_auth zeta kid n k2 = do
    fail_if (not (length k2 == rekey_size)) (fault invalid_packet true)
    fail_if (not (same_kid kid (key_ref zeta false).recv.kid)) (fault unknown_local_key_id false)
    fail_if (not (is_r1 zeta.beta)) (fault out_of_sequence false)
    let i = length k2 - aes_gcm_tag_size
    kek ← unwrap (key_ref zeta false).recv.kek
    authenticate zeta kek n (take i k2) (drop i k2)

  -- Message pattern 2.
  unfoldable pub read_k2 :
      Zeta c → SymmetricState → c.KeyPair → List ℕ → Outcome ReceiveError (SymmetricState × ℕ)
  read_k2 zeta noise e_secret k2 = do
    (noise, e, rest) ← read_e c noise k2
    e_remote ← ok_or e (fault failed_auth true)
    let noise = mix_dh c noise e_secret e_remote
    let noise = mix_dh c noise e_secret zeta.s_remote
    read_kid c noise packet_type_rekey_complete invalid_packet rest

  -- The session after the second message.
  unfoldable pub rekeyed : Settings → ℕ → Zeta c → SymmetricState → ℕ → Zeta c
  rekeyed settings time zeta noise kid_send =
      let (kek_recv, kek_send) = get_ask c noise label_kex_key in
      let (nk_recv, nk_send) = split c noise in
      let key : DuplexKey = record {
        send = record { kek = some kek_send; nk = some nk_send; kid = some kid_send };
        recv = record (key_ref zeta true).recv { kek = some kek_recv; nk = some nk_recv };
      } in
      record (key_mut zeta true key) {
        ratchet_state1 = next_ratchet_state zeta noise;
        key_index = not zeta.key_index;
        key_creation_counter = zeta.send_counter;
        timeout_timer = time + settings.rekey_timeout;
        resend_timer = time + settings.resend_time;
        beta = s1;
      }

  -- The closure of `received_k2_trans` in state R1.
  unfoldable pub in_r1 :
      Settings
      → App c
      → Zeta c
      → SessionMap
      → List ℕ
      → SymmetricState
      → c.KeyPair
      → Step c ReceiveError (Unit {0})
  in_r1 settings app zeta m k2 noise e_secret =
      continue zeta m (read_k2 zeta noise e_secret k2) λ (noise, kid_send).
        let update = k2_update zeta (next_ratchet_state zeta noise) in
        continue zeta m (saved (app.save_ratchet_state zeta.s_remote zeta.session_data update))
          λ done.
            let zeta' = rekeyed settings app.time zeta noise kid_send in
            let (zeta'', sent, is_sent) = send_control settings zeta' packet_type_key_confirm [] in
            record { zeta = zeta''; maps = m; sent = sent; result = ok tt }

  -- In every other state it is unreachable.
  unfoldable pub k2_result :
      Settings
      → App c
      → Zeta c
      → SessionMap
      → List ℕ
      → ZetaAutomata c
      → Step c ReceiveError (Unit {0})
  k2_result settings app zeta m k2 (r1 noise e_secret k1) =
      in_r1 settings app zeta m k2 noise e_secret
  k2_result settings app zeta m k2 null = stop zeta m panic
  k2_result settings app zeta m k2 s1 = stop zeta m panic
  k2_result settings app zeta m k2 s2 = stop zeta m panic
  k2_result settings app zeta m k2 (a1 a) = stop zeta m panic
  k2_result settings app zeta m k2 (a3 identity packet) = stop zeta m panic
  k2_result settings app zeta m k2 (r2 k2') = stop zeta m panic

  unfoldable pub received_k2_trans :
      Settings → App c → Zeta c → SessionMap → ℕ → List ℕ → List ℕ → Step c ReceiveError (Unit {0})
  received_k2_trans settings app zeta m kid n k2 =
      continue zeta m (k2_auth zeta kid n k2)
        λ (zeta, k2). expire_on_fault (k2_result settings app zeta m k2 zeta.beta)

-- ===== src/Zeta/Confirm.antt =====
-- reference/src/zeta.rs: key confirmations, acknowledgements and rejections.
use zssp.Base.{
  ℕ, Bool, true, false, not, ◌&&◌, ◌||◌, List, [], none, some, length, ◌==◌, if◌then◌else◌,
}
use zssp.Crypto.Layer.{CryptoLayer}
use zssp.Proto.Handshake.{
  key_confirmation_size, acknowledgement_size, session_rejected_size, packet_type_ack,
}
use zssp.Ratchet.{CompareAndSwap}
use zssp.Results.{
  Outcome, ok, err, ReceiveError, fault, invalid_packet, unknown_local_key_id, out_of_sequence,
  storage_error, fail_if, ok_or, unwrap, ◌>>=◌, ◌>>◌,
}
use zssp.Zeta.Data.{
  App, IoResult, done, failed, Settings, Zeta, ZetaAutomata, null, s1, s2, a1, a3, r1, r2,
}
use zssp.Zeta.Auth.{authenticate, find_kid, stop_expired, to_s2}
use zssp.Zeta.Control.{Step, send_control, stop, continue}
use zssp.Zeta.Keys.{SessionMap, key_ref}
use zssp.Zeta.X2.{same_kid}

module _ {c : CryptoLayer} where
  unfoldable pub is_a3 : ZetaAutomata c → Bool
  is_a3 (a3 identity packet) = true
  is_a3 null = false
  is_a3 s1 = false
  is_a3 s2 = false
  is_a3 (a1 a) = false
  is_a3 (r1 noise e_secret k1) = false
  is_a3 (r2 k2) = false

  unfoldable pub is_r2 : ZetaAutomata c → Bool
  is_r2 (r2 k2) = true
  is_r2 null = false
  is_r2 s1 = false
  is_r2 s2 = false
  is_r2 (a1 a) = false
  is_r2 (a3 identity packet) = false
  is_r2 (r1 noise e_secret k1) = false

  unfoldable pub is_s1 : ZetaAutomata c → Bool
  is_s1 s1 = true
  is_s1 null = false
  is_s1 (r2 k2) = false
  is_s1 s2 = false
  is_s1 (a1 a) = false
  is_s1 (a3 identity packet) = false
  is_s1 (r1 noise e_secret k1) = false

  -- The second ratchet state is given up.
  unfoldable pub c1_update : Zeta c → CompareAndSwap
  c1_update zeta = record {
    new_state1 = zeta.ratchet_state1;
    new_state2 = none;
    new_state1_was_just_added = false;
    cur_state1 = zeta.ratchet_state1;
    cur_state2 = zeta.ratchet_state2;
    cur_state1_was_just_deleted = false;
    cur_state2_was_just_deleted = true;
  }

  -- The new key becomes the current one.
  unfoldable pub confirm : Settings → ℕ → ℕ → Zeta c → Outcome ReceiveError (Zeta c)
  confirm settings time r zeta =
      to_s2 settings time r (record zeta { ratchet_state2 = none; key_index = not zeta.key_index })

  -- The storage gives up the second ratchet state, if there is one.
  unfoldable pub give_up : App c → Zeta c → IoResult Bool
  give_up app zeta = elim zeta.ratchet_state2 [
    | none ↦ done true
    | some rs ↦ app.save_ratchet_state zeta.s_remote zeta.session_data (c1_update zeta)
  ]

  -- The acknowledgement.
  unfoldable pub acknowledge : Settings → Zeta c → SessionMap → Bool → Step c ReceiveError Bool
  acknowledge settings zeta m just_established =
      let (zeta', sent, is_sent) = send_control settings zeta packet_type_ack [] in
      record {
        zeta = zeta';
        maps = m;
        sent = sent;
        result = if is_sent then ok just_established else err (fault out_of_sequence true);
      }

  -- The tests: whether the packet is for the other key, and the session with its counter.
  unfoldable pub c1_auth : Zeta c → ℕ → List ℕ → List ℕ → Outcome ReceiveError (Bool × Zeta c)
  c1_auth zeta kid n c1 = do
    fail_if (not (length c1 == key_confirmation_size)) (fault invalid_packet true)
    is_other ← find_kid zeta kid
    specified_key ← ok_or (key_ref zeta is_other).recv.kek (fault out_of_sequence true)
    (zeta', plain) ← authenticate zeta specified_key n [] c1
    ok (is_other, zeta')

  unfoldable pub received_c1_trans :
      Settings → App c → ℕ → Zeta c → SessionMap → ℕ → List ℕ → List ℕ → Step c ReceiveError Bool
  received_c1_trans settings app r zeta m kid n c1 =
      continue zeta m (c1_auth zeta kid n c1) λ (is_other, zeta).
        let just_established = is_other && is_a3 zeta.beta in
        if is_other && (is_a3 zeta.beta || is_r2 zeta.beta)
        then elim (give_up app zeta) [
          | failed e ↦ stop zeta m (err (storage_error e))
          | done false ↦ stop_expired zeta m (err (fault out_of_sequence true))
          | done true ↦
              continue zeta m (confirm settings app.time r zeta)
                λ zeta. acknowledge settings zeta m just_established
        ]
        else acknowledge settings zeta m just_established

  -- The tests of an acknowledgement.
  unfoldable pub c2_auth : Zeta c → ℕ → List ℕ → List ℕ → Outcome ReceiveError (Zeta c × List ℕ)
  c2_auth zeta kid n c2 = do
    fail_if (not (length c2 == acknowledgement_size)) (fault invalid_packet true)
    fail_if (not (same_kid kid (key_ref zeta false).recv.kid)) (fault unknown_local_key_id false)
    fail_if (not (is_s1 zeta.beta)) (fault out_of_sequence false)
    kek ← unwrap (key_ref zeta false).recv.kek
    authenticate zeta kek n [] c2

  unfoldable pub received_c2_trans :
      Settings
      → App c
      → ℕ
      → Zeta c
      → SessionMap
      → ℕ
      → List ℕ
      → List ℕ
      → Step c ReceiveError (Unit {0})
  received_c2_trans settings app r zeta m kid n c2 =
      continue zeta m (c2_auth zeta kid n c2) λ (zeta, plain).
        continue zeta m (to_s2 settings app.time r zeta) λ zeta. stop zeta m (ok tt)

  -- The tests of a rejection.
  unfoldable pub d_auth : Zeta c → ℕ → List ℕ → List ℕ → Outcome ReceiveError (Zeta c × List ℕ)
  d_auth zeta kid n d = do
    fail_if (not (length d == session_rejected_size)) (fault invalid_packet true)
    fail_if (not (same_kid kid (key_ref zeta true).recv.kid) || not (is_a3 zeta.beta))
        (fault out_of_sequence true)
    kek ← unwrap (key_ref zeta true).recv.kek
    authenticate zeta kek n [] d

  unfoldable pub received_d_trans :
      Zeta c → SessionMap → ℕ → List ℕ → List ℕ → Step c ReceiveError (Unit {0})
  received_d_trans zeta m kid n d =
      continue zeta m (d_auth zeta kid n d) λ (zeta, plain). stop_expired zeta m (ok tt)

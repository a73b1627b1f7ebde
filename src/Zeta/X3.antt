-- ===== src/Zeta/X3.antt =====
-- reference/src/zeta.rs: the responder gets the third packet of a handshake and makes the session.
use zssp.Base.{
  ℕ, ◌+◌, ◌-◌, Bool, true, false, not, ◌||◌, ◌&&◌, List, [], ◌∷◌, Option, none, some, length,
  replicate, ◌==◌, leb, if◌then◌else◌,
}
use zssp.Crypto.Layer.{CryptoLayer}
use zssp.Noise.{SymmetricState, decrypt_and_hash_in_place, get_ask, split}
use zssp.Proto.{aes_gcm_tag_size, counter_window_max_ooo}
use zssp.Proto.Handshake.{
  handshake_completion_min_size, handshake_completion_max_size, packet_type_handshake_completion,
  packet_type_key_confirm, packet_type_session_rejected, label_kex_key, p384_public_key_size,
}
use zssp.Ratchet.{
  RatchetState, RatchetStates, CompareAndSwap, eq, eq_option, is_empty, new_initial_states,
}
use zssp.Results.{
  Outcome, ok, err, panic, unfinished, ReceiveError, storage_error, fault, invalid_packet,
  failed_auth, unknown_local_key_id, out_of_sequence, fail_if, ok_or, ◌>>=◌, ◌>>◌,
}
use zssp.Zeta.Data.{App, IoResult, done, failed, Sent, Settings, StateB2, Zeta, s1, no_key}
use zssp.Zeta.Keys.{SessionMap, contains_key}
use zssp.Zeta.Nonce.{to_nonce}
use zssp.Zeta.Tokens.{read, mix_dh}
use zssp.Zeta.X2.{saved, new_ratchet_state}

-- `unwrap_or_default` of what is stored for a peer.
unfoldable pub restored : IoResult (Option RatchetStates) → Outcome ReceiveError RatchetStates
restored (done none) = ok new_initial_states
restored (done (some states)) = ok states
restored (failed e) = err (storage_error e)

-- The peer has another ratchet state than the storage.
unfoldable pub is_mismatch : RatchetState → RatchetStates → Bool
is_mismatch rs states = not (eq rs states.state1) && not (eq_option (some rs) states.state2)

unfoldable pub x3_update : RatchetState → RatchetStates → CompareAndSwap
x3_update rs states = record {
  new_state1 = rs;
  new_state2 = none;
  new_state1_was_just_added = true;
  cur_state1 = states.state1;
  cur_state2 = states.state2;
  cur_state1_was_just_deleted = true;
  cur_state2_was_just_deleted = true;
}

-- A new session, or none with the error, the maps, and what is sent.
pub record Accepted (c : CryptoLayer) : Type 0 where
  pub maps : SessionMap
  pub sent : List Sent
  pub result : Outcome ReceiveError (Zeta c × Bool)

module _ {c : CryptoLayer} where
  -- Message pattern 3: the static key of the peer, its identity, and the state.
  unfoldable pub read_x3 :
      StateB2 c → List ℕ → Outcome ReceiveError (c.PublicKey × List ℕ × SymmetricState)
  read_x3 b x3 = do
    (s, rest) ← read p384_public_key_size x3
    (tag, rest) ← read aes_gcm_tag_size rest
    let (noise, s, is_auth) =
        decrypt_and_hash_in_place c b.noise (to_nonce packet_type_handshake_completion 1) s tag
    fail_if (not is_auth) (fault failed_auth true)
    s_remote ← ok_or (c.from_bytes s) (fault failed_auth true)
    let noise = mix_dh c noise b.e_secret s_remote
    (payload, tag) ← read (length rest - aes_gcm_tag_size) rest
    let (noise, identity, is_auth) =
        decrypt_and_hash_in_place c noise (to_nonce packet_type_handshake_completion 0) payload tag
    fail_if (not is_auth) (fault failed_auth true)
    ok (s_remote, identity, noise)

  -- A packet of this type, with nothing but a tag.
  unfoldable pub sealed_empty : StateB2 c → ℕ → List ℕ → Sent
  sealed_empty b packet_type kek_send =
      let nonce = to_nonce packet_type 0 in
      record {
        packet = record {
          kid = b.kid_send;
          nonce = nonce;
          payload = (c.aead_encrypt kek_send nonce none []).1;
        };
        hk = some b.hk_send;
      }

  -- The session that is made.
  unfoldable pub b2_to_s1 :
      Settings → ℕ → StateB2 c → ℕ → c.PublicKey → RatchetState → SymmetricState → Zeta c
  b2_to_s1 settings time b session_data s_remote rs noise =
      let (kek_send, kek_recv) = get_ask c noise label_kex_key in
      let (nk1, nk2) = split c noise in
      record {
        session_data = session_data;
        was_bob = true;
        s_remote = s_remote;
        send_counter = 1;
        key_creation_counter = 1;
        key_index = false;
        key0 = record {
          send = record { kek = some kek_send; nk = some nk1; kid = some b.kid_send };
          recv = record { kek = some kek_recv; nk = some nk2; kid = some b.kid_recv };
        };
        key1 = no_key;
        ratchet_state1 = rs;
        ratchet_state2 = none;
        hk_send = b.hk_send;
        resend_timer = time + settings.resend_time;
        timeout_timer = time + settings.rekey_timeout;
        beta = s1;
        counter_antireplay_window = replicate counter_window_max_ooo 0;
        defrag = b.defrag;
      }

  -- The last steps, where the ratchet states agree or a downgrade is allowed.
  unfoldable pub x3_save :
      Settings
      → App c
      → SessionMap
      → StateB2 c
      → ℕ
      → c.PublicKey
      → RatchetStates
      → SymmetricState
      → Outcome ReceiveError (Zeta c)
  x3_save settings app m b session_data s_remote states noise = do
    let rs = new_ratchet_state c noise b.ratchet_state.chain_len
    saved (app.save_ratchet_state s_remote session_data (x3_update rs states))
    fail_if (contains_key m.session_map b.kid_recv) (fault out_of_sequence false)
    ok (b2_to_s1 settings app.time b session_data s_remote rs noise)

  -- The guards and message pattern 3.
  unfoldable pub x3_identity :
      StateB2 c → ℕ → List ℕ → Outcome ReceiveError (c.PublicKey × List ℕ × SymmetricState)
  x3_identity b kid x3 = do
    fail_if
        (not (
          leb handshake_completion_min_size (length x3)
          && leb (length x3) handshake_completion_max_size))
        (fault invalid_packet true)
    fail_if (not (kid == b.kid_recv)) (fault unknown_local_key_id true)
    read_x3 b x3

  -- `none` where the peer is rejected.
  unfoldable pub x3_known :
      Settings
      → App c
      → SessionMap
      → StateB2 c
      → c.PublicKey
      → SymmetricState
      → Bool
      → ℕ
      → Outcome ReceiveError (Option (Zeta c × Bool))
  x3_known settings app m b s_remote noise disallows session_data = do
    states ← restored (app.restore_by_identity s_remote session_data)
    let mismatch = is_mismatch b.ratchet_state states
    if mismatch && (disallows || not (is_empty b.ratchet_state)) then ok none else do
      zeta ← x3_save settings app m b session_data s_remote states noise
      ok (some (zeta, mismatch))

  unfoldable pub x3_peer :
      Settings
      → App c
      → SessionMap
      → StateB2 c
      → c.PublicKey
      → SymmetricState
      → Bool
      → Option ℕ
      → Outcome ReceiveError (Option (Zeta c × Bool))
  x3_peer settings app m b s_remote noise disallows none = ok none
  x3_peer settings app m b s_remote noise disallows (some session_data) =
      x3_known settings app m b s_remote noise disallows session_data

  unfoldable pub x3_accept :
      Settings
      → App c
      → SessionMap
      → StateB2 c
      → c.PublicKey
      → List ℕ
      → SymmetricState
      → Outcome ReceiveError (Option (Zeta c × Bool))
  x3_accept settings app m b s_remote identity noise =
      let action = app.check_accept_session s_remote identity in
      x3_peer settings app m b s_remote noise action.responder_disallows_downgrade
        action.session_data

  unfoldable pub refuse : SessionMap → Outcome ReceiveError (Zeta c × Bool) → Accepted c
  refuse m r = record { maps = m; sent = []; result = r }

  -- `session` is the new object. The packet of a rejection or a confirmation has counter 0.
  unfoldable pub x3_finish :
      App c
      → SessionMap
      → ℕ
      → StateB2 c
      → c.PublicKey
      → List ℕ
      → List ℕ
      → Outcome ReceiveError (Option (Zeta c × Bool))
      → Accepted c
  x3_finish app m session b s_remote identity kek_send (err e) = refuse m (err e)
  x3_finish app m session b s_remote identity kek_send panic = refuse m panic
  x3_finish app m session b s_remote identity kek_send unfinished = refuse m unfinished
  x3_finish app m session b s_remote identity kek_send (ok none) = record {
    maps = m;
    sent =
        if (app.check_accept_session s_remote identity).responder_silently_rejects
        then []
        else sealed_empty b packet_type_session_rejected kek_send ∷ [];
    result = err (fault failed_auth true);
  }
  x3_finish app m session b s_remote identity kek_send (ok (some (zeta, should_warn))) = record {
    maps = record {
      session_map = (b.kid_recv, session) ∷ m.session_map;
      sessions = session ∷ m.sessions;
    };
    sent = sealed_empty b packet_type_key_confirm kek_send ∷ [];
    result = ok (zeta, should_warn);
  }

  unfoldable pub x3_in :
      Settings
      → App c
      → SessionMap
      → ℕ
      → StateB2 c
      → Outcome ReceiveError (c.PublicKey × List ℕ × SymmetricState)
      → Accepted c
  x3_in settings app m session b (err e) = refuse m (err e)
  x3_in settings app m session b panic = refuse m panic
  x3_in settings app m session b unfinished = refuse m unfinished
  x3_in settings app m session b (ok (s_remote, identity, noise)) =
      x3_finish app m session b s_remote identity (get_ask c noise label_kex_key).0
        (x3_accept settings app m b s_remote identity noise)

  unfoldable pub received_x3_trans :
      Settings → App c → SessionMap → ℕ → StateB2 c → ℕ → List ℕ → Accepted c
  received_x3_trans settings app m session b kid x3 =
      x3_in settings app m session b (x3_identity b kid x3)

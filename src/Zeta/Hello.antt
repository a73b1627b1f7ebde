-- ===== src/Zeta/Hello.antt =====
-- reference/src/zeta.rs: the initiator offers a session. The key pairs, the key id and the proof of
-- work of the empty response are what the random generator gives.
use zssp.Base.{
  ℕ, ◌+◌, ◌-◌, true, false, List, ◌∷◌, ◌++◌, Option, none, some, length, take, drop, replicate, ltb,
  if◌then◌else◌,
}
use zssp.Base.Bytes.{to_be_bytes, from_be_bytes}
use zssp.Challenge.{gen_null_response, respond_to_challenge_in_place}
use zssp.Crypto.Layer.{CryptoLayer}
use zssp.Noise.{initialize, mix_hash, encrypt_and_hash_in_place, get_ask}
use zssp.Proto.{challenge_size, counter_window_max_ooo}
use zssp.Proto.Handshake.{
  packet_type_handshake_hello, ratchet_size, protocol_name_noise_xk, label_header_key,
}
use zssp.Ratchet.{RatchetState, RatchetStates, new_initial_states}
use zssp.Results.{Outcome, ok, err, panic, unfinished, ReceiveError, ◌>>=◌}
use zssp.Zeta.Data.{
  App, IoResult, done, failed, Sent, Settings, StateA1, Zeta, ZetaAutomata, null, a1, a3, s1, s2,
  r1, r2, no_key, no_keys,
}
use zssp.Zeta.Keys.{SessionMap, gen_kid}
use zssp.Zeta.Nonce.{to_nonce}
use zssp.Zeta.Tokens.{write_e, mix_dh}

pub data OpenError : Type 0 where
  identity_too_large : OpenError
  storage_error : ℕ → OpenError

-- What the random generator gives for one offer.
pub record Offer (c : CryptoLayer) : Type 0 where
  pub e_secret : c.KeyPair
  pub e1_secret : c.Kem
  pub pow : ℕ

-- The fingerprint of the second ratchet state, or zeros.
unfoldable pub fingerprint_or_zero : Option RatchetState → List ℕ
fingerprint_or_zero none = replicate ratchet_size 0
fingerprint_or_zero (some rs) = rs.fingerprint

-- `unwrap_or_default` of what is stored for the peer.
unfoldable pub stored_states : IoResult (Option RatchetStates) → Outcome OpenError RatchetStates
stored_states (done none) = ok new_initial_states
stored_states (done (some states)) = ok states
stored_states (failed e) = err (storage_error e)

module _ (c : CryptoLayer) where
  unfoldable pub create_a1_state :
      Offer c → c.PublicKey → ℕ → RatchetState → Option RatchetState → List ℕ → StateA1 c
  create_a1_state rng s_remote kid_recv ratchet_state1 ratchet_state2 identity =
      let kid = to_be_bytes 4 kid_recv in
      let noise =
        mix_hash c (mix_hash c (initialize protocol_name_noise_xk) kid) (c.to_bytes s_remote) in
      let (noise, x1) = write_e c noise rng.e_secret kid in
      let noise = mix_dh c noise rng.e_secret s_remote in
      let (noise, x1) =
        encrypt_and_hash_in_place c noise (to_nonce packet_type_handshake_hello 0) (length x1)
          (x1 ++ c.kem_public rng.e1_secret) in
      let (noise, x1) =
        encrypt_and_hash_in_place c noise (to_nonce packet_type_handshake_hello 1) (length x1)
          (x1 ++ (ratchet_state1.fingerprint ++ fingerprint_or_zero ratchet_state2)) in
      let counter = from_be_bytes (drop (length x1 - 8) x1) in
      record {
        noise = noise;
        e_secret = rng.e_secret;
        e1_secret = rng.e1_secret;
        identity = identity;
        packet = record {
          kid = 0;
          nonce = to_nonce packet_type_handshake_hello counter;
          payload = x1 ++ gen_null_response c.sha (to_be_bytes 8) rng.pow;
        };
      }

  -- The session that has sent this offer.
  unfoldable pub offered_zeta :
      Settings → ℕ → c.PublicKey → ℕ → RatchetStates → ℕ → StateA1 c → Zeta c
  offered_zeta settings time s_remote session_data stored kid_recv a =
      let (hk_recv, hk_send) = get_ask c a.noise label_header_key in
      record {
        session_data = session_data;
        was_bob = false;
        s_remote = s_remote;
        send_counter = 0;
        key_creation_counter = 0;
        counter_antireplay_window = replicate counter_window_max_ooo 0;
        defrag = hk_recv;
        key_index = true;
        key0 = record no_key { recv = record no_keys { kid = some kid_recv } };
        key1 = no_key;
        ratchet_state1 = stored.state1;
        ratchet_state2 = stored.state2;
        hk_send = hk_send;
        resend_timer = time + settings.resend_time;
        timeout_timer = time + settings.initial_offer_timeout;
        beta = a1 a;
      }

  -- The session, the maps with its key id and its object `session`, and what is sent.
  unfoldable pub trans_to_a1 :
      Settings
      → App c
      → SessionMap
      → ℕ
      → c.PublicKey
      → ℕ
      → List ℕ
      → List ℕ
      → Offer c
      → Outcome OpenError (Zeta c × SessionMap × Sent)
  trans_to_a1 settings app m session s_remote session_data identity kids rng = do
    stored ← stored_states (app.restore_by_identity s_remote session_data)
    kid_recv ← gen_kid m.session_map kids
    let a = create_a1_state rng s_remote kid_recv stored.state1 stored.state2 identity
    ok (
      offered_zeta settings app.time s_remote session_data stored kid_recv a,
      record { session_map = (kid_recv, session) ∷ m.session_map; sessions = session ∷ m.sessions },
      record { packet = a.packet; hk = none },
    )

  unfoldable pub with_response :
      Zeta c → StateA1 c → List ℕ → Option (List ℕ) → Outcome ReceiveError (Zeta c)
  with_response zeta a kept none = unfinished
  with_response zeta a kept (some response) = ok (record zeta {
    beta = a1 (record a { packet = record a.packet { payload = kept ++ response } });
  })

  -- The answer stands in the last 32 bytes of the hello. `unfinished` when the search runs out of fuel.
  unfoldable pub respond_in :
      ℕ → ℕ → Zeta c → List ℕ → ZetaAutomata c → Outcome ReceiveError (Zeta c)
  respond_in fuel pow zeta challenge (a1 a) =
      let x1 = a.packet.payload in
      let response_start = length x1 - challenge_size in
      if ltb (length x1) challenge_size
      then panic
      else with_response zeta a (take response_start x1) (
          respond_to_challenge_in_place c.sha (to_be_bytes 8) fuel pow challenge
            (drop response_start x1))
  respond_in fuel pow zeta challenge null = ok zeta
  respond_in fuel pow zeta challenge (a3 identity packet) = ok zeta
  respond_in fuel pow zeta challenge s1 = ok zeta
  respond_in fuel pow zeta challenge s2 = ok zeta
  respond_in fuel pow zeta challenge (r1 noise e_secret k1) = ok zeta
  respond_in fuel pow zeta challenge (r2 k2) = ok zeta

  unfoldable pub respond_to_challenge : ℕ → ℕ → Zeta c → List ℕ → Outcome ReceiveError (Zeta c)
  respond_to_challenge fuel pow zeta challenge = respond_in fuel pow zeta challenge zeta.beta

-- ===== src/Zeta/Agree/Open.antt =====
-- reference/src/zeta.rs: a session from its opening to the end of the handshake.
use zssp.Base.{ℕ, ◌<◌, ◌≤◌, ◌≡◌, refl, true, false, List, ◌∷◌, Option, none, some, length, u32_mod}
use zssp.Crypto.Layer.{CryptoLayer, IsLawful}
use zssp.Proto.Handshake.{identity_max_size}
use zssp.Ratchet.{RatchetStates, CompareAndSwap, eq, empty}
use zssp.Results.{ok, ReceiveError}
use zssp.Zeta.Data.{App, done, Sent, Settings, Zeta}
use zssp.Zeta.Hello.{
  Offer, OpenError, create_a1_state, fingerprint_or_zero, offered_zeta, stored_states, trans_to_a1,
}
use zssp.Zeta.Keys.{SessionMap, contains_key, gen_kid, key_ref}
use zssp.Zeta.Timers.{Randoms}
use zssp.Zeta.X1.{Answer, find_ratchet_state}
use zssp.Zeta.Agree.Handshake.{without_response}
use zssp.Zeta.Agree.Keys.{IsOffering, Completes, handshake_Established}

-- The ratchet states of a peer: what the storage has, or an empty state alone.
abbrev pub known_states : Option RatchetStates → RatchetStates
known_states none = record { state1 = empty; state2 = none }
known_states (some states) = states

stored_states-known :
    (stored : Option RatchetStates) → stored_states (done stored) ≡ ok (known_states stored)
unfolding stored_states
stored_states-known none = refl
stored_states-known (some states) = refl

module _ (c : CryptoLayer) (lawful : IsLawful c) where
  offered_zeta-IsOffering :
      (settings : Settings) (time : ℕ) (s : c.KeyPair) (session_data : ℕ) (st : RatchetStates)
      (kid : ℕ) (offer : Offer c) (identity : List ℕ)
      → IsOffering c lawful
          (offered_zeta c settings time
            (lawful.public_key s)
            session_data
            st
            kid
            (create_a1_state c offer (lawful.public_key s) kid st.state1 st.state2 identity))
          offer
          s
          kid
          identity
  unfolding offered_zeta key_ref
  offered_zeta-IsOffering settings time s session_data st kid offer identity = record {
    state = refl;
    own_kid = refl;
    header_keys = refl;
  }

  module _ (settings : Settings) (app_a app_b : App c) (m m' m'' : SessionMap)
      (session session' : ℕ) (offer : Offer c) (s s' : c.KeyPair) (kid kid' : ℕ)
      (identity kids : List ℕ) (rng : Answer c) (randoms : Randoms c) (data_a data_b : ℕ)
      (stored : Option RatchetStates) (states : RatchetStates) where
    -- The opening succeeds, with these ratchet states, and the handshake on what it sent completes.
    pub record Opens (st : RatchetStates) : Type 0 where
      pub zeta : Zeta c
      pub maps : SessionMap
      pub sent : Sent
      pub opens :
          trans_to_a1 c settings app_a m session (lawful.public_key s') data_a identity kids offer
          ≡ ok (zeta, maps, sent)
      pub ratchet1 : zeta.ratchet_state1 ≡ st.state1
      pub ratchet2 : zeta.ratchet_state2 ≡ st.state2
      pub completes :
          Completes c lawful settings app_a app_b maps m' m'' session session' zeta offer s s' kid
            kid' identity rng randoms data_b states sent.packet.nonce
            (without_response sent.packet.payload)

    -- A session is opened with the ratchet states that the storage has for the peer, or with the
    -- initial ones where it has none, and the handshake on the offer that the opening sends
    -- completes: the three transitions succeed and the two sessions are established with each
    -- other. The primitives follow their laws, the key ids fit 32 bits and are not zero, that of
    -- the initiator is what the search finds and that of the responder is free to the end, the
    -- fingerprints have 32 bytes and the identity at most 4096, the applications save what they
    -- are asked to and accept the peer, and the responder finds the first ratchet state of the
    -- initiator, under this peer too.
    pub trans_to_a1-Opens :
        app_a.restore_by_identity (lawful.public_key s') data_a ≡ done stored
        → gen_kid {E = OpenError} m.session_map kids ≡ ok kid
        → 0 < kid
        → kid < u32_mod
        → 0 < kid'
        → kid' < u32_mod
        → length (known_states stored).state1.fingerprint ≡ 32
        → length (fingerprint_or_zero (known_states stored).state2) ≡ 32
        → length identity ≤ identity_max_size
        → find_ratchet_state c app_b
            (known_states stored).state1.fingerprint
            (fingerprint_or_zero (known_states stored).state2)
          ≡ ok (known_states stored).state1
        → gen_kid {E = ReceiveError} m'.session_map rng.kids ≡ ok kid'
        → ((u : CompareAndSwap)
            → app_a.save_ratchet_state (lawful.public_key s') data_a u ≡ done true)
        → (app_b.check_accept_session (lawful.public_key s) identity).session_data ≡ some data_b
        → app_b.restore_by_identity (lawful.public_key s) data_b ≡ done (some states)
        → eq (known_states stored).state1 states.state1 ≡ true
        → ((u : CompareAndSwap)
            → app_b.save_ratchet_state (lawful.public_key s) data_b u ≡ done true)
        → contains_key m''.session_map kid' ≡ false
        → Opens (known_states stored)
    unfolding trans_to_a1 offered_zeta
    trans_to_a1-Opens answer found pos small pos' small' size1 size2 short known kids' stored_a
          accepted restored same stored_b free =
        let st = known_states stored in
        let a = create_a1_state c offer (lawful.public_key s') kid st.state1 st.state2 identity in
        let zeta = offered_zeta c settings app_a.time (lawful.public_key s') data_a st kid a in
        let maps : SessionMap = record {
          session_map = (kid, session) ∷ m.session_map;
          sessions = session ∷ m.sessions;
        } in
        record {
          zeta = zeta;
          maps = maps;
          sent = record { packet = a.packet; hk = none };
          opens = rw (answer, stored_states-known stored, found, trans_to_a1) refl;
          ratchet1 = refl;
          ratchet2 = refl;
          completes =
              handshake_Established c lawful settings app_a app_b maps m' m'' session session' zeta
                offer s s' kid kid' identity rng randoms data_b states
                (offered_zeta-IsOffering settings app_a.time s' data_a st kid offer identity) pos
                small pos' small' size1 size2 short known kids' stored_a accepted restored same
                stored_b free;
        }

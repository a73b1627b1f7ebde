-- ===== src/Zeta/Agree/Keys.antt =====
-- A whole handshake: both sides end with the same keys, crossed.
use zssp.Base.{
  ℕ, ◌<◌, ◌≤◌, ◌≡◌, refl, sym, ap, ◌∙◌, true, false, List, [], ◌∷◌, Option, some, length, u32_mod,
  arith,
}
use zssp.Crypto.Layer.{CryptoLayer, IsLawful}
use zssp.Noise.{SymmetricState, get_ask, split}
use zssp.Proto.Handshake.{label_header_key, label_kex_key, identity_max_size}
use zssp.Ratchet.{RatchetState, RatchetStates, CompareAndSwap, eq}
use zssp.Results.{ok, ReceiveError}
use zssp.Zeta.Data.{App, DuplexKey, Packet, Sent, Settings, StateB2, Zeta, a1, done}
use zssp.Zeta.Hello.{Offer, create_a1_state, fingerprint_or_zero}
use zssp.Zeta.Keys.{SessionMap, contains_key, gen_kid, key_ref, key_mut}
use zssp.Zeta.Timers.{Randoms}
use zssp.Zeta.X1.{Answer, received_x1_trans, find_ratchet_state}
use zssp.Zeta.X2.{received_x2_trans, to_a3, new_ratchet_state}
use zssp.Zeta.X3.{received_x3_trans, b2_to_s1}
use zssp.Zeta.Agree.Answer.{answer_blocks}
use zssp.Zeta.Agree.Completion.{completion_blocks}
use zssp.Zeta.Nonce.{to_nonce}
use zssp.Zeta.Agree.Handshake.{
  b2_of, packet2_of, without_response, received_x1_trans-create_a1_state,
  received_x2_trans-answer_blocks, received_x3_trans-completion_blocks,
}

-- What one side sends with, the other receives with.
pub record Matched (k k' : DuplexKey) : Type 0 where
  pub kek1 : List ℕ
  pub kek2 : List ℕ
  pub nk1 : List ℕ
  pub nk2 : List ℕ
  pub kid1 : ℕ
  pub kid2 : ℕ
  pub this : k ≡ record {
    send = record { kek = some kek1; nk = some nk1; kid = some kid1 };
    recv = record { kek = some kek2; nk = some nk2; kid = some kid2 };
  }
  pub that : k' ≡ record {
    send = record { kek = some kek2; nk = some nk2; kid = some kid2 };
    recv = record { kek = some kek1; nk = some nk1; kid = some kid1 };
  }

module _ (c : CryptoLayer) (lawful : IsLawful c) where
  -- The session has sent this offer to the owner of the key pair `s` and awaits the answer.
  pub record IsOffering (zeta : Zeta c) (offer : Offer c) (s : c.KeyPair) (kid : ℕ)
      (identity : List ℕ) : Type 0 where
    pub state :
        zeta.beta
        ≡ a1 (
            create_a1_state c offer
              (lawful.public_key s)
              kid
              zeta.ratchet_state1
              zeta.ratchet_state2
              identity)
    pub own_kid : (key_ref zeta true).recv.kid ≡ some kid
    pub header_keys :
        get_ask c
          (create_a1_state c offer
            (lawful.public_key s)
            kid
            zeta.ratchet_state1
            zeta.ratchet_state2
            identity).noise
          label_header_key
        ≡ (zeta.defrag, zeta.hk_send)

  -- Two sessions that can talk: their keys, their ratchet states and their header keys match.
  pub record Established (zeta zeta' : Zeta c) : Type 0 where
    pub keys : Matched (key_ref zeta true) (key_ref zeta' false)
    pub ratchets : zeta.ratchet_state1 ≡ zeta'.ratchet_state1
    pub there : zeta.hk_send ≡ zeta'.defrag
    pub back : zeta'.hk_send ≡ zeta.defrag

  key_ref-to_a3 :
      (settings : Settings) (time : ℕ) (zeta : Zeta c) (noise : SymmetricState) (kid : ℕ)
      (rs : RatchetState) (identity : List ℕ) (packet : Packet)
      → key_ref (to_a3 settings time zeta noise kid rs identity packet) true ≡ record {
        send = record {
          kek = some (get_ask c noise label_kex_key).1;
          nk = some (split c noise).1;
          kid = some kid;
        };
        recv = record (key_ref zeta true).recv {
          kek = some (get_ask c noise label_kex_key).0;
          nk = some (split c noise).0;
        };
      }
  unfolding key_ref key_mut to_a3
  key_ref-to_a3 settings time zeta noise kid rs identity packet = ground arith

  header_keys-to_a3 :
      (settings : Settings) (time : ℕ) (zeta : Zeta c) (noise : SymmetricState) (kid : ℕ)
      (rs : RatchetState) (identity : List ℕ) (packet : Packet)
      → let zeta' = to_a3 settings time zeta noise kid rs identity packet in
        (zeta'.hk_send ≡ zeta.hk_send) × (zeta'.defrag ≡ zeta.defrag) × (zeta'.ratchet_state1 ≡ rs)
  unfolding key_mut to_a3
  header_keys-to_a3 settings time zeta noise kid rs identity packet =
      (ground arith, ground arith, refl)

  module _ (settings : Settings) (app_a app_b : App c) (m m' m'' : SessionMap)
      (session session' : ℕ) (zeta : Zeta c) (offer : Offer c) (s s' : c.KeyPair) (kid kid' : ℕ)
      (identity : List ℕ) (rng : Answer c) (randoms : Randoms c) (session_data : ℕ)
      (states : RatchetStates) where
    -- The three transitions, each on the packet that the one before has sent, succeed and lead to sessions
    -- that are established with each other, the first with `s`, the second with `s'` as its static key.
    pub record Completes (n x1 : List ℕ) : Type 0 where
      pub b2 : StateB2 c
      pub packet2 : Packet
      pub packet3 : Packet
      pub zeta_a : Zeta c
      pub zeta_b : Zeta c
      pub hk : Option (List ℕ)
      pub hk' : Option (List ℕ)
      pub sent : List Sent
      pub answers :
          received_x1_trans c app_b s' m'.session_map n x1 rng
          ≡ ok (b2, record { packet = packet2; hk = hk })
      pub completes :
          received_x2_trans settings app_a session s zeta m randoms kid packet2.nonce
            packet2.payload
          ≡ record {
            zeta = zeta_a;
            maps = m;
            sent = record { packet = packet3; hk = hk' } ∷ [];
            result = ok false;
          }
      pub accepts : received_x3_trans settings app_b m'' session' b2 kid' packet3.payload ≡ record {
        maps = record {
          session_map = (kid', session') ∷ m''.session_map;
          sessions = session' ∷ m''.sessions;
        };
        sent = sent;
        result = ok (zeta_b, false);
      }
      pub established : Established zeta_a zeta_b

    pub handshake_Established :
        IsOffering zeta offer s' kid identity
        → 0 < kid
        → kid < u32_mod
        → 0 < kid'
        → kid' < u32_mod
        → length zeta.ratchet_state1.fingerprint ≡ 32
        → length (fingerprint_or_zero zeta.ratchet_state2) ≡ 32
        → length identity ≤ identity_max_size
        → find_ratchet_state c app_b zeta.ratchet_state1.fingerprint
            (fingerprint_or_zero zeta.ratchet_state2)
          ≡ ok zeta.ratchet_state1
        → gen_kid {E = ReceiveError} m'.session_map rng.kids ≡ ok kid'
        → ((u : CompareAndSwap)
            → app_a.save_ratchet_state zeta.s_remote zeta.session_data u ≡ done true)
        → (app_b.check_accept_session (lawful.public_key s) identity).session_data
          ≡ some session_data
        → app_b.restore_by_identity (lawful.public_key s) session_data ≡ done (some states)
        → eq zeta.ratchet_state1 states.state1 ≡ true
        → ((u : CompareAndSwap)
            → app_b.save_ratchet_state (lawful.public_key s) session_data u ≡ done true)
        → contains_key m''.session_map kid' ≡ false
        → let packet =
            (create_a1_state c offer
              (lawful.public_key s')
              kid
              zeta.ratchet_state1
              zeta.ratchet_state2
              identity).packet in
          Completes packet.nonce (without_response packet.payload)
    unfolding create_a1_state b2_to_s1 key_ref
    handshake_Established offering pos small pos' small' size1 size2 short known kids stored_a
          accepted restored same stored_b free =
        let a =
          create_a1_state c offer (lawful.public_key s') kid zeta.ratchet_state1 zeta.ratchet_state2
            identity in
        let (ekem1, secret, size, decaps, l, answers) =
          received_x1_trans-create_a1_state c lawful app_b s' m'.session_map offer kid kid'
            zeta.ratchet_state1 zeta.ratchet_state2 identity rng zeta.ratchet_state1 pos small size1
            size2 known kids in
        let (l3, completes) =
          received_x2_trans-answer_blocks c lawful settings app_a session s zeta a m randoms kid
            kid' rng.e_secret ekem1 secret pos' small' offering.state offering.own_kid stored_a size
            decaps l in
        let b2 =
          b2_of c lawful a.noise (lawful.public_key offer.e_secret) kid kid' zeta.ratchet_state1
            rng.e_secret l in
        let accepts =
          received_x3_trans-completion_blocks c lawful settings app_b m'' session' b2 s identity
            session_data states short accepted restored same stored_b free l3 in
        let rs = new_ratchet_state c l3.noise2 zeta.ratchet_state1.chain_len in
        let packet3 : Packet = record {
          kid = kid';
          nonce = to_nonce 2 0;
          payload = completion_blocks c lawful l3;
        } in
        let (hk_send, defrag, ratchet) =
          header_keys-to_a3 settings app_a.time zeta l3.noise2 kid' rs identity packet3 in
        let ask = get_ask c l3.noise2 label_kex_key in
        record {
          b2 = b2;
          packet2 = packet2_of c lawful kid (answer_blocks c lawful l);
          packet3 = packet3;
          zeta_a = to_a3 settings app_a.time zeta l3.noise2 kid' rs identity packet3;
          zeta_b = b2_to_s1 settings app_b.time b2 session_data (lawful.public_key s) rs l3.noise2;
          hk = _;
          hk' = _;
          sent = _;
          answers = answers;
          completes = completes;
          accepts = accepts;
          established = record {
            keys = record {
              kek1 = ask.1;
              kek2 = ask.0;
              nk1 = (split c l3.noise2).1;
              nk2 = (split c l3.noise2).0;
              kid1 = kid';
              kid2 = kid;
              this =
                  rw
                    (
                      key_ref-to_a3 settings app_a.time zeta l3.noise2 kid' rs identity packet3,
                      offering.own_kid,
                    )
                    refl;
              that = refl;
            };
            ratchets = ratchet;
            there = hk_send ∙ sym (ap (λ k. k.1) offering.header_keys);
            back = ap (λ k. k.0) offering.header_keys ∙ sym defrag;
          };
        }

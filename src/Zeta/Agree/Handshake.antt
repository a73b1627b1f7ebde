-- ===== src/Zeta/Agree/Handshake.antt =====
-- The three packets of a handshake between an initiator and a responder that know each other's keys.
use zssp.Base.{
  ℕ, ◌-◌, ◌<◌, ◌≤◌, ◌≡◌, refl, ap, ◌∙◌, true, false, List, [], ◌∷◌, ◌++◌, Option, some, length,
  take, replicate, arith, u32_mod, take-append, length-append,
}
use zssp.Base.Bytes.{to_be_bytes, length-to_be_bytes}
use zssp.Challenge.{gen_null_response}
use zssp.Crypto.Layer.{CryptoLayer, IsLawful}
use zssp.Noise.{SymmetricState, mix_key, get_ask}
use zssp.Proto.{challenge_size}
use zssp.Proto.Handshake.{label_header_key, label_kex_key, identity_max_size}
use zssp.Ratchet.{RatchetState, RatchetStates, CompareAndSwap, eq}
use zssp.Results.{ok, ReceiveError}
use zssp.Zeta.Data.{App, Packet, Settings, StateA1, StateB2, Zeta, a1, done}
use zssp.Zeta.Hello.{Offer, create_a1_state, fingerprint_or_zero}
use zssp.Zeta.Keys.{SessionMap, contains_key, gen_kid, key_ref}
use zssp.Zeta.Nonce.{to_nonce}
use zssp.Zeta.X1.{Answer, HelloRead, received_x1_trans, find_ratchet_state, x2_counter}
use zssp.Zeta.Agree.Hello
use zssp.Zeta.Agree.Answer
use zssp.Zeta.Agree.Answer.{
  write_x2-Layout, test_ratchet_key-Sealed, x2_guards-answer_blocks, read_x2-answer_blocks,
}
use zssp.Zeta.Agree.Completion
use zssp.Zeta.Agree.Completion.{write_x3-Layout}
use zssp.Zeta.X2.{
  x2_finish, Ratcheted, received_x2_trans, x2_result, in_a1, a1_to_a3, saved, find_key, to_a3,
  new_ratchet_state, x2_update,
}
use zssp.Zeta.Timers.{Randoms}
use zssp.Zeta.Control.{continue}
use zssp.Zeta.X3.{
  x3_in, x3_finish, x3_peer, x3_known, received_x3_trans, x3_accept, x3_save, restored, is_mismatch,
  x3_update, b2_to_s1, sealed_empty,
}

-- What the context hands over of a hello: the packet without the response to a challenge.
abbrev pub without_response : List ℕ → List ℕ
without_response x1 = take (length x1 - challenge_size) x1

module _ (c : CryptoLayer) (lawful : IsLawful c) where
  -- The entry that the responder keeps, and its packet.
  abbrev pub b2_of :
      (noise : SymmetricState) (e_remote : c.PublicKey) (kid kid' : ℕ) (rs : RatchetState)
      (e : c.KeyPair) {ekem1 secret : List ℕ}
      → Answer.Layout c lawful noise e_remote rs.key ekem1 secret kid' e
      → StateB2 c
  b2_of noise e_remote kid kid' rs e l = record {
    ratchet_state = rs;
    kid_send = kid;
    kid_recv = kid';
    hk_send = (get_ask c noise label_header_key).0;
    e_secret = e;
    noise = l.noise2;
    defrag = (get_ask c noise label_header_key).1;
  }

  abbrev pub packet2_of : ℕ → List ℕ → Packet
  packet2_of kid x2 = record { kid = kid; nonce = to_nonce 1 (x2_counter x2); payload = x2 }

  length-null : (pow : ℕ) → length (gen_null_response c.sha (to_be_bytes 8) pow) ≡ challenge_size
  unfolding gen_null_response
  length-null pow =
      omega (arith, length-append (replicate 24 0) (to_be_bytes 8 pow), length-to_be_bytes 8 pow)

  without-response :
      (x1 : List ℕ) (pow : ℕ)
      → without_response (x1 ++ gen_null_response c.sha (to_be_bytes 8) pow) ≡ x1
  without-response x1 pow = take-append x1 (gen_null_response c.sha (to_be_bytes 8) pow) _ (
      omega
        (arith, length-append x1 (gen_null_response c.sha (to_be_bytes 8) pow), length-null pow))

  pub received_x1_trans-create_a1_state :
      (app : App c) (s : c.KeyPair) (session_map : List (ℕ × ℕ)) (offer : Offer c) (kid kid' : ℕ)
      (rs1 : RatchetState) (rs2 : Option RatchetState) (identity : List ℕ) (rng : Answer c)
      (rs : RatchetState)
      → 0 < kid
      → kid < u32_mod
      → length rs1.fingerprint ≡ 32
      → length (fingerprint_or_zero rs2) ≡ 32
      → find_ratchet_state c app rs1.fingerprint (fingerprint_or_zero rs2) ≡ ok rs
      → gen_kid {E = ReceiveError} session_map rng.kids ≡ ok kid'
      → let noise = (create_a1_state c offer (lawful.public_key s) kid rs1 rs2 identity).noise in
        let packet = (create_a1_state c offer (lawful.public_key s) kid rs1 rs2 identity).packet in
        (ekem1 secret : List ℕ) × (length ekem1 ≡ 1568)
        × (c.decapsulate offer.e1_secret ekem1 ≡ some secret)
        × (l : Answer.Layout c lawful noise
            (lawful.public_key offer.e_secret)
            rs.key
            ekem1
            secret
            kid'
            rng.e_secret)
        × (received_x1_trans c app s session_map packet.nonce (without_response packet.payload) rng
            ≡ ok (
              b2_of noise (lawful.public_key offer.e_secret) kid kid' rs rng.e_secret l,
              record {
                packet = packet2_of kid (Answer.answer_blocks c lawful l);
                hk = some (get_ask c noise label_header_key).0;
              },
            ))
  unfolding received_x1_trans
  received_x1_trans-create_a1_state app s session_map offer kid kid' rs1 rs2 identity rng rs pos
        small size1 size2 known kids =
      let (ekem1, secret, kem, size, decaps) =
        lawful.kem_inverse offer.e1_secret rng.encapsulation in
      let l = Hello.create_a1_state-Layout c lawful offer (lawful.public_key s) kid rs1 rs2 in
      let x1 = Hello.hello_bytes c lawful l in
      let hello : HelloRead c = record {
        kid_send = kid;
        e_remote = lawful.public_key offer.e_secret;
        e1_public = c.kem_public offer.e1_secret;
        rf1 = rs1.fingerprint;
        rf2 = fingerprint_or_zero rs2;
        noise = (create_a1_state c offer (lawful.public_key s) kid rs1 rs2 identity).noise;
      } in
      let (l2, written) =
        write_x2-Layout c lawful session_map hello rs.key ekem1 secret kid' rng kem kids in
      let stripped =
        ap without_response (Hello.payload-hello_bytes c lawful l identity)
        ∙ without-response x1 offer.pow in
      (
        ekem1,
        secret,
        size,
        decaps,
        l2,
        rw
            (
              stripped,
              Hello.nonce-hello_bytes c lawful l identity,
              Hello.length-hello_bytes c lawful l size1 size2,
              Hello.read_x1-create_a1_state c lawful offer s kid rs1 rs2 identity pos small size1
                  size2 l,
              known,
              written,
              Answer.answer_bytes-answer_blocks c lawful l2,
            )
            refl,
      )

  -- The initiator that offered this hello takes the answer with the ratchet key of its first state,
  -- and sends the third packet.
  pub received_x2_trans-answer_blocks :
      (settings : Settings) (app : App c) (session : ℕ) (s : c.KeyPair) (zeta : Zeta c)
      (a : StateA1 c) (m : SessionMap) (rng : Randoms c) (kid kid' : ℕ) (e : c.KeyPair)
      (ekem1 secret : List ℕ)
      → 0 < kid'
      → kid' < u32_mod
      → zeta.beta ≡ a1 a
      → (key_ref zeta true).recv.kid ≡ some kid
      → ((u : CompareAndSwap)
          → app.save_ratchet_state zeta.s_remote zeta.session_data u ≡ done true)
      → length ekem1 ≡ 1568
      → c.decapsulate a.e1_secret ekem1 ≡ some secret
      → (l : Answer.Layout c lawful a.noise
          (lawful.public_key a.e_secret)
          zeta.ratchet_state1.key
          ekem1
          secret
          kid'
          e)
      → let x2 = Answer.answer_blocks c lawful l in
        (l3 : Completion.Layout c lawful l.noise2 s e a.identity) × (received_x2_trans settings app
            session s zeta m rng kid
            (to_nonce 1 (x2_counter x2))
            x2
          ≡ (let packet : Packet = record {
            kid = kid';
            nonce = to_nonce 2 0;
            payload = Completion.completion_blocks c lawful l3;
          } in
              let zeta' =
                to_a3 settings app.time zeta l3.noise2 kid'
                  (new_ratchet_state c l3.noise2 zeta.ratchet_state1.chain_len)
                  a.identity
                  packet in
              record {
                zeta = zeta';
                maps = m;
                sent = record { packet = packet; hk = some zeta'.hk_send } ∷ [];
                result = ok false;
              }))
  unfolding received_x2_trans x2_finish continue x2_result in_a1 a1_to_a3 saved find_key
  received_x2_trans-answer_blocks settings app session s zeta a m rng kid kid' e ekem1 secret pos
        small state own stored size kem l =
      let (l3, written) = write_x3-Layout c lawful l.noise2 s e a.identity in
      let tested =
        test_ratchet_key-Sealed c lawful (mix_key c l.noise1 secret) l.noise2
          zeta.ratchet_state1.key l.sealed2 l.tag2 kid' pos small l.block2 in
      let found : Ratcheted = record {
        ratchet_i = 1;
        chain_len = zeta.ratchet_state1.chain_len;
        should_warn_missing_ratchet = false;
        kid_send = kid';
        noise = l.noise2;
      } in
      let x2 = Answer.answer_blocks c lawful l in
      let read =
        read_x2-answer_blocks c lawful zeta app.initiator_disallows_downgrade a
          zeta.ratchet_state1.key ekem1 secret kid' e found size kem l
          (rw (tested, find_key) refl) in
      let in_state : x2_result settings app s zeta x2 ≡ a1_to_a3 settings app s zeta a x2 =
        ap (λ beta. in_a1 beta (λ a'. a1_to_a3 settings app s zeta a' x2)) state in
      (
        l3,
        rw
            (
              x2_guards-answer_blocks c lawful l zeta kid size own,
              in_state,
              read,
              written,
              stored
                  (x2_update zeta 1 (new_ratchet_state c l3.noise2 zeta.ratchet_state1.chain_len)),
              Completion.completion_bytes-completion_blocks c lawful l3,
              received_x2_trans,
              a1_to_a3,
              saved,
            )
            refl,
      )

  -- The responder that kept this entry takes the third packet, where the application accepts the peer
  -- and has the ratchet state that the responder used.
  pub received_x3_trans-completion_blocks :
      (settings : Settings) (app : App c) (m : SessionMap) (session : ℕ) (b : StateB2 c)
      (s : c.KeyPair) (identity : List ℕ) (session_data : ℕ) (states : RatchetStates)
      → length identity ≤ identity_max_size
      → (app.check_accept_session (lawful.public_key s) identity).session_data ≡ some session_data
      → app.restore_by_identity (lawful.public_key s) session_data ≡ done (some states)
      → eq b.ratchet_state states.state1 ≡ true
      → ((u : CompareAndSwap)
          → app.save_ratchet_state (lawful.public_key s) session_data u ≡ done true)
      → contains_key m.session_map b.kid_recv ≡ false
      → (l : Completion.Layout c lawful b.noise s b.e_secret identity)
      → received_x3_trans settings app m session b b.kid_recv
          (Completion.completion_blocks c lawful l)
        ≡ record {
          maps = record {
            session_map = (b.kid_recv, session) ∷ m.session_map;
            sessions = session ∷ m.sessions;
          };
          sent = sealed_empty b 3 (get_ask c l.noise2 label_kex_key).0 ∷ [];
          result = ok (
            b2_to_s1 settings app.time b session_data
                (lawful.public_key s)
                (new_ratchet_state c l.noise2 b.ratchet_state.chain_len)
                l.noise2,
            false,
          );
        }
  unfolding received_x3_trans x3_in x3_finish x3_accept x3_peer x3_known x3_save saved restored
      is_mismatch
  received_x3_trans-completion_blocks settings app m session b s identity session_data states small
        accepts known same stored free l =
      rw
        (
          Completion.x3_identity-completion_blocks c lawful b s identity l small,
          accepts,
          known,
          same,
          stored (x3_update (new_ratchet_state c l.noise2 b.ratchet_state.chain_len) states),
          free,
          received_x3_trans,
          x3_accept,
          x3_save,
          saved,
          restored,
          is_mismatch,
        )
        refl

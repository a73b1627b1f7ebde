-- ===== src/Zeta/Safe/Confirm.antt =====
-- reference/src/zeta.rs: the handlers of control packets, and the keys that a session needs.
use zssp.Base.{
  ℕ, ◌<◌, ◌≡◌, refl, sym, ap, subst, ◌∙◌, true, false, Bool, Bool-cases, ◌&&◌, ◌||◌, not, List, [],
  none, inl, inr, ◌⊎◌, length, arith, ◌==◌,
}
use zssp.Crypto.Layer.{CryptoLayer}
use zssp.Results.{
  ok, fail_if, ok_or, unwrap, fault, invalid_packet, unknown_local_key_id, out_of_sequence, >>=-ok,
  ok_inj,
}
use zssp.Zeta.Data.{
  App, Settings, DuplexKey, IoResult, done, failed, Zeta, ZetaAutomata, null, s1, s2, a1, a3, r1,
  r2,
}
use zssp.Zeta.Auth.{authenticate, find_kid, stop_expired}
use zssp.Zeta.Confirm.{
  is_s1, is_a3, is_r2, c2_auth, d_auth, c1_auth, received_c1_trans, received_c2_trans,
  received_d_trans, acknowledge, confirm, give_up,
}
use zssp.Zeta.Control.{send_control, stop, continue}
use zssp.Zeta.Keys.{SessionMap, expire, key_ref, get_counter}
use zssp.Zeta.X2.{same_kid}
use zssp.Zeta.Safe.{
  IsPresent-some, HasKeys, NoPanic, Ready, IsSession, Safe, SameSession, fail_if-ok, not-false,
  continue-Safe, to_s2-Safe, is_s1-HasKeys, same_session, same_keys, bind-NoPanic, fail_if-NoPanic,
  ok_or-NoPanic, authenticate-NoPanic, authenticate-SameSession,
}

and-right : (a b : Bool) → (a && b) ≡ true → b ≡ true
and-right true b h = h
and-right false b h = cc

-- The three answers of the storage.
IoResult-cases :
    (o : IoResult Bool) → (o ≡ done true) ⊎ ((o ≡ done false) ⊎ ((e : ℕ) × (o ≡ failed e)))
IoResult-cases (done true) = inl refl
IoResult-cases (done false) = inr (inl refl)
IoResult-cases (failed e) = inr (inr (e, refl))

module _ {c : CryptoLayer} where
  c2_auth-NoPanic :
      (zeta : Zeta c) (kid : ℕ) (n c2 : List ℕ)
      → IsSession zeta
      → length n ≡ 12
      → NoPanic (c2_auth zeta kid n c2)
  unfolding c2_auth
  c2_auth-NoPanic zeta kid n c2 session size = elim (Bool-cases (is_s1 zeta.beta)) [
    | inl h ↦
        let keys = is_s1-HasKeys zeta.beta (key_ref zeta true) (key_ref zeta false) session h in
        let (kek, e) = IsPresent-some (key_ref zeta false).recv.kek keys.recv_kek in
        let last = authenticate-NoPanic zeta kek n [] c2 size in rw (h, e) (ground arith)
    | inr h ↦ rw h (ground arith)
  ]

  c2_auth-ok :
      (zeta zeta' : Zeta c) (kid : ℕ) (n c2 plain : List ℕ)
      → c2_auth zeta kid n c2 ≡ ok (zeta', plain)
      → (is_s1 zeta.beta ≡ true) × SameSession zeta zeta'
  unfolding c2_auth
  c2_auth-ok zeta zeta' kid n c2 plain h =
      let (_, _, h1) = >>=-ok (fail_if (not (length c2 == 16)) (fault invalid_packet true)) _ h in
      let (_, _, h2) =
        >>=-ok
          (fail_if (not (same_kid kid (key_ref zeta false).recv.kid))
            (fault unknown_local_key_id false))
          _ h1 in
      let (_, is_s, h3) =
        >>=-ok (fail_if (not (is_s1 zeta.beta)) (fault out_of_sequence false)) _ h2 in
      let (kek, _, h4) = >>=-ok (unwrap (key_ref zeta false).recv.kek) _ h3 in
      (
        not-false (fail_if-ok (not (is_s1 zeta.beta)) (fault out_of_sequence false) is_s),
        authenticate-SameSession zeta zeta' kek n [] c2 plain h4,
      )

  pub received_c2_trans-Safe :
      (settings : Settings) (app : App c) (r : ℕ) (zeta : Zeta c) (m : SessionMap) (kid : ℕ)
      (n c2 : List ℕ)
      → IsSession zeta
      → 0 < settings.rekey_time_max_jitter
      → length n ≡ 12
      → Safe (received_c2_trans settings app r zeta m kid n c2)
  unfolding received_c2_trans stop
  received_c2_trans-Safe settings app r zeta m kid n c2 session pos size =
      continue-Safe zeta m (c2_auth zeta kid n c2) _ session
        (c2_auth-NoPanic zeta kid n c2 session size)
        λ (zeta', plain) h.
          let (is_s, same) = c2_auth-ok zeta zeta' kid n c2 plain h in
          let keys =
            is_s1-HasKeys zeta.beta (key_ref zeta true) (key_ref zeta false) session is_s in
          let keys' : HasKeys (key_ref zeta' false) = same_keys zeta zeta' false same keys in
          to_s2-Safe settings app.time r zeta' zeta' m _ pos λ zeta'' state current. record {
            session =
                subst (λ b. Ready b (key_ref zeta'' true) (key_ref zeta'' false)) (sym state)
                  (subst HasKeys (sym current) keys');
            no_panic = tt;
          }

  is_a3-HasKeys :
      (beta : ZetaAutomata c) (next current : DuplexKey)
      → Ready beta next current
      → is_a3 beta ≡ true
      → HasKeys next
  unfolding is_a3
  is_a3-HasKeys null next current h e = cc
  is_a3-HasKeys s1 next current h e = cc
  is_a3-HasKeys s2 next current h e = cc
  is_a3-HasKeys (a1 a) next current h e = cc
  is_a3-HasKeys (a3 identity packet) next current h e = h
  is_a3-HasKeys (r1 noise e_secret k1) next current h e = cc
  is_a3-HasKeys (r2 k2) next current h e = cc

  d_auth-NoPanic :
      (zeta : Zeta c) (kid : ℕ) (n d : List ℕ)
      → IsSession zeta
      → length n ≡ 12
      → NoPanic (d_auth zeta kid n d)
  unfolding d_auth
  d_auth-NoPanic zeta kid n d session size = elim (Bool-cases (is_a3 zeta.beta)) [
    | inl h ↦
        let keys = is_a3-HasKeys zeta.beta (key_ref zeta true) (key_ref zeta false) session h in
        let (kek, e) = IsPresent-some (key_ref zeta true).recv.kek keys.recv_kek in
        let last = authenticate-NoPanic zeta kek n [] d size in rw (h, e) (ground arith)
    | inr h ↦ rw h (ground arith)
  ]

  pub received_d_trans-Safe :
      (zeta : Zeta c) (m : SessionMap) (kid : ℕ) (n d : List ℕ)
      → IsSession zeta
      → length n ≡ 12
      → Safe (received_d_trans zeta m kid n d)
  unfolding received_d_trans stop_expired expire stop
  received_d_trans-Safe zeta m kid n d session size =
      continue-Safe zeta m (d_auth zeta kid n d) _ session
        (d_auth-NoPanic zeta kid n d session size)
        λ (zeta', plain) h. record { session = tt; no_panic = tt }

  pub send_control-IsSession :
      (settings : Settings) (zeta : Zeta c) (packet_type : ℕ) (payload : List ℕ)
      → IsSession zeta
      → IsSession (send_control settings zeta packet_type payload).0
  unfolding send_control get_counter key_ref
  send_control-IsSession settings zeta packet_type payload session = ground arith

  pub find_kid-NoPanic : (zeta : Zeta c) (kid : ℕ) → NoPanic (find_kid zeta kid)
  unfolding find_kid
  find_kid-NoPanic zeta kid = ground arith

  acknowledge-Safe :
      (settings : Settings) (zeta : Zeta c) (m : SessionMap) (just : Bool)
      → IsSession zeta
      → Safe (acknowledge settings zeta m just)
  unfolding acknowledge
  acknowledge-Safe settings zeta m just session = record {
    session = send_control-IsSession settings zeta 4 [] session;
    no_panic = ground arith;
  }

  is_a3-or-is_r2-HasKeys :
      (beta : ZetaAutomata c) (next current : DuplexKey)
      → Ready beta next current
      → (is_a3 beta || is_r2 beta) ≡ true
      → HasKeys next
  unfolding is_a3 is_r2
  is_a3-or-is_r2-HasKeys null next current h e = cc
  is_a3-or-is_r2-HasKeys s1 next current h e = cc
  is_a3-or-is_r2-HasKeys s2 next current h e = cc
  is_a3-or-is_r2-HasKeys (a1 a) next current h e = cc
  is_a3-or-is_r2-HasKeys (a3 identity packet) next current h e = h
  is_a3-or-is_r2-HasKeys (r1 noise e_secret k1) next current h e = cc
  is_a3-or-is_r2-HasKeys (r2 k2) next current h e = h.1

  c1_auth-NoPanic :
      (zeta : Zeta c) (kid : ℕ) (n c1 : List ℕ) → length n ≡ 12 → NoPanic (c1_auth zeta kid n c1)
  unfolding c1_auth
  c1_auth-NoPanic zeta kid n c1 size =
      bind-NoPanic (fail_if (not (length c1 == 16)) (fault invalid_packet true)) _
        (fail_if-NoPanic _ _)
        λ _ _. bind-NoPanic (find_kid zeta kid) _ (find_kid-NoPanic zeta kid) λ is_other _.
          bind-NoPanic (ok_or (key_ref zeta is_other).recv.kek (fault out_of_sequence true)) _
            (ok_or-NoPanic _ _)
            λ kek _.
              bind-NoPanic (authenticate zeta kek n [] c1) _
                (authenticate-NoPanic zeta kek n [] c1 size) λ _ _. tt

  c1_auth-ok :
      (zeta zeta' : Zeta c) (kid : ℕ) (n c1 : List ℕ) (is_other : Bool)
      → c1_auth zeta kid n c1 ≡ ok (is_other, zeta')
      → SameSession zeta zeta'
  unfolding c1_auth
  c1_auth-ok zeta zeta' kid n c1 is_other h =
      let (_, _, h1) = >>=-ok (fail_if (not (length c1 == 16)) (fault invalid_packet true)) _ h in
      let (other, _, h2) = >>=-ok (find_kid zeta kid) _ h1 in
      let (kek, _, h3) =
        >>=-ok (ok_or (key_ref zeta other).recv.kek (fault out_of_sequence true)) _ h2 in
      let ((z, plain), auth, h4) = >>=-ok (authenticate zeta kek n [] c1) _ h3 in
      subst (SameSession zeta) (ap (λ a. a.1) (ok_inj h4))
        (authenticate-SameSession zeta z kek n [] c1 plain auth)

  flipped : Zeta c → Zeta c
  flipped zeta = record zeta { ratchet_state2 = none; key_index = not zeta.key_index }

  key_ref-flipped : (zeta : Zeta c) → key_ref (flipped zeta) false ≡ key_ref zeta true
  unfolding flipped key_ref
  key_ref-flipped zeta = ground arith

  confirmed-Safe :
      (settings : Settings) (app : App c) (r : ℕ) (zeta : Zeta c) (m : SessionMap) (just : Bool)
      → HasKeys (key_ref zeta true)
      → 0 < settings.rekey_time_max_jitter
      → Safe (
          continue zeta m
            (confirm settings app.time r zeta)
            λ zeta. acknowledge settings zeta m just)
  unfolding confirm flipped
  confirmed-Safe settings app r zeta m just keys pos =
      to_s2-Safe settings app.time r zeta (flipped zeta) m _ pos λ zeta' state current.
        acknowledge-Safe settings zeta' m just (
          subst (λ b. Ready b (key_ref zeta' true) (key_ref zeta' false)) (sym state)
            (subst HasKeys (sym (current ∙ key_ref-flipped zeta)) keys))

  -- Whatever packet with a nonce of 12 bytes comes as a key confirmation, in whatever state, the
  -- handler does not panic, also where it switches to the next key and acknowledges with it, and
  -- leaves a session that is complete for its state, in its keys and in the room that an offer has
  -- for the answer to a challenge, where it was before. The jitter of the rekeying is not zero.
  pub received_c1_trans-Safe :
      (settings : Settings) (app : App c) (r : ℕ) (zeta : Zeta c) (m : SessionMap) (kid : ℕ)
      (n c1 : List ℕ)
      → IsSession zeta
      → 0 < settings.rekey_time_max_jitter
      → length n ≡ 12
      → Safe (received_c1_trans settings app r zeta m kid n c1)
  unfolding received_c1_trans stop stop_expired expire
  received_c1_trans-Safe settings app r zeta m kid n c1 session pos size =
      continue-Safe zeta m (c1_auth zeta kid n c1) _ session (c1_auth-NoPanic zeta kid n c1 size)
        λ (is_other, z) h.
          let session' = same_session zeta z (c1_auth-ok zeta z kid n c1 is_other h) session in
          let just = is_other && is_a3 z.beta in
          elim (Bool-cases (is_other && (is_a3 z.beta || is_r2 z.beta))) [
            | inr same ↦ rw same (acknowledge-Safe settings z m just session')
            | inl other ↦
                let keys =
                  is_a3-or-is_r2-HasKeys z.beta (key_ref z true) (key_ref z false) session'
                    (and-right is_other (is_a3 z.beta || is_r2 z.beta) other) in
                elim (IoResult-cases (give_up app z)) [
                  | inl saved ↦ rw (other, saved) (confirmed-Safe settings app r z m just keys pos)
                  | inr (inl refused) ↦ rw (other, refused) (record { session = tt; no_panic = tt })
                  | inr (inr (e, broken)) ↦
                      rw (other, broken) (record { session = session'; no_panic = tt })
                ]
          ]

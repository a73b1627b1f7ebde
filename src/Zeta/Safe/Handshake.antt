-- ===== src/Zeta/Safe/Handshake.antt =====
-- reference/src/zeta.rs: the first two packets of a handshake, and the keys that a session needs.
use zssp.Base.{
  false, ℕ, ◌-◌, ◌≡◌, refl, ap, subst, true, Bool, Bool-cases, not, List, Option, none, some, inl,
  inr, length, drop, arith, ◌==◌, replicate,
}
use zssp.Crypto.{secure_eq}
use zssp.Crypto.Layer.{CryptoLayer}
use zssp.Noise.{SymmetricState, decrypt_and_hash_in_place}
use zssp.Ratchet.{RatchetState, bytes_eq}
use zssp.Results.{
  Outcome, ok, err, panic, unfinished, fail_if, ok_or, fault, invalid_packet, failed_auth,
  unknown_local_key_id, >>=-ok, ok_inj, ReceiveError, byzantine_fault, max_key_lifetime_exceeded,
  rejected, storage_error, write_error,
}
use zssp.Zeta.Data.{
  App, Settings, IoResult, Packet, StateA1, Zeta, ZetaAutomata, null, s1, s2, a1, a3, r1, r2,
}
use zssp.Zeta.Control.{stop}
use zssp.Zeta.Keys.{SessionMap, key_ref, key_mut}
use zssp.Zeta.Nonce.{to_nonce}
use zssp.Zeta.Timers.{Randoms, timeout_trans}
use zssp.Zeta.Tokens.{read, read_e, mix_dh}
use zssp.Zeta.X1.{
  Answer, HelloRead, restore, find_ratchet_state, read_x1, write_x2, received_x1_trans,
}
use zssp.Zeta.X2.{
  same_kid, saved, read_x2, to_a3, a1_to_a3, in_a1, x2_result, x2_guards, x2_finish,
  received_x2_trans,
}
use zssp.Zeta.X3.{}
use zssp.Zeta.Safe.{
  IsPresent, NoPanic, IsSession, Safe, fail_if-ok, not-false, bind-NoPanic, fail_if-NoPanic,
  ok_or-NoPanic, from_nonce-NoPanic, continue-Safe,
}
use zssp.Zeta.Safe.Timers.{gen_kid-NoPanic, timeout_trans-Safe}
use zssp.Zeta.Safe.Tokens.{
  read-NoPanic, read-length, read_then-NoPanic, guard-NoPanic, need-NoPanic, read_e-NoPanic,
  read_e-length, saved-NoPanic,
}

restore-NoPanic :
    (f : List ℕ → IoResult (Option RatchetState)) (skip : Bool) (rf : List ℕ)
    → NoPanic (restore f skip rf)
unfolding restore
restore-NoPanic f skip rf = ground arith

same_kid-IsPresent : (kid : ℕ) (own : Option ℕ) → same_kid kid own ≡ true → IsPresent own
unfolding same_kid
same_kid-IsPresent kid none h = cc
same_kid-IsPresent kid (some kid') h = tt

module _ (c : CryptoLayer) where
  read_x1-NoPanic : (s : c.KeyPair) (x1 : List ℕ) → length x1 ≡ 1717 → NoPanic (read_x1 c s x1)
  unfolding read_x1
  read_x1-NoPanic s x1 size = read_then-NoPanic 4 x1 _ (omega arith) λ kid rest1 size1.
      need-NoPanic _ _ _ λ kid_send.
        bind-NoPanic (read_e c {E = ReceiveError} _ rest1) _
          (read_e-NoPanic c _ rest1 (omega arith))
          λ (noise, e, rest2) l.
            let size2 = read_e-length c _ noise rest1 rest2 e l in
            need-NoPanic _ _ _ λ e_remote.
              read_then-NoPanic 1568 rest2 _ (omega arith) λ e1 rest3 size3.
                read_then-NoPanic 16 rest3 _ (omega arith) λ tag rest4 size4.
                  guard-NoPanic {E = ReceiveError} {B = HelloRead c} _ (fault failed_auth true) _ (
                    read_then-NoPanic 64 rest4 _ (omega arith) λ payload rest5 size5.
                      read_then-NoPanic 16 rest5 _ (omega arith) λ tag' rest6 size6. ground arith)

  find_ratchet_state-NoPanic :
      (app : App c) (rf1 rf2 : List ℕ) → NoPanic (find_ratchet_state c app rf1 rf2)
  unfolding find_ratchet_state
  find_ratchet_state-NoPanic app rf1 rf2 =
      let first = restore-NoPanic app.restore_by_fingerprint (secure_eq rf1 (replicate 32 0)) rf1 in
      let second =
        restore-NoPanic app.restore_by_fingerprint (secure_eq rf2 (replicate 32 0)) rf1 in
      ground arith

  write_x2-NoPanic :
      (session_map : List (ℕ × ℕ)) (hello : HelloRead c) (key : List ℕ) (rng : Answer c)
      → NoPanic (write_x2 c session_map hello key rng)
  unfolding write_x2
  write_x2-NoPanic session_map hello key rng =
      let kid = gen_kid-NoPanic ReceiveError session_map rng.kids in ground arith

  -- Whatever bytes are left of a hello when the context has taken off the response to a challenge,
  -- received_x1_trans does not panic on them. That a hello has the 32 bytes of the response, which
  -- the context takes off without a test, is not part of it.
  pub received_x1_trans-NoPanic :
      (app : App c) (s : c.KeyPair) (session_map : List (ℕ × ℕ)) (n x1 : List ℕ) (rng : Answer c)
      → NoPanic (received_x1_trans c app s session_map n x1 rng)
  unfolding received_x1_trans
  received_x1_trans-NoPanic app s session_map n x1 rng =
      bind-NoPanic (fail_if (not (1717 == length x1)) (fault invalid_packet true)) _
        (fail_if-NoPanic _ _)
        λ _ is_size.
          let size =
            not-false (fail_if-ok (not (1717 == length x1)) (fault invalid_packet true) is_size) in
          bind-NoPanic
            (fail_if (not (bytes_eq (drop 4 n) (drop (length x1 - 8) x1))) (fault failed_auth true))
            _ (fail_if-NoPanic _ _)
            λ _ _. bind-NoPanic (read_x1 c s x1) _ (read_x1-NoPanic s x1 (ground arith)) λ hello _.
              bind-NoPanic (find_ratchet_state c app hello.rf1 hello.rf2) _
                (find_ratchet_state-NoPanic app hello.rf1 hello.rf2)
                λ rs _.
                  bind-NoPanic (write_x2 c session_map hello rs.key rng) _
                    (write_x2-NoPanic session_map hello rs.key rng) λ _ _. tt

module _ {c : CryptoLayer} where
  read_x2-NoPanic :
      (zeta : Zeta c) (disallowed : Bool) (a : StateA1 c) (x2 : List ℕ)
      → length x2 ≡ 1653
      → NoPanic (read_x2 zeta disallowed a x2)
  unfolding read_x2
  read_x2-NoPanic zeta disallowed a x2 size =
      bind-NoPanic (read_e c {E = ReceiveError} a.noise x2) _
        (read_e-NoPanic c a.noise x2 (omega arith))
        λ (noise, e, rest1) l.
          let size1 = read_e-length c a.noise noise x2 rest1 e l in
          need-NoPanic _ _ _ λ e_remote.
            read_then-NoPanic 1568 rest1 _ (omega arith) λ ekem1 rest2 size2.
              read_then-NoPanic 16 rest2 _ (omega arith) λ tag rest3 size3.
                let opened =
                  decrypt_and_hash_in_place c (mix_dh c noise a.e_secret e_remote) (to_nonce 1 0)
                    ekem1 tag in
                bind-NoPanic (fail_if (not opened.2) (fault failed_auth true)) _
                  (fail_if-NoPanic _ _)
                  λ _ _.
                    bind-NoPanic
                      (ok_or (c.decapsulate a.e1_secret opened.1) (fault failed_auth true)) _
                      (ok_or-NoPanic _ _)
                      λ secret _.
                        bind-NoPanic (read {E = ReceiveError} 4 rest3) _
                          (read-NoPanic ReceiveError 4 rest3 (omega arith))
                          λ (payload, rest4) l.
                            let size4 = read-length ReceiveError 4 rest3 payload rest4 l in
                            let last = read-NoPanic ReceiveError 16 rest4 (omega arith) in
                            bind-NoPanic (read {E = ReceiveError} 16 rest4) _ last
                              λ (tag', rest5) _. ground arith

  a1_to_a3-NoPanic :
      (settings : Settings) (app : App c) (s : c.KeyPair) (zeta : Zeta c) (a : StateA1 c)
      (x2 : List ℕ)
      → length x2 ≡ 1653
      → NoPanic (a1_to_a3 settings app s zeta a x2)
  unfolding a1_to_a3
  a1_to_a3-NoPanic settings app s zeta a x2 size =
      bind-NoPanic (read_x2 zeta app.initiator_disallows_downgrade a x2) _
        (read_x2-NoPanic zeta app.initiator_disallows_downgrade a x2 size)
        λ (e_remote, r) _. bind-NoPanic (saved _) _ (saved-NoPanic _) λ _ _. tt

  in_a1-NoPanic :
      {A : Type 0} (beta : ZetaAutomata c) (f : StateA1 c → Outcome ReceiveError A)
      → ((a : StateA1 c) → NoPanic (f a))
      → NoPanic (in_a1 beta f)
  unfolding in_a1
  in_a1-NoPanic (a1 a) f h = h a
  in_a1-NoPanic null f h = tt
  in_a1-NoPanic s1 f h = tt
  in_a1-NoPanic s2 f h = tt
  in_a1-NoPanic (a3 identity packet) f h = tt
  in_a1-NoPanic (r1 noise e_secret k1) f h = tt
  in_a1-NoPanic (r2 k2) f h = tt

  x2_guards-NoPanic :
      (zeta : Zeta c) (kid : ℕ) (n x2 : List ℕ) → length n ≡ 12 → NoPanic (x2_guards zeta kid n x2)
  unfolding x2_guards
  x2_guards-NoPanic zeta kid n x2 size =
      let counter = from_nonce-NoPanic ReceiveError n size in ground arith

  x2_guards-ok :
      (zeta : Zeta c) (kid : ℕ) (n x2 : List ℕ)
      → x2_guards zeta kid n x2 ≡ ok tt
      → (length x2 ≡ 1653) × (same_kid kid (key_ref zeta true).recv.kid ≡ true)
  unfolding x2_guards
  x2_guards-ok zeta kid n x2 h =
      let (_, is_size, h1) =
        >>=-ok (fail_if (not (1653 == length x2)) (fault invalid_packet true)) _ h in
      let (_, is_kid, _) =
        >>=-ok
          (fail_if (not (same_kid kid (key_ref zeta true).recv.kid))
            (fault unknown_local_key_id true))
          _ h1 in
      let size =
        not-false (fail_if-ok (not (1653 == length x2)) (fault invalid_packet true) is_size) in
      (
        ground arith,
        not-false (
            fail_if-ok (not (same_kid kid (key_ref zeta true).recv.kid))
              (fault unknown_local_key_id true) is_kid),
      )

  to_a3-IsSession :
      (settings : Settings) (time : ℕ) (zeta : Zeta c) (noise : SymmetricState) (kid : ℕ)
      (rs : RatchetState) (identity : List ℕ) (packet : Packet)
      → IsPresent (key_ref zeta true).recv.kid
      → IsSession (to_a3 settings time zeta noise kid rs identity packet)
  unfolding to_a3 key_ref key_mut
  to_a3-IsSession settings time zeta noise kid rs identity packet own =
      elim (Bool-cases zeta.key_index) [
        | inl i ↦ rw i (record {
          send_kek = tt;
          send_nk = tt;
          send_kid = tt;
          recv_kek = tt;
          recv_nk = tt;
          recv_kid = rw i at own;
        })
        | inr i ↦ rw i (record {
          send_kek = tt;
          send_nk = tt;
          send_kid = tt;
          recv_kek = tt;
          recv_nk = tt;
          recv_kid = rw i at own;
        })
      ]

  a1_to_a3-IsSession :
      (settings : Settings) (app : App c) (s : c.KeyPair) (zeta zeta' : Zeta c) (a : StateA1 c)
      (x2 : List ℕ) (packet : Packet) (warn : Bool)
      → IsPresent (key_ref zeta true).recv.kid
      → a1_to_a3 settings app s zeta a x2 ≡ ok (zeta', packet, warn)
      → IsSession zeta'
  unfolding a1_to_a3
  a1_to_a3-IsSession settings app s zeta zeta' a x2 packet warn own h =
      let ((e_remote, r), _, h1) =
        >>=-ok (read_x2 zeta app.initiator_disallows_downgrade a x2) _ h in
      let (_, _, last) = >>=-ok (saved _) _ h1 in
      subst IsSession (ap (λ t. t.0) (ok_inj last))
        (to_a3-IsSession settings app.time zeta _ r.kid_send _ a.identity _ own)

  x2_result-IsSession :
      (settings : Settings) (app : App c) (s : c.KeyPair) (zeta zeta' : Zeta c)
      (beta : ZetaAutomata c) (x2 : List ℕ) (packet : Packet) (warn : Bool)
      → IsPresent (key_ref zeta true).recv.kid
      → in_a1 beta (λ a. a1_to_a3 settings app s zeta a x2) ≡ ok (zeta', packet, warn)
      → IsSession zeta'
  unfolding in_a1
  x2_result-IsSession settings app s zeta zeta' (a1 a) x2 packet warn own h =
      a1_to_a3-IsSession settings app s zeta zeta' a x2 packet warn own h
  x2_result-IsSession settings app s zeta zeta' null x2 packet warn own h = cc
  x2_result-IsSession settings app s zeta zeta' s1 x2 packet warn own h = cc
  x2_result-IsSession settings app s zeta zeta' s2 x2 packet warn own h = cc
  x2_result-IsSession settings app s zeta zeta' (a3 identity sent) x2 packet warn own h = cc
  x2_result-IsSession settings app s zeta zeta' (r1 noise e_secret k1) x2 packet warn own h = cc
  x2_result-IsSession settings app s zeta zeta' (r2 k2) x2 packet warn own h = cc

  x2_finish-Safe :
      (settings : Settings) (session : ℕ) (s : c.KeyPair) (zeta : Zeta c) (m : SessionMap)
      (time : ℕ) (rng : Randoms c) (o : Outcome ReceiveError (Zeta c × Packet × Bool))
      → IsSession zeta
      → NoPanic o
      → ((zeta' : Zeta c) (packet : Packet) (warn : Bool)
          → o ≡ ok (zeta', packet, warn)
          → IsSession zeta')
      → Safe (x2_finish settings session s zeta m time rng o)
  unfolding x2_finish stop
  x2_finish-Safe settings session s zeta m time rng (ok (zeta', packet, warn)) h k l = record {
    session = l zeta' packet warn refl;
    no_panic = tt;
  }
  x2_finish-Safe settings session s zeta m time rng (err (byzantine_fault f)) h k l =
      let t = timeout_trans-Safe settings session s zeta m time rng h in
      record {
        session = t.session;
        no_panic =
            bind-NoPanic (timeout_trans false settings session s zeta m time rng).result _
              t.no_panic λ _ _. tt;
      }
  x2_finish-Safe settings session s zeta m time rng (err max_key_lifetime_exceeded) h k l = record {
    session = h;
    no_panic = tt;
  }
  x2_finish-Safe settings session s zeta m time rng (err rejected) h k l = record {
    session = h;
    no_panic = tt;
  }
  x2_finish-Safe settings session s zeta m time rng (err (storage_error e)) h k l = record {
    session = h;
    no_panic = tt;
  }
  x2_finish-Safe settings session s zeta m time rng (err (write_error e)) h k l = record {
    session = h;
    no_panic = tt;
  }
  x2_finish-Safe settings session s zeta m time rng panic h k l = absurd k
  x2_finish-Safe settings session s zeta m time rng unfinished h k l = record {
    session = h;
    no_panic = tt;
  }

  -- Whatever packet with a nonce of 12 bytes comes as the second one of a handshake, in whatever
  -- state, the handler does not panic and leaves a session that is complete for its state, in its
  -- keys and in the room that an offer has for the answer to a challenge, where it was before.
  pub received_x2_trans-Safe :
      (settings : Settings) (app : App c) (session : ℕ) (s : c.KeyPair) (zeta : Zeta c)
      (m : SessionMap) (rng : Randoms c) (kid : ℕ) (n x2 : List ℕ)
      → IsSession zeta
      → length n ≡ 12
      → Safe (received_x2_trans settings app session s zeta m rng kid n x2)
  unfolding received_x2_trans x2_result
  received_x2_trans-Safe settings app session s zeta m rng kid n x2 h size =
      continue-Safe zeta m (x2_guards zeta kid n x2) _ h (x2_guards-NoPanic zeta kid n x2 size)
        λ u l.
          let (body, own) = x2_guards-ok zeta kid n x2 l in
          x2_finish-Safe settings session s zeta m app.time rng _ h
            (in_a1-NoPanic zeta.beta _ λ a. a1_to_a3-NoPanic settings app s zeta a x2 body)
            λ zeta' packet warn same.
              x2_result-IsSession settings app s zeta zeta' zeta.beta x2 packet warn
                (same_kid-IsPresent kid _ own) same

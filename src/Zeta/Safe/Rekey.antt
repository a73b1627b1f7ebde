-- ===== src/Zeta/Safe/Rekey.antt =====
-- reference/src/zeta.rs: the handlers of a rekeying, and the keys that a session needs.
use zssp.Base.{
  ℕ, ◌-◌, ◌≡◌, sym, ap, ◌∙◌, true, false, Bool, Bool-cases, not, List, [], none, inl, inr, length,
  take, drop, arith, ◌==◌, length-take,
}
use zssp.Crypto.Layer.{CryptoLayer, IsLawful}
use zssp.Noise.{SymmetricState}
use zssp.Results.{
  Outcome, ok, err, panic, unfinished, fail_if, unwrap, fault, invalid_packet, unknown_local_key_id,
  out_of_sequence, expired_counter, >>=-ok, ok_inj, ReceiveError, byzantine_fault,
  max_key_lifetime_exceeded, rejected, storage_error, write_error,
}
use zssp.Zeta.Data.{App, Settings, DuplexKey, Zeta, ZetaAutomata, null, s1, s2, a1, a3, r1, r2}
use zssp.Zeta.Auth.{authenticate, stop_expired}
use zssp.Zeta.Control.{Step, stop}
use zssp.Zeta.Keys.{SessionMap, expire, key_ref, key_mut, remap, update_counter_window}
use zssp.Zeta.K1.{
  rekeys_as_bob, should_rekey_as_bob, k1_auth, read_k1, to_r2, k1_result, expire_if,
  expire_on_fault, received_k1_trans,
}
use zssp.Zeta.K2.{is_r1, k2_auth, read_k2, rekeyed, in_r1, k2_result, received_k2_trans}
use zssp.Zeta.Nonce.{from_nonce}
use zssp.Zeta.X2.{same_kid, saved}
use zssp.Zeta.X1.{}
use zssp.Zeta.Safe.{
  IsPresent, IsPresent-some, HasKeys, NoPanic, Ready, IsSession, Safe, SameSession, fail_if-ok,
  not-false, continue-Safe, same_session, same_keys, authenticate-NoPanic, authenticate-SameSession,
}
use zssp.Zeta.Safe.Confirm.{send_control-IsSession}
use zssp.Zeta.Safe.Timers.{remap-NoPanic}
use zssp.Zeta.Safe.Tokens.{saved-NoPanic, read_k1-NoPanic, read_k2-NoPanic}

body_size :
    (bytes : List ℕ) → (length bytes == 85) ≡ true → length (take (length bytes - 16) bytes) ≡ 69
body_size bytes h = length-take (length bytes - 16) bytes ∙ ground arith

module _ {c : CryptoLayer} where
  rekeys_as_bob-HasKeys :
      (beta : ZetaAutomata c) (next current : DuplexKey) (was_bob : Bool)
      → Ready beta next current
      → rekeys_as_bob beta was_bob ≡ true
      → HasKeys current
  unfolding rekeys_as_bob
  rekeys_as_bob-HasKeys null next current was_bob h e = cc
  rekeys_as_bob-HasKeys s1 next current was_bob h e = cc
  rekeys_as_bob-HasKeys s2 next current was_bob h e = h
  rekeys_as_bob-HasKeys (a1 a) next current was_bob h e = cc
  rekeys_as_bob-HasKeys (a3 identity packet) next current was_bob h e = cc
  rekeys_as_bob-HasKeys (r1 noise e_secret k1) next current was_bob h e = h.0
  rekeys_as_bob-HasKeys (r2 k2) next current was_bob h e = cc

  should_rekey-HasKeys :
      (zeta : Zeta c)
      → IsSession zeta
      → should_rekey_as_bob zeta ≡ true
      → HasKeys (key_ref zeta false)
  unfolding should_rekey_as_bob
  should_rekey-HasKeys zeta h e =
      rekeys_as_bob-HasKeys zeta.beta (key_ref zeta true) (key_ref zeta false) zeta.was_bob h e

  k1_auth-NoPanic :
      (zeta : Zeta c) (kid : ℕ) (n k1 : List ℕ)
      → IsSession zeta
      → length n ≡ 12
      → NoPanic (k1_auth zeta kid n k1)
  unfolding k1_auth
  k1_auth-NoPanic zeta kid n k1 session size = elim (Bool-cases (should_rekey_as_bob zeta)) [
    | inl h ↦
        let keys = should_rekey-HasKeys zeta session h in
        let (kek, e) = IsPresent-some (key_ref zeta false).recv.kek keys.recv_kek in
        let i = length k1 - 16 in
        let last = authenticate-NoPanic zeta kek n (take i k1) (drop i k1) size in
        rw (h, e) (ground arith)
    | inr h ↦ rw h (ground arith)
  ]

  is_r1-HasKeys :
      (beta : ZetaAutomata c) (next current : DuplexKey)
      → Ready beta next current
      → is_r1 beta ≡ true
      → HasKeys current
  unfolding is_r1
  is_r1-HasKeys null next current h e = cc
  is_r1-HasKeys s1 next current h e = cc
  is_r1-HasKeys s2 next current h e = cc
  is_r1-HasKeys (a1 a) next current h e = cc
  is_r1-HasKeys (a3 identity packet) next current h e = cc
  is_r1-HasKeys (r1 noise e_secret k1) next current h e = h.0
  is_r1-HasKeys (r2 k2) next current h e = cc

  k2_auth-NoPanic :
      (zeta : Zeta c) (kid : ℕ) (n k2 : List ℕ)
      → IsSession zeta
      → length n ≡ 12
      → NoPanic (k2_auth zeta kid n k2)
  unfolding k2_auth
  k2_auth-NoPanic zeta kid n k2 session size = elim (Bool-cases (is_r1 zeta.beta)) [
    | inl h ↦
        let keys = is_r1-HasKeys zeta.beta (key_ref zeta true) (key_ref zeta false) session h in
        let (kek, e) = IsPresent-some (key_ref zeta false).recv.kek keys.recv_kek in
        let i = length k2 - 16 in
        let last = authenticate-NoPanic zeta kek n (take i k2) (drop i k2) size in
        rw (h, e) (ground arith)
    | inr h ↦ rw h (ground arith)
  ]

  to_r2-IsSession :
      (settings : Settings) (time : ℕ) (zeta : Zeta c) (noise : SymmetricState) (kid kid' : ℕ)
      (k2 : List ℕ)
      → HasKeys (key_ref zeta false)
      → IsSession (to_r2 settings time zeta noise kid kid' k2)
  unfolding to_r2 key_ref key_mut
  to_r2-IsSession settings time zeta noise kid kid' k2 keys = elim (Bool-cases zeta.key_index) [
    | inl i ↦ rw i (
      rw i at keys,
      record {
        send_kek = tt;
        send_nk = tt;
        send_kid = tt;
        recv_kek = tt;
        recv_nk = tt;
        recv_kid = tt;
      },
    )
    | inr i ↦ rw i (
      rw i at keys,
      record {
        send_kek = tt;
        send_nk = tt;
        send_kid = tt;
        recv_kek = tt;
        recv_nk = tt;
        recv_kid = tt;
      },
    )
  ]

  rekeyed-IsSession :
      (settings : Settings) (time : ℕ) (zeta : Zeta c) (noise : SymmetricState) (kid : ℕ)
      → IsPresent (key_ref zeta true).recv.kid
      → IsSession (rekeyed settings time zeta noise kid)
  unfolding rekeyed key_ref key_mut
  rekeyed-IsSession settings time zeta noise kid own = elim (Bool-cases zeta.key_index) [
    | inl i ↦ rw i (record {
      send_kek = tt;
      send_nk = tt;
      send_kid = tt;
      recv_kek = tt;
      recv_nk = tt;
      recv_kid = rw i at own;
    })
    | inr i ↦ rw i (record {
      send_kek = tt;
      send_nk = tt;
      send_kid = tt;
      recv_kek = tt;
      recv_nk = tt;
      recv_kid = rw i at own;
    })
  ]

  expire_if-Safe :
      {A : Type 0} (s : Step c ReceiveError A) (o : Outcome ReceiveError A)
      → Safe s
      → Safe (expire_if s o)
  unfolding expire_if stop_expired expire stop
  expire_if-Safe s (err (byzantine_fault f)) h = record { session = tt; no_panic = tt }
  expire_if-Safe s (err max_key_lifetime_exceeded) h = h
  expire_if-Safe s (err rejected) h = h
  expire_if-Safe s (err (storage_error e)) h = h
  expire_if-Safe s (err (write_error e)) h = h
  expire_if-Safe s (ok a) h = h
  expire_if-Safe s panic h = h
  expire_if-Safe s unfinished h = h

  k1_result-Safe :
      (settings : Settings) (app : App c) (session : ℕ) (s_secret : c.KeyPair) (zeta : Zeta c)
      (m : SessionMap) (e_secret : c.KeyPair) (kids k1 : List ℕ)
      → IsSession zeta
      → HasKeys (key_ref zeta false)
      → length k1 ≡ 69
      → Safe (k1_result settings app session s_secret zeta m e_secret kids k1)
  unfolding k1_result
  k1_result-Safe settings app session s_secret zeta m e_secret kids k1 h keys size =
      continue-Safe zeta m (read_k1 zeta s_secret k1) _ h (read_k1-NoPanic zeta s_secret k1 size)
        λ (e_remote, noise, kid_send) _.
          continue-Safe zeta m (remap session zeta kids m) _ h (remap-NoPanic session zeta kids m)
            λ (m', new_kid_recv) _. continue-Safe zeta m' (saved _) _ h (saved-NoPanic _) λ _ _.
              record {
                session =
                    send_control-IsSession settings _ 6 _
                      (to_r2-IsSession settings app.time zeta _ kid_send new_kid_recv _ keys);
                no_panic = tt;
              }

module _ {c : CryptoLayer} (laws : IsLawful c) where
  authenticate-size :
      (zeta zeta' : Zeta c) (key n body tag plain : List ℕ)
      → authenticate zeta key n body tag ≡ ok (zeta', plain)
      → length plain ≡ length body
  unfolding authenticate
  authenticate-size zeta zeta' key n body tag plain h =
      elim (Bool-cases (c.aead_decrypt key n none body tag).1) [
        | inr a ↦ let no = rw a at h in cc
        | inl a ↦
            let (x, _, rest) = >>=-ok (from_nonce {E = ReceiveError} n) _ (rw a at h) in
            let (_, _, last) =
              >>=-ok (fail_if (not (update_counter_window zeta x.1).1) (fault expired_counter true))
                _ rest in
            ap length (sym (ap (λ r. r.1) (ok_inj last))) ∙ laws.decrypt_size key n none body tag
      ]

  k1_auth-ok :
      (zeta zeta' : Zeta c) (kid : ℕ) (n k1 plain : List ℕ)
      → k1_auth zeta kid n k1 ≡ ok (zeta', plain)
      → (should_rekey_as_bob zeta ≡ true) × SameSession zeta zeta' × (length plain ≡ 69)
  unfolding k1_auth
  k1_auth-ok zeta zeta' kid n k1 plain h =
      let (_, is_size, h1) =
        >>=-ok (fail_if (not (length k1 == 85)) (fault invalid_packet true)) _ h in
      let (_, _, h2) =
        >>=-ok
          (fail_if (not (same_kid kid (key_ref zeta false).recv.kid))
            (fault unknown_local_key_id false))
          _ h1 in
      let (_, is_s, h3) =
        >>=-ok (fail_if (not (should_rekey_as_bob zeta)) (fault out_of_sequence false)) _ h2 in
      let (kek, _, h4) = >>=-ok (unwrap (key_ref zeta false).recv.kek) _ h3 in
      let size =
        not-false (fail_if-ok (not (length k1 == 85)) (fault invalid_packet true) is_size) in
      let i = length k1 - 16 in
      (
        not-false (fail_if-ok (not (should_rekey_as_bob zeta)) (fault out_of_sequence false) is_s),
        authenticate-SameSession zeta zeta' kek n (take i k1) (drop i k1) plain h4,
        authenticate-size zeta zeta' kek n (take i k1) (drop i k1) plain h4 ∙ body_size k1 size,
      )

  k2_auth-ok :
      (zeta zeta' : Zeta c) (kid : ℕ) (n k2 plain : List ℕ)
      → k2_auth zeta kid n k2 ≡ ok (zeta', plain)
      → (is_r1 zeta.beta ≡ true) × SameSession zeta zeta' × (length plain ≡ 69)
  unfolding k2_auth
  k2_auth-ok zeta zeta' kid n k2 plain h =
      let (_, is_size, h1) =
        >>=-ok (fail_if (not (length k2 == 85)) (fault invalid_packet true)) _ h in
      let (_, _, h2) =
        >>=-ok
          (fail_if (not (same_kid kid (key_ref zeta false).recv.kid))
            (fault unknown_local_key_id false))
          _ h1 in
      let (_, is_s, h3) =
        >>=-ok (fail_if (not (is_r1 zeta.beta)) (fault out_of_sequence false)) _ h2 in
      let (kek, _, h4) = >>=-ok (unwrap (key_ref zeta false).recv.kek) _ h3 in
      let size =
        not-false (fail_if-ok (not (length k2 == 85)) (fault invalid_packet true) is_size) in
      let i = length k2 - 16 in
      (
        not-false (fail_if-ok (not (is_r1 zeta.beta)) (fault out_of_sequence false) is_s),
        authenticate-SameSession zeta zeta' kek n (take i k2) (drop i k2) plain h4,
        authenticate-size zeta zeta' kek n (take i k2) (drop i k2) plain h4 ∙ body_size k2 size,
      )

  -- Whatever packet with a nonce of 12 bytes comes as the first one of a rekeying, in whatever
  -- state, the handler does not panic and leaves a session that is complete for its state, in its
  -- keys and in the room that an offer has for the answer to a challenge, where it was before.
  -- Decryption keeps the length.
  pub received_k1_trans-Safe :
      (settings : Settings) (app : App c) (session : ℕ) (s_secret : c.KeyPair) (zeta : Zeta c)
      (m : SessionMap) (e_secret : c.KeyPair) (kids : List ℕ) (kid : ℕ) (n k1 : List ℕ)
      → IsSession zeta
      → length n ≡ 12
      → Safe (received_k1_trans settings app session s_secret zeta m e_secret kids kid n k1)
  unfolding received_k1_trans expire_on_fault
  received_k1_trans-Safe settings app session s_secret zeta m e_secret kids kid n k1 h size =
      continue-Safe zeta m (k1_auth zeta kid n k1) _ h (k1_auth-NoPanic zeta kid n k1 h size)
        λ (zeta', plain) l.
          let (should, same, body) = k1_auth-ok zeta zeta' kid n k1 plain l in
          let keys = same_keys zeta zeta' false same (should_rekey-HasKeys zeta h should) in
          let s = k1_result settings app session s_secret zeta' m e_secret kids plain in
          expire_if-Safe s s.result (
            k1_result-Safe settings app session s_secret zeta' m e_secret kids plain
              (same_session zeta zeta' same h) keys body)

  in_r1-Safe :
      (settings : Settings) (app : App c) (zeta : Zeta c) (m : SessionMap) (k2 : List ℕ)
      (noise : SymmetricState) (e_secret : c.KeyPair)
      → IsSession zeta
      → IsPresent (key_ref zeta true).recv.kid
      → length k2 ≡ 69
      → Safe (in_r1 settings app zeta m k2 noise e_secret)
  unfolding in_r1
  in_r1-Safe settings app zeta m k2 noise e_secret h own size =
      continue-Safe zeta m (read_k2 zeta noise e_secret k2) _ h
        (read_k2-NoPanic zeta noise e_secret k2 size)
        λ (noise', kid) _. continue-Safe zeta m (saved _) _ h (saved-NoPanic _) λ _ _. record {
          session =
              send_control-IsSession settings _ 3 []
                (rekeyed-IsSession settings app.time zeta noise' kid own);
          no_panic = tt;
        }

  k2_result-Safe :
      (settings : Settings) (app : App c) (zeta : Zeta c) (m : SessionMap) (k2 : List ℕ)
      (beta : ZetaAutomata c)
      → Ready beta (key_ref zeta true) (key_ref zeta false)
      → IsSession zeta
      → is_r1 beta ≡ true
      → length k2 ≡ 69
      → Safe (k2_result settings app zeta m k2 beta)
  unfolding k2_result is_r1
  k2_result-Safe settings app zeta m k2 null h session e size = cc
  k2_result-Safe settings app zeta m k2 s1 h session e size = cc
  k2_result-Safe settings app zeta m k2 s2 h session e size = cc
  k2_result-Safe settings app zeta m k2 (a1 a) h session e size = cc
  k2_result-Safe settings app zeta m k2 (a3 identity packet) h session e size = cc
  k2_result-Safe settings app zeta m k2 (r1 noise e_secret k1) h session e size =
      in_r1-Safe settings app zeta m k2 noise e_secret session h.1 size
  k2_result-Safe settings app zeta m k2 (r2 k2') h session e size = cc

  -- Whatever packet with a nonce of 12 bytes comes as the second one of a rekeying, in whatever
  -- state, the handler does not reach its unreachable branch or panic in another way, and leaves a
  -- session that is complete for its state, in its keys and in the room that an offer has for the
  -- answer to a challenge, where it was before. Decryption keeps the length.
  pub received_k2_trans-Safe :
      (settings : Settings) (app : App c) (zeta : Zeta c) (m : SessionMap) (kid : ℕ) (n k2 : List ℕ)
      → IsSession zeta
      → length n ≡ 12
      → Safe (received_k2_trans settings app zeta m kid n k2)
  unfolding received_k2_trans expire_on_fault
  received_k2_trans-Safe settings app zeta m kid n k2 h size =
      continue-Safe zeta m (k2_auth zeta kid n k2) _ h (k2_auth-NoPanic zeta kid n k2 h size)
        λ (zeta', plain) l.
          let (is_s, same, body) = k2_auth-ok zeta zeta' kid n k2 plain l in
          let session = same_session zeta zeta' same h in
          let s = k2_result settings app zeta' m plain zeta'.beta in
          let beta : is_r1 zeta'.beta ≡ true = ap (λ z. is_r1 z.beta) same ∙ is_s in
          expire_if-Safe s s.result
            (k2_result-Safe settings app zeta' m plain zeta'.beta session session beta body)

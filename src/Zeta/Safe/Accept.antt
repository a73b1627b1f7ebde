-- ===== src/Zeta/Safe/Accept.antt =====
-- reference/src/zeta.rs: the last packet of a handshake, and the keys of the session it makes.
use zssp.Base.{
  ℕ, ◌-◌, ◌≤◌, ◌≡◌, refl, ap, subst, true, false, Bool, Bool-cases, ◌&&◌, ◌||◌, not, List, Option,
  none, some, inl, inr, length, arith, leb, ◌==◌,
}
use zssp.Crypto.Layer.{CryptoLayer}
use zssp.Noise.{SymmetricState, decrypt_and_hash_in_place}
use zssp.Ratchet.{RatchetStates, is_empty}
use zssp.Results.{
  Outcome, ok, err, panic, unfinished, fail_if, ok_or, fault, invalid_packet, failed_auth,
  unknown_local_key_id, out_of_sequence, >>=-ok, ok_inj, ReceiveError,
}
use zssp.Zeta.Data.{App, Settings, IoResult, StateB2, Zeta}
use zssp.Zeta.Keys.{SessionMap, key_ref, contains_key}
use zssp.Zeta.Nonce.{to_nonce}
use zssp.Zeta.Tokens.{read}
use zssp.Zeta.X1.{}
use zssp.Zeta.X2.{saved}
use zssp.Zeta.X3.{
  Accepted, read_x3, x3_identity, x3_save, x3_accept, x3_peer, x3_known, x3_finish, x3_in, restored,
  is_mismatch, b2_to_s1, refuse, received_x3_trans,
}
use zssp.Zeta.Safe.{
  NoPanic, IsSession, fail_if-ok, not-false, bind-NoPanic, fail_if-NoPanic, ok_or-NoPanic,
}
use zssp.Zeta.Safe.Tokens.{read-NoPanic, read_then-NoPanic, saved-NoPanic}

-- The session of an answer.
some_fst {ℓ} : {A : Type ℓ} (t t' : A × Bool) → some t ≡ some t' → t.0 ≡ t'.0
some_fst t t' h = ap (λ o. elim o [ none ↦ t.0 | some u ↦ u.0 ]) h

none-some {ℓ} : {A : Type ℓ} {a : A} → none ≡ some a → ⊥
none-some h = cc

restored-NoPanic : (o : IoResult (Option RatchetStates)) → NoPanic (restored o)
unfolding restored
restored-NoPanic o = ground arith

module _ {c : CryptoLayer} where
  read_x3-NoPanic : (b : StateB2 c) (x3 : List ℕ) → 81 ≤ length x3 → NoPanic (read_x3 b x3)
  unfolding read_x3
  read_x3-NoPanic b x3 size = read_then-NoPanic 49 x3 _ (omega arith) λ s rest1 size1.
      read_then-NoPanic 16 rest1 _ (omega arith) λ tag rest2 size2.
        let opened = decrypt_and_hash_in_place c b.noise (to_nonce 2 1) s tag in
        bind-NoPanic (fail_if (not opened.2) (fault failed_auth true)) _ (fail_if-NoPanic _ _)
          λ _ _.
            bind-NoPanic (ok_or (c.from_bytes opened.1) (fault failed_auth true)) _
              (ok_or-NoPanic _ _)
              λ s_remote _.
                let last = read-NoPanic ReceiveError (length rest2 - 16) rest2 (omega arith) in
                bind-NoPanic (read {E = ReceiveError} (length rest2 - 16) rest2) _ last
                  λ (payload, tag') _. ground arith

  x3_identity-NoPanic : (b : StateB2 c) (kid : ℕ) (x3 : List ℕ) → NoPanic (x3_identity b kid x3)
  unfolding x3_identity
  x3_identity-NoPanic b kid x3 =
      let is_size = leb 81 (length x3) && leb (length x3) 4177 in
      bind-NoPanic (fail_if (not is_size) (fault invalid_packet true)) _ (fail_if-NoPanic _ _)
        λ _ sized.
          let size = not-false (fail_if-ok (not is_size) (fault invalid_packet true) sized) in
          bind-NoPanic (fail_if (not (kid == b.kid_recv)) (fault unknown_local_key_id true)) _
            (fail_if-NoPanic _ _) λ _ _. read_x3-NoPanic b x3 (ground arith)

  x3_save-NoPanic :
      (settings : Settings) (app : App c) (m : SessionMap) (b : StateB2 c) (session_data : ℕ)
      (s : c.PublicKey) (states : RatchetStates) (noise : SymmetricState)
      → NoPanic (x3_save settings app m b session_data s states noise)
  unfolding x3_save
  x3_save-NoPanic settings app m b session_data s states noise =
      bind-NoPanic (saved _) _ (saved-NoPanic _) λ _ _. ground arith

  x3_save-ok :
      (settings : Settings) (app : App c) (m : SessionMap) (b : StateB2 c) (session_data : ℕ)
      (s : c.PublicKey) (states : RatchetStates) (noise : SymmetricState) (zeta : Zeta c)
      → x3_save settings app m b session_data s states noise ≡ ok zeta
      → IsSession zeta
  unfolding x3_save b2_to_s1 key_ref
  x3_save-ok settings app m b session_data s states noise zeta h =
      let (_, _, h1) = >>=-ok (saved _) _ h in
      let (_, _, last) =
        >>=-ok (fail_if (contains_key m.session_map b.kid_recv) (fault out_of_sequence false)) _
          h1 in
      subst IsSession (ok_inj last) (record {
        send_kek = tt;
        send_nk = tt;
        send_kid = tt;
        recv_kek = tt;
        recv_nk = tt;
        recv_kid = tt;
      })

  x3_known-NoPanic :
      (settings : Settings) (app : App c) (m : SessionMap) (b : StateB2 c) (s : c.PublicKey)
      (noise : SymmetricState) (disallows : Bool) (session_data : ℕ)
      → NoPanic (x3_known settings app m b s noise disallows session_data)
  unfolding x3_known
  x3_known-NoPanic settings app m b s noise disallows session_data =
      bind-NoPanic (restored (app.restore_by_identity s session_data)) _ (restored-NoPanic _)
        λ states _.
          let save = x3_save-NoPanic settings app m b session_data s states noise in ground arith

  x3_peer-NoPanic :
      (settings : Settings) (app : App c) (m : SessionMap) (b : StateB2 c) (s : c.PublicKey)
      (noise : SymmetricState) (disallows : Bool) (o : Option ℕ)
      → NoPanic (x3_peer settings app m b s noise disallows o)
  unfolding x3_peer
  x3_peer-NoPanic settings app m b s noise disallows none = tt
  x3_peer-NoPanic settings app m b s noise disallows (some d) =
      x3_known-NoPanic settings app m b s noise disallows d

  x3_known-ok :
      (settings : Settings) (app : App c) (m : SessionMap) (b : StateB2 c) (s : c.PublicKey)
      (noise : SymmetricState) (disallows : Bool) (session_data : ℕ) (zeta : Zeta c) (warn : Bool)
      → x3_known settings app m b s noise disallows session_data ≡ ok (some (zeta, warn))
      → IsSession zeta
  unfolding x3_known
  x3_known-ok settings app m b s noise disallows session_data zeta warn h =
      let (states, _, h1) = >>=-ok (restored (app.restore_by_identity s session_data)) _ h in
      elim (Bool-cases
        (is_mismatch b.ratchet_state states && (disallows || not (is_empty b.ratchet_state)))) [
          | inl refused ↦ let no = rw refused at h1 in cc
          | inr allowed ↦
              let (zeta', save, last) =
                >>=-ok (x3_save settings app m b session_data s states noise) _
                  (rw allowed at h1) in
              subst IsSession
                (some_fst (zeta', is_mismatch b.ratchet_state states) (zeta, warn) (ok_inj last))
                (x3_save-ok settings app m b session_data s states noise zeta' save)
        ]

  x3_peer-ok :
      (settings : Settings) (app : App c) (m : SessionMap) (b : StateB2 c) (s : c.PublicKey)
      (noise : SymmetricState) (disallows : Bool) (o : Option ℕ) (zeta : Zeta c) (warn : Bool)
      → x3_peer settings app m b s noise disallows o ≡ ok (some (zeta, warn))
      → IsSession zeta
  unfolding x3_peer
  x3_peer-ok settings app m b s noise disallows none zeta warn h = absurd (none-some (ok_inj h))
  x3_peer-ok settings app m b s noise disallows (some d) zeta warn h =
      x3_known-ok settings app m b s noise disallows d zeta warn h

  -- A session that is accepted is complete, and the handler does not panic.
  pub record SafeNew (a : Accepted c) : Type 0 where
    pub no_panic : NoPanic a.result
    pub session : (zeta : Zeta c) (warn : Bool) → a.result ≡ ok (zeta, warn) → IsSession zeta

  x3_finish-SafeNew :
      (app : App c) (m : SessionMap) (session : ℕ) (b : StateB2 c) (s : c.PublicKey)
      (identity kek : List ℕ) (o : Outcome ReceiveError (Option (Zeta c × Bool)))
      → NoPanic o
      → ((zeta : Zeta c) (warn : Bool) → o ≡ ok (some (zeta, warn)) → IsSession zeta)
      → SafeNew (x3_finish app m session b s identity kek o)
  unfolding x3_finish refuse
  x3_finish-SafeNew app m session b s identity kek (err e) h k = record {
    no_panic = tt;
    session = λ zeta warn l. cc;
  }
  x3_finish-SafeNew app m session b s identity kek panic h k = absurd h
  x3_finish-SafeNew app m session b s identity kek unfinished h k = record {
    no_panic = tt;
    session = λ zeta warn l. cc;
  }
  x3_finish-SafeNew app m session b s identity kek (ok none) h k = record {
    no_panic = tt;
    session = λ zeta warn l. cc;
  }
  x3_finish-SafeNew app m session b s identity kek (ok (some (zeta', warn'))) h k = record {
    no_panic = tt;
    session = λ zeta warn l. subst IsSession (ap (λ t. t.0) (ok_inj l)) (k zeta' warn' refl);
  }

  x3_in-SafeNew :
      (settings : Settings) (app : App c) (m : SessionMap) (session : ℕ) (b : StateB2 c)
      (o : Outcome ReceiveError (c.PublicKey × List ℕ × SymmetricState))
      → NoPanic o
      → SafeNew (x3_in settings app m session b o)
  unfolding x3_in x3_accept refuse
  x3_in-SafeNew settings app m session b (err e) h = record {
    no_panic = tt;
    session = λ zeta warn l. cc;
  }
  x3_in-SafeNew settings app m session b panic h = absurd h
  x3_in-SafeNew settings app m session b unfinished h = record {
    no_panic = tt;
    session = λ zeta warn l. cc;
  }
  x3_in-SafeNew settings app m session b (ok (s, identity, noise)) h =
      x3_finish-SafeNew app m session b s identity _ (x3_accept settings app m b s identity noise)
        (x3_peer-NoPanic settings app m b s noise _ _) (x3_peer-ok settings app m b s noise _ _)

  -- Whatever bytes come as the last packet of a handshake, the responder does not panic, and a
  -- session that it makes has complete keys.
  pub received_x3_trans-SafeNew :
      (settings : Settings) (app : App c) (m : SessionMap) (session : ℕ) (b : StateB2 c) (kid : ℕ)
      (x3 : List ℕ)
      → SafeNew (received_x3_trans settings app m session b kid x3)
  unfolding received_x3_trans
  received_x3_trans-SafeNew settings app m session b kid x3 =
      x3_in-SafeNew settings app m session b (x3_identity b kid x3) (x3_identity-NoPanic b kid x3)

-- ===== src/Zeta/Safe/Payload.antt =====
-- reference/src/zeta.rs: payloads, and the keys that a session needs.
use zssp.Base.{
  ℕ, ◌-◌, ◌≡◌, refl, sym, subst, true, false, Bool, List, Option, none, some, length, take, drop,
  arith, ltb,
}
use zssp.Crypto.Layer.{CryptoLayer}
use zssp.Results.{
  Outcome, ok, err, panic, unfinished, fail_if, ok_or, >>=-ok, fault, failed_auth, out_of_sequence,
  SendError,
}
use zssp.Zeta.Data.{Settings, DuplexKey, Zeta, ZetaAutomata, null, s1, s2, a1, a3, r1, r2}
use zssp.Zeta.Auth.{find_kid}
use zssp.Zeta.Control.{Step}
use zssp.Zeta.Keys.{SessionMap, expire, key_ref, get_counter}
use zssp.Zeta.Payload.{
  can_send, send_payload, send_allowed, send_counted, finish, seal_payload,
  received_payload_in_place,
}
use zssp.Zeta.Safe.{
  SameSession, authenticate-SameSession, IsPresent-some, HasKeys, NoPanic, Ready, IsSession, Safe,
  bind-NoPanic, fail_if-NoPanic, ok_or-NoPanic, authenticate-NoPanic,
}
use zssp.Zeta.Safe.Confirm.{find_kid-NoPanic}

seal_payload-NoPanic :
    (c : CryptoLayer) (key : DuplexKey) (hk : List ℕ) (n : ℕ) (payload : List ℕ)
    → HasKeys key
    → NoPanic (seal_payload c key hk n payload)
unfolding seal_payload
seal_payload-NoPanic c key hk n payload keys =
    let (nk, e) = IsPresent-some key.send.nk keys.send_nk in
    let (kid, e') = IsPresent-some key.send.kid keys.send_kid in rw (e, e') tt

module _ {c : CryptoLayer} where
  can_send-HasKeys :
      (beta : ZetaAutomata c) (next current : DuplexKey)
      → Ready beta next current
      → can_send beta ≡ ok tt
      → HasKeys current
  unfolding can_send
  can_send-HasKeys null next current h e = cc
  can_send-HasKeys (a1 a) next current h e = cc
  can_send-HasKeys (a3 identity packet) next current h e = cc
  can_send-HasKeys s1 next current h e = h
  can_send-HasKeys s2 next current h e = h
  can_send-HasKeys (r1 noise e_secret k1) next current h e = h.0
  can_send-HasKeys (r2 k2) next current h e = h.0

  finish-Safe :
      (zeta : Zeta c) (m : SessionMap) (o : Outcome SendError (List _))
      → IsSession zeta
      → NoPanic o
      → Safe (finish zeta m o)
  unfolding finish
  finish-Safe zeta m (ok sent) h k = record { session = h; no_panic = tt }
  finish-Safe zeta m (err e) h k = record { session = h; no_panic = tt }
  finish-Safe zeta m panic h k = absurd k
  finish-Safe zeta m unfinished h k = record { session = h; no_panic = tt }

  get_counter-IsSession :
      (settings : Settings) (zeta : Zeta c)
      → IsSession zeta
      → IsSession (get_counter settings zeta).0
  unfolding get_counter key_ref
  get_counter-IsSession settings zeta h = ground arith

  get_counter-key_ref :
      (settings : Settings) (zeta : Zeta c)
      → key_ref (get_counter settings zeta).0 false ≡ key_ref zeta false
  unfolding get_counter key_ref
  get_counter-key_ref settings zeta = ground arith

  send_counted-Safe :
      (zeta : Zeta c) (m : SessionMap) (payload : List ℕ) (counter : Option (ℕ × Bool))
      → IsSession zeta
      → HasKeys (key_ref zeta false)
      → Safe (send_counted zeta m payload counter)
  unfolding send_counted expire key_ref
  send_counted-Safe zeta m payload none h keys = record { session = tt; no_panic = tt }
  send_counted-Safe zeta m payload (some (n, should_rekey)) h keys =
      finish-Safe _ m _ (ground arith)
        (seal_payload-NoPanic c (key_ref zeta false) zeta.hk_send n payload keys)

  send_allowed-Safe :
      (zeta : Zeta c) (m : SessionMap) (o : Outcome SendError (Unit {0}))
      (s : Step c SendError (Unit {0}))
      → IsSession zeta
      → NoPanic o
      → (o ≡ ok tt → Safe s)
      → Safe (send_allowed zeta m o s)
  unfolding send_allowed
  send_allowed-Safe zeta m (ok u) s h k l = l refl
  send_allowed-Safe zeta m (err e) s h k l = record { session = h; no_panic = tt }
  send_allowed-Safe zeta m panic s h k l = absurd k
  send_allowed-Safe zeta m unfinished s h k l = record { session = h; no_panic = tt }

  can_send-NoPanic : (beta : ZetaAutomata c) → NoPanic (can_send beta)
  unfolding can_send
  can_send-NoPanic null = tt
  can_send-NoPanic (a1 a) = tt
  can_send-NoPanic (a3 identity packet) = tt
  can_send-NoPanic s1 = tt
  can_send-NoPanic s2 = tt
  can_send-NoPanic (r1 noise e_secret k1) = tt
  can_send-NoPanic (r2 k2) = tt

  pub send_payload-Safe :
      (settings : Settings) (zeta : Zeta c) (m : SessionMap) (payload : List ℕ)
      → IsSession zeta
      → Safe (send_payload settings zeta m payload)
  unfolding send_payload
  send_payload-Safe settings zeta m payload session =
      send_allowed-Safe zeta m (can_send zeta.beta) _ session (can_send-NoPanic zeta.beta)
        λ allowed.
          let keys =
            can_send-HasKeys zeta.beta (key_ref zeta true) (key_ref zeta false) session allowed in
          send_counted-Safe (get_counter settings zeta).0 m payload (get_counter settings zeta).1
            (get_counter-IsSession settings zeta session)
            (subst HasKeys (sym (get_counter-key_ref settings zeta)) keys)

  pub received_payload_in_place-NoPanic :
      (zeta : Zeta c) (kid : ℕ) (n payload : List ℕ)
      → length n ≡ 12
      → NoPanic (received_payload_in_place zeta kid n payload)
  unfolding received_payload_in_place
  received_payload_in_place-NoPanic zeta kid n payload size =
      let i = length payload - 16 in
      bind-NoPanic (fail_if (ltb (length payload) 16) (fault failed_auth true)) _
        (fail_if-NoPanic _ _)
        λ _ _. bind-NoPanic (find_kid zeta kid) _ (find_kid-NoPanic zeta kid) λ is_other _.
          bind-NoPanic (ok_or (key_ref zeta is_other).recv.nk (fault out_of_sequence true)) _
            (ok_or-NoPanic _ _)
            λ nk _. authenticate-NoPanic zeta nk n (take i payload) (drop i payload) size

  pub received_payload_in_place-SameSession :
      (zeta zeta' : Zeta c) (kid : ℕ) (n payload plain : List ℕ)
      → received_payload_in_place zeta kid n payload ≡ ok (zeta', plain)
      → SameSession zeta zeta'
  unfolding received_payload_in_place
  received_payload_in_place-SameSession zeta zeta' kid n payload plain h =
      let i = length payload - 16 in
      let (_, _, h1) = >>=-ok (fail_if (ltb (length payload) 16) (fault failed_auth true)) _ h in
      let (is_other, _, h2) = >>=-ok (find_kid zeta kid) _ h1 in
      let (nk, _, last) =
        >>=-ok (ok_or (key_ref zeta is_other).recv.nk (fault out_of_sequence true)) _ h2 in
      authenticate-SameSession zeta zeta' nk n (take i payload) (drop i payload) plain last

-- ===== src/Zeta/Safe/Run.antt =====
-- reference/src/zeta.rs: the keys that a session needs, over any calls.
use zssp.Base.{
  ℕ, ◌<◌, sym, if◌then◌else◌, ◌≡◌, refl, ap, subst, true, false, Bool, ◌&&◌, ◌||◌, List, [], ◌∷◌,
  ◌++◌, length, leb,
}
use zssp.Crypto.Layer.{CryptoLayer, IsLawful}
use zssp.Results.{
  Outcome, ok, err, panic, unfinished, is_panic, ok_inj, >>=-ok, ReceiveError, ◌>>=◌,
}
use zssp.Zeta.Control.{Step, stop}
use zssp.Zeta.Data.{Settings, Zeta}
use zssp.Zeta.Auth.{stop_expired}
use zssp.Zeta.Hello.{respond_in, respond_to_challenge}
use zssp.Zeta.Keys.{SessionMap, expire}
use zssp.Zeta.Payload.{received_payload_in_place}
use zssp.Zeta.Run.{
  Call, receive_x2, receive_c1, receive_c2, receive_d, receive_k1, receive_k2, receive_payload,
  send_data, tick, respond, end_session, Left, left, kept, call, run,
}
use zssp.Zeta.Safe.{
  Panics, Safe-Panics, expires, bind-NoPanic, IsSession, NoPanic, Safe, same_session,
}
use zssp.Zeta.Safe.Respond.{respond_in-Safe}
use zssp.Zeta.Safe.Confirm.{received_c1_trans-Safe, received_c2_trans-Safe, received_d_trans-Safe}
use zssp.Zeta.Safe.Handshake.{received_x2_trans-Safe}
use zssp.Zeta.Safe.Payload.{
  send_payload-Safe, received_payload_in_place-NoPanic, received_payload_in_place-SameSession,
}
use zssp.Zeta.Safe.Rekey.{received_k1_trans-Safe, received_k2_trans-Safe}
use zssp.Zeta.Safe.Timers.{service-Panics}

module _ {c : CryptoLayer} where
  -- A packet that comes with a call has a nonce of 12 bytes, and a challenge has 32.
  abbrev pub IsCall : Call c → Type 0
  IsCall (receive_x2 app rng p) = length p.nonce ≡ 12
  IsCall (receive_c1 app r p) = length p.nonce ≡ 12
  IsCall (receive_c2 app r p) = length p.nonce ≡ 12
  IsCall (receive_d p) = length p.nonce ≡ 12
  IsCall (receive_k1 app e_secret kids p) = length p.nonce ≡ 12
  IsCall (receive_k2 app p) = length p.nonce ≡ 12
  IsCall (receive_payload p) = length p.nonce ≡ 12
  IsCall (send_data payload) = Unit {0}
  IsCall (tick time rng) = Unit {0}
  IsCall (respond fuel pow challenge) = length challenge ≡ 32
  IsCall end_session = Unit {0}

  abbrev pub AreCalls : List (Call c) → Type 0
  AreCalls [] = Unit {0}
  AreCalls (this ∷ calls) = IsCall this × AreCalls calls

  -- A service after the timeout of a session whose state a timeout ends.
  unfoldable pub is_overdue : Zeta c → Call c → Bool
  is_overdue zeta (tick time rng) = leb zeta.timeout_timer time && (expires zeta.beta && true)
  is_overdue zeta (receive_x2 app rng p) = false
  is_overdue zeta (receive_c1 app r p) = false
  is_overdue zeta (receive_c2 app r p) = false
  is_overdue zeta (receive_d p) = false
  is_overdue zeta (receive_k1 app e_secret kids p) = false
  is_overdue zeta (receive_k2 app p) = false
  is_overdue zeta (receive_payload p) = false
  is_overdue zeta (send_data payload) = false
  is_overdue zeta (respond fuel pow challenge) = false
  is_overdue zeta end_session = false

  -- What is left is a session, and a call panicked exactly where `due` says so.
  pub record SafeLeft (due : Bool) (l : Left c) : Type 0 where
    pub session : IsSession l.zeta
    pub panics : l.panicked ≡ due

  left-SafeLeft :
      {E A : Type 0} (due : Bool) (s : Step c E A) → Panics due s → SafeLeft due (left s)
  unfolding left
  left-SafeLeft due s h = record { session = h.session; panics = h.panics }

  Safe-SafeLeft : {E A : Type 0} (s : Step c E A) → Safe s → SafeLeft false (left s)
  Safe-SafeLeft s h = left-SafeLeft false s (Safe-Panics s h)

  kept-SafeLeft :
      {A : Type 0} (zeta : Zeta c) (m : SessionMap) (o : Outcome ReceiveError (Zeta c × A))
      → IsSession zeta
      → NoPanic o
      → ((zeta' : Zeta c) (a : A) → o ≡ ok (zeta', a) → IsSession zeta')
      → SafeLeft false (kept zeta m o)
  unfolding kept
  kept-SafeLeft zeta m (ok (zeta', a)) h k after = record {
    session = after zeta' a refl;
    panics = refl;
  }
  kept-SafeLeft zeta m (err e) h k after = record { session = h; panics = refl }
  kept-SafeLeft zeta m panic h k after = absurd k
  kept-SafeLeft zeta m unfinished h k after = record { session = h; panics = refl }

  -- What one call leaves, and where it does not panic what the others leave.
  then-SafeLeft :
      (due more : Bool) (first rest : Left c)
      → SafeLeft due first
      → SafeLeft more rest
      → SafeLeft
          (due || more)
          (if first.panicked then first else record rest { sent = first.sent ++ rest.sent })
  then-SafeLeft true more first rest now later =
      subst
        (λ b. SafeLeft true (if b then first else record rest { sent = first.sent ++ rest.sent }))
        (sym now.panics) now
  then-SafeLeft false more first rest now later =
      subst
        (λ b. SafeLeft more (if b then first else record rest { sent = first.sent ++ rest.sent }))
        (sym now.panics) (record { session = later.session; panics = later.panics })

  respond-SafeLeft :
      (fuel pow : ℕ) (zeta : Zeta c) (m : SessionMap) (challenge : List ℕ)
      → IsSession zeta
      → length challenge ≡ 32
      → SafeLeft false
          (kept zeta m (respond_to_challenge c fuel pow zeta challenge >>= λ zeta'. ok (zeta', tt)))
  unfolding respond_to_challenge
  respond-SafeLeft fuel pow zeta m challenge h size =
      let o = respond_in c fuel pow zeta challenge zeta.beta in
      let (calm, after) = respond_in-Safe fuel pow zeta challenge zeta.beta h h size in
      kept-SafeLeft zeta m (o >>= λ zeta'. ok (zeta', tt)) h (bind-NoPanic o _ calm λ _ _. tt)
        λ zeta' a e.
          let (z, given, last) = >>=-ok o _ e in
          subst IsSession (ap (λ t. t.0) (ok_inj last)) (after z given)

  end-SafeLeft :
      (zeta : Zeta c) (m : SessionMap)
      → SafeLeft false (left (stop_expired {A = Unit {0}} zeta m (ok tt)))
  unfolding left stop_expired stop expire is_panic
  end-SafeLeft zeta m = record { session = tt; panics = refl }

  module _ (settings : Settings) (session : ℕ) (s : c.KeyPair) where
    -- Whether one of the calls is overdue when it comes.
    unfoldable pub any_overdue : Zeta c → SessionMap → List (Call c) → Bool
    any_overdue zeta m [] = false
    any_overdue zeta m (this ∷ calls) =
        let first = call settings session s zeta m this in
        is_overdue zeta this || any_overdue first.zeta first.maps calls

  module _ (laws : IsLawful c) (settings : Settings) (session : ℕ) (s : c.KeyPair) where
    call-SafeLeft :
        (zeta : Zeta c) (m : SessionMap) (this : Call c)
        → 0 < settings.rekey_time_max_jitter
        → IsSession zeta
        → IsCall this
        → SafeLeft (is_overdue zeta this) (call settings session s zeta m this)
    unfolding call is_overdue
    call-SafeLeft zeta m (receive_x2 app rng p) pos h size =
        Safe-SafeLeft _
          (received_x2_trans-Safe settings app session s zeta m rng p.kid p.nonce p.payload h size)
    call-SafeLeft zeta m (receive_c1 app r p) pos h size =
        Safe-SafeLeft _
          (received_c1_trans-Safe settings app r zeta m p.kid p.nonce p.payload h pos size)
    call-SafeLeft zeta m (receive_c2 app r p) pos h size =
        Safe-SafeLeft _
          (received_c2_trans-Safe settings app r zeta m p.kid p.nonce p.payload h pos size)
    call-SafeLeft zeta m (receive_d p) pos h size =
        Safe-SafeLeft _ (received_d_trans-Safe zeta m p.kid p.nonce p.payload h size)
    call-SafeLeft zeta m (receive_k1 app e_secret kids p) pos h size = Safe-SafeLeft _ (
        received_k1_trans-Safe laws settings app session s zeta m e_secret kids p.kid p.nonce
          p.payload h size)
    call-SafeLeft zeta m (receive_k2 app p) pos h size =
        Safe-SafeLeft _
          (received_k2_trans-Safe laws settings app zeta m p.kid p.nonce p.payload h size)
    call-SafeLeft zeta m (receive_payload p) pos h size =
        kept-SafeLeft zeta m (received_payload_in_place zeta p.kid p.nonce p.payload) h
          (received_payload_in_place-NoPanic zeta p.kid p.nonce p.payload size)
          λ zeta' plain l.
            same_session zeta zeta'
              (received_payload_in_place-SameSession zeta zeta' p.kid p.nonce p.payload plain l) h
    call-SafeLeft zeta m (send_data payload) pos h size =
        Safe-SafeLeft _ (send_payload-Safe settings zeta m payload h)
    call-SafeLeft zeta m (tick time rng) pos h size =
        left-SafeLeft _ _ (service-Panics true settings session s zeta m time rng h)
    call-SafeLeft zeta m (respond fuel pow challenge) pos h size =
        respond-SafeLeft fuel pow zeta m challenge h size
    call-SafeLeft zeta m end_session pos h size = end-SafeLeft zeta m

    -- Calls come on a session that is complete for its state, in any order, with any packets,
    -- times, random numbers and answers of the application: packets of every type that a session
    -- receives, challenges, payloads to send, services of the context, and the end of the session.
    -- They run without a panic up to the first service that comes after the timeout of the session
    -- in state S1, R1 or R2, and that one panics, as the context holds its sessions borrowed; and
    -- the session that is left is complete for its state again, in its keys and in the room that
    -- an offer has for the answer to a challenge. The nonces have 12 bytes and the challenges 32,
    -- decryption keeps the length, and the jitter of the rekeying is not zero.
    pub run-SafeLeft :
        (zeta : Zeta c) (m : SessionMap) (calls : List (Call c))
        → 0 < settings.rekey_time_max_jitter
        → IsSession zeta
        → AreCalls calls
        → SafeLeft
            (any_overdue settings session s zeta m calls)
            (run settings session s zeta m calls)
    unfolding run any_overdue
    run-SafeLeft zeta m [] pos h are = record { session = h; panics = refl }
    run-SafeLeft zeta m (this ∷ calls) pos h are =
        let first = call settings session s zeta m this in
        let now = call-SafeLeft zeta m this pos h are.0 in
        let rest = run-SafeLeft first.zeta first.maps calls pos now.session are.1 in
        then-SafeLeft (is_overdue zeta this) _ first
          (run settings session s first.zeta first.maps calls) now rest

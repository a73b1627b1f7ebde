-- ===== src/Zeta/Run.antt =====
-- reference/src/zeta.rs: the calls of the context and of the application on one session, in any order, with
-- the answers of the application, the time and the random numbers of each call.
use zssp.Base.{ℕ, Bool, true, false, if◌then◌else◌, List, [], ◌∷◌, ◌++◌}
use zssp.Crypto.Layer.{CryptoLayer}
use zssp.Results.{Outcome, ok, err, panic, unfinished, is_panic, ReceiveError, ◌>>=◌}
use zssp.Zeta.Auth.{stop_expired}
use zssp.Zeta.Hello.{respond_to_challenge}
use zssp.Zeta.Confirm.{received_c1_trans, received_c2_trans, received_d_trans}
use zssp.Zeta.Control.{Step}
use zssp.Zeta.Data.{App, Packet, Sent, Settings, Zeta}
use zssp.Zeta.K1.{received_k1_trans}
use zssp.Zeta.K2.{received_k2_trans}
use zssp.Zeta.Keys.{SessionMap}
use zssp.Zeta.Payload.{received_payload_in_place, send_payload}
use zssp.Zeta.Timers.{Randoms, service}
use zssp.Zeta.X2.{received_x2_trans}

-- A call on a session.
pub data Call (c : CryptoLayer) : Type 0 where
  receive_x2 : App c → Randoms c → Packet → Call c
  receive_c1 : App c → ℕ → Packet → Call c
  receive_c2 : App c → ℕ → Packet → Call c
  receive_d : Packet → Call c
  receive_k1 : App c → c.KeyPair → List ℕ → Packet → Call c
  receive_k2 : App c → Packet → Call c
  receive_payload : Packet → Call c
  send_data : List ℕ → Call c
  tick : ℕ → Randoms c → Call c
  respond : ℕ → ℕ → List ℕ → Call c
  end_session : Call c

-- What a call leaves, and whether it panicked.
pub record Left (c : CryptoLayer) : Type 0 where
  pub zeta : Zeta c
  pub maps : SessionMap
  pub sent : List Sent
  pub panicked : Bool

module _ {c : CryptoLayer} where
  unfoldable pub left : {E A : Type 0} → Step c E A → Left c
  left s = record { zeta = s.zeta; maps = s.maps; sent = s.sent; panicked = is_panic s.result }

  -- A call that gives the session and something more, or leaves the session as it is.
  unfoldable pub kept :
      {A : Type 0} → Zeta c → SessionMap → Outcome ReceiveError (Zeta c × A) → Left c
  kept zeta m (ok (zeta', a)) = record { zeta = zeta'; maps = m; sent = []; panicked = false }
  kept zeta m (err e) = record { zeta = zeta; maps = m; sent = []; panicked = false }
  kept zeta m panic = record { zeta = zeta; maps = m; sent = []; panicked = true }
  kept zeta m unfinished = record { zeta = zeta; maps = m; sent = []; panicked = false }

  module _ (settings : Settings) (session : ℕ) (s : c.KeyPair) where
    unfoldable pub call : Zeta c → SessionMap → Call c → Left c
    call zeta m (receive_x2 app rng p) =
        left (received_x2_trans settings app session s zeta m rng p.kid p.nonce p.payload)
    call zeta m (receive_c1 app r p) =
        left (received_c1_trans settings app r zeta m p.kid p.nonce p.payload)
    call zeta m (receive_c2 app r p) =
        left (received_c2_trans settings app r zeta m p.kid p.nonce p.payload)
    call zeta m (receive_d p) = left (received_d_trans zeta m p.kid p.nonce p.payload)
    call zeta m (receive_k1 app e_secret kids p) =
        left (received_k1_trans settings app session s zeta m e_secret kids p.kid p.nonce p.payload)
    call zeta m (receive_k2 app p) =
        left (received_k2_trans settings app zeta m p.kid p.nonce p.payload)
    call zeta m (receive_payload p) =
        kept zeta m (received_payload_in_place zeta p.kid p.nonce p.payload)
    call zeta m (send_data payload) = left (send_payload settings zeta m payload)
    call zeta m (tick time rng) = left (service true settings session s zeta m time rng)
    call zeta m (respond fuel pow challenge) =
        kept zeta m (respond_to_challenge c fuel pow zeta challenge >>= λ zeta'. ok (zeta', tt))
    call zeta m end_session = left (stop_expired {A = Unit {0}} zeta m (ok tt))

    -- The calls one after the other, until one panics.
    unfoldable pub run : Zeta c → SessionMap → List (Call c) → Left c
    run zeta m [] = record { zeta = zeta; maps = m; sent = []; panicked = false }
    run zeta m (this ∷ calls) =
        let first = call zeta m this in
        let rest = run first.zeta first.maps calls in
        if first.panicked then first else record rest { sent = first.sent ++ rest.sent }

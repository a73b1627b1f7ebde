-- ===== src/Zeta/Control.antt =====
-- reference/src/zeta.rs: control packets, and the result of a transition.
use zssp.Base.{ℕ, Bool, true, false, List, [], ◌∷◌, ◌++◌, none, some}
use zssp.Crypto.Layer.{CryptoLayer}
use zssp.Results.{Outcome, ok, err, panic, unfinished, ReceiveError}
use zssp.Zeta.Data.{Sent, Settings, Zeta}
use zssp.Zeta.Keys.{SessionMap, get_counter, key_ref}
use zssp.Zeta.Nonce.{to_nonce}

-- What a transition leaves: the session, the maps of the context, what it sent, and its result.
pub record Step (c : CryptoLayer) (E : Type 0) (A : Type 0) : Type 0 where
  pub zeta : Zeta c
  pub maps : SessionMap
  pub sent : List Sent
  pub result : Outcome E A

module _ {c : CryptoLayer} where
  -- A handler that stops here.
  unfoldable pub stop :
      {A : Type 0} → Zeta c → SessionMap → Outcome ReceiveError A → Step c ReceiveError A
  stop zeta m r = record { zeta = zeta; maps = m; sent = []; result = r }

  -- A handler that goes on with what it has read, or stops.
  unfoldable pub continue :
      {A B : Type 0}
      → Zeta c
      → SessionMap
      → Outcome ReceiveError A
      → (A → Step c ReceiveError B)
      → Step c ReceiveError B
  continue zeta m (ok a) f = f a
  continue zeta m (err e) f = stop zeta m (err e)
  continue zeta m panic f = stop zeta m panic
  continue zeta m unfinished f = stop zeta m unfinished

  -- The call of `send`, where the key and the key id are there.
  unfoldable pub sealed_control : Zeta c → ℕ → ℕ → List ℕ → List Sent × Bool
  sealed_control zeta packet_type counter payload = elim (key_ref zeta false).send.kek [
    | none ↦ ([], false)
    | some kek ↦ elim (key_ref zeta false).send.kid [
      | none ↦ ([], false)
      | some kid ↦
          let nonce = to_nonce packet_type counter in
          let (sealed, tag) = c.aead_encrypt kek nonce none payload in
          (
            record {
              packet = record { kid = kid; nonce = nonce; payload = sealed ++ tag };
              hk = some zeta.hk_send;
            }
                ∷ [],
            true,
          )
    ]
  ]

  unfoldable pub send_control : Settings → Zeta c → ℕ → List ℕ → Zeta c × List Sent × Bool
  send_control settings zeta packet_type payload =
      let (zeta', counter) = get_counter settings zeta in
      elim counter [
        | none ↦ (zeta', [], false)
        | some (n, should_rekey) ↦
            let (sent, is_sent) = sealed_control zeta' packet_type n payload in
            (zeta', sent, is_sent)
      ]

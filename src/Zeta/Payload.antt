-- ===== src/Zeta/Payload.antt =====
-- reference/src/zeta.rs: the payloads that a session sends and gets.
use zssp.Base.{
  ℕ, ◌-◌, Bool, true, false, ◌&&◌, List, [], ◌∷◌, ◌++◌, Option, none, some, length, take, drop, ltb,
  if◌then◌else◌,
}
use zssp.Crypto.Layer.{CryptoLayer}
use zssp.Proto.{aes_gcm_tag_size}
use zssp.Proto.Handshake.{packet_type_data}
use zssp.Results.{
  Outcome, ok, err, panic, unfinished, ReceiveError, SendError, session_expired,
  session_not_established, fault, failed_auth, out_of_sequence, fail_if, ok_or, unwrap, ◌>>=◌, ◌>>◌,
}
use zssp.Zeta.Data.{
  DuplexKey, Settings, Sent, Zeta, ZetaAutomata, null, s1, s2, a1, a3, r1, r2, i64_min,
}
use zssp.Zeta.Auth.{authenticate, find_kid}
use zssp.Zeta.Confirm.{is_s1}
use zssp.Zeta.Control.{Step}
use zssp.Zeta.Keys.{SessionMap, key_ref, get_counter, expire}
use zssp.Zeta.Nonce.{to_nonce}

module _ (c : CryptoLayer) where
  -- The call of `send` for counter `counter`, with the current key and the header key.
  unfoldable pub seal_payload : DuplexKey → List ℕ → ℕ → List ℕ → Outcome SendError (List Sent)
  seal_payload key hk_send counter payload = do
    nk ← unwrap key.send.nk
    let n = to_nonce packet_type_data counter
    let (sealed, tag) = c.aead_encrypt nk n none payload
    kid ← unwrap key.send.kid
    ok (
        record {
          packet = record { kid = kid; nonce = n; payload = sealed ++ tag };
          hk = some hk_send;
        }
        ∷ [])

module _ {c : CryptoLayer} where
  -- The tests on the state of the automaton.
  unfoldable pub can_send : ZetaAutomata c → Outcome SendError (Unit {0})
  can_send null = err session_expired
  can_send (a1 a) = err session_not_established
  can_send (a3 identity packet) = err session_not_established
  can_send s1 = ok tt
  can_send s2 = ok tt
  can_send (r1 noise e_secret k1) = ok tt
  can_send (r2 k2) = ok tt

  -- The result of `send`, which is taken to succeed.
  unfoldable pub finish :
      Zeta c → SessionMap → Outcome SendError (List Sent) → Step c SendError (Unit {0})
  finish zeta m (ok sent) = record { zeta = zeta; maps = m; sent = sent; result = ok tt }
  finish zeta m (err e) = record { zeta = zeta; maps = m; sent = []; result = err e }
  finish zeta m panic = record { zeta = zeta; maps = m; sent = []; result = panic }
  finish zeta m unfinished = record { zeta = zeta; maps = m; sent = []; result = unfinished }

  -- With the counter that `get_counter` gives. A session that has used its last one expires.
  unfoldable pub send_counted :
      Zeta c → SessionMap → List ℕ → Option (ℕ × Bool) → Step c SendError (Unit {0})
  send_counted zeta m payload none =
      let (zeta', m', gone) = expire {E = SendError} false zeta m in
      record { zeta = zeta'; maps = m'; sent = []; result = gone >> err session_expired }
  send_counted zeta m payload (some (n, should_rekey)) =
      finish
        (if should_rekey && is_s1 zeta.beta then record zeta { timeout_timer = i64_min } else zeta)
        m (seal_payload c (key_ref zeta false) zeta.hk_send n payload)

  -- With the test on the state: a session that may not send stays as it is.
  unfoldable pub send_allowed :
      Zeta c
      → SessionMap
      → Outcome SendError (Unit {0})
      → Step c SendError (Unit {0})
      → Step c SendError (Unit {0})
  send_allowed zeta m (ok u) s = s
  send_allowed zeta m (err e) s = record { zeta = zeta; maps = m; sent = []; result = err e }
  send_allowed zeta m panic s = record { zeta = zeta; maps = m; sent = []; result = panic }
  send_allowed zeta m unfinished s = record {
    zeta = zeta;
    maps = m;
    sent = [];
    result = unfinished;
  }

  unfoldable pub send_payload :
      Settings → Zeta c → SessionMap → List ℕ → Step c SendError (Unit {0})
  send_payload settings zeta m payload =
      let (zeta', counter) = get_counter settings zeta in
      send_allowed zeta m (can_send zeta.beta) (send_counted zeta' m payload counter)

  -- The session with the counter in its window, and the payload. An error leaves the session as it is.
  unfoldable pub received_payload_in_place :
      Zeta c → ℕ → List ℕ → List ℕ → Outcome ReceiveError (Zeta c × List ℕ)
  received_payload_in_place zeta kid n payload = do
    fail_if (ltb (length payload) aes_gcm_tag_size) (fault failed_auth true)
    is_other ← find_kid zeta kid
    let i = length payload - aes_gcm_tag_size
    specified_key ← ok_or (key_ref zeta is_other).recv.nk (fault out_of_sequence true)
    authenticate zeta specified_key n (take i payload) (drop i payload)

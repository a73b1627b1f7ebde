-- ===== src/Zeta/Auth.antt =====
-- reference/src/zeta.rs: the test of a packet that a session key protects, which the handlers share.
use zssp.Base.{ℕ, ◌+◌, ◌-◌, ◌%◌, Bool, true, false, not, List, none, ◌==◌, if◌then◌else◌}
use zssp.Crypto.Layer.{CryptoLayer}
use zssp.Results.{
  Outcome, ok, err, panic, ReceiveError, fault, failed_auth, expired_counter, out_of_sequence,
  fail_if, ◌>>=◌, ◌>>◌,
}
use zssp.Zeta.Data.{Settings, Zeta, s2, i64_max}
use zssp.Zeta.Control.{Step, stop}
use zssp.Zeta.Keys.{SessionMap, expire, key_ref, update_counter_window}
use zssp.Zeta.Nonce.{from_nonce}
use zssp.Zeta.X2.{same_kid}

module _ {c : CryptoLayer} where
  -- The session with the counter in its window, and the bytes that were sealed.
  unfoldable pub authenticate :
      Zeta c → List ℕ → List ℕ → List ℕ → List ℕ → Outcome ReceiveError (Zeta c × List ℕ)
  authenticate zeta key n body tag = do
    let (plain, is_auth) = c.aead_decrypt key n none body tag
    fail_if (not is_auth) (fault failed_auth true)
    (packet_type, counter) ← from_nonce n
    let (zeta', is_fresh) = update_counter_window zeta counter
    fail_if (not is_fresh) (fault expired_counter true)
    ok (zeta', plain)

  -- Which of the two keys has this key id.
  unfoldable pub find_kid : Zeta c → ℕ → Outcome ReceiveError Bool
  find_kid zeta kid =
      if same_kid kid (key_ref zeta true).recv.kid
      then ok true
      else if same_kid kid (key_ref zeta false).recv.kid
      then ok false
      else err (fault out_of_sequence false)

  -- A handler that expires the session and stops: nothing holds `sessions` while a packet is received.
  unfoldable pub stop_expired :
      {A : Type 0} → Zeta c → SessionMap → Outcome ReceiveError A → Step c ReceiveError A
  stop_expired zeta m r =
      let (zeta', m', gone) = expire {E = ReceiveError} false zeta m in stop zeta' m' (gone >> r)

  -- The timers of an established session, with the random number `r`. A remainder by zero is a panic.
  unfoldable pub to_s2 : Settings → ℕ → ℕ → Zeta c → Outcome ReceiveError (Zeta c)
  to_s2 settings time r zeta =
      if settings.rekey_time_max_jitter == 0
      then panic
      else ok (record zeta {
        timeout_timer = time + (settings.rekey_after_time - r % settings.rekey_time_max_jitter);
        resend_timer = i64_max;
        beta = s2;
      })

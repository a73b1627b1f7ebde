-- ===== src/Zeta/Timers.antt =====
-- reference/src/zeta.rs: the timers of a session.
use zssp.Base.{ℕ, ◌+◌, Bool, true, List, [], ◌∷◌, ◌++◌, none, some, length, leb, if◌then◌else◌}
use zssp.Base.Bytes.{to_be_bytes}
use zssp.Crypto.Layer.{CryptoLayer}
use zssp.Noise.{
  SymmetricState, initialize, mix_hash, mix_key_and_hash, encrypt_and_hash_in_place, get_ask,
}
use zssp.Proto.Handshake.{
  packet_type_key_confirm, packet_type_rekey_init, packet_type_rekey_complete,
  protocol_name_noise_kk, label_header_key,
}
use zssp.Results.{ok, ReceiveError}
use zssp.Zeta.Data.{
  ZetaAutomata, Sent, Settings, Zeta, null, s1, s2, a1, a3, r1, r2, no_key, no_keys,
}
use zssp.Zeta.Control.{Step, stop, continue, send_control}
use zssp.Zeta.Hello.{Offer, create_a1_state}
use zssp.Zeta.Keys.{SessionMap, key_ref, key_mut, remap, expire}
use zssp.Zeta.Nonce.{to_nonce}
use zssp.Zeta.Tokens.{write_e, mix_dh}

-- What the random generator gives for a timeout.
pub record Randoms (c : CryptoLayer) : Type 0 where
  pub kids : List ℕ
  pub offer : Offer c

module _ {c : CryptoLayer} where
  -- The branch of a handshake that is not complete: a new offer.
  unfoldable pub offer_again :
      Settings → Zeta c → SessionMap → ℕ → ℕ → Offer c → List ℕ → Step c ReceiveError (Unit {0})
  offer_again settings zeta m new_kid_recv current_time rng identity =
      let a =
        create_a1_state c rng zeta.s_remote new_kid_recv zeta.ratchet_state1 zeta.ratchet_state2
          identity in
      let (hk_recv, hk_send) = get_ask c a.noise label_header_key in
      let key = record no_key { recv = record no_keys { kid = some new_kid_recv } } in
      record {
        zeta = record (key_mut zeta true key) {
          hk_send = hk_send;
          resend_timer = current_time + settings.resend_time;
          timeout_timer = current_time + settings.initial_offer_timeout;
          beta = a1 a;
          defrag = hk_recv;
        };
        maps = m;
        sent = record { packet = a.packet; hk = none } ∷ [];
        result = ok tt;
      }

  -- The first message of a rekeying.
  unfoldable pub write_k1 : Zeta c → c.KeyPair → ℕ → c.KeyPair → SymmetricState × List ℕ
  write_k1 zeta s_secret new_kid_recv e_secret =
      let noise = mix_hash c (initialize protocol_name_noise_kk) (c.public_key_bytes s_secret) in
      let noise = mix_hash c noise (c.to_bytes zeta.s_remote) in
      let noise = mix_key_and_hash c noise zeta.ratchet_state1.key in
      let (noise, k1) = write_e c noise e_secret [] in
      let noise = mix_dh c noise e_secret zeta.s_remote in
      let noise = mix_dh c noise s_secret zeta.s_remote in
      encrypt_and_hash_in_place c noise (to_nonce packet_type_rekey_init 0) (length k1)
        (k1 ++ to_be_bytes 4 new_kid_recv)

  unfoldable pub rekey :
      Settings
      → Zeta c
      → SessionMap
      → c.KeyPair
      → ℕ
      → ℕ
      → c.KeyPair
      → Step c ReceiveError (Unit {0})
  rekey settings zeta m s_secret new_kid_recv current_time e_secret =
      let (noise, k1) = write_k1 zeta s_secret new_kid_recv e_secret in
      let key = key_ref zeta true in
      let zeta' =
        record (key_mut zeta true
          (record key { recv = record key.recv { kid = some new_kid_recv } })) {
            timeout_timer = current_time + settings.rekey_timeout;
            resend_timer = current_time + settings.resend_time;
            beta = r1 noise e_secret k1;
          } in
      let (zeta'', sent, is_sent) = send_control settings zeta' packet_type_rekey_init k1 in
      record { zeta = zeta''; maps = m; sent = sent; result = ok tt }

  unfoldable pub expired : Bool → Zeta c → SessionMap → Step c ReceiveError (Unit {0})
  expired is_held zeta m =
      let (zeta', m', gone) = expire is_held zeta m in
      record { zeta = zeta'; maps = m'; sent = []; result = gone }

  -- `remap`, and what to do with the new key id.
  unfoldable pub with_remap :
      ℕ
      → Zeta c
      → SessionMap
      → List ℕ
      → (SessionMap → ℕ → Step c ReceiveError (Unit {0}))
      → Step c ReceiveError (Unit {0})
  with_remap session zeta m kids f =
      continue zeta m (remap session zeta kids m) λ (m', new_kid_recv). f m' new_kid_recv

  -- By the state of the session. `is_held` says that the caller holds `sessions` borrowed.
  unfoldable pub timeout_in :
      Bool
      → Settings
      → ℕ
      → c.KeyPair
      → Zeta c
      → SessionMap
      → ℕ
      → Randoms c
      → ZetaAutomata c
      → Step c ReceiveError (Unit {0})
  timeout_in is_held settings session s_secret zeta m current_time rng null = stop zeta m (ok tt)
  timeout_in is_held settings session s_secret zeta m current_time rng (a1 a) =
      with_remap session zeta m rng.kids
        (λ m' kid. offer_again settings zeta m' kid current_time rng.offer a.identity)
  timeout_in is_held settings session s_secret zeta m current_time rng (a3 identity packet) =
      with_remap session zeta m rng.kids
        (λ m' kid. offer_again settings zeta m' kid current_time rng.offer identity)
  timeout_in is_held settings session s_secret zeta m current_time rng s2 =
      with_remap session zeta m rng.kids
        (λ m' kid. rekey settings zeta m' s_secret kid current_time rng.offer.e_secret)
  timeout_in is_held settings session s_secret zeta m current_time rng s1 = expired is_held zeta m
  timeout_in is_held settings session s_secret zeta m current_time rng (r1 noise e_secret k1) =
      expired is_held zeta m
  timeout_in is_held settings session s_secret zeta m current_time rng (r2 k2) =
      expired is_held zeta m

  unfoldable pub timeout_trans :
      Bool
      → Settings
      → ℕ
      → c.KeyPair
      → Zeta c
      → SessionMap
      → ℕ
      → Randoms c
      → Step c ReceiveError (Unit {0})
  timeout_trans is_held settings session s_secret zeta m current_time rng =
      timeout_in is_held settings session s_secret zeta m current_time rng zeta.beta

  -- What is sent again when the resend timer has run out.
  unfoldable pub resend_control : Settings → Zeta c → ℕ → List ℕ → Zeta c × List Sent
  resend_control settings zeta packet_type payload =
      let (zeta', sent, is_sent) = send_control settings zeta packet_type payload in (zeta', sent)

  unfoldable pub resend : Settings → Zeta c → ZetaAutomata c → Zeta c × List Sent
  resend settings zeta null = (zeta, [])
  resend settings zeta (a1 a) = (zeta, record { packet = a.packet; hk = none } ∷ [])
  resend settings zeta (a3 identity packet) =
      (zeta, record { packet = packet; hk = some zeta.hk_send } ∷ [])
  resend settings zeta s1 = resend_control settings zeta packet_type_key_confirm []
  resend settings zeta s2 = (zeta, [])
  resend settings zeta (r1 noise e_secret k1) =
      resend_control settings zeta packet_type_rekey_init k1
  resend settings zeta (r2 k2) = resend_control settings zeta packet_type_rekey_complete k2

  -- The only caller, `service` of the context, holds `sessions` borrowed.
  unfoldable pub service :
      Bool
      → Settings
      → ℕ
      → c.KeyPair
      → Zeta c
      → SessionMap
      → ℕ
      → Randoms c
      → Step c ReceiveError (Unit {0})
  service is_held settings session s_secret zeta m current_time rng =
      if leb zeta.timeout_timer current_time
      then timeout_trans is_held settings session s_secret zeta m current_time rng
      else if leb zeta.resend_timer current_time
      then (let (zeta', sent) =
            resend settings (record zeta { resend_timer = current_time + settings.resend_time })
              zeta.beta in
          record { zeta = zeta'; maps = m; sent = sent; result = ok tt })
      else record { zeta = zeta; maps = m; sent = []; result = ok tt }

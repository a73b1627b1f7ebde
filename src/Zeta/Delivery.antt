-- ===== src/Zeta/Delivery.antt =====
-- A payload that one session sends is what a session with the matching key gets, and it gets it once.
use zssp.Base.{
  ℕ, ◌+◌, ◌-◌, ◌<◌, ◌≡◌, refl, ap, true, false, Bool, List, [], ◌∷◌, ◌++◌, none, some, length,
  arith, u64_mod, leb, ltb, length-append, take-append, drop-append,
}
use zssp.Crypto.Layer.{CryptoLayer, IsLawful}
use zssp.Proto.Handshake.{hard_expiration}
use zssp.Results.{ok, ReceiveError}
use zssp.Zeta.Data.{Packet, Settings, Zeta}
use zssp.Zeta.Agree.Keys.{Matched}
use zssp.Zeta.Auth.{authenticate, find_kid}
use zssp.Zeta.Keys.{SessionMap, get_counter, key_ref, update_counter_window, saturating_add}
use zssp.Zeta.Nonce.{to_nonce, from_nonce-to_nonce}
use zssp.Zeta.Payload.{
  can_send, seal_payload, send_payload, send_allowed, send_counted, finish,
  received_payload_in_place,
}

module _ (c : CryptoLayer) (lawful : IsLawful c) where
  get_counter-left :
      (settings : Settings) (zeta : Zeta c)
      → zeta.send_counter < hard_expiration
      → (should_rekey : Bool) × (get_counter settings zeta ≡ (
        record zeta { send_counter = zeta.send_counter + 1 },
        some (zeta.send_counter, should_rekey),
      ))
  unfolding get_counter
  get_counter-left settings zeta left =
      let more : leb hard_expiration zeta.send_counter ≡ false = ground arith in
      (
        leb (saturating_add zeta.key_creation_counter settings.rekey_after_key_uses)
            zeta.send_counter,
        rw more refl,
      )

  -- The packet of a payload.
  abbrev pub sealed_packet : List ℕ → ℕ → ℕ → List ℕ → Packet
  sealed_packet nk kid counter payload =
      let n = to_nonce 8 counter in
      let (sealed, tag) = c.aead_encrypt nk n none payload in
      record { kid = kid; nonce = n; payload = sealed ++ tag }

  -- Sending, where the state allows it and a counter is left.
  send_payload-sent :
      (settings : Settings) (zeta : Zeta c) (m : SessionMap) (payload nk : List ℕ) (kid : ℕ)
      → can_send zeta.beta ≡ ok tt
      → zeta.send_counter < hard_expiration
      → (key_ref zeta false).send.nk ≡ some nk
      → (key_ref zeta false).send.kid ≡ some kid
      → let s = send_payload settings zeta m payload in
        (s.sent
          ≡ record {
            packet = sealed_packet nk kid zeta.send_counter payload;
            hk = some zeta.hk_send;
          }
            ∷ [])
        × (s.result ≡ ok tt)
        × (s.zeta.send_counter ≡ zeta.send_counter + 1)
  unfolding send_payload send_allowed send_counted finish seal_payload key_ref
  send_payload-sent settings zeta m payload nk kid allowed left has_nk has_kid =
      let (should_rekey, counted) = get_counter-left settings zeta left in
      (
        rw (counted, allowed, has_nk, has_kid) refl,
        rw (counted, allowed, has_nk, has_kid) refl,
        rw (counted, allowed, has_nk, has_kid) (ground arith),
      )

  received_payload_in_place-opened :
      (zeta zeta' : Zeta c) (is_other : Bool) (payload nk : List ℕ) (kid counter : ℕ)
      → counter < u64_mod
      → find_kid zeta kid ≡ ok is_other
      → (key_ref zeta is_other).recv.nk ≡ some nk
      → update_counter_window zeta counter ≡ (zeta', true)
      → let packet = sealed_packet nk kid counter payload in
        received_payload_in_place zeta kid packet.nonce packet.payload ≡ ok (zeta', payload)
  unfolding received_payload_in_place authenticate
  received_payload_in_place-opened zeta zeta' is_other payload nk kid counter fits found has_nk
        fresh =
      let n = to_nonce 8 counter in
      let (sealed, tag) = c.aead_encrypt nk n none payload in
      let tag_size = lawful.tag_size nk n none payload in
      let size = length-append sealed tag in
      let long : ltb (length (sealed ++ tag)) 16 ≡ false = ground (arith, size, tag_size) in
      let start : length (sealed ++ tag) - 16 ≡ length sealed = omega (arith, size, tag_size) in
      rw
        (
          found,
          has_nk,
          long,
          start,
          take-append sealed tag (length sealed) refl,
          drop-append sealed tag (length sealed) refl,
          lawful.aead_inverse nk n none payload,
          from_nonce-to_nonce {E = ReceiveError} 8 counter fits,
          fresh,
        )
        refl

  -- A session that may send sends a payload as one packet, and a session with the matching key, which
  -- finds it by its key id and whose window takes the counter, gets the payload from that packet and
  -- moves its window on. The sender's counter goes up by one.
  pub send_payload-received :
      (settings : Settings) (zeta peer peer' : Zeta c) (m : SessionMap) (payload : List ℕ)
      (is_other : Bool) (matched : Matched (key_ref zeta false) (key_ref peer is_other))
      → can_send zeta.beta ≡ ok tt
      → zeta.send_counter < hard_expiration
      → find_kid peer matched.kid1 ≡ ok is_other
      → update_counter_window peer zeta.send_counter ≡ (peer', true)
      → let s = send_payload settings zeta m payload in
        (packet : Packet) × (s.sent ≡ record { packet = packet; hk = some zeta.hk_send } ∷ [])
        × (s.result ≡ ok tt)
        × (s.zeta.send_counter ≡ zeta.send_counter + 1)
        × (received_payload_in_place peer packet.kid packet.nonce packet.payload
            ≡ ok (peer', payload))
  send_payload-received settings zeta peer peer' m payload is_other matched allowed left found
        fresh =
      let nk = matched.nk1 in
      let (sent, result, counted) =
        send_payload-sent settings zeta m payload nk matched.kid1 allowed left
          (ap (λ k. k.send.nk) matched.this) (ap (λ k. k.send.kid) matched.this) in
      (
        sealed_packet nk matched.kid1 zeta.send_counter payload,
        sent,
        result,
        counted,
        received_payload_in_place-opened peer peer' is_other payload nk matched.kid1
            zeta.send_counter (omega arith) found (ap (λ k. k.recv.nk) matched.that) fresh,
      )

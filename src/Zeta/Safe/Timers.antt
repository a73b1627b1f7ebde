-- ===== src/Zeta/Safe/Timers.antt =====
-- reference/src/zeta.rs: the timers, and the keys that a session needs.
use zssp.Base.{
  ℕ, ◌+◌, ◌≤◌, ◌≡◌, ◌∙◌, refl, Bool, ◌&&◌, Option, length, length-append, replicate, ◌++◌, true,
  false, Bool-cases, List, [], ◌∷◌, some, inl, inr, arith, leb,
}
use zssp.Crypto.Layer.{CryptoLayer}
use zssp.Noise.{SymmetricState}
use zssp.Results.{ReceiveError, is_panic}
use zssp.Zeta.Data.{Settings, Zeta, ZetaAutomata, null, s1, s2, a1, a3, r1, r2}
use zssp.Zeta.Control.{Step, stop}
use zssp.Zeta.Hello.{Offer, create_a1_state}
use zssp.Ratchet.{RatchetState}
use zssp.Challenge.{gen_null_response}
use zssp.Crypto.{Sha512}
use zssp.Base.Bytes.{to_be_bytes, length-to_be_bytes}
use zssp.Zeta.Keys.{SessionMap, expire, key_ref, key_mut, remap, gen_kid, take_out}
use zssp.Zeta.Timers.{
  Randoms, offer_again, rekey, expired, with_remap, timeout_in, timeout_trans, resend,
  resend_control, service, write_k1,
}
use zssp.Zeta.Safe.{
  Panics, Safe-Panics, Panics-Safe, expires, bind-NoPanic, continue-Safe, HasKeys, NoPanic, Ready,
  IsSession, Safe,
}
use zssp.Zeta.Safe.Confirm.{send_control-IsSession}

pub gen_kid-NoPanic {ℓ} :
    (E : Type 0) {A : Type ℓ} (m : List (ℕ × A)) (rng : List ℕ) → NoPanic (gen_kid {E = E} m rng)
unfolding gen_kid
gen_kid-NoPanic E m [] = tt
gen_kid-NoPanic E m (kid ∷ rng) = let rest = gen_kid-NoPanic E m rng in ground arith

and-false : (b : Bool) → (b && false) ≡ false
and-false true = refl
and-false false = refl

append_room : (xs ys : List ℕ) → length ys ≡ 32 → 32 ≤ length (xs ++ ys)
append_room xs ys h = omega (arith, length-append xs ys)

null_response-size :
    (sha : Sha512) (pow : ℕ) → length (gen_null_response sha (to_be_bytes 8) pow) ≡ 32
unfolding gen_null_response
null_response-size sha pow =
    omega (arith, length-append {0} (replicate 24 0) (to_be_bytes 8 pow), length-to_be_bytes 8 pow)

-- An offer ends with the 32 bytes of an empty response.
pub create_a1_state-room :
    (c : CryptoLayer) (offer : Offer c) (s : c.PublicKey) (kid : ℕ) (rs : RatchetState)
    (rs' : Option RatchetState) (identity : List ℕ)
    → 32 ≤ length (create_a1_state c offer s kid rs rs' identity).packet.payload
unfolding create_a1_state
create_a1_state-room c offer s kid rs rs' identity =
    append_room _ (gen_null_response c.sha (to_be_bytes 8) offer.pow)
      (null_response-size c.sha offer.pow)

module _ {c : CryptoLayer} where
  pub remap-NoPanic :
      (session : ℕ) (zeta : Zeta c) (rng : List ℕ) (m : SessionMap)
      → NoPanic (remap {E = ReceiveError} session zeta rng m)
  unfolding remap
  remap-NoPanic session zeta rng m =
      let start = (take_out m.session_map (key_ref zeta true).recv.kid session).0 in
      bind-NoPanic (gen_kid start rng) _ (gen_kid-NoPanic ReceiveError start rng) λ _ _. tt

  with_remap-Safe :
      (session : ℕ) (zeta : Zeta c) (m : SessionMap) (kids : List ℕ)
      (f : SessionMap → ℕ → Step c ReceiveError (Unit {0}))
      → IsSession zeta
      → ((m' : SessionMap) (kid : ℕ) → Safe (f m' kid))
      → Safe (with_remap session zeta m kids f)
  unfolding with_remap
  with_remap-Safe session zeta m kids f h k =
      continue-Safe zeta m (remap session zeta kids m) _ h (remap-NoPanic session zeta kids m)
        λ (m', kid) _. k m' kid

  rekey-IsSession :
      (zeta : Zeta c) (kid timeout again : ℕ) (noise : SymmetricState) (e : c.KeyPair) (k1 : List ℕ)
      → HasKeys (key_ref zeta false)
      → IsSession (
          let key = key_ref zeta true in
          record (key_mut zeta true (record key { recv = record key.recv { kid = some kid } })) {
            timeout_timer = timeout;
            resend_timer = again;
            beta = r1 noise e k1;
          })
  unfolding key_ref key_mut
  rekey-IsSession zeta kid timeout again noise e k1 keys = elim (Bool-cases zeta.key_index) [
    | inl i ↦ rw i (rw i at keys, tt)
    | inr i ↦ rw i (rw i at keys, tt)
  ]

  rekey-Safe :
      (settings : Settings) (zeta : Zeta c) (m : SessionMap) (s e : c.KeyPair) (kid time : ℕ)
      → HasKeys (key_ref zeta false)
      → Safe (rekey settings zeta m s kid time e)
  unfolding rekey
  rekey-Safe settings zeta m s e kid time keys =
      let (noise, k1) = write_k1 zeta s kid e in
      let key = key_ref zeta true in
      let zeta' =
        record (key_mut zeta true (record key { recv = record key.recv { kid = some kid } })) {
          timeout_timer = time + settings.rekey_timeout;
          resend_timer = time + settings.resend_time;
          beta = r1 noise e k1;
        } in
      record {
        session =
            send_control-IsSession settings zeta' 5 k1
              (rekey-IsSession zeta kid _ _ noise e k1 keys);
        no_panic = tt;
      }

  expired-Panics :
      (is_held : Bool) (zeta : Zeta c) (m : SessionMap) → Panics is_held (expired is_held zeta m)
  unfolding expired expire is_panic
  expired-Panics true zeta m = record { session = tt; panics = refl }
  expired-Panics false zeta m = record { session = tt; panics = refl }

  remapped-Panics :
      (session : ℕ) (zeta : Zeta c) (m : SessionMap) (kids : List ℕ)
      (f : SessionMap → ℕ → Step c ReceiveError (Unit {0}))
      → IsSession zeta
      → ((m' : SessionMap) (kid : ℕ) → Safe (f m' kid))
      → Panics false (with_remap session zeta m kids f)
  remapped-Panics session zeta m kids f h k =
      Safe-Panics (with_remap session zeta m kids f) (with_remap-Safe session zeta m kids f h k)

  offer_again-Safe :
      (settings : Settings) (zeta : Zeta c) (m : SessionMap) (kid time : ℕ) (offer : Offer c)
      (identity : List ℕ)
      → Safe (offer_again settings zeta m kid time offer identity)
  unfolding offer_again
  offer_again-Safe settings zeta m kid time offer identity = record {
    session =
        create_a1_state-room c offer zeta.s_remote kid zeta.ratchet_state1 zeta.ratchet_state2
          identity;
    no_panic = tt;
  }

  timeout_in-Panics :
      (is_held : Bool) (settings : Settings) (session : ℕ) (s : c.KeyPair) (zeta : Zeta c)
      (m : SessionMap) (time : ℕ) (rng : Randoms c) (beta : ZetaAutomata c)
      → IsSession zeta
      → Ready beta (key_ref zeta true) (key_ref zeta false)
      → Panics
          (expires beta && is_held)
          (timeout_in is_held settings session s zeta m time rng beta)
  unfolding timeout_in stop expires is_panic
  timeout_in-Panics is_held settings session s zeta m time rng null h k = record {
    session = h;
    panics = refl;
  }
  timeout_in-Panics is_held settings session s zeta m time rng (a1 a) h k =
      remapped-Panics session zeta m rng.kids _ h
        λ m' kid. offer_again-Safe settings zeta m' kid time rng.offer a.identity
  timeout_in-Panics is_held settings session s zeta m time rng (a3 identity packet) h k =
      remapped-Panics session zeta m rng.kids _ h
        λ m' kid. offer_again-Safe settings zeta m' kid time rng.offer identity
  timeout_in-Panics is_held settings session s zeta m time rng s2 h k =
      remapped-Panics session zeta m rng.kids _ h
        λ m' kid. rekey-Safe settings zeta m' s rng.offer.e_secret kid time k
  timeout_in-Panics is_held settings session s zeta m time rng s1 h k =
      expired-Panics is_held zeta m
  timeout_in-Panics is_held settings session s zeta m time rng (r1 noise e k1) h k =
      expired-Panics is_held zeta m
  timeout_in-Panics is_held settings session s zeta m time rng (r2 k2) h k =
      expired-Panics is_held zeta m

  timeout_trans-Panics :
      (is_held : Bool) (settings : Settings) (session : ℕ) (s : c.KeyPair) (zeta : Zeta c)
      (m : SessionMap) (time : ℕ) (rng : Randoms c)
      → IsSession zeta
      → Panics
          (expires zeta.beta && is_held)
          (timeout_trans is_held settings session s zeta m time rng)
  unfolding timeout_trans
  timeout_trans-Panics is_held settings session s zeta m time rng h =
      timeout_in-Panics is_held settings session s zeta m time rng zeta.beta h h

  -- Where nothing holds the sessions, a timeout is safe.
  pub timeout_trans-Safe :
      (settings : Settings) (session : ℕ) (s : c.KeyPair) (zeta : Zeta c) (m : SessionMap)
      (time : ℕ) (rng : Randoms c)
      → IsSession zeta
      → Safe (timeout_trans false settings session s zeta m time rng)
  timeout_trans-Safe settings session s zeta m time rng h =
      let t = timeout_trans-Panics false settings session s zeta m time rng h in
      Panics-Safe (timeout_trans false settings session s zeta m time rng)
        (record { session = t.session; panics = t.panics ∙ and-false (expires zeta.beta) })

  resend-IsSession :
      (settings : Settings) (zeta : Zeta c) (beta : ZetaAutomata c)
      → IsSession zeta
      → IsSession (resend settings zeta beta).0
  unfolding resend resend_control
  resend-IsSession settings zeta null h = h
  resend-IsSession settings zeta (a1 a) h = h
  resend-IsSession settings zeta (a3 identity packet) h = h
  resend-IsSession settings zeta s1 h = send_control-IsSession settings zeta 3 [] h
  resend-IsSession settings zeta s2 h = h
  resend-IsSession settings zeta (r1 noise e k1) h = send_control-IsSession settings zeta 5 k1 h
  resend-IsSession settings zeta (r2 k2) h = send_control-IsSession settings zeta 6 k2 h

  -- The service of a session leaves a session that is complete for its state, in its keys and in
  -- the room that an offer has for the answer to a challenge, where it was before. It panics
  -- exactly if the timeout of the session has passed, its state is S1, R1 or R2, and the caller
  -- holds the sessions of the context borrowed, as the service of the context does.
  pub service-Panics :
      (is_held : Bool) (settings : Settings) (session : ℕ) (s : c.KeyPair) (zeta : Zeta c)
      (m : SessionMap) (time : ℕ) (rng : Randoms c)
      → IsSession zeta
      → Panics
          (leb zeta.timeout_timer time && (expires zeta.beta && is_held))
          (service is_held settings session s zeta m time rng)
  unfolding service key_ref is_panic
  service-Panics is_held settings session s zeta m time rng h =
      elim (Bool-cases (leb zeta.timeout_timer time)) [
        | inl now ↦ rw now (timeout_trans-Panics is_held settings session s zeta m time rng h)
        | inr later ↦ elim (Bool-cases (leb zeta.resend_timer time)) [
          | inl again ↦
              let zeta' = record zeta { resend_timer = time + settings.resend_time } in
              rw (later, again)
                (record { session = resend-IsSession settings zeta' zeta.beta h; panics = refl })
          | inr quiet ↦ rw (later, quiet) (record { session = h; panics = refl })
        ]
      ]

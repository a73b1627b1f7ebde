-- ===== src/Zeta/Safe/Respond.antt =====
-- reference/src/zeta.rs: the answer to a challenge, and the room that it needs.
use zssp.Base.{
  ℕ, zero, suc, ◌+◌, ◌-◌, ◌≤◌, ◌≡◌, refl, ap, subst, true, false, Bool-cases, List, ◌++◌, Option,
  none, some, inl, inr, length, take, drop, arith, ltb, length-append, length-take, length-drop,
  wrapping_add,
}
use zssp.Base.Bytes.{to_be_bytes, length-to_be_bytes}
use zssp.Challenge.{search_pow, verify_pow, respond_to_challenge_in_place}
use zssp.Crypto.{Sha512, secure_eq}
use zssp.Crypto.Layer.{CryptoLayer}
use zssp.Results.{ok, ok_inj}
use zssp.Zeta.Data.{StateA1, Zeta, ZetaAutomata, null, s1, s2, a1, a3, r1, r2}
use zssp.Zeta.Hello.{with_response, respond_in}
use zssp.Zeta.Keys.{key_ref}
use zssp.Zeta.Run.{}
use zssp.Zeta.Safe.{Ready, IsSession, NoPanic}

some_inj {ℓ} : {A : Type ℓ} {x y : A} → some x ≡ some y → x ≡ y
some_inj {x = x} e = ap (λ o. elim o [ none ↦ x | some a ↦ a ]) e

search_pow-size :
    (sha : Sha512) (f : ℕ → List ℕ) (fuel : ℕ) (front : List ℕ) (pow : ℕ) (response : List ℕ)
    → ((x : ℕ) → length (f x) ≡ 8)
    → search_pow sha f fuel front pow ≡ some response
    → length response ≡ length front + 8
unfolding search_pow
search_pow-size sha f zero front pow response size h = cc
search_pow-size sha f (suc fuel) front pow response size h =
    elim (Bool-cases (verify_pow sha (front ++ f pow))) [
      | inl right ↦
          let found : front ++ f pow ≡ response = some_inj (rw right at h) in
          subst (λ bytes. length bytes ≡ length front + 8) found
            (omega (arith, length-append front (f pow), size pow))
      | inr wrong ↦
          search_pow-size sha f fuel front (wrapping_add pow 1) response size (rw wrong at h)
    ]

-- The answer to a challenge has the size of what stood in its place.
response-size :
    (sha : Sha512) (fuel pow : ℕ) (issued before response : List ℕ)
    → length issued ≡ 32
    → length before ≡ 32
    → respond_to_challenge_in_place sha (to_be_bytes 8) fuel pow issued before ≡ some response
    → length response ≡ 32
unfolding respond_to_challenge_in_place
response-size sha fuel pow issued before response size size' h =
    elim (Bool-cases (secure_eq (drop 24 issued) (drop 24 before))) [
      | inl same ↦
          let long =
            search_pow-size sha (to_be_bytes 8) fuel (take 24 issued) pow response
              (length-to_be_bytes 8) (rw same at h) in
          omega (arith, long, length-take 24 issued)
      | inr other ↦ subst (λ bytes. length bytes ≡ 32) (some_inj (rw other at h)) size'
    ]

module _ {c : CryptoLayer} where
  -- A challenge is answered in the room of the offer.
  with_response-Safe :
      (zeta : Zeta c) (a : StateA1 c) (before : List ℕ) (o : Option (List ℕ))
      → ((response : List ℕ) → o ≡ some response → length response ≡ 32)
      → NoPanic (with_response c zeta a before o)
        × ((zeta' : Zeta c) → with_response c zeta a before o ≡ ok zeta' → IsSession zeta')
  unfolding with_response
  with_response-Safe zeta a before none size = (tt, λ zeta' h. cc)
  with_response-Safe zeta a before (some response) size = (
    tt,
    λ zeta' h.
        let room : 32 ≤ length (before ++ response) =
          omega (arith, length-append before response, size response refl) in
        subst IsSession (ok_inj h) room,
  )

  pub respond_in-Safe :
      (fuel pow : ℕ) (zeta : Zeta c) (challenge : List ℕ) (beta : ZetaAutomata c)
      → IsSession zeta
      → Ready beta (key_ref zeta true) (key_ref zeta false)
      → length challenge ≡ 32
      → NoPanic (respond_in c fuel pow zeta challenge beta)
        × ((zeta' : Zeta c)
            → respond_in c fuel pow zeta challenge beta ≡ ok zeta'
            → IsSession zeta')
  unfolding respond_in
  respond_in-Safe fuel pow zeta challenge (a1 a) h room size =
      let x1 = a.packet.payload in
      let long : ltb (length x1) 32 ≡ false = ground arith in
      let rest : length (drop (length x1 - 32) x1) ≡ 32 =
        omega (arith, length-drop (length x1 - 32) x1) in
      rw long (
        with_response-Safe zeta a (take (length x1 - 32) x1) _ λ response found.
          response-size c.sha fuel pow challenge (drop (length x1 - 32) x1) response size rest
            found)
  respond_in-Safe fuel pow zeta challenge null h r size =
      (tt, λ zeta' e. subst IsSession (ok_inj e) h)
  respond_in-Safe fuel pow zeta challenge (a3 identity packet) h r size =
      (tt, λ zeta' e. subst IsSession (ok_inj e) h)
  respond_in-Safe fuel pow zeta challenge s1 h r size =
      (tt, λ zeta' e. subst IsSession (ok_inj e) h)
  respond_in-Safe fuel pow zeta challenge s2 h r size =
      (tt, λ zeta' e. subst IsSession (ok_inj e) h)
  respond_in-Safe fuel pow zeta challenge (r1 noise e_secret k1) h r size =
      (tt, λ zeta' e. subst IsSession (ok_inj e) h)
  respond_in-Safe fuel pow zeta challenge (r2 k2) h r size =
      (tt, λ zeta' e. subst IsSession (ok_inj e) h)

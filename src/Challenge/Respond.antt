-- ===== src/Challenge/Respond.antt =====
-- The search for a proof of work, on the side that was challenged.
use zssp.Base.{
  ℕ, zero, suc, ◌+◌, ◌%◌, ◌<◌, ◌≡◌, ◌≢◌, refl, true, List, ◌++◌, some, length, take, drop, arith,
  Bool-cases, inl, inr, u64_mod, take-append, length-take, wrapping_add,
}
use zssp.Crypto.{Sha512, secure_eq, secure_eq_iff}
use zssp.Challenge.{verify_pow, search_pow, respond_to_challenge_in_place}

module _ (sha : Sha512) (to_ne_bytes : ℕ → List ℕ) where
  -- The search ends at the first value that does, if there is one among the next `fuel`.
  search_pow-some :
      (fuel : ℕ) (kept : List ℕ) (pow k : ℕ)
      → k < fuel
      → pow < u64_mod
      → verify_pow sha (kept ++ to_ne_bytes ((pow + k) % u64_mod)) ≡ true
      → (found : ℕ) × (search_pow sha to_ne_bytes fuel kept pow ≡ some (kept ++ to_ne_bytes found))
        × (verify_pow sha (kept ++ to_ne_bytes found) ≡ true)
  unfolding search_pow
  search_pow-some zero kept pow k h p w = absurd (omega arith)
  search_pow-some (suc fuel) kept pow zero h p w =
      let same : (pow + 0) % u64_mod ≡ pow = omega arith in
      let hit = rw same at w in (pow, rw hit refl, hit)
  search_pow-some (suc fuel) kept pow (suc k) h p w =
      elim (Bool-cases (verify_pow sha (kept ++ to_ne_bytes pow))) [
        | inl hit ↦ (pow, rw hit refl, hit)
        | inr miss ↦
            let next : (pow + suc k) % u64_mod ≡ (wrapping_add pow 1 + k) % u64_mod = omega arith in
            rw miss (
              search_pow-some fuel kept (wrapping_add pow 1) k (omega arith) (omega arith)
                (rw next at w))
      ]

  -- If the challenge names the proof of work that was sent, the answer keeps the first 24 bytes of the
  -- challenge and has a right proof of work, as soon as one of the `fuel` values from `pow` on, in the
  -- order of the wrapping additions, does.
  pub respond_to_challenge_in_place-some :
      (fuel pow k : ℕ) (issued pre_response : List ℕ)
      → length issued ≡ 32
      → k < fuel
      → pow < u64_mod
      → verify_pow sha (take 24 issued ++ to_ne_bytes ((pow + k) % u64_mod)) ≡ true
      → drop 24 issued ≡ drop 24 pre_response
      → (response : List ℕ) × (respond_to_challenge_in_place sha to_ne_bytes fuel pow issued
            pre_response
          ≡ some response)
        × (take 24 response ≡ take 24 issued)
        × (verify_pow sha response ≡ true)
  unfolding respond_to_challenge_in_place
  respond_to_challenge_in_place-some fuel pow k issued pre_response size h p w same =
      let (found, e, hit) = search_pow-some fuel (take 24 issued) pow k h p w in
      (
        take 24 issued ++ to_ne_bytes found,
        rw ((secure_eq_iff _ _).1 same) e,
        take-append (take 24 issued) (to_ne_bytes found) 24 (omega (arith, length-take 24 issued)),
        hit,
      )

  -- A challenge for another proof of work changes nothing.
  pub respond_to_challenge_in_place_other :
      (fuel pow : ℕ) (issued pre_response : List ℕ)
      → drop 24 issued ≢ drop 24 pre_response
      → respond_to_challenge_in_place sha to_ne_bytes fuel pow issued pre_response
        ≡ some pre_response
  unfolding respond_to_challenge_in_place
  respond_to_challenge_in_place_other fuel pow issued pre_response other =
      elim (Bool-cases (secure_eq (drop 24 issued) (drop 24 pre_response))) [
        | inl e ↦ absurd (other ((secure_eq_iff _ _).0 e))
        | inr e ↦ rw e refl
      ]

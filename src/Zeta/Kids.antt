-- ===== src/Zeta/Kids.antt =====
-- reference/src/zeta.rs: the search for a key id that is free.
use zssp.Base.{
  ℕ, ◌<◌, ◌≡◌, refl, false, Bool-cases, ◌||◌, List, [], ◌∷◌, ◌++◌, inl, inr, arith, ◌==◌,
}
use zssp.Results.{ok, ReceiveError}
use zssp.Zeta.Keys.{contains_key, gen_kid}

-- Where one of the random numbers, after any others, is not zero and not a key of the map, the search for a
-- key id ends, with a key id that is not zero and not a key of the map.
pub gen_kid-free {ℓ} :
    {A : Type ℓ} (m : List (ℕ × A)) (taken rng : List ℕ) (kid : ℕ)
    → 0 < kid
    → contains_key m kid ≡ false
    → (kid' : ℕ) × (gen_kid {E = ReceiveError} m (taken ++ kid ∷ rng) ≡ ok kid')
      × (0 < kid')
      × (contains_key m kid' ≡ false)
unfolding gen_kid
gen_kid-free m [] rng kid pos free = (kid, ground arith, pos, free)
gen_kid-free m (t ∷ taken) rng kid pos free =
    let (kid', found, pos', free') = gen_kid-free m taken rng kid pos free in
    elim (Bool-cases ((t == 0) || contains_key m t)) [
      | inl bad ↦ (kid', rw bad found, pos', free')
      | inr good ↦ (t, rw good refl, ground arith, ground arith)
    ]

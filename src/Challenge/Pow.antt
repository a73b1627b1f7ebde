-- ===== src/Challenge/Pow.antt =====
-- The proof of work as a bound on the hash.
use zssp.Base.{
  ℕ, zero, suc, ◌+◌, ◌^◌, ◌≤◌, ◌<◌, ◌≡◌, ◌↔◌, refl, subst, true, List, take, arith, ltb, length,
  length-take, Bool-cases, inl, inr,
}
use zssp.Base.Bits.{pow2_mono}
use zssp.Base.Bytes.{from_be_bytes, from_be_bytes-lt, take-AllBytes}
use zssp.Crypto.{Sha512}
use zssp.Challenge.{leading_zeros, verify_pow}

leading_zeros-le : (w n : ℕ) → leading_zeros w n ≤ w
unfolding leading_zeros
leading_zeros-le zero n = omega arith
leading_zeros-le (suc w) n = ground (arith, leading_zeros-le w n)

-- A number of `w` bits has `k` leading zeros or more exactly if it fits the other `r` bits.
pub leading_zeros_iff :
    (w n k r : ℕ) → w ≡ k + r → n < 2 ^ w → (k ≤ leading_zeros w n) ↔ (n < 2 ^ r)
unfolding leading_zeros
leading_zeros_iff w n zero r e h =
    let same : w ≡ r = omega arith in (λ p. subst (λ b. n < 2 ^ b) same h, λ q. omega arith)
leading_zeros_iff zero n (suc k) r e h = absurd (omega arith)
leading_zeros_iff (suc w) n (suc k) r e h = elim (Bool-cases (ltb n (2 ^ w))) [
  | inl hit ↦
      let (to, from) = leading_zeros_iff w n k r (omega arith) (ground arith) in
      rw hit (λ p. to (omega arith), λ q. omega (arith, from q))
  | inr miss ↦
      let short = pow2_mono r w (omega arith) in
      rw miss (λ p. absurd (omega arith), λ q. absurd (ground (arith, short)))
]

-- The proof of work is right exactly if the first 32 bits of the hash make a number below 2^19.
pub verify_pow_iff :
    (sha : Sha512) (response : List ℕ)
    → (verify_pow sha response ≡ true) ↔ (from_be_bytes (take 4 (sha.digest response)) < 2 ^ 19)
unfolding verify_pow
verify_pow_iff sha response =
    let hash = sha.digest response in
    let size : length (take 4 hash) ≡ 4 =
      omega (arith, length-take 4 hash, sha.digest_size response) in
    let small =
      rw size at
        (from_be_bytes-lt (take 4 hash) (take-AllBytes 4 hash (sha.digest_bytes response))) in
    let (to, from) =
      leading_zeros_iff 32 (from_be_bytes (take 4 hash)) 13 19 refl (omega (arith, small)) in
    (λ p. to (ground arith), λ q. ground (arith, from q))

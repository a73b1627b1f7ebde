-- ===== src/Challenge.antt =====
-- performance/src/challenge.rs: the challenge protocol, by which a responder makes a new address do a
-- proof of work and prove that it gets packets, before it spends work of its own.
-- Byte arrays are lists of numbers below 256. An address enters as the bytes that its `Hash` writes.
pub mod Pow
pub mod Accept
pub mod Respond
mod Tests
use zssp.Base.{
  ℕ, zero, suc, ◌+◌, ◌-◌, ◌^◌, Bool, ◌&&◌, List, ◌++◌, Option, none, some, take, drop, replicate,
  ltb, leb, if◌then◌else◌, u64_mod, wrapping_add,
}
use zssp.Base.Bytes.{to_be_bytes, from_be_bytes}
use zssp.Crypto.{Sha512, secure_eq}
use zssp.Window
use zssp.Window.{Window}
use zssp.Proto.{counter_size, mac_size, pow_start, difficulty, challenge_counter_window_max_ooo}

pub record ChallengeContext : Type 0 where
  pub counter : ℕ
  pub antireplay_window : Window
  pub salt : List ℕ

-- `Ok(())`, or `Err` with the challenge to send.
pub data Verdict : Type 0 where
  accept : Verdict
  challenge : List ℕ → Verdict

-- `ChallengeContext::new`, with the salt that the random generator gives.
unfoldable pub new : List ℕ → ChallengeContext
unfolding Window.new
new salt = record {
  counter = 0;
  antireplay_window = Window.new challenge_counter_window_max_ooo;
  salt = salt;
}

-- The number of leading zeros of a number of `w` bits.
unfoldable pub leading_zeros : ℕ → ℕ → ℕ
leading_zeros zero n = 0
leading_zeros (suc w) n = if ltb n (2 ^ w) then suc (leading_zeros w n) else 0

module _ (sha : Sha512) where
  unfoldable pub verify_pow : List ℕ → Bool
  unfolding leading_zeros from_be_bytes
  verify_pow response =
      leb difficulty (leading_zeros 32 (from_be_bytes (take 4 (sha.digest response))))

  unfoldable pub create_mac : List ℕ → ℕ → List ℕ → List ℕ
  unfolding to_be_bytes
  create_mac salt c addr = take mac_size (sha.digest (to_be_bytes 8 c ++ (addr ++ salt)))

  -- The tests of `process_hello`, in order.
  unfoldable pub passes : ChallengeContext → List ℕ → List ℕ → Bool
  unfolding Window.check secure_eq
  passes ctx addr response =
      let c = from_be_bytes (take counter_size response) in
      Window.check (u64_mod - 1) ctx.antireplay_window c
      && secure_eq (take mac_size (drop counter_size response)) (create_mac ctx.salt c addr)
      && verify_pow response

  unfoldable pub process_hello : ChallengeContext → List ℕ → List ℕ → ChallengeContext × Verdict
  unfolding passes Window.update
  process_hello ctx addr response =
      let c = from_be_bytes (take counter_size response) in
      let d = ctx.counter in
      if passes ctx addr response
      then (
        record ctx { antireplay_window = (Window.update (u64_mod - 1) ctx.antireplay_window c).0 },
        accept,
      )
      else (
        record ctx { counter = wrapping_add d 1 },
        challenge (to_be_bytes 8 d ++ (create_mac ctx.salt d addr ++ drop pow_start response)),
      )

  -- `u64::to_ne_bytes` depends on the machine.
  module _ (to_ne_bytes : ℕ → List ℕ) where
    -- The search of `respond_to_challenge_in_place`, from the value `pow` on: `kept` are the bytes in
    -- front of the proof of work. `none` when the fuel runs out.
    unfoldable pub search_pow : ℕ → List ℕ → ℕ → Option (List ℕ)
    search_pow zero kept pow = none
    search_pow (suc fuel) kept pow =
        let response = kept ++ to_ne_bytes pow in
        let rest = search_pow fuel kept (wrapping_add pow 1) in
        if verify_pow response then some response else rest

    -- `pow` is what the random generator gives.
    unfoldable pub respond_to_challenge_in_place : ℕ → ℕ → List ℕ → List ℕ → Option (List ℕ)
    respond_to_challenge_in_place fuel pow issued pre_response =
        if secure_eq (drop pow_start issued) (drop pow_start pre_response)
        then search_pow fuel (take pow_start issued) pow
        else some pre_response

    -- `gen_null_response`, with the number that the random generator gives.
    unfoldable pub gen_null_response : ℕ → List ℕ
    gen_null_response pow = replicate pow_start 0 ++ to_ne_bytes pow

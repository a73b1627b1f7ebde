-- ===== src/Challenge/Tests.antt =====
-- performance/src/challenge.rs: an exchange with a concrete, insecure hash.
use zssp.Base.{
  ℕ, zero, suc, ◌+◌, ◌-◌, ◌/◌, ◌%◌, ◌<◌, ◌^◌, ◌≡◌, ◌↔◌, refl, true, List, [], ◌∷◌, ◌++◌, some,
  length, take, drop, replicate, arith, u64_mod,
}
use zssp.Base.Bytes.{from_be_bytes, AllBytes}
use zssp.Crypto.{Sha512, secure_eq}
use zssp.Window
use zssp.Challenge.{
  ChallengeContext, accept, challenge, verify_pow, create_mac, process_hello, search_pow,
  respond_to_challenge_in_place,
}
use zssp.Challenge.Pow.{verify_pow_iff}
use zssp.Challenge.Accept.{run, process_hello-accept, process_hello_once, process_hello_answer}
use zssp.Challenge.Respond.{respond_to_challenge_in_place-some}

abbrev sum : List ℕ → ℕ
sum [] = 0
sum (x ∷ xs) = x + sum xs

AllBytes-replicate : (n b : ℕ) → b < 256 → AllBytes (replicate n b)
AllBytes-replicate zero b h = tt
AllBytes-replicate (suc n) b h = (h, AllBytes-replicate n b h)

abbrev toy_digest : List ℕ → List ℕ
toy_digest m = 0 ∷ (sum m % 16) ∷ replicate 62 (sum m % 256)

length-toy_digest : (m : List ℕ) → length (toy_digest m) ≡ 64
length-toy_digest m = refl

toy_digest-AllBytes : (m : List ℕ) → AllBytes (toy_digest m)
toy_digest-AllBytes m =
    (omega arith, (omega arith, AllBytes-replicate 62 (sum m % 256) (omega arith)))

abbrev toy : Sha512
toy = record {
  digest = toy_digest;
  digest_size = length-toy_digest;
  digest_bytes = toy_digest-AllBytes;
}

abbrev ctx : ChallengeContext
ctx = record {
  counter = 3;
  antireplay_window = record { slots = replicate 32 0 };
  salt = 9 ∷ 9 ∷ [];
}

abbrev addr : List ℕ
addr = 10 ∷ 0 ∷ 0 ∷ 1 ∷ []

-- The first 24 bytes of the responder's challenge: the counter and the code.
abbrev kept : List ℕ
kept = replicate 7 0 ++ 3 ∷ 0 ∷ 0 ∷ replicate 14 32

abbrev issued : List ℕ
issued = kept ++ replicate 8 0

-- An answer with another proof of work.
abbrev answer : List ℕ
answer = kept ++ 1 ∷ replicate 7 0

abbrev le_bytes : ℕ → ℕ → List ℕ
le_bytes zero x = []
le_bytes (suc n) x = (x % 256) ∷ le_bytes n (x / 256)

refused : (process_hello toy ctx addr (replicate 32 0)).1 ≡ challenge issued
unfolding process_hello create_mac from_be_bytes
refused = refl

answered : (process_hello toy ctx addr answer).1 ≡ accept
unfolding process_hello create_mac verify_pow
answered = refl

-- From 5 on, 13 is the first value that does.
found :
    respond_to_challenge_in_place toy (le_bytes 8) 20 5 issued (replicate 32 0)
    ≡ some (kept ++ 13 ∷ replicate 7 0)
unfolding respond_to_challenge_in_place search_pow verify_pow secure_eq
found = refl

pow_holds : verify_pow toy answer ≡ true
unfolding verify_pow
pow_holds = refl

verify_pow_iff_example :
    (verify_pow toy answer ≡ true) ↔ (from_be_bytes (take 4 (toy_digest answer)) < 2 ^ 19)
verify_pow_iff_example = verify_pow_iff toy answer

process_hello-accept_example :
    let c = from_be_bytes (take 8 answer) in
    (Window.check (u64_mod - 1) ctx.antireplay_window c ≡ true)
    × (take 16 (drop 8 answer) ≡ create_mac toy ctx.salt c addr)
    × (from_be_bytes (take 4 (toy_digest answer)) < 2 ^ 19)
process_hello-accept_example = process_hello-accept toy ctx addr answer answered

process_hello_once_example : ¬ (
    (process_hello toy
      (run toy (process_hello toy ctx addr answer).0 ((addr, issued) ∷ (addr, replicate 32 0) ∷ []))
      (1 ∷ [])
      issued).1
    ≡ accept)
process_hello_once_example =
    process_hello_once toy ctx addr answer ((addr, issued) ∷ (addr, replicate 32 0) ∷ []) (1 ∷ [])
      issued (omega arith) answered refl

process_hello_answer_example :
    (process_hello toy
      (run toy (process_hello toy ctx addr (replicate 32 0)).0 ((addr, replicate 32 0) ∷ []))
      addr
      answer).1
    ≡ accept
unfolding process_hello run create_mac from_be_bytes
process_hello_answer_example =
    process_hello_answer toy ctx addr (replicate 32 0) issued answer ((addr, replicate 32 0) ∷ [])
      (omega arith) (omega arith) refused refl pow_holds refl

respond_to_challenge_in_place-some_example :
    (response : List ℕ) × (respond_to_challenge_in_place toy
        (le_bytes 8)
        20
        5
        issued
        (replicate 32 0)
      ≡ some response)
    × (take 24 response ≡ take 24 issued)
    × (verify_pow toy response ≡ true)
unfolding verify_pow
respond_to_challenge_in_place-some_example =
    respond_to_challenge_in_place-some toy (le_bytes 8) 20 5 8 issued (replicate 32 0) refl
      (omega arith) (omega arith) refl refl

-- ===== src/Challenge/Accept.antt =====
-- What `process_hello` accepts: an answer to a challenge of this responder, from the address that it
-- was sent to, once.
use zssp.Base.{
  ℕ, ◌-◌, ◌%◌, ◌^◌, ◌≤◌, ◌<◌, ◌≡◌, refl, ap, ◌∙◌, true, List, [], ◌∷◌, ◌++◌, length, get_or, take,
  drop, arith, Bool-cases, inl, inr, u64_mod, take-append, drop-append, take-take, drop-take, sym,
  length-take, wrapping_add,
}
use zssp.Base.Bytes.{to_be_bytes, from_be_bytes, length-to_be_bytes, from_be_bytes-to_be_bytes}
use zssp.Crypto.{Sha512, secure_eq, secure_eq_iff}
use zssp.Window
use zssp.Window.{Window}
use zssp.Window.Run.{length-update, slot-update}
use zssp.Challenge.Pow.{verify_pow_iff}
use zssp.Challenge.{
  ChallengeContext, accept, challenge, verify_pow, create_mac, passes, process_hello,
}

module _ (sha : Sha512) where
  -- A call, with the address that the packet came from and the response in it.
  unfoldable pub run : ChallengeContext → List (List ℕ × List ℕ) → ChallengeContext
  run ctx [] = ctx
  run ctx ((addr, response) ∷ calls) = run (process_hello sha ctx addr response).0 calls

  -- What no call undoes: the salt, the size of the window, and that a counter has been used.
  pub record IsLater (c : ℕ) (before after : ChallengeContext) : Type 0 where
    pub salt_kept : after.salt ≡ before.salt
    pub size_kept : length after.antireplay_window.slots ≡ length before.antireplay_window.slots
    pub slot_grows :
        get_or before.antireplay_window.slots (c % length before.antireplay_window.slots) 0
        ≤ get_or after.antireplay_window.slots (c % length before.antireplay_window.slots) 0

  process_hello-IsLater :
      (c : ℕ) (ctx : ChallengeContext) (addr response : List ℕ)
      → 0 < length ctx.antireplay_window.slots
      → IsLater c ctx (process_hello sha ctx addr response).0
  unfolding process_hello
  process_hello-IsLater c ctx addr response h =
      let d = from_be_bytes (take 8 response) in
      let w = ctx.antireplay_window in
      elim (Bool-cases (passes sha ctx addr response)) [
        | inl e ↦ rw e (record {
          salt_kept = refl;
          size_kept = length-update (u64_mod - 1) w d;
          slot_grows = ground (arith, slot-update (u64_mod - 1) w d (c % length w.slots) h);
        })
        | inr e ↦ rw e (record { salt_kept = refl; size_kept = refl; slot_grows = omega arith })
      ]

  IsLater-trans : {c : ℕ} {x y z : ChallengeContext} → IsLater c x y → IsLater c y z → IsLater c x z
  IsLater-trans {c} {x} {y} {z} p q =
      let grows = rw p.size_kept at q.slot_grows in
      record {
        salt_kept = q.salt_kept ∙ p.salt_kept;
        size_kept = q.size_kept ∙ p.size_kept;
        slot_grows = omega (arith, grows, p.slot_grows);
      }

  pub run-IsLater :
      (c : ℕ) (ctx : ChallengeContext) (calls : List (List ℕ × List ℕ))
      → 0 < length ctx.antireplay_window.slots
      → IsLater c ctx (run ctx calls)
  unfolding run
  run-IsLater c ctx [] h = record { salt_kept = refl; size_kept = refl; slot_grows = omega arith }
  run-IsLater c ctx ((addr, response) ∷ calls) h =
      let first = process_hello-IsLater c ctx addr response h in
      IsLater-trans first (
        run-IsLater c (process_hello sha ctx addr response).0 calls
          (omega (arith, first.size_kept)))

  passes_of_accept :
      (ctx : ChallengeContext) (addr response : List ℕ)
      → (process_hello sha ctx addr response).1 ≡ accept
      → passes sha ctx addr response ≡ true
  unfolding process_hello
  passes_of_accept ctx addr response h = elim (Bool-cases (passes sha ctx addr response)) [
    | inl e ↦ e
    | inr e ↦ let h' = rw e at h in cc
  ]

  pub accept_of_passes :
      (ctx : ChallengeContext) (addr response : List ℕ)
      → passes sha ctx addr response ≡ true
      → (process_hello sha ctx addr response).1 ≡ accept
  unfolding process_hello
  accept_of_passes ctx addr response h = rw h

  -- The three tests.
  passes_parts :
      (ctx : ChallengeContext) (addr response : List ℕ)
      → passes sha ctx addr response ≡ true
      → let c = from_be_bytes (take 8 response) in
        (Window.check (u64_mod - 1) ctx.antireplay_window c ≡ true)
        × (secure_eq (take 16 (drop 8 response)) (create_mac sha ctx.salt c addr) ≡ true)
        × (verify_pow sha response ≡ true)
  unfolding passes
  passes_parts ctx addr response h = ground arith

  -- What is accepted has a counter that the window takes, the code of this salt, that counter and that
  -- address, and a hash whose first 32 bits make a number below 2^19.
  pub process_hello-accept :
      (ctx : ChallengeContext) (addr response : List ℕ)
      → (process_hello sha ctx addr response).1 ≡ accept
      → let c = from_be_bytes (take 8 response) in
        (Window.check (u64_mod - 1) ctx.antireplay_window c ≡ true)
        × (take 16 (drop 8 response) ≡ create_mac sha ctx.salt c addr)
        × (from_be_bytes (take 4 (sha.digest response)) < 2 ^ 19)
  process_hello-accept ctx addr response h =
      let (fresh, same, work) =
        passes_parts ctx addr response (passes_of_accept ctx addr response h) in
      (fresh, (secure_eq_iff _ _).0 same, (verify_pow_iff sha response).0 work)

  seen_refused :
      (ctx : ChallengeContext) (addr response : List ℕ) (c : ℕ)
      → from_be_bytes (take 8 response) ≡ c
      → wrapping_add c 1
        ≤ get_or ctx.antireplay_window.slots (c % length ctx.antireplay_window.slots) 0
      → ¬ ((process_hello sha ctx addr response).1 ≡ accept)
  unfolding Window.check
  seen_refused ctx addr response c same seen ok =
      let fresh = (passes_parts ctx addr response (passes_of_accept ctx addr response ok)).0 in
      let fresh' = rw same at fresh in absurd (ground arith)

  accept_marks :
      (ctx : ChallengeContext) (addr response : List ℕ)
      → 0 < length ctx.antireplay_window.slots
      → (process_hello sha ctx addr response).1 ≡ accept
      → let c = from_be_bytes (take 8 response) in
        wrapping_add c 1
        ≤ get_or
            (process_hello sha ctx addr response).0.antireplay_window.slots
            (c % length ctx.antireplay_window.slots)
            0
  unfolding process_hello
  accept_marks ctx addr response h ok =
      let d = from_be_bytes (take 8 response) in
      let w = ctx.antireplay_window in
      rw (passes_of_accept ctx addr response ok)
        (ground (arith, slot-update (u64_mod - 1) w d (d % length w.slots) h))

  passes_of_parts :
      (ctx : ChallengeContext) (addr response : List ℕ)
      → let c = from_be_bytes (take 8 response) in
        Window.check (u64_mod - 1) ctx.antireplay_window c ≡ true
        → secure_eq
            (take 16 (drop 8 response))
            (create_mac sha ctx.salt (from_be_bytes (take 8 response)) addr)
          ≡ true
        → verify_pow sha response ≡ true
        → passes sha ctx addr response ≡ true
  unfolding passes
  passes_of_parts ctx addr response p q r = ground arith

  length-create_mac :
      (salt : List ℕ) (c : ℕ) (addr : List ℕ) → length (create_mac sha salt c addr) ≡ 16
  unfolding create_mac
  length-create_mac salt c addr =
      let input = to_be_bytes 8 c ++ (addr ++ salt) in
      omega (arith, length-take 16 (sha.digest input), sha.digest_size input)

  -- The counter and the code of an answer that keeps them.
  issued_parts :
      (ctx : ChallengeContext) (addr response issued answer : List ℕ)
      → ctx.counter < u64_mod
      → (process_hello sha ctx addr response).1 ≡ challenge issued
      → take 24 answer ≡ take 24 issued
      → (from_be_bytes (take 8 answer) ≡ ctx.counter)
        × (take 16 (drop 8 answer) ≡ create_mac sha ctx.salt ctx.counter addr)
  unfolding process_hello
  issued_parts ctx addr response issued answer small refused kept =
      let d = to_be_bytes 8 ctx.counter in
      let mac = create_mac sha ctx.salt ctx.counter addr in
      let made : issued ≡ d ++ (mac ++ drop 24 response) = ground arith in
      let front : take 8 answer ≡ d =
        sym (take-take 8 24 answer (omega arith))
        ∙ ap (take 8) kept
        ∙ take-take 8 24 issued (omega arith)
        ∙ ap (take 8) made
        ∙ take-append d (mac ++ drop 24 response) 8 (length-to_be_bytes 8 ctx.counter) in
      let back : take 16 (drop 8 answer) ≡ mac =
        sym (drop-take 8 16 24 answer refl)
        ∙ ap (drop 8) kept
        ∙ drop-take 8 16 24 issued refl
        ∙ ap (λ x. take 16 (drop 8 x)) made
        ∙ ap (take 16)
            (drop-append d (mac ++ drop 24 response) 8 (length-to_be_bytes 8 ctx.counter))
        ∙ take-append mac (drop 24 response) 16 (length-create_mac ctx.salt ctx.counter addr) in
      (ap from_be_bytes front ∙ from_be_bytes-to_be_bytes 8 ctx.counter small, back)

  -- Once a response is accepted, no response with its counter is accepted again, from any address and
  -- after any calls.
  pub process_hello_once :
      (ctx : ChallengeContext) (addr response : List ℕ) (calls : List (List ℕ × List ℕ))
      (addr' response' : List ℕ)
      → 0 < length ctx.antireplay_window.slots
      → (process_hello sha ctx addr response).1 ≡ accept
      → take 8 response' ≡ take 8 response
      → ¬ (
          (process_hello sha (run (process_hello sha ctx addr response).0 calls) addr' response').1
          ≡ accept)
  process_hello_once ctx addr response calls addr' response' h ok same =
      let c = from_be_bytes (take 8 response) in
      let next = (process_hello sha ctx addr response).0 in
      let first = process_hello-IsLater c ctx addr response h in
      let rest = run-IsLater c next calls (omega (arith, first.size_kept)) in
      let grows = rw first.size_kept at rest.slot_grows in
      seen_refused (run next calls) addr' response' c (ap from_be_bytes same) (
        rw (rest.size_kept, first.size_kept)
          (omega (arith, grows, accept_marks ctx addr response h ok)))

  -- A peer that is refused gets a challenge, and passes if it sends the challenge back from the same
  -- address with a proof of work in place of the last 8 bytes, whatever calls come in between, so long
  -- as the counter of the challenge is still in the window.
  pub process_hello_answer :
      (ctx : ChallengeContext) (addr response issued answer : List ℕ)
      (calls : List (List ℕ × List ℕ))
      → 0 < length ctx.antireplay_window.slots
      → ctx.counter < u64_mod
      → (process_hello sha ctx addr response).1 ≡ challenge issued
      → take 24 answer ≡ take 24 issued
      → verify_pow sha answer ≡ true
      → Window.check
          (u64_mod - 1)
          (run (process_hello sha ctx addr response).0 calls).antireplay_window
          ctx.counter
        ≡ true
      → (process_hello sha (run (process_hello sha ctx addr response).0 calls) addr answer).1
        ≡ accept
  process_hello_answer ctx addr response issued answer calls h small refused kept work fresh =
      let next = (process_hello sha ctx addr response).0 in
      let later = run next calls in
      let first = process_hello-IsLater 0 ctx addr response h in
      let rest = run-IsLater 0 next calls (omega (arith, first.size_kept)) in
      let (counter_back, mac_back) =
        issued_parts ctx addr response issued answer small refused kept in
      accept_of_passes later addr answer (
        passes_of_parts later addr answer (rw counter_back fresh)
          ((secure_eq_iff _ _).1 (rw (counter_back, rest.salt_kept, first.salt_kept) mac_back))
          work)

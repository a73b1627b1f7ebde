-- ===== src/Zeta/Once.antt =====
-- The window of a session takes every counter once.
use zssp.Base.{
  ℕ, ◌-◌, ◌%◌, ◌<◌, ◌≤◌, ◌≡◌, ◌≢◌, refl, sym, ap, ap₂, none, subst, ◌∙◌, true, false, Bool-cases,
  List, [], ◌∷◌, length, take, drop, get_or, set, arith, ltb, length-set, get_or-set, inl, inr,
}
use native.Mathlib.Nat.{mod-lt}
use zssp.Crypto.Layer.{CryptoLayer}
use zssp.Results.{
  ok, fail_if, ok_or, fault, failed_auth, out_of_sequence, ReceiveError, >>=-ok, ok_inj,
}
use zssp.Zeta.Data.{Zeta}
use zssp.Zeta.Auth.{authenticate, find_kid}
use zssp.Zeta.Keys.{key_ref, update_counter_window, saturating_add, takes}
use zssp.Zeta.Nonce.{from_nonce}
use zssp.Zeta.Payload.{received_payload_in_place}

-- The slots of the window only go up, and they stay as many.
record Grows (window window' : List ℕ) : Type 0 where
  size : length window' ≡ length window
  grows : (i : ℕ) → get_or window i 0 ≤ get_or window' i 0

takes-lt :
    (window : List ℕ) (counter : ℕ)
    → takes window counter ≡ true
    → get_or window (counter % length window) 0 < saturating_add counter 1
unfolding takes
takes-lt window counter h = ground arith

takes_stale :
    (window : List ℕ) (counter : ℕ)
    → saturating_add counter 1 ≤ get_or window (counter % length window) 0
    → takes window counter ≡ false
unfolding takes
takes_stale window counter stale = ground arith

set-Grows :
    (window : List ℕ) (i v : ℕ)
    → i < length window
    → get_or window i 0 < v
    → Grows window (set window i v)
set-Grows window i v inside up = record {
  size = length-set window i v;
  grows = λ j. ground (arith, get_or-set window i j v 0 inside);
}

module _ {c : CryptoLayer} where
  update_counter_window-Grows :
      (zeta : Zeta c) (counter : ℕ)
      → 0 < length zeta.counter_antireplay_window
      → Grows zeta.counter_antireplay_window
          (update_counter_window zeta counter).0.counter_antireplay_window
  unfolding update_counter_window
  update_counter_window-Grows zeta counter some_slot =
      let window = zeta.counter_antireplay_window in
      elim (Bool-cases (takes window counter)) [
        | inl h ↦ rw h (
            set-Grows window (counter % length window) (saturating_add counter 1)
              (mod-lt counter some_slot) (takes-lt window counter h))
        | inr h ↦ rw h (record { size = refl; grows = λ i. omega arith })
      ]

  update_counter_window-slot :
      (zeta zeta' : Zeta c) (counter : ℕ)
      → 0 < length zeta.counter_antireplay_window
      → update_counter_window zeta counter ≡ (zeta', true)
      → saturating_add counter 1
        ≤ get_or zeta'.counter_antireplay_window
            (counter % length zeta'.counter_antireplay_window)
            0
  unfolding update_counter_window
  update_counter_window-slot zeta zeta' counter some_slot taken =
      let window = zeta.counter_antireplay_window in
      elim (Bool-cases (takes window counter)) [
        | inl h ↦
            let after = set window (counter % length window) (saturating_add counter 1) in
            let is_after : after ≡ zeta'.counter_antireplay_window =
              ap (λ r. r.0.counter_antireplay_window) (rw h at taken) in
            let size = length-set window (counter % length window) (saturating_add counter 1) in
            let found =
              get_or-set window (counter % length window) (counter % length window)
                (saturating_add counter 1) 0 (mod-lt counter some_slot) in
            subst (λ w. saturating_add counter 1 ≤ get_or w (counter % length w) 0) is_after
              (rw size (ground (arith, found)))
        | inr h ↦ let no : false ≡ true = ap (λ r. r.1) (rw h at taken) in cc
      ]

  -- Counters that come in one after the other.
  unfoldable pub accept_all : Zeta c → List ℕ → Zeta c
  accept_all zeta [] = zeta
  accept_all zeta (counter ∷ counters) = accept_all (update_counter_window zeta counter).0 counters

  accept_all-Grows :
      (zeta : Zeta c) (counters : List ℕ)
      → 0 < length zeta.counter_antireplay_window
      → Grows zeta.counter_antireplay_window (accept_all zeta counters).counter_antireplay_window
  unfolding accept_all
  accept_all-Grows zeta [] some_slot = record { size = refl; grows = λ i. omega arith }
  accept_all-Grows zeta (counter ∷ counters) some_slot =
      let first = update_counter_window-Grows zeta counter some_slot in
      let rest =
        accept_all-Grows (update_counter_window zeta counter).0 counters
          (omega (arith, first.size)) in
      record {
        size = rest.size ∙ first.size;
        grows = λ i. omega (arith, first.grows i, rest.grows i);
      }

  takes_once :
      (zeta zeta' : Zeta c) (counter : ℕ) (counters : List ℕ)
      → 0 < length zeta.counter_antireplay_window
      → update_counter_window zeta counter ≡ (zeta', true)
      → takes (accept_all zeta' counters).counter_antireplay_window counter ≡ false
  takes_once zeta zeta' counter counters some_slot taken =
      let first : Grows zeta.counter_antireplay_window zeta'.counter_antireplay_window =
        subst (λ z. Grows zeta.counter_antireplay_window z.0.counter_antireplay_window) taken
          (update_counter_window-Grows zeta counter some_slot) in
      let later = accept_all-Grows zeta' counters (omega (arith, first.size)) in
      let held = update_counter_window-slot zeta zeta' counter some_slot taken in
      let w = (accept_all zeta' counters).counter_antireplay_window in
      takes_stale w counter (
        rw later.size
          (omega (arith, held, later.grows (counter % length zeta'.counter_antireplay_window))))

  -- A packet that is taken has a counter that the window takes.
  pub authenticate-ok :
      (zeta zeta' : Zeta c) (key n body tag plain : List ℕ)
      → authenticate zeta key n body tag ≡ ok (zeta', plain)
      → (t counter : ℕ) × (from_nonce {E = ReceiveError} n ≡ ok (t, counter))
        × (update_counter_window zeta counter ≡ (zeta', true))
  unfolding authenticate
  authenticate-ok zeta zeta' key n body tag plain h =
      elim (Bool-cases (c.aead_decrypt key n none body tag).1) [
        | inr a ↦ let no = rw a at h in cc
        | inl a ↦
            let ((t, counter), nonce, rest) =
              >>=-ok (from_nonce {E = ReceiveError} n) _ (rw a at h) in
            elim (Bool-cases (update_counter_window zeta counter).1) [
              | inr f ↦ let no = rw f at rest in cc
              | inl f ↦
                  let same = rw f at rest in
                  (t, counter, nonce, ap₂ (λ z b. (z, b)) (ap (λ a. a.0) (ok_inj same)) f)
            ]
      ]

  received-ok :
      (zeta zeta' : Zeta c) (kid : ℕ) (n payload plain : List ℕ)
      → received_payload_in_place zeta kid n payload ≡ ok (zeta', plain)
      → (t counter : ℕ) × (from_nonce {E = ReceiveError} n ≡ ok (t, counter))
        × (update_counter_window zeta counter ≡ (zeta', true))
  unfolding received_payload_in_place
  received-ok zeta zeta' kid n payload plain h =
      let i = length payload - 16 in
      let (long, _, h1) = >>=-ok (fail_if (ltb (length payload) 16) (fault failed_auth true)) _ h in
      let (is_other, _, h2) = >>=-ok (find_kid zeta kid) _ h1 in
      let (key, _, h3) =
        >>=-ok (ok_or (key_ref zeta is_other).recv.nk (fault out_of_sequence true)) _ h2 in
      authenticate-ok zeta zeta' key n (take i payload) (drop i payload) plain h3

  -- A packet that is taken is never taken again, nor is another packet with its nonce, whatever
  -- counters come in between.
  pub received_payload_in_place_once :
      (zeta zeta' : Zeta c) (kid kid' : ℕ) (n payload plain payload' : List ℕ) (counters : List ℕ)
      (r : Zeta c × List ℕ)
      → 0 < length zeta.counter_antireplay_window
      → received_payload_in_place zeta kid n payload ≡ ok (zeta', plain)
      → received_payload_in_place (accept_all zeta' counters) kid' n payload' ≢ ok r
  unfolding received_payload_in_place update_counter_window
  received_payload_in_place_once zeta zeta' kid kid' n payload plain payload' counters r some_slot
        first second =
      let (t, counter, nonce, taken) = received-ok zeta zeta' kid n payload plain first in
      let later = accept_all zeta' counters in
      let (t', counter', nonce', again) = received-ok later r.0 kid' n payload' r.1 second in
      let same : counter' ≡ counter = ap (λ a. a.1) (ok_inj (sym nonce' ∙ nonce)) in
      let refused = takes_once zeta zeta' counter counters some_slot taken in
      let no : false ≡ true = ap (λ u. u.1) (rw (same, refused) at again) in cc

-- ===== src/Zeta/Storage.antt =====
-- reference/src/zeta.rs and reference/src/ratchet_state.rs: the updates that a session asks of the
-- storage, against the fingerprints that they ask to add and to delete.
use zssp.Base.{ℕ, ◌+◌, ◌≡◌, false, List, Option, none, some, inl, inr, ◌⊎◌, arith, if◌then◌else◌}
use zssp.Crypto.Layer.{CryptoLayer}
use zssp.Ratchet.{
  RatchetState, RatchetStates, CompareAndSwap, bytes_eq, is_empty, added_fingerprint,
  deleted_fingerprint1, deleted_fingerprint2, to_new_states, to_cur_states,
}
use zssp.Zeta.Confirm.{c1_update}
use zssp.Zeta.Data.{Zeta}
use zssp.Zeta.K1.{k1_update}
use zssp.Zeta.K2.{k2_update}
use zssp.Zeta.X2.{x2_update}
use zssp.Zeta.X3.{x3_update}

-- How often a fingerprint is the one of a state that is not empty.
unfoldable pub hits : List ℕ → RatchetState → ℕ
hits f rs = if is_empty rs then 0 else if bytes_eq rs.fingerprint f then 1 else 0

unfoldable pub hits_option : List ℕ → Option RatchetState → ℕ
hits_option f none = 0
hits_option f (some rs) = hits f rs

unfoldable pub named : List ℕ → Option (List ℕ) → ℕ
named f none = 0
named f (some f') = if bytes_eq f' f then 1 else 0

-- How often the states have a fingerprint.
unfoldable pub held : List ℕ → RatchetStates → ℕ
held f states = hits f states.state1 + hits_option f states.state2

-- A storage that has the fingerprints of the current states, and adds and deletes what the update says,
-- has the fingerprints of the new states.
abbrev pub IsBalanced : CompareAndSwap → Type 0
IsBalanced u =
    (f : List ℕ)
    → held f (to_new_states u) + named f (deleted_fingerprint1 u) + named f (deleted_fingerprint2 u)
      ≡ held f (to_cur_states u) + named f (added_fingerprint u)

-- What deleting a state takes away.
deleted1-hits :
    (f : List ℕ) (u : CompareAndSwap)
    → named f (deleted_fingerprint1 u)
      ≡ (if u.cur_state1_was_just_deleted then hits f u.cur_state1 else 0)
unfolding named deleted_fingerprint1 hits
deleted1-hits f u = ground arith

deleted2-hits :
    (f : List ℕ) (u : CompareAndSwap)
    → named f (deleted_fingerprint2 u)
      ≡ (if u.cur_state2_was_just_deleted then hits_option f u.cur_state2 else 0)
unfolding named deleted_fingerprint2 hits hits_option
deleted2-hits f u = ground arith

added-hits :
    (f : List ℕ) (u : CompareAndSwap)
    → is_empty u.new_state1 ≡ false
    → named f (added_fingerprint u)
      ≡ (if u.new_state1_was_just_added then hits f u.new_state1 else 0)
unfolding named added_fingerprint hits
added-hits f u h = rw h (ground arith)

-- An update is balanced if the new states and the states it deletes are the current ones and the one it
-- adds.
balanced :
    (u : CompareAndSwap)
    → is_empty u.new_state1 ≡ false
    → ((f : List ℕ)
        → held f (to_new_states u)
            + (if u.cur_state1_was_just_deleted then hits f u.cur_state1 else 0)
            + (if u.cur_state2_was_just_deleted then hits_option f u.cur_state2 else 0)
          ≡ held f (to_cur_states u)
            + (if u.new_state1_was_just_added then hits f u.new_state1 else 0))
    → IsBalanced u
balanced u full h f = rw (deleted1-hits f u, deleted2-hits f u, added-hits f u full) (h f)

module _ {c : CryptoLayer} where
  -- The updates of the second and third packet of a handshake, of both packets of a rekeying and of a key
  -- confirmation name exactly what they change: a fingerprint is in the new states and in what is deleted
  -- as often as it is in the current states and in what is added. The new state has a fingerprint that is
  -- not empty, and the initiator used its first or second ratchet state.
  pub updates-IsBalanced :
      (zeta : Zeta c) (ratchet_i : ℕ) (rs : RatchetState) (states : RatchetStates)
      → is_empty rs ≡ false
      → (ratchet_i ≡ 1) ⊎ (ratchet_i ≡ 2)
      → IsBalanced (x2_update zeta ratchet_i rs)
        × IsBalanced (x3_update rs states)
        × IsBalanced (k1_update zeta rs)
        × IsBalanced (k2_update zeta rs)
        × IsBalanced (c1_update zeta)
  unfolding held x2_update x3_update k1_update k2_update c1_update to_new_states to_cur_states
      hits_option named added_fingerprint
  updates-IsBalanced zeta ratchet_i rs states full used = (
    elim used [
      | inl first ↦ rw first (balanced (x2_update zeta 1 rs) full λ f. omega arith)
      | inr second ↦ rw second (balanced (x2_update zeta 2 rs) full λ f. omega arith)
    ],
    balanced (x3_update rs states) full (λ f. omega arith),
    balanced (k1_update zeta rs) full (λ f. omega arith),
    balanced (k2_update zeta rs) full (λ f. omega arith),
    λ f. rw (deleted1-hits f (c1_update zeta), deleted2-hits f (c1_update zeta)) (omega arith),
  )

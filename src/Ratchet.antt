-- ===== src/Ratchet.antt =====
-- reference/src/ratchet_state.rs: ratchet states, and their updates in the storage of the application.
use zssp.Base.{
  ◌≡◌, refl, ap₂, ◌↔◌, arith, ℕ, Bool, true, false, ◌&&◌, not, List, [], ◌∷◌, ◌++◌, Option, none,
  some, take, replicate, ◌==◌, if◌then◌else◌,
}
use zssp.Base.Bytes.{to_be_bytes}
use zssp.Crypto.{secure_eq}
use zssp.Proto.Handshake.{ratchet_size, label_otp_to_ratchet}

pub record RatchetState : Type 0 where
  pub key : List ℕ
  pub fingerprint : List ℕ
  pub chain_len : ℕ

-- Equality of byte arrays.
unfoldable pub bytes_eq : List ℕ → List ℕ → Bool
bytes_eq [] [] = true
bytes_eq [] (b ∷ bs) = false
bytes_eq (a ∷ as') [] = false
bytes_eq (a ∷ as') (b ∷ bs) = (a == b) && bytes_eq as' bs

bytes_eq-eq : (as' bs : List ℕ) → bytes_eq as' bs ≡ true → as' ≡ bs
unfolding bytes_eq
bytes_eq-eq [] [] h = refl
bytes_eq-eq [] (b ∷ bs) h = cc
bytes_eq-eq (a ∷ as') [] h = cc
bytes_eq-eq (a ∷ as') (b ∷ bs) h = ap₂ ◌∷◌ (ground arith) (bytes_eq-eq as' bs (ground arith))

pub bytes_eq_self : (as' : List ℕ) → bytes_eq as' as' ≡ true
unfolding bytes_eq
bytes_eq_self [] = refl
bytes_eq_self (a ∷ as') = rw (bytes_eq_self as') (ground arith)

pub bytes_eq_iff : (as' bs : List ℕ) → (bytes_eq as' bs ≡ true) ↔ (as' ≡ bs)
bytes_eq_iff as' bs = (bytes_eq-eq as' bs, λ e. rw e (bytes_eq_self bs))

-- `PartialEq::eq`: the key is not compared.
unfoldable pub eq : RatchetState → RatchetState → Bool
unfolding bytes_eq
eq a b = bytes_eq a.fingerprint b.fingerprint && (a.chain_len == b.chain_len)

-- `Option::eq`.
unfoldable pub eq_option : Option RatchetState → Option RatchetState → Bool
unfolding eq
eq_option none none = true
eq_option none (some b) = false
eq_option (some a) none = false
eq_option (some a) (some b) = eq a b

abbrev pub empty : RatchetState
empty = record {
  key = replicate ratchet_size 0;
  fingerprint = replicate ratchet_size 0;
  chain_len = 0;
}

-- `RatchetState::new_from_otp`, with the HMAC of the application.
unfoldable pub new_from_otp : (List ℕ → List ℕ → List ℕ) → List ℕ → RatchetState
new_from_otp hmac otp =
    let buffer =
      λ (i : ℕ). (i ∷ []) ++ (label_otp_to_ratchet ++ ((0 ∷ []) ++ to_be_bytes 2 1024)) in
    record {
      key = take ratchet_size (hmac otp (buffer 1));
      fingerprint = take ratchet_size (hmac otp (buffer 2));
      chain_len = 1;
    }

unfoldable pub is_empty : RatchetState → Bool
unfolding secure_eq
is_empty rs = secure_eq rs.fingerprint (replicate ratchet_size 0)

unfoldable pub fingerprint_eq : RatchetState → List ℕ → Bool
unfolding secure_eq
fingerprint_eq rs rf = secure_eq rs.fingerprint rf

unfoldable pub fingerprint_eq_nullable : Option RatchetState → Option (List ℕ) → Bool
unfolding fingerprint_eq
fingerprint_eq_nullable (some this) (some rf) = fingerprint_eq this rf
fingerprint_eq_nullable (some this) none = false
fingerprint_eq_nullable none (some rf) = false
fingerprint_eq_nullable none none = true

pub record RatchetStates : Type 0 where
  pub state1 : RatchetState
  pub state2 : Option RatchetState

abbrev pub new_initial_states : RatchetStates
new_initial_states = record { state1 = empty; state2 = none }

unfoldable pub new_otp_states : (List ℕ → List ℕ → List ℕ) → List ℕ → RatchetStates
unfolding new_from_otp
new_otp_states hmac otp = record { state1 = new_from_otp hmac otp; state2 = none }

pub record CompareAndSwap : Type 0 where
  pub new_state1 : RatchetState
  pub new_state2 : Option RatchetState
  pub new_state1_was_just_added : Bool
  pub cur_state1 : RatchetState
  pub cur_state2 : Option RatchetState
  pub cur_state1_was_just_deleted : Bool
  pub cur_state2_was_just_deleted : Bool

unfoldable pub to_new_states : CompareAndSwap → RatchetStates
to_new_states u = record { state1 = u.new_state1; state2 = u.new_state2 }

unfoldable pub to_cur_states : CompareAndSwap → RatchetStates
to_cur_states u = record { state1 = u.cur_state1; state2 = u.cur_state2 }

unfoldable pub added_fingerprint : CompareAndSwap → Option (List ℕ)
added_fingerprint u = if u.new_state1_was_just_added then some u.new_state1.fingerprint else none

unfoldable pub deleted_fingerprint1 : CompareAndSwap → Option (List ℕ)
unfolding is_empty
deleted_fingerprint1 u =
    if u.cur_state1_was_just_deleted && not (is_empty u.cur_state1)
    then some u.cur_state1.fingerprint
    else none

unfoldable pub deleted_fingerprint2 : CompareAndSwap → Option (List ℕ)
unfolding is_empty
deleted_fingerprint2 u =
    if u.cur_state2_was_just_deleted
    then elim u.cur_state2 [
      | some rf ↦ if not (is_empty rf) then some rf.fingerprint else none
      | none ↦ none
    ]
    else none

unfoldable pub cur_is_initial_states : CompareAndSwap → Bool
unfolding is_empty
cur_is_initial_states u =
    is_empty u.cur_state1 && elim u.cur_state2 [ none ↦ true | some rs ↦ false ]

unfoldable pub compare_fingerprints : CompareAndSwap → List ℕ → Option (List ℕ) → Bool
unfolding fingerprint_eq fingerprint_eq_nullable
compare_fingerprints u rf1 rf2 =
    fingerprint_eq u.cur_state1 rf1 && fingerprint_eq_nullable u.cur_state2 rf2

unfoldable pub compare : CompareAndSwap → RatchetStates → Bool
unfolding eq eq_option
compare u other = eq u.cur_state1 other.state1 && eq_option u.cur_state2 other.state2

-- ===== src/Fragged.antt =====
-- performance/src/fragged.rs: the defragmenter of one packet at a time.
-- A slot of uninitialised memory is `none`. Reading a fragment out, or dropping it in place, leaves
-- its slot uninitialised, and doing so to an uninitialised slot is undefined behaviour: `none` as the
-- result of an operation. The fragments' type is one that needs drop; for another, the code skips the
-- loop of `drop_in_place`, which then has nothing to free.
pub mod Drop
pub mod Pending
pub mod Refine
pub mod Assemble
mod Tests
use zssp.Base.{
  ℕ, zero, suc, ◌+◌, ◌-◌, ◌*◌, ◌/◌, ◌%◌, ◌^◌, bit_and, bit_or, Bool, true, false, ◌&&◌, List, [],
  ◌∷◌, ◌++◌, map, Option, none, some, get_elem?, set, replicate, ltb, leb, ◌==◌, not, if◌then◌else◌,
  u64_mod,
}

pub record Fragged {ℓ} (F : Type ℓ) : Type ℓ where
  pub nonce : ℕ
  pub count : ℕ
  pub have : ℕ
  pub frags : List (Option F)

-- The state after a call, the fragments that it freed, and those it pushed to `ret_assembled`.
pub record Outcome {ℓ} (F : Type ℓ) : Type ℓ where
  pub state : Fragged F
  pub dropped : List F
  pub assembled : List F

-- `1u64.wrapping_shl(n)`.
abbrev pub wrapping_shl_one : ℕ → ℕ
wrapping_shl_one n = 2 ^ (n % 64)

infixl 5 ◌>>=◌
abbrev pub ◌>>=◌ {ℓ κ} : {A : Type ℓ} {B : Type κ} → Option A → (A → Option B) → Option B
none >>= f = none
some a >>= f = f a

module _ {ℓ} {F : Type ℓ} where
  -- `Fragged::new`, with `max` slots.
  unfoldable pub new : ℕ → Fragged F
  new limit = record { nonce = u64_mod - 1; count = 0; have = 0; frags = replicate limit none }

  -- Moves the fragment out of slot `i`.
  unfoldable pub move_out : List (Option F) → ℕ → Option (List (Option F) × F)
  move_out frags i = elim (get_elem? frags i) [
    | some (some f) ↦ some (set frags i none, f)
    | _ ↦ none
  ]

  -- The loop of `drop_in_place`.
  unfoldable pub drop_loop : ℕ → ℕ → ℕ → List (Option F) → Option (List (Option F) × List F)
  drop_loop zero have i frags = none
  drop_loop (suc fuel) have i frags = elim (have == 0) [
    | true ↦ some (frags, [])
    | false ↦ elim (bit_and have 1 == 0) [
      | true ↦ drop_loop fuel (have / 2) (i + 1) frags
      | false ↦ do
        (left, f) ← move_out frags i
        (rest, fs) ← drop_loop fuel (have / 2) (i + 1) left
        some (rest, f ∷ fs)
    ]
  ]

  -- `have` has 64 bits, so the loop tests it 65 times at most.
  unfoldable pub drop_in_place : Fragged F → Option (Fragged F × List F)
  drop_in_place f = do
    (left, fs) ← drop_loop 65 f.have 0 f.frags
    some (record { nonce = u64_mod - 1; count = 0; have = 0; frags = left }, fs)

  -- Moves the fragments of the slots `i` to `i + n - 1` out, in order.
  unfoldable pub read_all : ℕ → ℕ → List (Option F) → Option (List (Option F) × List F)
  read_all zero i frags = some (frags, [])
  read_all (suc n) i frags = do
    (left, f) ← move_out frags i
    (rest, fs) ← read_all n (i + 1) left
    some (rest, f ∷ fs)

  -- The reset for a packet with another counter.
  unfoldable pub start : Fragged F → ℕ → ℕ → Option (Fragged F × List F)
  start f nonce fragment_count = if f.nonce == nonce then some (f, []) else (do
    (g, fs) ← drop_in_place f
    some (record g { count = fragment_count; nonce = nonce }, fs))

  -- The part that stores a fragment whose bit is clear.
  unfoldable pub store : Fragged F → F → ℕ → ℕ → Option (Fragged F × List F)
  store f fragment fragment_no fragment_count =
      let have = bit_or (wrapping_shl_one fragment_no) f.have in
      let frags = set f.frags fragment_no (some fragment) in
      if have == wrapping_shl_one f.count - 1
      then (do
        (left, fs) ← read_all fragment_count 0 frags
        some (record { nonce = u64_mod - 1; count = 0; have = 0; frags = left }, fs))
      else some (record f { have = have; frags = frags }, [])

  -- The part of `assemble` behind the reset.
  unfoldable pub accept : Fragged F → List F → F → ℕ → ℕ → Option (Outcome F)
  accept g dropped fragment fragment_no fragment_count =
      if bit_and (wrapping_shl_one fragment_no) g.have == 0 && g.count == fragment_count
      then (do
        (h, assembled) ← store g fragment fragment_no fragment_count
        some (record { state = h; dropped = dropped; assembled = assembled }))
      else some (record { state = g; dropped = dropped ++ fragment ∷ []; assembled = [] })

  -- `assemble` for a buffer of `limit` slots. A fragment that is not stored is freed on return.
  unfoldable pub assemble : ℕ → Fragged F → ℕ → F → ℕ → ℕ → Option (Outcome F)
  assemble limit f nonce fragment fragment_no fragment_count =
      if ltb fragment_no fragment_count && leb fragment_count limit
      then (do
        (g, dropped) ← start f nonce fragment_count
        accept g dropped fragment fragment_no fragment_count)
      else some (record { state = f; dropped = fragment ∷ []; assembled = [] })

-- ===== src/HandshakeCache/Search.antt =====
-- What the two searches find.
use zssp.Base.{
  ℕ, zero, suc, ◌+◌, ltb, if◌then◌else◌, ◌<◌, ◌≡◌, ◌≢◌, refl, sym, ap, ◌∙◌, true, false, List, [],
  ◌∷◌, Option, none, some, length, get_or, set, leb, arith, Bool-cases, Option-cases, inl, inr, ◌⊎◌,
}
use zssp.HandshakeCache.{holds, is_some, later, find, Scan, at, present, full, shift, scan}

some_inj {ℓ} : {A : Type ℓ} {x y : A} → some x ≡ some y → x ≡ y
some_inj e = cc

-- Slot `i` is the first that holds the id.
pub record Found (ids : List (Option ℕ)) (local_id i : ℕ) : Type 0 where
  pub within : i < length ids
  pub hit : holds (get_or ids i none) local_id ≡ true
  pub first : (j : ℕ) → j < i → holds (get_or ids j none) local_id ≡ false

first_or_later :
    (x : Option ℕ) (ids : List (Option ℕ)) (local_id : ℕ)
    → holds x local_id ≡ false
    → ((j : ℕ) → holds (get_or ids j none) local_id ≡ false)
    → (j : ℕ) → holds (get_or (x ∷ ids) j none) local_id ≡ false
first_or_later x ids local_id here there zero = here
first_or_later x ids local_id here there (suc j) = there j

first_below :
    (x : Option ℕ) (ids : List (Option ℕ)) (local_id i : ℕ)
    → holds x local_id ≡ false
    → ((j : ℕ) → j < i → holds (get_or ids j none) local_id ≡ false)
    → (j : ℕ) → j < suc i
    → holds (get_or (x ∷ ids) j none) local_id ≡ false
first_below x ids local_id i here there zero hj = here
first_below x ids local_id i here there (suc j) hj = there j (omega arith)

pub find-Found :
    (ids : List (Option ℕ)) (local_id i : ℕ) → find ids local_id ≡ some i → Found ids local_id i
unfolding find later
find-Found [] local_id i e = cc
find-Found (x ∷ ids) local_id zero e = elim (Bool-cases (holds x local_id)) [
  | inl yes_here ↦ record {
    within = omega arith;
    hit = yes_here;
    first = λ j hj. absurd (omega arith);
  }
  | inr no_here ↦ elim (Option-cases (find ids local_id)) [
    | inl none_left ↦ absurd (let e' = rw (no_here, none_left) at e in cc)
    | inr (k, found) ↦ absurd (ground (arith, some_inj (rw (no_here, found) at e)))
  ]
]
find-Found (x ∷ ids) local_id (suc i) e = elim (Bool-cases (holds x local_id)) [
  | inl yes_here ↦ absurd (ground (arith, some_inj (rw yes_here at e)))
  | inr no_here ↦ elim (Option-cases (find ids local_id)) [
    | inl none_left ↦ absurd (let e' = rw (no_here, none_left) at e in cc)
    | inr (k, found) ↦
        let same : k ≡ i = omega (arith, some_inj (rw (no_here, found) at e)) in
        let rest = find-Found ids local_id i (found ∙ ap some same) in
        record {
          within = omega (arith, rest.within);
          hit = rest.hit;
          first = first_below x ids local_id i no_here rest.first;
        }
  ]
]

pub Found-find :
    (ids : List (Option ℕ)) (local_id i : ℕ) → Found ids local_id i → find ids local_id ≡ some i
unfolding find later
Found-find [] local_id i f = absurd (omega (arith, f.within))
Found-find (x ∷ ids) local_id zero f = rw f.hit refl
Found-find (x ∷ ids) local_id (suc i) f =
    let rest : Found ids local_id i = record {
      within = omega (arith, f.within);
      hit = f.hit;
      first = λ j hj. f.first (suc j) (omega arith);
    } in
    rw (f.first 0 (omega arith), Found-find ids local_id i rest) refl

pub find-none :
    (ids : List (Option ℕ)) (local_id : ℕ)
    → find ids local_id ≡ none
    → (j : ℕ) → holds (get_or ids j none) local_id ≡ false
unfolding find later holds
find-none [] local_id e j = refl
find-none (x ∷ ids) local_id e j = elim (Bool-cases (holds x local_id)) [
  | inl yes_here ↦ absurd (let e' = rw yes_here at e in cc)
  | inr no_here ↦ elim (Option-cases (find ids local_id)) [
    | inl none_left ↦ first_or_later x ids local_id no_here (find-none ids local_id none_left) j
    | inr (k, found) ↦ absurd (let e' = rw (no_here, found) at e in cc)
  ]
]

-- A change of a slot that did not hold the id, to something else, changes nothing.
pub find-set_else :
    (ids : List (Option ℕ)) (i : ℕ) (v : Option ℕ) (local_id : ℕ)
    → holds (get_or ids i none) local_id ≡ false
    → holds v local_id ≡ false
    → find (set ids i v) local_id ≡ find ids local_id
unfolding find
find-set_else [] i v local_id before after = refl
find-set_else (x ∷ ids) zero v local_id before after = rw (before, after) refl
find-set_else (x ∷ ids) (suc i) v local_id before after =
    rw (find-set_else ids i v local_id before after) refl

pub holds_self : (id : ℕ) → holds (some id) id ≡ true
unfolding holds
holds_self id = ground arith

pub holds_other : (id other : ℕ) → other ≢ id → holds (some id) other ≡ false
unfolding holds
holds_other id other ne = ground arith

pub holds_none : (id : ℕ) → holds none id ≡ false
unfolding holds
holds_none id = refl

pub holds_ne :
    (v : Option ℕ) (id other : ℕ) → holds v id ≡ true → other ≢ id → holds v other ≡ false
unfolding holds
holds_ne none id other h ne = refl
holds_ne (some x) id other h ne = ground arith

index : Scan → ℕ
index (at i) = i
index present = 0
index full = 0

at_inj : {i j : ℕ} → at i ≡ at j → i ≡ j
unfolding index
at_inj e = ap index e

shift-at : (s : Scan) (i : ℕ) → shift s ≡ at i → (k : ℕ) × (s ≡ at k) × (suc k ≡ i)
unfolding shift
shift-at (at k) i e = (k, refl, at_inj e)
shift-at present i e = cc
shift-at full i e = cc

shift-present : (s : Scan) → shift s ≡ present → s ≡ present
unfolding shift
shift-present (at k) e = cc
shift-present present e = refl
shift-present full e = cc

-- How `scan` goes over a slot: it ends there, or it passes a slot in use that does not hold the id.
scan_cases :
    (x : Option ℕ) (ids : List (Option ℕ)) (expiry : ℕ) (expiries : List ℕ)
    (local_id current_time : ℕ)
    → (scan (x ∷ ids) (expiry ∷ expiries) local_id current_time ≡ at 0)
      ⊎ ((holds x local_id ≡ true)
          × (current_time < expiry)
          × (scan (x ∷ ids) (expiry ∷ expiries) local_id current_time ≡ present))
      ⊎ ((holds x local_id ≡ false)
          × (scan (x ∷ ids) (expiry ∷ expiries) local_id current_time
              ≡ shift (scan ids expiries local_id current_time)))
unfolding scan
scan_cases x ids expiry expiries local_id current_time = elim (Bool-cases (is_some x)) [
  | inr empty ↦ inl (rw empty refl)
  | inl used ↦ elim (Bool-cases (leb expiry current_time)) [
    | inl old ↦ inl (rw (used, old) refl)
    | inr young ↦ elim (Bool-cases (holds x local_id)) [
      | inl same ↦ inr (inl (same, ground arith, rw (used, young, same) refl))
      | inr other ↦ inr (inr (other, rw (used, young, other) refl))
    ]
  ]
]

-- Where `scan` finds a slot to use, no earlier slot holds the id.
pub scan-at :
    (ids : List (Option ℕ)) (expiries : List ℕ) (local_id current_time i : ℕ)
    → scan ids expiries local_id current_time ≡ at i
    → (i < length ids) × (find (set ids i (some local_id)) local_id ≡ some i)
unfolding scan shift find later
scan-at [] expiries local_id current_time i e = cc
scan-at (x ∷ ids) [] local_id current_time i e = cc
scan-at (x ∷ ids) (expiry ∷ expiries) local_id current_time i e =
    elim (scan_cases x ids expiry expiries local_id current_time) [
      | inl here ↦
          let zero_eq : 0 ≡ i = at_inj (sym here ∙ e) in
          rw (sym zero_eq) (omega arith, rw (holds_self local_id) refl)
      | inr (inl (_, _, there)) ↦ absurd (let e' = sym there ∙ e in cc)
      | inr (inr (other, passed)) ↦
          let (k, there, next) =
            shift-at (scan ids expiries local_id current_time) i (sym passed ∙ e) in
          let (lt, found) = scan-at ids expiries local_id current_time k there in
          rw (sym next) (omega arith, rw (other, found) refl)
    ]

-- Where `scan` ends at the id, its slot is the first that holds it and has not expired.
pub scan-present :
    (ids : List (Option ℕ)) (expiries : List ℕ) (local_id current_time : ℕ)
    → scan ids expiries local_id current_time ≡ present
    → (i : ℕ) × (find ids local_id ≡ some i) × (current_time < get_or expiries i 0)
unfolding scan shift find later
scan-present [] expiries local_id current_time e = cc
scan-present (x ∷ ids) [] local_id current_time e = cc
scan-present (x ∷ ids) (expiry ∷ expiries) local_id current_time e =
    elim (scan_cases x ids expiry expiries local_id current_time) [
      | inl here ↦ absurd (let e' = sym here ∙ e in cc)
      | inr (inl (same, young, _)) ↦ (0, rw same refl, young)
      | inr (inr (other, passed)) ↦
          let there = shift-present (scan ids expiries local_id current_time) (sym passed ∙ e) in
          let (i, found, young) = scan-present ids expiries local_id current_time there in
          (suc i, rw (other, found) refl, young)
    ]

-- How many slots hold the id.
unfoldable pub copies : List (Option ℕ) → ℕ → ℕ
copies [] local_id = 0
copies (id ∷ ids) local_id = (if holds id local_id then 1 else 0) + copies ids local_id

pub find-copies :
    (ids : List (Option ℕ)) (local_id : ℕ)
    → is_some (find ids local_id) ≡ ltb 0 (copies ids local_id)
unfolding find copies is_some later
find-copies [] local_id = refl
find-copies (id ∷ ids) local_id = let rest = find-copies ids local_id in ground arith

pub copies-set :
    (ids : List (Option ℕ)) (local_id i : ℕ)
    → find ids local_id ≡ some i
    → copies (set ids i none) local_id + 1 ≡ copies ids local_id
unfolding find copies later holds
copies-set [] local_id i e = cc
copies-set (id ∷ ids) local_id zero e = elim (Bool-cases (holds id local_id)) [
  | inl here ↦ rw here (omega arith)
  | inr there ↦ elim (Option-cases (find ids local_id)) [
    | inl none_left ↦ absurd (let e' = rw (there, none_left) at e in cc)
    | inr (k, found) ↦ absurd (ground (arith, some_inj (rw (there, found) at e)))
  ]
]
copies-set (id ∷ ids) local_id (suc i) e = elim (Bool-cases (holds id local_id)) [
  | inl here ↦ absurd (ground (arith, some_inj (rw here at e)))
  | inr there ↦ elim (Option-cases (find ids local_id)) [
    | inl none_left ↦ absurd (let e' = rw (there, none_left) at e in cc)
    | inr (k, found) ↦
        let same : k ≡ i = omega (arith, some_inj (rw (there, found) at e)) in
        let rest = copies-set ids local_id i (found ∙ ap some same) in
        rw there (omega (arith, rest))
  ]
]

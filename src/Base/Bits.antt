-- ===== src/Base/Bits.antt =====
-- Laws of `bit_and`, `bit_or` and `bit_xor`, and the mask of a list of optional values: bit `i` is set exactly
-- when entry `i` is there.
use Prim.Native.Nat.{
  ℕ, zero, suc, ◌+◌, ◌-◌, ◌*◌, ◌/◌, ◌%◌, ◌^◌, ◌≤◌, ◌<◌, min, max, bit_and, bit_or, digits,
  bit_and-bitwise, bit_or-bitwise, bit_xor, bit_xor-bitwise, differ,
}
use mathlib.Core.Path.{◌≡◌, refl, ap, subst}
use mathlib.Core.List.{List, [], ◌∷◌, ◌++◌, map}
use mathlib.Core.Option.{Option, none, some}
use native.Mathlib.Omega.{arith}
use native.Mathlib.Nat.{pow-suc}
use zssp.Base.Lists.{length, get_elem?, set, replicate}

-- The first number bounds the digits that are looked at, so any bound on it serves as fuel.
module _ (z : ℕ → ℕ) (f : ℕ → ℕ → ℕ) where
  digits_bound : (k j a b : ℕ) → a ≤ k → a ≤ j → digits z f k a b ≡ digits z f j a b
  digits_bound zero zero zero b p q = refl
  digits_bound zero (suc j) zero b p q = refl
  digits_bound (suc k) zero zero b p q = refl
  digits_bound (suc k) (suc j) zero b p q = refl
  digits_bound (suc k) (suc j) (suc a) b p q =
      ap (λ rest. rest * 2 + f (suc a % 2) (b % 2))
        (digits_bound k j (suc a / 2) (b / 2) (omega arith) (omega arith))
  digits_bound zero j (suc a) b p q = absurd (omega arith)
  digits_bound (suc k) zero (suc a) b p q = absurd (omega arith)

  -- An operation that means `digits` is one digit of each number and the operation on the others.
  module _ (op : ℕ → ℕ → ℕ) (means : (a b : ℕ) → op a b ≡ digits z f a a b)
      (runs_out : (b : ℕ) → z b ≡ z (b / 2) * 2 + f 0 (b % 2)) where
    lowest_digit : (a b : ℕ) → op a b ≡ op (a / 2) (b / 2) * 2 + f (a % 2) (b % 2)
    lowest_digit zero b = rw (means 0 b, means 0 (b / 2)) (runs_out b)
    lowest_digit (suc a) b =
        rw (means (suc a) b, means (suc a / 2) (b / 2))
          (ap (λ rest. rest * 2 + f (suc a % 2) (b % 2))
            (digits_bound a (suc a / 2) (suc a / 2) (b / 2) (omega arith) (omega arith)))

pub bit_and_step : (m n : ℕ) → bit_and m n ≡ bit_and (m / 2) (n / 2) * 2 + min (m % 2) (n % 2)
bit_and_step = lowest_digit (λ y. 0) min bit_and (λ m n. bit_and-bitwise m n) (λ n. omega arith)

pub bit_or_step : (m n : ℕ) → bit_or m n ≡ bit_or (m / 2) (n / 2) * 2 + max (m % 2) (n % 2)
bit_or_step = lowest_digit (λ y. y) max bit_or (λ m n. bit_or-bitwise m n) (λ n. omega arith)

pub bit_xor_step : (m n : ℕ) → bit_xor m n ≡ bit_xor (m / 2) (n / 2) * 2 + differ (m % 2) (n % 2)
bit_xor_step = lowest_digit (λ y. y) differ bit_xor (λ m n. bit_xor-bitwise m n) (λ n. omega arith)

pub nothing-bit_and : (n : ℕ) → bit_and 0 n ≡ 0
nothing-bit_and n = bit_and-bitwise 0 n

pub nothing-bit_or : (n : ℕ) → bit_or 0 n ≡ n
nothing-bit_or n = bit_or-bitwise 0 n

pub nothing-bit_xor : (n : ℕ) → bit_xor 0 n ≡ n
nothing-bit_xor n = bit_xor-bitwise 0 n

differ-zero : (a b : ℕ) → differ a b ≡ 0 → a ≡ b
differ-zero zero b h = omega arith
differ-zero (suc a) zero h = absurd (omega arith)
differ-zero (suc a) (suc b) h = omega (arith, differ-zero a b h)

differ_self : (a : ℕ) → differ a a ≡ 0
differ_self zero = refl
differ_self (suc a) = differ_self a

bit_xor-zero_fuel : (n a b : ℕ) → a ≤ n → bit_xor a b ≡ 0 → a ≡ b
bit_xor-zero_fuel n zero b h e = omega (arith, nothing-bit_xor b)
bit_xor-zero_fuel zero (suc a) b h e = absurd (omega arith)
bit_xor-zero_fuel (suc n) (suc a) b h e =
    let step = bit_xor_step (suc a) b in
    omega (
      arith,
      bit_xor-zero_fuel n (suc a / 2) (b / 2) (omega arith) (omega (arith, step)),
      differ-zero (suc a % 2) (b % 2) (omega (arith, step)),
    )

-- The exclusive or of two numbers is 0 only if they are the same.
pub bit_xor-zero : (a b : ℕ) → bit_xor a b ≡ 0 → a ≡ b
bit_xor-zero a b = bit_xor-zero_fuel a a b (omega arith)

bit_xor_self_fuel : (n a : ℕ) → a ≤ n → bit_xor a a ≡ 0
bit_xor_self_fuel n zero h = refl
bit_xor_self_fuel zero (suc a) h = absurd (omega arith)
bit_xor_self_fuel (suc n) (suc a) h = omega (
  arith,
  bit_xor_step (suc a) (suc a),
  bit_xor_self_fuel n (suc a / 2) (omega arith),
  differ_self (suc a % 2),
)

pub bit_xor_self : (a : ℕ) → bit_xor a a ≡ 0
bit_xor_self a = bit_xor_self_fuel a a (omega arith)

bit_or_zero_fuel : (n a b : ℕ) → a ≤ n → bit_or a b ≡ 0 → (a ≡ 0) × (b ≡ 0)
bit_or_zero_fuel n zero b h e = omega (arith, nothing-bit_or b)
bit_or_zero_fuel zero (suc a) b h e = absurd (omega arith)
bit_or_zero_fuel (suc n) (suc a) b h e =
    let step = bit_or_step (suc a) b in
    let (p, q) = bit_or_zero_fuel n (suc a / 2) (b / 2) (omega arith) (omega (arith, step)) in
    omega (arith, step)

-- An or is 0 only if both numbers are.
pub bit_or_zero : (a b : ℕ) → bit_or a b ≡ 0 → (a ≡ 0) × (b ≡ 0)
bit_or_zero a b = bit_or_zero_fuel a a b (omega arith)

and_nothing : (fuel a : ℕ) → digits (λ y. 0) min fuel a 0 ≡ 0
and_nothing zero a = refl
and_nothing (suc fuel) zero = refl
and_nothing (suc fuel) (suc a) = omega (arith, and_nothing fuel (suc a / 2))

pub bit_and-zero : (a : ℕ) → bit_and a 0 ≡ 0
bit_and-zero a = omega (arith, bit_and-bitwise a 0, and_nothing a a)

or_nothing : (fuel a : ℕ) → a ≤ fuel → digits (λ y. y) max fuel a 0 ≡ a
or_nothing zero a h = omega arith
or_nothing (suc fuel) zero h = refl
or_nothing (suc fuel) (suc a) h = omega (arith, or_nothing fuel (suc a / 2) (omega arith))

pub bit_or-zero : (a : ℕ) → bit_or a 0 ≡ a
bit_or-zero a = omega (arith, bit_or-bitwise a 0, or_nothing a a (omega arith))

pub bit_and-one : (a : ℕ) → bit_and a 1 ≡ a % 2
bit_and-one a = omega (arith, bit_and_step a 1, bit_and-zero (a / 2))

pub pow2-pos : (n : ℕ) → 0 < 2 ^ n
pow2-pos zero = omega arith
pow2-pos (suc n) = omega (arith, pow-suc 2 n, pow2-pos n)

pub pow2-suc : (n : ℕ) → 2 ^ suc n ≡ 2 * 2 ^ n
pow2-suc n = omega (arith, pow-suc 2 n)

pub pow2_mono : (m n : ℕ) → m ≤ n → 2 ^ m ≤ 2 ^ n
pow2_mono zero n h = omega (arith, pow2-pos n)
pow2_mono (suc m) zero h = absurd (omega arith)
pow2_mono (suc m) (suc n) h = omega (arith, pow2-suc m, pow2-suc n, pow2_mono m n (omega arith))

half_even : (p : ℕ) → 2 * p / 2 ≡ p
half_even p = omega arith

half_odd : (p : ℕ) → (1 + 2 * p) / 2 ≡ p
half_odd p = omega arith

-- `and_suc` and `or_suc` peel the lowest digit off a power of two.
and_suc : (i m : ℕ) → bit_and (2 ^ suc i) m ≡ 2 * bit_and (2 ^ i) (m / 2)
and_suc i m = rw pow2-suc (let e = rw half_even at (bit_and_step (2 * 2 ^ i) m) in omega (arith, e))

or_suc : (i m : ℕ) → bit_or (2 ^ suc i) m ≡ 2 * bit_or (2 ^ i) (m / 2) + m % 2
or_suc i m = rw pow2-suc (let e = rw half_even at (bit_or_step (2 * 2 ^ i) m) in omega (arith, e))

and_one : (m : ℕ) → bit_and 1 m ≡ m % 2
and_one m = omega (arith, bit_and_step 1 m, nothing-bit_and (m / 2))

or_one : (m : ℕ) → bit_or 1 m ≡ m / 2 * 2 + 1
or_one m = omega (arith, bit_or_step 1 m, nothing-bit_or (m / 2))

module _ {ℓ} {A : Type ℓ} where
  abbrev pub mask : List (Option A) → ℕ
  mask [] = 0
  mask (none ∷ s) = 2 * mask s
  mask (some _ ∷ s) = 1 + 2 * mask s

  pub mask-lt : (s : List (Option A)) → mask s < 2 ^ length s
  mask-lt [] = omega arith
  mask-lt (none ∷ s) = omega (arith, pow2-suc (length s), mask-lt s)
  mask-lt (some x ∷ s) = omega (arith, pow2-suc (length s), mask-lt s)

  -- A bit that is clear belongs to an empty entry, and one that is set to a full entry.
  pub bit_and-mask_zero :
      (s : List (Option A)) (i : ℕ)
      → i < length s
      → bit_and (2 ^ i) (mask s) ≡ 0
      → get_elem? s i ≡ some none
  bit_and-mask_zero [] i h e = absurd (omega arith)
  bit_and-mask_zero (none ∷ s) zero h e = refl
  bit_and-mask_zero (some x ∷ s) zero h e = absurd (omega (arith, and_one (1 + 2 * mask s)))
  bit_and-mask_zero (none ∷ s) (suc i) h e =
      bit_and-mask_zero s i (omega arith)
        (let f = rw half_even at (and_suc i (2 * mask s)) in omega (arith, f))
  bit_and-mask_zero (some x ∷ s) (suc i) h e =
      bit_and-mask_zero s i (omega arith)
        (let f = rw half_odd at (and_suc i (1 + 2 * mask s)) in omega (arith, f))

  pub bit_and-mask-none :
      (s : List (Option A)) (i : ℕ) → get_elem? s i ≡ some none → bit_and (2 ^ i) (mask s) ≡ 0
  bit_and-mask-none [] i e = cc
  bit_and-mask-none (none ∷ s) zero e = omega (arith, and_one (2 * mask s))
  bit_and-mask-none (some x ∷ s) zero e = cc
  bit_and-mask-none (none ∷ s) (suc i) e =
      let f = rw half_even at (and_suc i (2 * mask s)) in omega (arith, f, bit_and-mask-none s i e)
  bit_and-mask-none (some x ∷ s) (suc i) e =
      let f = rw half_odd at (and_suc i (1 + 2 * mask s)) in
      omega (arith, f, bit_and-mask-none s i e)

  -- Setting a bit is filling the entry.
  pub bit_or-mask :
      (s : List (Option A)) (i : ℕ) (x : A)
      → i < length s
      → bit_or (2 ^ i) (mask s) ≡ mask (set s i (some x))
  bit_or-mask [] i x h = absurd (omega arith)
  bit_or-mask (none ∷ s) zero x h = omega (arith, or_one (2 * mask s))
  bit_or-mask (some y ∷ s) zero x h = omega (arith, or_one (1 + 2 * mask s))
  bit_or-mask (none ∷ s) (suc i) x h =
      let f = rw half_even at (or_suc i (2 * mask s)) in
      omega (arith, f, bit_or-mask s i x (omega arith))
  bit_or-mask (some y ∷ s) (suc i) x h =
      let f = rw half_odd at (or_suc i (1 + 2 * mask s)) in
      omega (arith, f, bit_or-mask s i x (omega arith))

  pub mask_zero : (s : List (Option A)) → mask s ≡ 0 → s ≡ replicate (length s) none
  mask_zero [] e = refl
  mask_zero (none ∷ s) e = ap (◌∷◌ none) (mask_zero s (omega arith))
  mask_zero (some x ∷ s) e = absurd (omega arith)

  -- A mask of `n` ones has its first `n` entries full and no other.
  pub mask_ones :
      (s : List (Option A)) (n k : ℕ)
      → length s ≡ n + k
      → mask s ≡ 2 ^ n - 1
      → (xs : List A) × (length xs ≡ n) × (s ≡ map some xs ++ replicate k none)
  mask_ones s zero k h e =
      let l : length s ≡ k = omega arith in
      ([], refl, subst (λ m. s ≡ replicate m none) l (mask_zero s e))
  mask_ones [] (suc n) k h e = absurd (omega arith)
  mask_ones (none ∷ s) (suc n) k h e = absurd (omega (arith, pow2-suc n, pow2-pos n))
  mask_ones (some x ∷ s) (suc n) k h e =
      let (xs, l, r) = mask_ones s n k (omega arith) (omega (arith, pow2-suc n, pow2-pos n)) in
      (x ∷ xs, omega arith, ap (◌∷◌ (some x)) r)

  pub mask-ones : (xs : List A) (k : ℕ) → mask (map some xs ++ replicate k none) ≡ 2 ^ length xs - 1
  mask-ones [] zero = refl
  mask-ones [] (suc k) = omega (arith, mask-ones [] k)
  mask-ones (x ∷ xs) k = omega (arith, mask-ones xs k, pow2-suc (length xs), pow2-pos (length xs))

  pub mask-append_none : (s : List (Option A)) (k : ℕ) → mask (s ++ replicate k none) ≡ mask s
  mask-append_none [] zero = refl
  mask-append_none [] (suc k) = omega (arith, mask-append_none [] k)
  mask-append_none (none ∷ s) k = omega (arith, mask-append_none s k)
  mask-append_none (some x ∷ s) k = omega (arith, mask-append_none s k)

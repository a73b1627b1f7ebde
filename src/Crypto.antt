-- ===== src/Crypto.antt =====
-- performance/src/crypto/mod.rs and performance/src/crypto/sha512.rs: the comparison of byte slices,
-- and what the code asks of a SHA-512, as an interface. The hash itself is the application's.
pub mod Layer
pub mod Sample
mod Tests
use zssp.Base.{
  ℕ, zero, suc, ◌≡◌, refl, ◌↔◌, Bool, true, false, List, [], ◌∷◌, length, arith, bit_or, ap, ap₂,
  ◌==◌, if◌then◌else◌,
}
use Prim.Native.Nat.{bit_xor}
use zssp.Base.Bytes.{AllBytes}
use zssp.Base.Bits.{bit_xor-zero, bit_xor_self, bit_or_zero, bit_or-zero}

-- `Sha512Hash`: what a new or reset instance outputs after the updates, of which it sees the bytes
-- one after the other, is a function of those bytes, of 64 bytes.
pub record Sha512 : Type 0 where
  pub digest : List ℕ → List ℕ
  pub digest_size : (m : List ℕ) → length (digest m) ≡ 64
  pub digest_bytes : (m : List ℕ) → AllBytes (digest m)

-- The loop over the two slices, of the same length, with `x` as it was before.
unfoldable pub difference : ℕ → List ℕ → List ℕ → ℕ
difference x [] bs = x
difference x (a ∷ as') [] = x
difference x (a ∷ as') (b ∷ bs) = difference (bit_or x (bit_xor a b)) as' bs

unfoldable pub secure_eq : List ℕ → List ℕ → Bool
unfolding difference
secure_eq a b = if length a == length b then difference 0 a b == 0 else false

difference-zero :
    (x : ℕ) (as' bs : List ℕ)
    → length as' ≡ length bs
    → difference x as' bs ≡ 0
    → (x ≡ 0) × (as' ≡ bs)
unfolding difference
difference-zero x [] [] l e = (e, refl)
difference-zero x [] (b ∷ bs) l e = absurd (omega arith)
difference-zero x (a ∷ as') [] l e = absurd (omega arith)
difference-zero x (a ∷ as') (b ∷ bs) l e =
    let (h, t) = difference-zero (bit_or x (bit_xor a b)) as' bs (omega arith) e in
    let (p, q) = bit_or_zero x (bit_xor a b) h in (p, ap₂ ◌∷◌ (bit_xor-zero a b q) t)

difference_self : (as' : List ℕ) → difference 0 as' as' ≡ 0
unfolding difference
difference_self [] = refl
difference_self (a ∷ as') = rw (bit_xor_self a, bit_or-zero 0) (difference_self as')

-- The comparison, which looks at every byte, is true exactly of equal slices.
pub secure_eq_iff : (a b : List ℕ) → (secure_eq a b ≡ true) ↔ (a ≡ b)
unfolding secure_eq
secure_eq_iff a b = (
  λ h. (difference-zero 0 a b (ground arith) (ground arith)).1,
  λ e. rw e (ground (arith, difference_self b)),
)

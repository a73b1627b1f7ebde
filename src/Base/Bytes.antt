-- ===== src/Base/Bytes.antt =====
-- Integers as bytes, most significant first: `to_be_bytes` and `from_be_bytes` of a `u64`, a `u32`
-- or a `u16`, by their number of bytes.
use Prim.Native.Nat.{ℕ, zero, suc, ◌+◌, ◌*◌, ◌/◌, ◌%◌, ◌^◌, ◌≤◌, ◌<◌}
use mathlib.Core.Path.{◌≡◌, refl, sym, ap₂, subst, ◌∙◌}
use mathlib.Core.List.{List, [], ◌∷◌, ◌++◌}
use native.Mathlib.Omega.{arith}
use native.Mathlib.Nat.{pow-suc}
use zssp.Base.Lists.{length, length-append, take, drop}

-- The last `n` bytes of `x`, most significant first.
unfoldable pub to_be_bytes : ℕ → ℕ → List ℕ
to_be_bytes zero x = []
to_be_bytes (suc n) x = to_be_bytes n (x / 256) ++ (x % 256) ∷ []

-- Folds the bytes into `acc`.
unfoldable pub be_fold : ℕ → List ℕ → ℕ
be_fold acc [] = acc
be_fold acc (b ∷ bs) = be_fold (acc * 256 + b) bs

unfoldable pub from_be_bytes : List ℕ → ℕ
unfolding be_fold
from_be_bytes bs = be_fold 0 bs

be_fold-append : (acc : ℕ) (xs ys : List ℕ) → be_fold acc (xs ++ ys) ≡ be_fold (be_fold acc xs) ys
unfolding be_fold
be_fold-append acc [] ys = refl
be_fold-append acc (x ∷ xs) ys = be_fold-append (acc * 256 + x) xs ys

pub length-to_be_bytes : (n x : ℕ) → length (to_be_bytes n x) ≡ n
unfolding to_be_bytes
length-to_be_bytes zero x = refl
length-to_be_bytes (suc n) x = omega (
  arith,
  length-append (to_be_bytes n (x / 256)) ((x % 256) ∷ []),
  length-to_be_bytes n (x / 256),
)

-- Decoding the encoding of a number that fits gives the number.
pub from_be_bytes-to_be_bytes : (n x : ℕ) → x < 256 ^ n → from_be_bytes (to_be_bytes n x) ≡ x
unfolding from_be_bytes to_be_bytes be_fold
from_be_bytes-to_be_bytes zero x h = omega arith
from_be_bytes-to_be_bytes (suc n) x h =
    rw be_fold-append
      (omega (arith, from_be_bytes-to_be_bytes n (x / 256) (omega (arith, pow-suc 256 n))))

abbrev pub AllBytes : List ℕ → Type 0
AllBytes [] = Unit {0}
AllBytes (b ∷ bs) = (b < 256) × AllBytes bs

pub take-AllBytes : (n : ℕ) (bs : List ℕ) → AllBytes bs → AllBytes (take n bs)
take-AllBytes zero bs h = tt
take-AllBytes (suc n) [] h = tt
take-AllBytes (suc n) (b ∷ bs) (p, h) = (p, take-AllBytes n bs h)

be_fold-lt : (acc : ℕ) (bs : List ℕ) → AllBytes bs → be_fold acc bs < (acc + 1) * 256 ^ length bs
unfolding be_fold
be_fold-lt acc [] h = omega arith
be_fold-lt acc (b ∷ bs) (p, h) =
    let step : acc * 256 + b + 1 ≤ (acc + 1) * 256 = omega arith in
    let scaled : (acc * 256 + b + 1) * 256 ^ length bs ≤ (acc + 1) * 256 * 256 ^ length bs =
      grind arith in
    rw (pow-suc 256 (length bs)) (omega (arith, scaled, be_fold-lt (acc * 256 + b) bs h))

-- A number read from `n` bytes fits `n` bytes.
pub from_be_bytes-lt : (bs : List ℕ) → AllBytes bs → from_be_bytes bs < 256 ^ length bs
unfolding from_be_bytes
from_be_bytes-lt bs h = omega (arith, be_fold-lt 0 bs h)

pub append-AllBytes : (xs ys : List ℕ) → AllBytes xs → AllBytes ys → AllBytes (xs ++ ys)
append-AllBytes [] ys h k = k
append-AllBytes (x ∷ xs) ys (p, h) k = (p, append-AllBytes xs ys h k)

pub drop-AllBytes : (n : ℕ) (bs : List ℕ) → AllBytes bs → AllBytes (drop n bs)
drop-AllBytes zero bs h = h
drop-AllBytes (suc n) [] h = tt
drop-AllBytes (suc n) (b ∷ bs) (p, h) = drop-AllBytes n bs h

pub to_be_bytes-AllBytes : (n x : ℕ) → AllBytes (to_be_bytes n x)
unfolding to_be_bytes
to_be_bytes-AllBytes zero x = tt
to_be_bytes-AllBytes (suc n) x =
    append-AllBytes (to_be_bytes n (x / 256)) (x % 256 ∷ []) (to_be_bytes-AllBytes n (x / 256))
      (omega arith, tt)

be_fold_inj :
    (acc acc' : ℕ) (xs ys : List ℕ)
    → length xs ≡ length ys
    → AllBytes xs
    → AllBytes ys
    → be_fold acc xs ≡ be_fold acc' ys
    → (acc ≡ acc') × (xs ≡ ys)
unfolding be_fold
be_fold_inj acc acc' [] [] l h k e = (e, refl)
be_fold_inj acc acc' [] (y ∷ ys) l h k e = absurd (omega arith)
be_fold_inj acc acc' (x ∷ xs) [] l h k e = absurd (omega arith)
be_fold_inj acc acc' (x ∷ xs) (y ∷ ys) l (p, h) (q, k) e =
    let (i, t) = be_fold_inj (acc * 256 + x) (acc' * 256 + y) xs ys (omega arith) h k e in
    (omega arith, ap₂ ◌∷◌ (omega arith) t)

-- Encoding the number that bytes decode to gives the bytes.
pub to_be_bytes-from_be_bytes :
    (n : ℕ) (bs : List ℕ) → length bs ≡ n → AllBytes bs → to_be_bytes n (from_be_bytes bs) ≡ bs
unfolding from_be_bytes
to_be_bytes-from_be_bytes n bs l h =
    let fits : from_be_bytes bs < 256 ^ n =
      subst (λ m. from_be_bytes bs < 256 ^ m) l (from_be_bytes-lt bs h) in
    (be_fold_inj 0 0 (to_be_bytes n (from_be_bytes bs)) bs
      (length-to_be_bytes n (from_be_bytes bs) ∙ sym l) (to_be_bytes-AllBytes n (from_be_bytes bs))
      h (from_be_bytes-to_be_bytes n (from_be_bytes bs) fits)).1

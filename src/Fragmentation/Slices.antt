-- ===== src/Fragmentation/Slices.antt =====
-- The parts of a packet, the header before them, and the cipher in place.
use zssp.Base.{
  ℕ, zero, suc, ◌+◌, ◌-◌, ◌%◌, ◌^◌, ◌≤◌, ◌≡◌, refl, sym, ap, ◌∙◌, true, List, [], ◌∷◌, ◌++◌, some,
  length, set, take, drop, replicate, leb, arith, length-set, length-append, length-take,
  length-drop, take-append-drop, take-append, drop-append,
}
use zssp.Base.Bytes.{to_be_bytes, length-to_be_bytes}
use zssp.Proto.{header_size, kid_size}
use zssp.Fragmentation.{copy_at, create_fragment_header, slice, in_place}

length-copy_at :
    (xs : List ℕ) (start : ℕ) (bytes : List ℕ)
    → start + length bytes ≤ length xs
    → length (copy_at xs start bytes) ≡ length xs
unfolding copy_at
length-copy_at xs start bytes h =
    length-append (take start xs) (bytes ++ drop (start + length bytes) xs)
    ∙ omega (
      arith,
      length-append bytes (drop (start + length bytes) xs),
      length-take start xs,
      length-drop (start + length bytes) xs,
    )

pub length-create_fragment_header :
    (kid_send fragment_count fragment_no : ℕ) (n : List ℕ)
    → length n ≡ 10
    → length (create_fragment_header kid_send fragment_count fragment_no n) ≡ header_size
unfolding create_fragment_header
length-create_fragment_header kid_send fragment_count fragment_no n h =
    let header = copy_at (replicate header_size 0) 0 (to_be_bytes kid_size kid_send) in
    let kid : length header ≡ 16 =
      length-copy_at (replicate header_size 0) 0 (to_be_bytes kid_size kid_send)
        (omega (arith, length-to_be_bytes kid_size kid_send)) in
    let numbered = set header 4 (fragment_no % 2 ^ 8) in
    let sizes : length (set numbered 5 (fragment_count % 2 ^ 8)) ≡ 16 =
      length-set numbered 5 (fragment_count % 2 ^ 8)
      ∙ length-set header 4 (fragment_no % 2 ^ 8)
      ∙ kid in
    length-copy_at (set numbered 5 (fragment_count % 2 ^ 8)) 6 n (omega arith) ∙ sizes

drop_nil {ℓ} : {A : Type ℓ} (n : ℕ) → drop {A = A} n [] ≡ []
drop_nil zero = refl
drop_nil (suc n) = refl

drop-drop {ℓ} : {A : Type ℓ} (i k : ℕ) (xs : List A) → drop k (drop i xs) ≡ drop (i + k) xs
drop-drop zero k xs = ap (λ n. drop n xs) (omega arith)
drop-drop (suc i) k [] = drop_nil k ∙ sym (drop_nil (suc i + k))
drop-drop (suc i) k (x ∷ xs) =
    let next : suc i + k ≡ suc (i + k) = omega arith in
    drop-drop i k xs ∙ ap (λ n. drop n (x ∷ xs)) (sym next)

-- A slice and what follows it.
pub slice-drop :
    (xs : List ℕ) (i j : ℕ)
    → i ≤ j
    → j ≤ length xs
    → (part : List ℕ) × (slice xs i j ≡ some part)
      × (part ++ drop j xs ≡ drop i xs)
      × (length part ≡ j - i)
unfolding slice
slice-drop xs i j hij hj =
    let ordered : leb i j ≡ true = ground arith in
    let fits : leb j (length xs) ≡ true = ground arith in
    let next : i + (j - i) ≡ j = omega arith in
    (
      take (j - i) (drop i xs),
      rw (ordered, fits) refl,
      ap (λ n. take (j - i) (drop i xs) ++ drop n xs) (sym next)
          ∙ ap (◌++◌ (take (j - i) (drop i xs))) (sym (drop-drop i (j - i) xs))
          ∙ take-append-drop (j - i) (drop i xs),
      omega (arith, length-take (j - i) (drop i xs), length-drop i xs),
    )

-- What an inverse of the cipher in place gives back.
pub in_place-inverse :
    (encrypt decrypt : List ℕ → List ℕ) (f : List ℕ)
    → ((block : List ℕ) → length block ≡ 16 → length (encrypt block) ≡ 16)
    → ((block : List ℕ) → length block ≡ 16 → decrypt (encrypt block) ≡ block)
    → 20 ≤ length f
    → (g : List ℕ) × (in_place (some encrypt) f ≡ some g)
      × (length g ≡ length f)
      × (in_place (some decrypt) g ≡ some f)
unfolding in_place
in_place-inverse encrypt decrypt f size inverse long =
    let block = take 16 (drop 4 f) in
    let block_size : length block ≡ 16 =
      omega (arith, length-take 16 (drop 4 f), length-drop 4 f) in
    let sealed = encrypt block in
    let g = take 4 f ++ (sealed ++ drop 20 f) in
    let front : length (take 4 f) ≡ 4 = omega (arith, length-take 4 f) in
    let sealed_size = size block block_size in
    let g_size : length g ≡ length f =
      length-append (take 4 f) (sealed ++ drop 20 f)
      ∙ omega (arith, length-append sealed (drop 20 f), length-drop 20 f) in
    let test : leb 20 (length f) ≡ true = ground arith in
    let test' : leb 20 (length g) ≡ true = ground arith in
    let tail : drop 4 g ≡ sealed ++ drop 20 f =
      drop-append (take 4 f) (sealed ++ drop 20 f) 4 front in
    let middle : take 16 (drop 4 g) ≡ sealed =
      ap (take 16) tail ∙ take-append sealed (drop 20 f) 16 sealed_size in
    let end : drop 20 g ≡ drop 20 f =
      sym (drop-drop 4 16 g) ∙ ap (drop 16) tail ∙ drop-append sealed (drop 20 f) 16 sealed_size in
    let start : take 4 g ≡ take 4 f = take-append (take 4 f) (sealed ++ drop 20 f) 4 front in
    (
      g,
      rw test refl,
      g_size,
      rw test' (
          ap some (
            rw (start, middle, end, inverse block block_size)
              (ap (◌++◌ (take 4 f)) (
                  ap (◌++◌ (take 16 (drop 4 f))) (sym (drop-drop 4 16 f))
                  ∙ take-append-drop 16 (drop 4 f))
                ∙ take-append-drop 4 f))),
    )

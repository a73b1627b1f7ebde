-- ===== src/IndexedHeap/Reads.antt =====
-- Reads of the two arrays as numbers, 0 out of range: what the invariants are stated by.
use zssp.Base.{
  ℕ, zero, suc, ◌≤◌, ◌<◌, ◌≡◌, refl, true, false, List, [], ◌∷◌, ◌++◌, Option, none, some, length,
  get_elem?, set, take, leb, ◌==◌, if◌then◌else◌, arith,
}
use zssp.IndexedHeap.{Priority, Entry, IndexedBinaryHeap}

module _ {ℓ} {A : Type ℓ} (f : A → ℕ) where
  unfoldable pub read : List A → ℕ → ℕ
  read [] i = 0
  read (x ∷ xs) zero = f x
  read (x ∷ xs) (suc i) = read xs i

  pub read-get : (xs : List A) (i : ℕ) (x : A) → get_elem? xs i ≡ some x → read xs i ≡ f x
  unfolding read
  read-get [] i x e = cc
  read-get (y ∷ xs) zero x e = cc
  read-get (y ∷ xs) (suc i) x e = read-get xs i x e

  pub read-set :
      (xs : List A) (i c : ℕ) (v : A)
      → i < length xs
      → read (set xs i v) c ≡ (if i == c then f v else read xs c)
  unfolding read
  read-set [] i c v h = absurd (omega arith)
  read-set (x ∷ xs) zero zero v h = ground arith
  read-set (x ∷ xs) zero (suc c) v h = ground arith
  read-set (x ∷ xs) (suc i) zero v h = ground arith
  read-set (x ∷ xs) (suc i) (suc c) v h = ground (arith, read-set xs i c v)

  pub read-append :
      (xs : List A) (v : A) (c : ℕ)
      → read (xs ++ v ∷ []) c ≡ (if c == length xs then f v else read xs c)
  unfolding read
  read-append [] v zero = ground arith
  read-append [] v (suc c) = ground arith
  read-append (x ∷ xs) v zero = ground arith
  read-append (x ∷ xs) v (suc c) = ground (arith, read-append xs v c)

  pub read-take : (n : ℕ) (xs : List A) (c : ℕ) → c < n → read (take n xs) c ≡ read xs c
  unfolding read
  read-take zero xs c h = absurd (omega arith)
  read-take (suc n) [] c h = refl
  read-take (suc n) (x ∷ xs) zero h = refl
  read-take (suc n) (x ∷ xs) (suc c) h = read-take n xs c (omega arith)

  pub read_out : (xs : List A) (c : ℕ) → length xs ≤ c → read xs c ≡ 0
  unfolding read
  read_out [] c h = refl
  read_out (x ∷ xs) zero h = absurd (omega arith)
  read_out (x ∷ xs) (suc c) h = read_out xs c (omega arith)

module _ {ℓ} {A : Type ℓ} where
  pub get_elem?-set :
      (xs : List A) (i c : ℕ) (v : A)
      → i < length xs
      → get_elem? (set xs i v) c ≡ (if i == c then some v else get_elem? xs c)
  get_elem?-set [] i c v h = absurd (omega arith)
  get_elem?-set (x ∷ xs) zero zero v h = ground arith
  get_elem?-set (x ∷ xs) zero (suc c) v h = ground arith
  get_elem?-set (x ∷ xs) (suc i) zero v h = ground arith
  get_elem?-set (x ∷ xs) (suc i) (suc c) v h = ground (arith, get_elem?-set xs i c v)

  pub get_elem?-append_last :
      (xs : List A) (v : A) (c : ℕ)
      → get_elem? (xs ++ v ∷ []) c ≡ (if c == length xs then some v else get_elem? xs c)
  get_elem?-append_last [] v zero = ground arith
  get_elem?-append_last [] v (suc c) = ground arith
  get_elem?-append_last (x ∷ xs) v zero = ground arith
  get_elem?-append_last (x ∷ xs) v (suc c) = ground (arith, get_elem?-append_last xs v c)

  pub get_elem?-take :
      (n : ℕ) (xs : List A) (c : ℕ) → c < n → get_elem? (take n xs) c ≡ get_elem? xs c
  get_elem?-take zero xs c h = absurd (omega arith)
  get_elem?-take (suc n) [] c h = refl
  get_elem?-take (suc n) (x ∷ xs) zero h = refl
  get_elem?-take (suc n) (x ∷ xs) (suc c) h = get_elem?-take n xs c (omega arith)

  pub get_elem?_out : (xs : List A) (c : ℕ) → length xs ≤ c → get_elem? xs c ≡ none
  get_elem?_out [] c h = refl
  get_elem?_out (x ∷ xs) zero h = absurd (omega arith)
  get_elem?_out (x ∷ xs) (suc c) h = get_elem?_out xs c (omega arith)

  pub lt_of_get : (xs : List A) (c : ℕ) (x : A) → get_elem? xs c ≡ some x → c < length xs
  lt_of_get [] c x e = cc
  lt_of_get (y ∷ xs) zero x e = omega arith
  lt_of_get (y ∷ xs) (suc c) x e = omega (arith, lt_of_get xs c x e)

-- The position and the generation of a slot.
abbrev pub pos : List (ℕ × ℕ) → ℕ → ℕ
pos = read (λ (p, g). p)

abbrev pub gen : List (ℕ × ℕ) → ℕ → ℕ
gen = read (λ (p, g). g)

module _ {ℓ} {T P : Type ℓ} where
  -- The slot that an entry names.
  abbrev pub owner : List (Entry T P) → ℕ → ℕ
  owner = read (λ e. e.map_idx)

  abbrev pub key : Priority P → List (Entry T P) → ℕ → ℕ
  key order = read (λ e. order.rank e.priority)

  -- The entry of a slot, if the slot is in use: what a handle stands for.
  unfoldable pub entry_of : IndexedBinaryHeap T P → ℕ → Option (Entry T P)
  entry_of h j = if leb 2 (gen h.map j) then get_elem? h.entries (pos h.map j) else none

  pub entry_of_live :
      (h : IndexedBinaryHeap T P) (j : ℕ)
      → 2 ≤ gen h.map j
      → entry_of h j ≡ get_elem? h.entries (pos h.map j)
  unfolding entry_of
  entry_of_live h j live =
      let yes_test : leb 2 (gen h.map j) ≡ true = ground arith in rw yes_test refl

  pub entry_of_dead : (h : IndexedBinaryHeap T P) (j : ℕ) → gen h.map j < 2 → entry_of h j ≡ none
  unfolding entry_of
  entry_of_dead h j dead =
      let no_test : leb 2 (gen h.map j) ≡ false = ground arith in rw no_test refl

-- ===== src/IndexedHeap/Up.antt =====
-- `bubble_up`: with fuel above the index it ends, restores the order and keeps what handles see.
use zssp.Base.{
  ℕ, zero, suc, ◌≤◌, ◌<◌, ◌≡◌, refl, some, length, ltb, arith, inl, inr, Bool-cases, ltb→lt,
  ℕ_discrete,
}
use zssp.IndexedHeap.{Priority, IndexedBinaryHeap, bubble_up}
use zssp.IndexedHeap.Reads.{key}
use zssp.IndexedHeap.Swap.{IsLinked, Swapped, swap-some}
use zssp.IndexedHeap.Order.{
  IsHeap, UpInv, parent, above-some, Kept, Kept-refl, Kept-trans, Swapped-Kept,
}

module _ {ℓ} {T P : Type ℓ} (order : Priority P) where
  -- The entry that rises above its parent is then out of order with nothing below.
  UpInv-swap :
      (h : IndexedBinaryHeap T P) (i : ℕ) (h' : IndexedBinaryHeap T P)
      → 0 < i
      → i < length h.entries
      → UpInv order h.entries i
      → key order h.entries (parent i) < key order h.entries i
      → Swapped order h (parent i) i h'
      → UpInv order h'.entries (parent i)
  UpInv-swap h i h' i0 hi inv less s = record {
    others = λ c c0 cn ne.
        ground (
          arith,
          s.size,
          s.key_eq c,
          s.key_eq (parent c),
          inv.others c,
          inv.bridge c,
          inv.others i,
        );
    bridge = λ c c0 cn p0 e. ground (
      arith,
      s.size,
      s.key_eq c,
      s.key_eq (parent (parent i)),
      inv.others c,
      inv.others (parent i),
    );
  }

  UpInv-IsHeap :
      (h : IndexedBinaryHeap T P) (i : ℕ)
      → UpInv order h.entries i
      → (0 < i → key order h.entries i ≤ key order h.entries (parent i))
      → IsHeap order h.entries
  UpInv-IsHeap h i inv top c c0 cn = elim (ℕ_discrete c i) [
    | yes e ↦ rw e (top (omega arith))
    | no ne ↦ inv.others c c0 cn ne
  ]

  pub bubble_up-some :
      (fuel : ℕ) (h : IndexedBinaryHeap T P) (i : ℕ)
      → IsLinked h
      → UpInv order h.entries i
      → i < length h.entries
      → i < fuel
      → (h' : IndexedBinaryHeap T P) × (bubble_up order fuel h i ≡ some h')
        × Kept order h h'
        × IsHeap order h'.entries
  unfolding bubble_up
  bubble_up-some zero h i v inv hi hf = absurd (omega arith)
  bubble_up-some (suc fuel) h i v inv hi hf = elim (Bool-cases (ltb 0 i)) [
    | inr root ↦
        (h, rw root refl, Kept-refl order h v, UpInv-IsHeap h i inv (λ i0. absurd (ground arith)))
    | inl inner ↦
        let i0 = ltb→lt 0 i inner in
        let test = above-some order h.entries i (parent i) hi (omega arith) in
        elim (Bool-cases (ltb (key order h.entries (parent i)) (key order h.entries i))) [
          | inr stays ↦ (
            h,
            rw (inner, test, stays) refl,
            Kept-refl order h v,
            UpInv-IsHeap h i inv (λ _. ground arith),
          )
          | inl rises ↦
              let less = ltb→lt (key order h.entries (parent i)) (key order h.entries i) rises in
              let hp : parent i < length h.entries = omega arith in
              let (h1, e1, s) = swap-some order h (parent i) i v hp hi in
              let kept = Swapped-Kept order h (parent i) i h1 v hp hi s in
              let (h2, e2, kept2, heap) =
                bubble_up-some fuel h1 (parent i) kept.linked (UpInv-swap h i h1 i0 hi inv less s)
                  (omega (arith, s.size)) (omega arith) in
              (h2, rw (inner, test, rises, e1) e2, Kept-trans order h h1 h2 kept kept2, heap)
        ]
  ]

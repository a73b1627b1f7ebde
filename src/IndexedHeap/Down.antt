-- ===== src/IndexedHeap/Down.antt =====
-- `bubble_down`: with fuel above the number of entries it ends, restores the order and keeps what
-- handles see.
use zssp.Base.{
  ℕ, zero, suc, ◌+◌, ◌*◌, ◌≤◌, ◌<◌, ◌≡◌, refl, some, length, ltb, arith, inl, inr, Bool-cases,
  ltb→lt, ℕ_discrete,
}
use zssp.IndexedHeap.{Priority, IndexedBinaryHeap, bubble_down}
use zssp.IndexedHeap.Reads.{key}
use zssp.IndexedHeap.Swap.{IsLinked, Swapped, swap-some}
use zssp.IndexedHeap.Order.{
  IsHeap, DownInv, parent, above-some, largest_child-some, Kept, Kept-refl, Kept-trans,
  Swapped-Kept,
}

module _ {ℓ} {T P : Type ℓ} (order : Priority P) where
  -- The entry that sinks below its greatest child is then out of order with nothing above.
  DownInv-swap :
      (h : IndexedBinaryHeap T P) (i child : ℕ) (h' : IndexedBinaryHeap T P)
      → i < child
      → child < length h.entries
      → parent child ≡ i
      → DownInv order h.entries i
      → key order h.entries i < key order h.entries child
      → ((c : ℕ)
          → 0 < c
          → c < length h.entries
          → parent c ≡ i
          → key order h.entries c ≤ key order h.entries child)
      → Swapped order h i child h'
      → DownInv order h'.entries child
  DownInv-swap h i child h' hc hn pc inv less most s = record {
    others = λ c c0 cn ne. ground (
      arith,
      s.size,
      s.key_eq c,
      s.key_eq (parent c),
      inv.others c,
      inv.bridge c,
      most c,
      inv.bridge child,
    );
    bridge =
        λ c c0 cn p0 e. ground (arith, s.size, s.key_eq c, s.key_eq (parent child), inv.others c);
  }

  DownInv-IsHeap :
      (h : IndexedBinaryHeap T P) (i : ℕ)
      → DownInv order h.entries i
      → ((c : ℕ)
          → 0 < c
          → c < length h.entries
          → parent c ≡ i
          → key order h.entries c ≤ key order h.entries i)
      → IsHeap order h.entries
  DownInv-IsHeap h i inv low c c0 cn = elim (ℕ_discrete (parent c) i) [
    | yes e ↦ rw e (low c c0 cn e)
    | no ne ↦ inv.others c c0 cn ne
  ]

  pub bubble_down-some :
      (fuel : ℕ) (h : IndexedBinaryHeap T P) (i : ℕ)
      → IsLinked h
      → DownInv order h.entries i
      → i ≤ length h.entries
      → length h.entries < fuel + i
      → (h' : IndexedBinaryHeap T P) × (bubble_down order fuel h i ≡ some h')
        × Kept order h h'
        × IsHeap order h'.entries
  unfolding bubble_down
  bubble_down-some zero h i v inv hi hf = absurd (omega arith)
  bubble_down-some (suc fuel) h i v inv hi hf =
      elim (Bool-cases (ltb (i * 2 + 1) (length h.entries))) [
        | inr leaf ↦ (
          h,
          rw leaf refl,
          Kept-refl order h v,
          DownInv-IsHeap h i inv (λ c c0 cn e. absurd (ground arith)),
        )
        | inl inner ↦
            let some_child = ltb→lt (i * 2 + 1) (length h.entries) inner in
            let (child, ec, hc, below, pc, most) =
              largest_child-some order h.entries i some_child in
            let test = above-some order h.entries child i hc (omega arith) in
            elim (Bool-cases (ltb (key order h.entries i) (key order h.entries child))) [
              | inr stays ↦ (
                h,
                rw (inner, ec, test, stays) refl,
                Kept-refl order h v,
                DownInv-IsHeap h i inv (λ c c0 cn e. ground (arith, most c c0 cn e)),
              )
              | inl sinks ↦
                  let less = ltb→lt (key order h.entries i) (key order h.entries child) sinks in
                  let hi : i < length h.entries = omega arith in
                  let (h1, e1, s) = swap-some order h i child v hi hc in
                  let kept = Swapped-Kept order h i child h1 v hi hc s in
                  let (h2, e2, kept2, heap) =
                    bubble_down-some fuel h1 child kept.linked
                      (DownInv-swap h i child h1 below hc pc inv less most s)
                      (omega (arith, s.size)) (omega (arith, s.size)) in
                  (
                    h2,
                    rw (inner, ec, test, sinks, e1) e2,
                    Kept-trans order h h1 h2 kept kept2,
                    heap,
                  )
            ]
      ]

-- ===== src/IndexedHeap/Remove.antt =====
-- `remove_idx`: the entry leaves under its handle; the order stays if the last entry may stand in its
-- place.
use zssp.Base.{
  ℕ, ◌+◌, ◌-◌, ◌≤◌, ◌<◌, ◌≡◌, refl, ap, ◌∙◌, List, none, some, length, get_elem?, take, arith,
  get_elem?_lt, length-take,
}
use zssp.IndexedHeap.{Priority, Entry, IndexedBinaryHeap, BinaryHeapIndex, remove_idx, write}
use zssp.IndexedHeap.Reads.{read-get, read-take, lt_of_get, gen, owner, key}
use zssp.IndexedHeap.Swap.{Swapped, swap-some}
use zssp.IndexedHeap.Order.{IsHeap, DownInv, parent, Swapped-Kept}
use zssp.IndexedHeap.Down.{bubble_down-some}
use zssp.IndexedHeap.Valid.{IsQueue, Kept-IsSound, Kept-lookup, Changed, Changed-lookup}
use zssp.IndexedHeap.Cut.{cut, size-cut, cut-IsSound, cut-lookup, cut-lookup_else}

module _ {ℓ} {T P : Type ℓ} where
  unfoldable pub handle_of : IndexedBinaryHeap T P → Entry T P → BinaryHeapIndex
  handle_of h e = record { slot = e.map_idx; generation = gen h.map e.map_idx }

module _ {ℓ} {T P : Type ℓ} (order : Priority P) where
  -- The last entry, moved to `i`, is not greater than what stands above.
  abbrev pub FitsAt : List (Entry T P) → ℕ → Type 0
  FitsAt es i = 0 < i → i < length es - 1 → key order es (length es - 1) ≤ key order es (parent i)

  DownInv-take :
      (h : IndexedBinaryHeap T P) (i : ℕ) (h' : IndexedBinaryHeap T P)
      → i < length h.entries
      → IsHeap order h.entries
      → FitsAt h.entries i
      → Swapped order h i (length h.entries - 1) h'
      → DownInv order (take (length h'.entries - 1) h'.entries) i
  DownInv-take h i h' hi heap fits s =
      let n = length h'.entries - 1 in
      let size : length (take n h'.entries) ≡ length h'.entries - 1 =
        length-take n h'.entries ∙ omega arith in
      let k = read-take (λ e. order.rank e.priority) n h'.entries in
      record {
        others = λ c c0 cn ne.
            ground
              (arith, size, s.size, k c, k (parent c), s.key_eq c, s.key_eq (parent c), heap c);
        bridge = λ c c0 cn i0 e. ground (
          arith,
          size,
          s.size,
          k c,
          k (parent i),
          s.key_eq c,
          s.key_eq (parent i),
          heap c,
          heap i,
        );
      }

  pub remove_idx-some :
      (h : IndexedBinaryHeap T P) (i : ℕ) (e : Entry T P)
      → IsQueue order h
      → get_elem? h.entries i ≡ some e
      → FitsAt h.entries i
      → (h' : IndexedBinaryHeap T P) × (remove_idx order h i ≡ some (h', (e.item, e.priority)))
        × IsQueue order h'
        × (length h'.entries ≡ length h.entries - 1)
        × Changed h (handle_of h e) none h'
  unfolding remove_idx write handle_of
  remove_idx-some h i e v at fits =
      let n = length h.entries in
      let hi = lt_of_get h.entries i e at in
      let hn : n - 1 < n = omega arith in
      let (h1, swapped, s) = swap-some order h i (n - 1) v.sound.linked hi hn in
      let kept = Swapped-Kept order h i (n - 1) h1 v.sound.linked hi hn s in
      let sound1 = Kept-IsSound order h h1 v.sound kept in
      let ret : get_elem? h1.entries (length h1.entries - 1) ≡ some e =
        ap (λ x. get_elem? h1.entries (x - 1)) s.size ∙ s.entry_b ∙ at in
      let last : owner h1.entries (length h1.entries - 1) ≡ e.map_idx =
        read-get (λ e. e.map_idx) h1.entries (length h1.entries - 1) e ret in
      let full : 0 < length h1.entries = omega (arith, s.size) in
      let own = read-get (λ e. e.map_idx) h.entries i e at in
      let (_, slot) =
        get_elem?_lt h1.map e.map_idx (omega (arith, own, s.map_size, v.sound.linked.owner_lt i)) in
      let live : 2 ≤ gen h.map e.map_idx =
        omega (arith, own, ap (gen h.map) own, v.sound.linked.owner_gen i) in
      let h2 = cut h1 e.map_idx in
      let size2 = size-cut h1 e.map_idx sound1 full last in
      let (h3, sunk, kept3, heap) =
        bubble_down-some order (length h2.entries + 1) h2 i
          (cut-IsSound h1 e.map_idx sound1 full last).linked (DownInv-take h i h1 hi v.heap fits s)
          (omega (arith, s.size)) (omega arith) in
      let sound3 = Kept-IsSound order h2 h3 (cut-IsSound h1 e.map_idx sound1 full last) kept3 in
      (
        h3,
        rw (swapped, ret, slot, sunk) refl,
        record { sound = sound3; heap = heap },
        omega (arith, kept3.size, s.size),
        Changed-lookup h (handle_of h e) none h3 v.sound sound3 live
            (Kept-lookup order h2 h3 (handle_of h e) kept3
              ∙ cut-lookup h1 e.map_idx sound1 full last (gen h.map e.map_idx) live)
            (λ other live' ne.
              Kept-lookup order h2 h3 other kept3
              ∙ cut-lookup_else h1 e.map_idx sound1 full last other live' (λ es eg.
                ne (λ i. record { slot = es i; generation = (eg ∙ s.gen_eq e.map_idx) i }))
              ∙ Kept-lookup order h h1 other kept),
      )

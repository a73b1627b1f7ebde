-- ===== src/IndexedHeap/Unordered.antt =====
-- `remove_idx` sifts down only: where the last entry outranks the entry above the removed one, the
-- order is lost.
use zssp.Base.{
  ℕ, zero, suc, ◌+◌, ◌-◌, ◌*◌, ◌≤◌, ◌<◌, ◌≡◌, refl, ap, ◌∙◌, false, some, length, get_elem?, ltb,
  arith, Bool-cases, inl, inr, get_elem?_lt, length-take, ltb→lt,
}
use zssp.IndexedHeap.{Priority, Entry, IndexedBinaryHeap, remove_idx, bubble_down, write}
use zssp.IndexedHeap.Reads.{read-get, read-take, key}
use zssp.IndexedHeap.Swap.{swap-some}
use zssp.IndexedHeap.Order.{IsHeap, parent, above-some, largest_child-some}
use zssp.IndexedHeap.Valid.{IsQueue}
use zssp.IndexedHeap.Cut.{cut}

module _ {ℓ} {T P : Type ℓ} (order : Priority P) where
  -- An entry that no child outranks does not sink.
  bubble_down_stays :
      (fuel : ℕ) (h : IndexedBinaryHeap T P) (i : ℕ)
      → ((c : ℕ)
          → 0 < c
          → c < length h.entries
          → parent c ≡ i
          → key order h.entries c ≤ key order h.entries i)
      → 0 < fuel
      → bubble_down order fuel h i ≡ some h
  unfolding bubble_down
  bubble_down_stays zero h i low some_fuel = absurd (omega arith)
  bubble_down_stays (suc fuel) h i low some_fuel =
      elim (Bool-cases (ltb (i * 2 + 1) (length h.entries))) [
        | inr leaf ↦ rw leaf refl
        | inl inner ↦
            let some_child = ltb→lt (i * 2 + 1) (length h.entries) inner in
            let (child, ec, hc, below, pc, most) =
              largest_child-some order h.entries i some_child in
            let test = above-some order h.entries child i hc (omega arith) in
            let stays : ltb (key order h.entries i) (key order h.entries child) ≡ false =
              ground (arith, low child) in
            rw (inner, ec, test, stays) refl
      ]

  -- Where the last entry outranks the parent of an inner entry that is removed, the queue that
  -- `remove_idx` leaves is not in heap order.
  pub remove_idx-not-IsHeap :
      (h : IndexedBinaryHeap T P) (i : ℕ) (e : Entry T P)
      → IsQueue order h
      → get_elem? h.entries i ≡ some e
      → 0 < i
      → i < length h.entries - 1
      → key order h.entries (parent i) < key order h.entries (length h.entries - 1)
      → (h' : IndexedBinaryHeap T P) × (remove_idx order h i ≡ some (h', (e.item, e.priority)))
        × ¬ IsHeap order h'.entries
  unfolding remove_idx write
  remove_idx-not-IsHeap h i e v at i0 inner outranks =
      let n = length h.entries in
      let (h1, swapped, s) =
        swap-some order h i (n - 1) v.sound.linked (omega arith) (omega arith) in
      let ret : get_elem? h1.entries (length h1.entries - 1) ≡ some e =
        ap (λ x. get_elem? h1.entries (x - 1)) s.size ∙ s.entry_b ∙ at in
      let own = read-get (λ e. e.map_idx) h.entries i e at in
      let (_, slot) =
        get_elem?_lt h1.map e.map_idx (omega (arith, own, s.map_size, v.sound.linked.owner_lt i)) in
      let h2 = cut h1 e.map_idx in
      let size : length h2.entries ≡ n - 1 =
        length-take (length h1.entries - 1) h1.entries ∙ omega (arith, s.size) in
      let k = read-take (λ e. order.rank e.priority) (length h1.entries - 1) h1.entries in
      let stays =
        bubble_down_stays (length h2.entries + 1) h2 i
          (λ c c0 cn pc.
            ground (arith, s.size, k c, k i, s.key_eq c, s.key_eq i, v.heap c, v.heap i))
          (omega arith) in
      (
        h2,
        rw (swapped, ret, slot, stays) refl,
        λ heap. ground (arith, s.size, heap i, k i, k (parent i), s.key_eq i, s.key_eq (parent i)),
      )

-- ===== src/IndexedHeap.antt =====
-- performance/src/indexed_heap.rs: a priority queue of a binary heap and a generational array.
-- The result `none` of an operation is a panic: an index out of range, or fuel that ran out. `data` of
-- the source is `entries` here. A priority's order is an interface: every `Ord` type of the machine
-- embeds into the natural numbers. Capacities are not modelled. The reference that `peek_mut` and
-- `get_mut` give is one change of the item, `change`.
pub mod Data
pub mod Reads
pub mod Swap
pub mod Order
pub mod Up
pub mod Down
pub mod Valid
pub mod Reserve
pub mod Append
pub mod Push
pub mod Cut
pub mod Remove
pub mod Pop
pub mod Reprioritize
pub mod Change
pub mod Release
pub mod Unordered
mod Sample
mod Tests
unfoldable pub use Data.*
use zssp.Base.{
  ℕ, zero, suc, ◌+◌, ◌-◌, ◌*◌, ◌/◌, ◌%◌, ◌<◌, ◌≡◌, ◌↔◌, Bool, true, false, not, ◌&&◌, List, [], ◌∷◌,
  ◌++◌, Option, none, some, length, get_elem?, set, take, ltb, ◌==◌, if◌then◌else◌, u64_mod,
}

module _ {ℓ} {T P : Type ℓ} (order : Priority P) where
  -- Is the priority at `i` greater than that at `j`?
  unfoldable pub above : List (Entry T P) → ℕ → ℕ → Option Bool
  above entries i j = do
    x ← get_elem? entries i
    y ← get_elem? entries j
    some (order.gt x.priority y.priority)

  -- `&&` reads the second child only if it exists.
  unfoldable pub largest_child : List (Entry T P) → ℕ → Option ℕ
  unfolding above
  largest_child entries parent_idx =
      let child0_idx = parent_idx * 2 + 1 in
      let child1_idx = child0_idx + 1 in
      if ltb child1_idx (length entries)
      then (do
        larger ← above entries child1_idx child0_idx
        some (if larger then child1_idx else child0_idx))
      else some child0_idx

  unfoldable pub bubble_down : ℕ → IndexedBinaryHeap T P → ℕ → Option (IndexedBinaryHeap T P)
  bubble_down zero h parent_idx = none
  bubble_down (suc fuel) h parent_idx =
      let step : Option (IndexedBinaryHeap T P) = do
        child ← largest_child h.entries parent_idx
        rises ← above h.entries child parent_idx
        let sink = swap h parent_idx child >>= λ h'. bubble_down fuel h' child
        if rises then sink else some h
      in if ltb (parent_idx * 2 + 1) (length h.entries) then step else some h

  unfoldable pub bubble_up : ℕ → IndexedBinaryHeap T P → ℕ → Option (IndexedBinaryHeap T P)
  bubble_up zero h child_idx = none
  bubble_up (suc fuel) h child_idx =
      let parent_idx = (child_idx - 1) / 2 in
      let step : Option (IndexedBinaryHeap T P) = do
        rises ← above h.entries child_idx parent_idx
        let rise = swap h parent_idx child_idx >>= λ h'. bubble_up fuel h' parent_idx
        if rises then rise else some h
      in if ltb 0 child_idx then step else some h

  unfoldable pub remove_idx : IndexedBinaryHeap T P → ℕ → Option (IndexedBinaryHeap T P × (T × P))
  remove_idx h data_idx = do
    h1 ← swap h data_idx (length h.entries - 1)
    ret ← get_elem? h1.entries (length h1.entries - 1)
    m ← write h1.map ret.map_idx (h1.free_list_head, empty_marker)
    let h2 = record h1 {
      free_list_head = ret.map_idx;
      entries = take (length h1.entries - 1) h1.entries;
      map = m;
    }
    h3 ← bubble_down (length h2.entries + 1) h2 data_idx
    some (h3, (ret.item, ret.priority))

  unfoldable pub pop : IndexedBinaryHeap T P → Option (IndexedBinaryHeap T P × Option (T × P))
  pop h =
      if length h.entries == 0
      then some (h, none)
      else (do (h', r) ← remove_idx h 0; some (h', some r))

  unfoldable pub push_reserved :
      IndexedBinaryHeap T P → BinaryHeapIndex → T → P → Option (IndexedBinaryHeap T P × Bool)
  push_reserved h idx item priority = elim (get_elem? h.map idx.slot) [
    | none ↦ some (h, false)
    | some (_, g) ↦
        let pushed : Option (IndexedBinaryHeap T P × Bool) = do
          let data_idx = length h.entries
          h' ←
              bubble_up (data_idx + 1)
                (record h {
                  entries =
                      h.entries
                      ++ record { item = item; priority = priority; map_idx = idx.slot } ∷ [];
                  map = set h.map idx.slot (data_idx, idx.generation);
                })
                data_idx
          some (h', true)
        in if g == reserved_marker then pushed else some (h, false)
  ]

  unfoldable pub push :
      IndexedBinaryHeap T P → T → P → Option (IndexedBinaryHeap T P × BinaryHeapIndex)
  push h item priority = do
    (h1, idx) ← reserve_index h
    (h2, _) ← push_reserved h1 idx item priority
    some (h2, idx)

  unfoldable pub update_priority :
      IndexedBinaryHeap T P
      → BinaryHeapIndex
      → (P → Option P)
      → Option (IndexedBinaryHeap T P × Option P)
  update_priority h idx f = elim (deref_index h idx) [
    | none ↦ some (h, none)
    | some i ↦ do
      e ← get_elem? h.entries i
      elim (f e.priority) [
        | none ↦ some (h, none)
        | some new_priority ↦
            let h1 = record h {
              entries = set h.entries i (record e { priority = new_priority });
            } in
            let down = bubble_down (length h1.entries + 1) h1 i in
            let up = bubble_up (i + 1) h1 i in
            (do
              h2 ← if order.gt e.priority new_priority then down else up
              some (h2, some e.priority))
      ]
  ]

  unfoldable pub change_priority :
      IndexedBinaryHeap T P → BinaryHeapIndex → P → Option (IndexedBinaryHeap T P × Option P)
  unfolding update_priority
  change_priority h idx new_priority = update_priority h idx (λ _. some new_priority)

  unfoldable pub remove :
      IndexedBinaryHeap T P → BinaryHeapIndex → Option (IndexedBinaryHeap T P × Option (T × P))
  remove h idx = elim (get_elem? h.map idx.slot) [
    | none ↦ some (h, none)
    | some (position, g) ↦
        let release = some (
          record h {
            free_list_head = idx.slot;
            map = set h.map idx.slot (h.free_list_head, empty_marker);
          },
          none,
        ) in
        let removed = remove_idx h position >>= λ (h', r). some (h', some r) in
        if g == reserved_marker
        then release
        else if g == idx.generation
        then removed
        else some (h, none)
  ]

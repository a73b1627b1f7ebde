-- ===== src/IndexedHeap/Data.antt =====
-- performance/src/indexed_heap.rs: the data of the queue, and the methods that compare no priorities.
use zssp.Base.{
  ℕ, ◌+◌, ◌-◌, ◌%◌, ◌<◌, ◌≡◌, ◌↔◌, Bool, true, not, List, [], ◌∷◌, ◌++◌, Option, none, some, length,
  get_elem?, set, ◌==◌, if◌then◌else◌, u64_mod,
}

-- `P: Ord`, by its `>`.
pub record Priority {ℓ} (P : Type ℓ) : Type ℓ where
  pub gt : P → P → Bool
  pub rank : P → ℕ
  pub gt_iff : (p q : P) → (gt p q ≡ true) ↔ (rank q < rank p)

pub record BinaryHeapIndex : Type 0 where
  pub slot : ℕ
  pub generation : ℕ

pub record Entry {ℓ} (T P : Type ℓ) : Type ℓ where
  pub item : T
  pub priority : P
  pub map_idx : ℕ

pub record IndexedBinaryHeap {ℓ} (T P : Type ℓ) : Type ℓ where
  pub generation : ℕ
  pub free_list_head : ℕ
  pub entries : List (Entry T P)
  pub map : List (ℕ × ℕ)

abbrev pub reserved_marker : ℕ
reserved_marker = 1

abbrev pub empty_marker : ℕ
empty_marker = 0

-- `usize::MAX`, the end of the free list.
abbrev pub usize_max : ℕ
usize_max = u64_mod - 1

infixl 5 ◌>>=◌
abbrev pub ◌>>=◌ {ℓ κ} : {A : Type ℓ} {B : Type κ} → Option A → (A → Option B) → Option B
none >>= f = none
some a >>= f = f a

-- `map[i].0 = position` and `map[i] = v`.
unfoldable pub set_position : List (ℕ × ℕ) → ℕ → ℕ → Option (List (ℕ × ℕ))
set_position m i position = do (_, g) ← get_elem? m i; some (set m i (position, g))

unfoldable pub write : List (ℕ × ℕ) → ℕ → ℕ × ℕ → Option (List (ℕ × ℕ))
write m i v = do _ ← get_elem? m i; some (set m i v)

module _ {ℓ} {T P : Type ℓ} where
  unfoldable pub new : IndexedBinaryHeap T P
  new = record { generation = 1; free_list_head = usize_max; entries = []; map = [] }

  unfoldable pub peek : IndexedBinaryHeap T P → Option (Option (T × P × BinaryHeapIndex))
  peek h = elim (get_elem? h.entries 0) [
    | none ↦ some none
    | some e ↦ do
      (_, g) ← get_elem? h.map e.map_idx
      some (some (e.item, e.priority, record { slot = e.map_idx; generation = g }))
  ]

  -- `peek_mut` and a change of the item through its reference.
  unfoldable pub peek_mut :
      IndexedBinaryHeap T P
      → (T → T)
      → Option (IndexedBinaryHeap T P × Option (P × BinaryHeapIndex))
  peek_mut h change = elim (get_elem? h.entries 0) [
    | none ↦ some (h, none)
    | some e ↦ do
      (_, g) ← get_elem? h.map e.map_idx
      some (
        record h { entries = set h.entries 0 (record e { item = change e.item }) },
        some (e.priority, record { slot = e.map_idx; generation = g }),
      )
  ]

  unfoldable pub swap : IndexedBinaryHeap T P → ℕ → ℕ → Option (IndexedBinaryHeap T P)
  unfolding set_position
  swap h a b = do
    ea ← get_elem? h.entries a
    m ← set_position h.map ea.map_idx b
    eb ← get_elem? h.entries b
    m' ← set_position m eb.map_idx a
    some (record h { entries = set (set h.entries a eb) b ea; map = m' })

  unfoldable pub deref_index : IndexedBinaryHeap T P → BinaryHeapIndex → Option ℕ
  deref_index h idx = elim (get_elem? h.map idx.slot) [
    | none ↦ none
    | some (position, g) ↦ if g == idx.generation then some position else none
  ]

  unfoldable pub get : IndexedBinaryHeap T P → BinaryHeapIndex → Option (Option (T × P))
  get h idx = elim (deref_index h idx) [
    | none ↦ some none
    | some i ↦ do e ← get_elem? h.entries i; some (some (e.item, e.priority))
  ]

  -- `get_mut` and a change of the item through its reference.
  unfoldable pub get_mut :
      IndexedBinaryHeap T P → BinaryHeapIndex → (T → T) → Option (IndexedBinaryHeap T P × Option P)
  get_mut h idx change = elim (deref_index h idx) [
    | none ↦ some (h, none)
    | some i ↦ do
      e ← get_elem? h.entries i
      some (
        record h { entries = set h.entries i (record e { item = change e.item }) },
        some e.priority,
      )
  ]

  -- The new heap, and the old item if there was one.
  unfoldable pub change_item :
      IndexedBinaryHeap T P → BinaryHeapIndex → T → Option (IndexedBinaryHeap T P × Option T)
  change_item h idx new_item = elim (deref_index h idx) [
    | none ↦ some (h, none)
    | some i ↦ do
      e ← get_elem? h.entries i
      some (record h { entries = set h.entries i (record e { item = new_item }) }, some e.item)
  ]

  unfoldable pub reserve_index :
      IndexedBinaryHeap T P → Option (IndexedBinaryHeap T P × BinaryHeapIndex)
  unfolding write
  reserve_index h =
      let g = (h.generation + 1) % u64_mod in
      if not (h.free_list_head == usize_max)
      then (do
        (next, _) ← get_elem? h.map h.free_list_head
        m ← write h.map h.free_list_head (0, reserved_marker)
        some (
          record h { generation = g; free_list_head = next; map = m },
          record { slot = h.free_list_head; generation = g },
        ))
      else some (
        record h { generation = g; map = h.map ++ (0, reserved_marker) ∷ [] },
        record { slot = length h.map; generation = g },
      )

  unfoldable pub clear : IndexedBinaryHeap T P → IndexedBinaryHeap T P
  clear h = record h { free_list_head = usize_max; entries = []; map = [] }

-- ===== src/IndexedHeap/Sample.antt =====
-- Queues that are written out, and a test that finds them well-formed.
use zssp.Base.{
  ℕ, zero, suc, ◌≤◌, ◌<◌, ◌≡◌, refl, Bool, true, false, [], ◌∷◌, length, leb, ltb, ◌==◌,
  if◌then◌else◌, arith, dec_lt, Bool-cases, inl, inr, ltb→lt, lt→ltb, ℕ_discrete,
}
use zssp.IndexedHeap.{Priority, Entry, IndexedBinaryHeap, usize_max}
use zssp.IndexedHeap.Reads.{read, read_out, pos, gen, owner, key}
use zssp.IndexedHeap.Order.{parent}
use zssp.IndexedHeap.Valid.{IsFree, IsQueue}

-- Every number below `n` passes.
unfoldable pub all_below : ℕ → (ℕ → Bool) → Bool
all_below zero f = true
all_below (suc n) f = if f n then all_below n f else false

all_below-lt : (n : ℕ) (f : ℕ → Bool) → all_below n f ≡ true → (i : ℕ) → i < n → f i ≡ true
unfolding all_below
all_below-lt zero f all i hi = absurd (omega arith)
all_below-lt (suc n) f all i hi = elim (Bool-cases (f n)) [
  | inl now ↦ elim (ℕ_discrete i n) [
    | yes e ↦ rw e now
    | no ne ↦ all_below-lt n f (rw now at all) i (omega arith)
  ]
  | inr bad ↦ absurd (let broken = rw bad at all in cc)
]

abbrev pub nat_order : Priority ℕ
nat_order = record { gt = λ p q. ltb q p; rank = λ p. p; gt_iff = λ p q. (ltb→lt q p, lt→ltb q p) }

module _ (h : IndexedBinaryHeap ℕ ℕ) where
  unfoldable pub entry_test : ℕ → Bool
  entry_test i =
      if ltb (owner h.entries i) (length h.map)
      then (if pos h.map (owner h.entries i) == i
          then (if leb 2 (gen h.map (owner h.entries i))
              then leb (key nat_order h.entries i) (key nat_order h.entries (parent i))
              else false)
          else false)
      else false

  unfoldable pub slot_test : ℕ → Bool
  slot_test j =
      if leb (gen h.map j) h.generation
      then (if leb 2 (gen h.map j)
          then (if ltb (pos h.map j) (length h.entries)
              then owner h.entries (pos h.map j) == j
              else false)
          else true)
      else false

  pub IsQueue-of_tests :
      all_below (length h.entries) entry_test ≡ true
      → all_below (length h.map) slot_test ≡ true
      → 1 ≤ h.generation
      → length h.map ≤ usize_max
      → h.free_list_head ≡ usize_max
      → IsQueue nat_order h
  unfolding entry_test slot_test IsFree
  IsQueue-of_tests entries_pass slots_pass started room no_free =
      let entry = all_below-lt (length h.entries) entry_test entries_pass in
      let in_map : (j : ℕ) → 2 ≤ gen h.map j → j < length h.map =
        λ j g. ground (arith, read_out (λ (p, g). g) h.map j) in
      let slot = all_below-lt (length h.map) slot_test slots_pass in
      record {
        sound = record {
          linked = record {
            owner_lt = λ i hi. ground (arith, entry i hi);
            owner_pos = λ i hi. ground (arith, entry i hi);
            owner_gen = λ i hi. ground (arith, entry i hi);
            pos_lt = λ j g. ground (arith, slot j (in_map j g));
            pos_owner = λ j g. ground (arith, slot j (in_map j g));
          };
          started = started;
          generations = λ j. elim (dec_lt j (length h.map)) [
            | yes e ↦ ground (arith, slot j e)
            | no ne ↦ omega (arith, read_out (λ (p, g). g) h.map j)
          ];
          room = room;
          depth = 0;
          free = no_free;
        };
        heap = λ c c0 hc. ground (arith, entry c hc);
      }

unfoldable pub entry_at : ℕ → ℕ → Entry ℕ ℕ
entry_at priority slot = record { item = priority; priority = priority; map_idx = slot }

-- Six items in heap order; the slots are those of six pushes in another order.
unfoldable pub six : IndexedBinaryHeap ℕ ℕ
unfolding entry_at
six = record {
  generation = 7;
  free_list_head = usize_max;
  entries =
      entry_at 100 2
      ∷ entry_at 10 0
      ∷ entry_at 90 5
      ∷ entry_at 5 1
      ∷ entry_at 6 4
      ∷ entry_at 80 3
      ∷ [];
  map = (1, 2) ∷ (3, 3) ∷ (0, 4) ∷ (5, 5) ∷ (4, 6) ∷ (2, 7) ∷ [];
}

pub six-IsQueue : IsQueue nat_order six
unfolding six entry_at all_below entry_test slot_test read
six-IsQueue = IsQueue-of_tests six refl refl (omega arith) (omega arith) refl

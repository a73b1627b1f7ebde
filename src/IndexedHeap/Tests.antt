-- ===== src/IndexedHeap/Tests.antt =====
-- performance/src/indexed_heap.rs: runs of a queue of numbers, whose items are their priorities.
use zssp.Base.{ℕ, zero, suc, ◌+◌, ◌≡◌, refl, sym, List, [], ◌∷◌, Option, none, some, arith}
use zssp.IndexedHeap.{
  IndexedBinaryHeap, BinaryHeapIndex, new, push, pop, remove, update_priority, get, deref_index,
  remove_idx, swap, bubble_up, bubble_down, largest_child, above, set_position, write,
  reserve_index, push_reserved, ◌>>=◌,
}
use zssp.IndexedHeap.Reads.{read}
use zssp.IndexedHeap.Order.{IsHeap}
use zssp.IndexedHeap.Valid.{some_inj, IsQueue, Changed}
use zssp.IndexedHeap.Push.{push-get}
use zssp.IndexedHeap.Pop.{pop-greatest}
use zssp.IndexedHeap.Change.{update_priority-get, new_value, replaced}
use zssp.IndexedHeap.Release.{remove-get}
use zssp.IndexedHeap.Unordered.{remove_idx-not-IsHeap}
use zssp.IndexedHeap.Sample.{nat_order, six, six-IsQueue, entry_at}

abbrev push_all : List ℕ → IndexedBinaryHeap ℕ ℕ → Option (IndexedBinaryHeap ℕ ℕ)
push_all [] h = some h
push_all (p ∷ ps) h = do (h', _) ← push nat_order h p p; push_all ps h'

-- The priorities in the order in which `pop` gives them.
abbrev drain : ℕ → IndexedBinaryHeap ℕ ℕ → List ℕ
drain zero h = []
drain (suc n) h = elim (pop nat_order h) [
  | none ↦ []
  | some (h', none) ↦ []
  | some (h', some (_, p)) ↦ p ∷ drain n h'
]

abbrev drained : Option (IndexedBinaryHeap ℕ ℕ) → List ℕ
drained none = []
drained (some h) = drain 10 h

drained_sorts : drained (push_all (3 ∷ 9 ∷ 1 ∷ 9 ∷ 5 ∷ []) new) ≡ 9 ∷ 9 ∷ 5 ∷ 3 ∷ 1 ∷ []
unfolding new push push_reserved reserve_index write pop remove_idx swap set_position bubble_up
    bubble_down largest_child above
drained_sorts = refl

abbrev handle : ℕ → ℕ → BinaryHeapIndex
handle s g = record { slot = s; generation = g }

abbrev thirteen : Option (IndexedBinaryHeap ℕ ℕ)
thirteen = push_all (100 ∷ 10 ∷ 90 ∷ 5 ∷ 6 ∷ 85 ∷ 80 ∷ 1 ∷ 2 ∷ 3 ∷ 4 ∷ 60 ∷ 50 ∷ []) new

abbrev drained_without : BinaryHeapIndex → Option (IndexedBinaryHeap ℕ ℕ) → List ℕ
drained_without idx none = []
drained_without idx (some h) = elim (remove nat_order h idx) [
  | none ↦ []
  | some (h', _) ↦ drain 13 h'
]

-- After the removal of 5 the queue gives 10 before 50.
removal_unordered :
    drained_without (handle 3 5) thirteen
    ≡ 100 ∷ 90 ∷ 85 ∷ 80 ∷ 60 ∷ 10 ∷ 50 ∷ 6 ∷ 4 ∷ 3 ∷ 2 ∷ 1 ∷ []
unfolding new push push_reserved reserve_index write remove pop remove_idx swap set_position
    bubble_up bubble_down largest_child above
removal_unordered = refl

-- After the removal of 90 it gives all in order.
removal_ordered :
    drained_without (handle 2 4) thirteen
    ≡ 100 ∷ 85 ∷ 80 ∷ 60 ∷ 50 ∷ 10 ∷ 6 ∷ 5 ∷ 4 ∷ 3 ∷ 2 ∷ 1 ∷ []
unfolding new push push_reserved reserve_index write remove pop remove_idx swap set_position
    bubble_up bubble_down largest_child above
removal_ordered = refl

push-get_example :
    (h' : IndexedBinaryHeap ℕ ℕ) × (idx : BinaryHeapIndex) × (push nat_order six 7 7
      ≡ some (h', idx))
    × IsQueue nat_order h'
    × (get six idx ≡ some none)
    × Changed six idx (some (7, 7)) h'
unfolding six
push-get_example = push-get nat_order six 7 7 six-IsQueue (omega arith) (omega arith)

pop-greatest_example :
    (h' : IndexedBinaryHeap ℕ ℕ) × (idx : BinaryHeapIndex) × (item : ℕ) × (p : ℕ) × (pop nat_order
        six
      ≡ some (h', some (item, p)))
    × IsQueue nat_order h'
    × Changed six idx none h'
unfolding six
pop-greatest_example =
    let (h', idx, item, p, peeked, popped, found, most, v, size, changed) =
      pop-greatest nat_order six six-IsQueue (omega arith) in
    (h', idx, item, p, popped, v, changed)

update_priority-get_example :
    (h' : IndexedBinaryHeap ℕ ℕ) × (update_priority nat_order six (handle 4 6) (λ p. some (p + 90))
      ≡ some (h', some 6))
    × IsQueue nat_order h'
    × Changed six (handle 4 6) (some (6, 96)) h'
unfolding six entry_at get deref_index new_value replaced
update_priority-get_example =
    update_priority-get nat_order six (handle 4 6) (λ p. some (p + 90)) (some (6, 6)) six-IsQueue
      (omega arith) refl

remove-get_example :
    (h' : IndexedBinaryHeap ℕ ℕ) × (remove nat_order six (handle 0 2) ≡ some (h', some (10, 10)))
    × IsQueue nat_order h'
    × Changed six (handle 0 2) none h'
unfolding six entry_at get deref_index read
remove-get_example =
    remove-get nat_order six (handle 0 2) (some (10, 10)) six-IsQueue (omega arith) refl
      (λ i at i0 inner. rw (sym (some_inj at)) (omega arith))

remove_idx-not-IsHeap_example :
    (h' : IndexedBinaryHeap ℕ ℕ) × (remove_idx nat_order six 3 ≡ some (h', (5, 5)))
    × ¬ IsHeap nat_order h'.entries
unfolding six entry_at read
remove_idx-not-IsHeap_example =
    remove_idx-not-IsHeap nat_order six 3 (entry_at 5 1) six-IsQueue refl (omega arith)
      (omega arith) (omega arith)

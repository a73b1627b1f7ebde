-- ===== src/IndexedHeap/Pop.antt =====
-- `pop` and `peek`: a greatest item leaves.
use zssp.Base.{
  ℕ, suc, ◌-◌, ◌≤◌, ◌<◌, ◌≡◌, refl, sym, ap, ◌∙◌, true, false, Option, none, some, length,
  get_elem?, ◌==◌, arith, subst, Bool-cases, inl, inr, get_elem?_lt,
}
use zssp.IndexedHeap.{Priority, Entry, IndexedBinaryHeap, BinaryHeapIndex, get, peek, pop}
use zssp.IndexedHeap.Reads.{read-get, lt_of_get, pos, gen, key, entry_of_live}
use zssp.IndexedHeap.Order.{IsHeap-root}
use zssp.IndexedHeap.Valid.{some_inj, IsSound, IsQueue, lookup, content, get-lookup, Changed}
use zssp.IndexedHeap.Remove.{handle_of, remove_idx-some}

peek-handle_of {ℓ} :
    {T P : Type ℓ} (h : IndexedBinaryHeap T P) (e : Entry T P)
    → get_elem? h.entries 0 ≡ some e
    → e.map_idx < length h.map
    → peek h ≡ some (some (e.item, e.priority, handle_of h e))
unfolding peek handle_of
peek-handle_of h e at lt =
    let ((p, g), slot) = get_elem?_lt h.map e.map_idx lt in
    rw (peek, at, slot, read-get (λ (p, g). g) h.map e.map_idx (p, g) slot) refl

module _ {ℓ} {T P : Type ℓ} (order : Priority P) where
  rank_of : Option (T × P) → ℕ
  rank_of none = 0
  rank_of (some (_, p)) = order.rank p

  -- What a handle finds is among the entries.
  lookup-entry :
      (h : IndexedBinaryHeap T P) (idx : BinaryHeapIndex) (item : T) (p : P)
      → IsSound h
      → 2 ≤ idx.generation
      → lookup h idx ≡ some (item, p)
      → (c : ℕ) × (c < length h.entries) × (key order h.entries c ≡ order.rank p)
  unfolding lookup content rank_of
  lookup-entry h idx item p v live found =
      elim (Bool-cases (gen h.map idx.slot == idx.generation)) [
        | inr other ↦ absurd (let none_found = rw other at found in cc)
        | inl same ↦
            let used : 2 ≤ gen h.map idx.slot = ground arith in
            let c = pos h.map idx.slot in
            let (e, there) = get_elem?_lt h.entries c (v.linked.pos_lt idx.slot used) in
            let this : lookup h idx ≡ some (e.item, e.priority) =
              rw (same, entry_of_live h idx.slot used, there) refl in
            (
              c,
              v.linked.pos_lt idx.slot used,
              read-get (λ e. order.rank e.priority) h.entries c e there
                  ∙ ap rank_of (sym this ∙ found),
            )
      ]

  -- The handle of an entry finds it.
  pub lookup-handle_of :
      (h : IndexedBinaryHeap T P) (i : ℕ) (e : Entry T P)
      → IsSound h
      → get_elem? h.entries i ≡ some e
      → (2 ≤ gen h.map e.map_idx) × (lookup h (handle_of h e) ≡ some (e.item, e.priority))
  unfolding lookup content handle_of
  lookup-handle_of h i e v at =
      let own = read-get (λ e. e.map_idx) h.entries i e at in
      let hi = lt_of_get h.entries i e at in
      let used : 2 ≤ gen h.map e.map_idx =
        subst (λ j. 2 ≤ gen h.map j) own (v.linked.owner_gen i hi) in
      let there : pos h.map e.map_idx ≡ i =
        subst (λ j. pos h.map j ≡ i) own (v.linked.owner_pos i hi) in
      let test : (gen h.map e.map_idx == gen h.map e.map_idx) ≡ true = ground arith in
      (used, rw (test, entry_of_live h e.map_idx used, there, at) refl)

  -- `pop` of a well-formed queue that is not empty returns the item that `peek` shows, whose priority
  -- no other item exceeds; its handle finds nothing any more, every other handle finds what it found
  -- before, and the queue stays well-formed and is one entry shorter. A handle has a
  -- generation of 2 or more.
  pub pop-greatest :
      (h : IndexedBinaryHeap T P)
      → IsQueue order h
      → 0 < length h.entries
      → (h' : IndexedBinaryHeap T P) × (idx : BinaryHeapIndex) × (item : T) × (p : P) × (peek h
          ≡ some (some (item, p, idx)))
        × (pop order h ≡ some (h', some (item, p)))
        × (get h idx ≡ some (some (item, p)))
        × ((other : BinaryHeapIndex) (item' : T) (p' : P)
            → 2 ≤ other.generation
            → get h other ≡ some (some (item', p'))
            → order.rank p' ≤ order.rank p)
        × IsQueue order h'
        × (length h'.entries ≡ length h.entries - 1)
        × Changed h idx none h'
  unfolding pop peek handle_of
  pop-greatest h v full =
      let (e, at) = get_elem?_lt h.entries 0 full in
      let (live, found) = lookup-handle_of h 0 e v.sound at in
      let (h', removed, v', size, changed) =
        remove_idx-some order h 0 e v at (λ i0. absurd (omega arith)) in
      let own = read-get (λ e. e.map_idx) h.entries 0 e at in
      let test : (length h.entries == 0) ≡ false = ground arith in
      let root = read-get (λ e. order.rank e.priority) h.entries 0 e at in
      (
        h',
        handle_of h e,
        e.item,
        e.priority,
        peek-handle_of h e at (omega (arith, own, v.sound.linked.owner_lt 0)),
        rw (test, removed) refl,
        get-lookup h (handle_of h e) v.sound.linked live ∙ ap some found,
        λ other item' p' live' seen.
            let here = sym (get-lookup h other v.sound.linked live') ∙ seen in
            let (c, hc, kc) = lookup-entry h other item' p' v.sound live' (some_inj here) in
            omega (arith, IsHeap-root order h.entries v.heap (suc c) c (omega arith) hc),
        v',
        size,
        changed,
      )

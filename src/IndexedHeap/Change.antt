-- ===== src/IndexedHeap/Change.antt =====
-- `update_priority`: on every branch, the item stays under its handle with the priority it should have.
use zssp.Base.{
  ℕ, ◌+◌, ◌≤◌, ◌≡◌, ◌⊎◌, refl, sym, ap, ◌∙◌, false, Option, none, some, length, get_elem?, ◌==◌,
  if◌then◌else◌, arith, subst, dec_lt, Bool-cases, Option-cases, inl, inr, get_elem?_lt,
}
use zssp.IndexedHeap.{
  Priority, Entry, IndexedBinaryHeap, BinaryHeapIndex, get, update_priority, bubble_up, bubble_down,
  deref_index,
}
use zssp.IndexedHeap.Reads.{read-get, read_out, get_elem?_out, lt_of_get, gen, owner, entry_of_live}
use zssp.IndexedHeap.Swap.{IsLinked}
use zssp.IndexedHeap.Order.{IsHeap, Kept, gt-ltb}
use zssp.IndexedHeap.Up.{bubble_up-some}
use zssp.IndexedHeap.Down.{bubble_down-some}
use zssp.IndexedHeap.Valid.{
  some_inj, IsSound, IsQueue, Kept-IsSound, Kept-lookup, lookup, content, get-lookup, Changed,
  Changed-lookup, deref_index-slot, deref_index_out,
}
use zssp.IndexedHeap.Reprioritize.{
  reprioritized, size_new, new-IsSound, new-UpInv, new-DownInv, new-lookup, new-lookup_else,
}

module _ {ℓ} {T P : Type ℓ} where
  -- What a handle that found `value` finds after an update by `f`.
  unfoldable pub new_value : (P → Option P) → Option (T × P) → Option (T × P)
  new_value f none = none
  new_value f (some (item, p)) = elim (f p) [ none ↦ some (item, p) | some p' ↦ some (item, p') ]

  -- What the update returns: the priority that was replaced.
  unfoldable pub replaced : (P → Option P) → Option (T × P) → Option P
  replaced f none = none
  replaced f (some (item, p)) = elim (f p) [ none ↦ none | some p' ↦ some p ]

  pub unchanged :
      (h : IndexedBinaryHeap T P) (idx : BinaryHeapIndex) (value : Option (T × P))
      → get h idx ≡ some value
      → Changed h idx value h
  unchanged h idx value e = record { here = e; elsewhere = λ other live ne. refl }

  pub record Found (h : IndexedBinaryHeap T P) (idx : BinaryHeapIndex) (i : ℕ) (e : Entry T P)
      : Type ℓ where
    pub deref : deref_index h idx ≡ some i
    pub entry : get_elem? h.entries i ≡ some e
    pub slot : e.map_idx ≡ idx.slot
    pub current : gen h.map e.map_idx ≡ idx.generation
    pub value : lookup h idx ≡ some (e.item, e.priority)

  pub deref_index-cases :
      (h : IndexedBinaryHeap T P) (idx : BinaryHeapIndex)
      → IsLinked h
      → 2 ≤ idx.generation
      → ((deref_index h idx ≡ none) × (lookup h idx ≡ none))
        ⊎ ((i : ℕ) × (e : Entry T P) × Found h idx i e)
  unfolding lookup content
  deref_index-cases h idx v live = elim (dec_lt idx.slot (length h.map)) [
    | no out ↦
        let test : (gen h.map idx.slot == idx.generation) ≡ false =
          ground (arith, read_out (λ (p, g). g) h.map idx.slot (omega arith)) in
        inl (deref_index_out h idx (get_elem?_out h.map idx.slot (omega arith)), rw test refl)
    | yes hs ↦
        let ((p, g), there) = get_elem?_lt h.map idx.slot hs in
        let eg = read-get (λ (p, g). g) h.map idx.slot (p, g) there in
        let ep = read-get (λ (p, g). p) h.map idx.slot (p, g) there in
        elim (Bool-cases (g == idx.generation)) [
          | inr other ↦ inl (deref_index-slot h idx p g there ∙ rw other refl, rw (eg, other) refl)
          | inl same ↦
              let used : 2 ≤ gen h.map idx.slot = ground (arith, eg) in
              let (e, entry) =
                get_elem?_lt h.entries p (omega (arith, ep, v.pos_lt idx.slot used)) in
              let own : e.map_idx ≡ idx.slot =
                sym (read-get (λ e. e.map_idx) h.entries p e entry)
                ∙ ap (owner h.entries) (sym ep)
                ∙ v.pos_owner idx.slot used in
              inr (
                p,
                e,
                record {
                  deref = deref_index-slot h idx p g there ∙ rw same refl;
                  entry = entry;
                  slot = own;
                  current = ground (arith, ap (gen h.map) own, eg);
                  value = rw (eg, same, entry_of_live h idx.slot used, ep, entry) refl;
                },
              )
        ]
  ]

module _ {ℓ} {T P : Type ℓ} (order : Priority P) where
  sift :
      (h : IndexedBinaryHeap T P) (i : ℕ) (e : Entry T P) (p : P)
      → IsQueue order h
      → get_elem? h.entries i ≡ some e
      → (h' : IndexedBinaryHeap T P) × ((if order.gt e.priority p
            then bubble_down order
                (length (reprioritized order h i e p).entries + 1)
                (reprioritized order h i e p)
                i
            else bubble_up order (i + 1) (reprioritized order h i e p) i)
          ≡ some h')
        × Kept order (reprioritized order h i e p) h'
        × IsHeap order h'.entries
  sift h i e p v at =
      let hi = lt_of_get h.entries i e at in
      let size = size_new order h i e p v at in
      let sound = new-IsSound order h i e p v at in
      elim (Bool-cases (order.gt e.priority p)) [
        | inl lesser ↦
            let (h', made, kept, heap) =
              bubble_down-some order (length (reprioritized order h i e p).entries + 1)
                (reprioritized order h i e p) i sound.linked
                (new-DownInv order h i e p v at
                  (omega (arith, (order.gt_iff e.priority p).0 lesser)))
                (omega arith) (omega arith) in
            (h', rw lesser made, kept, heap)
        | inr greater ↦
            let (h', made, kept, heap) =
              bubble_up-some order (i + 1) (reprioritized order h i e p) i sound.linked
                (new-UpInv order h i e p v at (ground (arith, gt-ltb order e.priority p)))
                (omega arith) (omega arith) in
            (h', rw greater made, kept, heap)
      ]

  changed :
      (h : IndexedBinaryHeap T P) (idx : BinaryHeapIndex) (i : ℕ) (e : Entry T P) (p : P)
      (h' : IndexedBinaryHeap T P)
      → IsQueue order h
      → 2 ≤ idx.generation
      → Found h idx i e
      → Kept order (reprioritized order h i e p) h'
      → IsSound h'
      → Changed h idx (some (e.item, p)) h'
  changed h idx i e p h' v live found kept sound' =
      let same : record { slot = e.map_idx; generation = idx.generation } ≡ idx =
        λ i. record { slot = found.slot i; generation = idx.generation } in
      Changed-lookup h idx (some (e.item, p)) h' v.sound sound' live
        (subst (λ x. lookup h' x ≡ some (e.item, p)) same
          (Kept-lookup order (reprioritized order h i e p) h' _ kept
            ∙ new-lookup order h i e p v found.entry idx.generation found.current))
        (λ other live' ne.
          Kept-lookup order (reprioritized order h i e p) h' other kept
          ∙ new-lookup_else order h i e p v found.entry idx.generation other found.current live'
              (λ eq. ne (eq ∙ same)))

  -- `update_priority` of a well-formed queue ends and gives a well-formed queue: the handle finds its
  -- item with the priority that `f` gives, what it found before where `f` gives none, and nothing where
  -- it found nothing; the result is the priority that was replaced, if one was; every other handle finds
  -- what it found before. A handle has a generation of 2 or more.
  pub update_priority-get :
      (h : IndexedBinaryHeap T P) (idx : BinaryHeapIndex) (f : P → Option P)
      (value : Option (T × P))
      → IsQueue order h
      → 2 ≤ idx.generation
      → get h idx ≡ some value
      → (h' : IndexedBinaryHeap T P) × (update_priority order h idx f ≡ some (h', replaced f value))
        × IsQueue order h'
        × Changed h idx (new_value f value) h'
  unfolding update_priority new_value replaced
  update_priority-get h idx f value v live seen =
      let value_eq : lookup h idx ≡ value =
        some_inj (sym (get-lookup h idx v.sound.linked live) ∙ seen) in
      elim (deref_index-cases h idx v.sound.linked live) [
        | inl (no_index, no_value) ↦
            let none_eq : value ≡ none = sym value_eq ∙ no_value in
            (
              h,
              rw (update_priority, no_index, none_eq) refl,
              v,
              subst (λ x. Changed h idx x h) (sym (ap (new_value f) none_eq))
                  (unchanged h idx none (seen ∙ ap some none_eq)),
            )
        | inr (i, e, found) ↦
            let this : value ≡ some (e.item, e.priority) = sym value_eq ∙ found.value in
            elim (Option-cases (f e.priority)) [
              | inl kept_old ↦
                  let new_eq : new_value f value ≡ some (e.item, e.priority) =
                    ap (new_value f) this ∙ rw (new_value, kept_old) refl in
                  (
                    h,
                    rw
                        (
                          update_priority, found.deref, found.entry, kept_old, this, replaced,
                          kept_old,
                        )
                        refl,
                    v,
                    subst (λ x. Changed h idx x h) (sym new_eq)
                        (unchanged h idx (some (e.item, e.priority)) (seen ∙ ap some this)),
                  )
              | inr (p, fe) ↦
                  let (h', made, kept, heap) = sift h i e p v found.entry in
                  let new_eq : new_value f value ≡ some (e.item, p) =
                    ap (new_value f) this ∙ rw (new_value, fe) refl in
                  let sound' =
                    Kept-IsSound order (reprioritized order h i e p) h'
                      (new-IsSound order h i e p v found.entry) kept in
                  (
                    h',
                    rw (update_priority, found.deref, found.entry, fe, made, this, replaced, fe)
                        refl,
                    record { sound = sound'; heap = heap },
                    subst (λ x. Changed h idx x h') (sym new_eq)
                        (changed h idx i e p h' v live found kept sound'),
                  )
            ]
      ]

-- ===== src/IndexedHeap/Release.antt =====
-- `remove`: on every branch, the handle finds nothing any more.
use zssp.Base.{
  ℕ, suc, ◌≤◌, ◌<◌, ◌≡◌, ◌≢◌, refl, sym, ap, ◌∙◌, true, false, Option, none, some, length,
  get_elem?, set, ◌==◌, if◌then◌else◌, arith, subst, dec_lt, ℕ_discrete, Bool-cases, inl, inr,
  get_elem?_lt, length-set,
}
use zssp.IndexedHeap.{
  Priority, Entry, IndexedBinaryHeap, BinaryHeapIndex, get, remove, deref_index, reserved_marker,
  empty_marker,
}
use zssp.IndexedHeap.Reads.{
  read-get, read-set, read_out, get_elem?_out, lt_of_get, pos, gen, entry_of,
}
use zssp.IndexedHeap.Valid.{
  IsFree, IsFree-map, IsSound, IsQueue, lookup, get-lookup, Changed, Changed-lookup,
  deref_index-slot, some_inj,
}
use zssp.IndexedHeap.Reserve.{with_map, IsLinked-map}
use zssp.IndexedHeap.Remove.{handle_of, FitsAt, remove_idx-some}
use zssp.IndexedHeap.Change.{Found, deref_index-cases, unchanged}

module _ {ℓ} {T P : Type ℓ} where
  -- The heap with a reserved slot back on the free list.
  abbrev released : IndexedBinaryHeap T P → ℕ → IndexedBinaryHeap T P
  released h s = with_map h h.generation s (set h.map s (h.free_list_head, empty_marker))

  module _ (h : IndexedBinaryHeap T P) (s : ℕ) (v : IsSound h) (hs : s < length h.map)
      (reserved : gen h.map s ≡ reserved_marker) where
    gen-released : (j : ℕ) → gen (released h s).map j ≡ (if s == j then 0 else gen h.map j)
    gen-released j = read-set (λ (p, g). g) h.map s j (h.free_list_head, empty_marker) hs

    pos-released :
        (j : ℕ) → pos (released h s).map j ≡ (if s == j then h.free_list_head else pos h.map j)
    pos-released j = read-set (λ (p, g). p) h.map s j (h.free_list_head, empty_marker) hs

    released-IsSound : IsSound (released h s)
    unfolding IsFree
    released-IsSound =
        let m = (released h s).map in
        let size = length-set h.map s (h.free_list_head, empty_marker) in
        record {
          linked =
              IsLinked-map h h.generation s m v.linked (omega arith)
                (λ j live. ground (arith, gen-released j))
                (λ j live. ground (arith, gen-released j, pos-released j));
          started = v.started;
          generations = λ j. ground (arith, gen-released j, v.generations j);
          room = omega (arith, v.room);
          depth = suc v.depth;
          free = (
            omega arith,
            ground (arith, gen-released s),
            subst (IsFree m v.depth) (ground (arith, pos-released s)) (
                IsFree-map h.map m v.depth h.free_list_head
                  (λ i j hi (jl, jg, _).
                    (omega arith, ground (arith, gen-released j), ground (arith, pos-released j)))
                  v.free),
          );
        }

    released-lookup :
        (other : BinaryHeapIndex)
        → 2 ≤ other.generation
        → lookup (released h s) other ≡ lookup h other
    unfolding lookup entry_of
    released-lookup other live = elim (ℕ_discrete other.slot s) [
      | no nj ↦
          let g : gen (released h s).map other.slot ≡ gen h.map other.slot =
            ground (arith, gen-released other.slot) in
          let p : pos (released h s).map other.slot ≡ pos h.map other.slot =
            ground (arith, pos-released other.slot) in
          rw (g, p) refl
      | yes ej ↦
          let new_test : (gen (released h s).map other.slot == other.generation) ≡ false =
            ground (arith, gen-released other.slot) in
          let old_test : (gen h.map other.slot == other.generation) ≡ false =
            ground (arith, ap (gen h.map) ej) in
          rw (new_test, old_test) refl
    ]

module _ {ℓ} {T P : Type ℓ} (order : Priority P) where
  remove-released :
      (h : IndexedBinaryHeap T P) (idx : BinaryHeapIndex) (p : ℕ)
      → IsQueue order h
      → 2 ≤ idx.generation
      → get_elem? h.map idx.slot ≡ some (p, reserved_marker)
      → lookup h idx ≡ none
      → (remove order h idx ≡ some (released h idx.slot, none))
        × IsQueue order (released h idx.slot)
        × Changed h idx none (released h idx.slot)
  unfolding remove
  remove-released h idx p v live slot nothing =
      let hs = lt_of_get h.map idx.slot (p, reserved_marker) slot in
      let g = read-get (λ (p, g). g) h.map idx.slot (p, reserved_marker) slot in
      let sound = released-IsSound h idx.slot v.sound hs g in
      (
        rw (remove, slot) refl,
        record { sound = sound; heap = v.heap },
        Changed-lookup h idx none (released h idx.slot) v.sound sound live
            (released-lookup h idx.slot v.sound hs g idx live ∙ nothing)
            (λ other live' ne. released-lookup h idx.slot v.sound hs g other live'),
      )

  remove-Found :
      (h : IndexedBinaryHeap T P) (idx : BinaryHeapIndex) (p i : ℕ) (e : Entry T P)
      → IsQueue order h
      → get_elem? h.map idx.slot ≡ some (p, idx.generation)
      → idx.generation ≢ reserved_marker
      → Found h idx i e
      → FitsAt order h.entries i
      → (h' : IndexedBinaryHeap T P) × (remove order h idx ≡ some (h', some (e.item, e.priority)))
        × IsQueue order h'
        × Changed h idx none h'
  unfolding remove handle_of
  remove-Found h idx p i e v slot used found fits =
      let (h', removed, v', size, changed) = remove_idx-some order h i e v found.entry fits in
      let same : (idx.generation == idx.generation) ≡ true = ground arith in
      let not_reserved : (idx.generation == reserved_marker) ≡ false = ground arith in
      let position : i ≡ p =
        some_inj (sym found.deref ∙ deref_index-slot h idx p idx.generation slot ∙ rw same refl) in
      (
        h',
        rw (remove, slot, not_reserved, same, sym position, removed) refl,
        v',
        subst (λ x. Changed h x none h')
            (λ k. record { slot = found.slot k; generation = found.current k }) changed,
      )

  -- If the last entry may stand where the entry of the handle stands, `remove` of a well-formed queue
  -- ends and returns what the handle found, which finds nothing any more; every other handle finds what
  -- it found before, and the queue stays well-formed. A handle has a generation of 2 or more.
  pub remove-get :
      (h : IndexedBinaryHeap T P) (idx : BinaryHeapIndex) (value : Option (T × P))
      → IsQueue order h
      → 2 ≤ idx.generation
      → get h idx ≡ some value
      → ((i : ℕ) → deref_index h idx ≡ some i → FitsAt order h.entries i)
      → (h' : IndexedBinaryHeap T P) × (remove order h idx ≡ some (h', value))
        × IsQueue order h'
        × Changed h idx none h'
  unfolding remove lookup
  remove-get h idx value v live seen fits =
      let value_eq : value ≡ lookup h idx =
        some_inj (sym seen ∙ get-lookup h idx v.sound.linked live) in
      elim (dec_lt idx.slot (length h.map)) [
        | no out ↦
            let nothing : lookup h idx ≡ none =
              let test : (gen h.map idx.slot == idx.generation) ≡ false =
                ground (arith, read_out (λ (p, g). g) h.map idx.slot (omega arith)) in
              rw test refl in
            (
              h,
              rw (remove, get_elem?_out h.map idx.slot (omega arith), value_eq ∙ nothing) refl,
              v,
              unchanged h idx none (seen ∙ ap some (value_eq ∙ nothing)),
            )
        | yes hs ↦
            let ((p, g), slot) = get_elem?_lt h.map idx.slot hs in
            let eg = read-get (λ (p, g). g) h.map idx.slot (p, g) slot in
            elim (ℕ_discrete g reserved_marker) [
              | yes er ↦
                  let slot' : get_elem? h.map idx.slot ≡ some (p, reserved_marker) =
                    slot ∙ ap (λ x. some (p, x)) er in
                  let nothing : lookup h idx ≡ none =
                    let test : (gen h.map idx.slot == idx.generation) ≡ false =
                      ground (arith, eg) in
                    rw test refl in
                  let (made, v', changed) = remove-released h idx p v live slot' nothing in
                  (released h idx.slot, made ∙ rw (value_eq ∙ nothing) refl, v', changed)
              | no nr ↦ elim (Bool-cases (g == idx.generation)) [
                | inr other ↦
                    let nothing : lookup h idx ≡ none = rw (eg, other) refl in
                    let not_reserved : (g == reserved_marker) ≡ false = ground arith in
                    (
                      h,
                      rw (remove, slot, not_reserved, other, value_eq ∙ nothing) refl,
                      v,
                      unchanged h idx none (seen ∙ ap some (value_eq ∙ nothing)),
                    )
                | inl same ↦
                    let eq : g ≡ idx.generation = ground arith in
                    let slot' : get_elem? h.map idx.slot ≡ some (p, idx.generation) =
                      slot ∙ ap (λ x. some (p, x)) eq in
                    elim (deref_index-cases h idx v.sound.linked live) [
                      | inl (no_index, _) ↦
                          let some_index : deref_index h idx ≡ some p =
                            deref_index-slot h idx p g slot ∙ rw same refl in
                          absurd cc
                      | inr (i, e, found) ↦
                          let (h', made, v', changed) =
                            remove-Found h idx p i e v slot' (λ er. nr (eq ∙ er)) found
                              (fits i found.deref) in
                          (h', made ∙ rw (value_eq ∙ found.value) refl, v', changed)
                    ]
              ]
            ]
      ]

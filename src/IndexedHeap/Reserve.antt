-- ===== src/IndexedHeap/Reserve.antt =====
-- `reserve_index`: a fresh handle, and nothing else changes.
use zssp.Base.{
  ℕ, zero, suc, ◌+◌, ◌%◌, ◌≤◌, ◌<◌, ◌≡◌, ◌≢◌, refl, sym, ap, ◌∙◌, true, false, List, [], ◌∷◌, ◌++◌,
  some, length, set, ◌==◌, arith, subst, ℕ_discrete, get_elem?_lt, length-set, length-append,
  u64_mod,
}
use zssp.IndexedHeap.{
  IndexedBinaryHeap, BinaryHeapIndex, reserve_index, reserved_marker, write, usize_max,
}
use zssp.IndexedHeap.Reads.{read-get, read-set, read-append, read_out, pos, gen, owner, entry_of}
use zssp.IndexedHeap.Swap.{IsLinked}
use zssp.IndexedHeap.Valid.{IsFree, IsFree-map, IsFree-unique, IsSound, lookup}

-- The rest of the free list after its first slot is taken.
IsFree-rest :
    (m : List (ℕ × ℕ)) (n s : ℕ) (v : ℕ × ℕ)
    → length m ≤ usize_max
    → IsFree m (suc n) s
    → IsFree (set m s v) n (pos m s)
unfolding IsFree
IsFree-rest m n s v room (hl, hg, rest) =
    IsFree-map m (set m s v) n (pos m s)
      (λ i j hi (jl, jg, more).
        let ne : s ≢ j = λ e.
          let again = subst (λ x. IsFree m (suc i) x) (sym e) (jl, jg, more) in
          let same = IsFree-unique m (suc n) (suc i) s room (hl, hg, rest) again in omega arith in
        (
          omega (arith, length-set m s v),
          ground (arith, read-set (λ (p, g). g) m s j v hl),
          ground (arith, read-set (λ (p, g). p) m s j v hl),
        ))
      rest

module _ {ℓ} {T P : Type ℓ} where
  -- The slot `s` was not in use and is reserved; `g` is its handle's generation.
  pub record Reserved (h : IndexedBinaryHeap T P) (s : ℕ) (h' : IndexedBinaryHeap T P)
      : Type ℓ where
    pub sound : IsSound h'
    pub entries_eq : h'.entries ≡ h.entries
    pub generation_eq : h'.generation ≡ h.generation + 1
    pub unused : gen h.map s ≡ 0
    pub mark : gen h'.map s ≡ reserved_marker
    pub gen_else : (j : ℕ) → j ≢ s → gen h'.map j ≡ gen h.map j
    pub pos_else : (j : ℕ) → j ≢ s → pos h'.map j ≡ pos h.map j

  -- The heap with the entries it has and another slot map.
  abbrev pub with_map : IndexedBinaryHeap T P → ℕ → ℕ → List (ℕ × ℕ) → IndexedBinaryHeap T P
  with_map h g f m = record { generation = g; free_list_head = f; entries = h.entries; map = m }

  -- Links depend on the slots in use only.
  pub IsLinked-map :
      (h : IndexedBinaryHeap T P) (g f : ℕ) (m : List (ℕ × ℕ))
      → IsLinked h
      → length h.map ≤ length m
      → ((j : ℕ) → 2 ≤ gen m j → 2 ≤ gen h.map j)
      → ((j : ℕ) → 2 ≤ gen h.map j → (gen m j ≡ gen h.map j) × (pos m j ≡ pos h.map j))
      → IsLinked (with_map h g f m)
  IsLinked-map h g f m v more back same = record {
    owner_lt = λ i hi. omega (arith, v.owner_lt i hi);
    owner_pos = λ i hi. (same (owner h.entries i) (v.owner_gen i hi)).1 ∙ v.owner_pos i hi;
    owner_gen = λ i hi.
        let (eg, _) = same (owner h.entries i) (v.owner_gen i hi) in
        omega (arith, v.owner_gen i hi);
    pos_lt =
        λ j live. let (_, ep) = same j (back j live) in omega (arith, v.pos_lt j (back j live));
    pos_owner =
        λ j live. ap (owner h.entries) (same j (back j live)).1 ∙ v.pos_owner j (back j live);
  }

  pub Reserved-lookup :
      (h : IndexedBinaryHeap T P) (s : ℕ) (h' : IndexedBinaryHeap T P) (idx : BinaryHeapIndex)
      → Reserved h s h'
      → 2 ≤ idx.generation
      → lookup h' idx ≡ lookup h idx
  unfolding lookup entry_of
  Reserved-lookup h s h' idx r live = elim (ℕ_discrete idx.slot s) [
    | yes e ↦
        let old : (gen h.map idx.slot == idx.generation) ≡ false =
          ground (arith, r.unused, ap (gen h.map) e) in
        let new_test : (gen h'.map idx.slot == idx.generation) ≡ false =
          ground (arith, r.mark, ap (gen h'.map) e) in
        rw (old, new_test) refl
    | no ne ↦ rw (r.gen_else idx.slot ne, r.pos_else idx.slot ne, r.entries_eq) refl
  ]

  reserve_first :
      (h : IndexedBinaryHeap T P) (n : ℕ)
      → IsSound h
      → h.generation + 1 < u64_mod
      → h.free_list_head ≢ usize_max
      → IsFree h.map n h.free_list_head
      → (h' : IndexedBinaryHeap T P) × (reserve_index h
          ≡ some (h', record { slot = h.free_list_head; generation = h.generation + 1 }))
        × Reserved h h.free_list_head h'
  unfolding reserve_index IsFree write
  reserve_first h zero v hg some_free chain = absurd (some_free chain)
  reserve_first h (suc n) v hg some_free (hl, unused, rest) =
      let s = h.free_list_head in
      let m = set h.map s (0, reserved_marker) in
      let mg = λ (j : ℕ). read-set (λ (p, g). g) h.map s j (0, reserved_marker) hl in
      let mp = λ (j : ℕ). read-set (λ (p, g). p) h.map s j (0, reserved_marker) hl in
      let ((next, g), e) = get_elem?_lt h.map s hl in
      let there = read-get (λ (p, g). p) h.map s (next, g) e in
      let test : (s == usize_max) ≡ false = ground arith in
      let small : (h.generation + 1) % u64_mod ≡ h.generation + 1 = omega arith in
      let size = length-set h.map s (0, reserved_marker) in
      (
        with_map h (h.generation + 1) next m,
        rw (test, e, small) refl,
        record {
          sound = record {
            linked =
                IsLinked-map h (h.generation + 1) next m v.linked (omega arith)
                  (λ j live. ground (arith, mg j)) (λ j live. ground (arith, mg j, mp j));
            started = omega arith;
            generations = λ j. ground (arith, mg j, v.generations j, v.started);
            room = omega (arith, v.room);
            depth = n;
            free =
                rw (sym there)
                  (IsFree-rest h.map n s (0, reserved_marker) v.room (hl, unused, rest));
          };
          entries_eq = refl;
          generation_eq = refl;
          unused = unused;
          mark = ground (arith, mg s);
          gen_else = λ j ne. ground (arith, mg j);
          pos_else = λ j ne. ground (arith, mp j);
        },
      )

  reserve_last :
      (h : IndexedBinaryHeap T P)
      → IsSound h
      → h.generation + 1 < u64_mod
      → length h.map < usize_max
      → h.free_list_head ≡ usize_max
      → (h' : IndexedBinaryHeap T P) × (reserve_index h
          ≡ some (h', record { slot = length h.map; generation = h.generation + 1 }))
        × Reserved h (length h.map) h'
  unfolding reserve_index IsFree
  reserve_last h v hg fits no_free =
      let m = h.map ++ (0, reserved_marker) ∷ [] in
      let mg = read-append (λ (p, g). g) h.map (0, reserved_marker) in
      let mp = read-append (λ (p, g). p) h.map (0, reserved_marker) in
      let test : (h.free_list_head == usize_max) ≡ true = ground arith in
      let small : (h.generation + 1) % u64_mod ≡ h.generation + 1 = omega arith in
      let unused = read_out (λ (p, g). g) h.map (length h.map) (omega arith) in
      let longer : length m ≡ length h.map + 1 = length-append h.map ((0, reserved_marker) ∷ []) in
      (
        with_map h (h.generation + 1) h.free_list_head m,
        rw (test, small) refl,
        record {
          sound = record {
            linked =
                IsLinked-map h (h.generation + 1) h.free_list_head m v.linked (omega arith)
                  (λ j live. ground (arith, mg j)) (λ j live. ground (arith, mg j, mp j));
            started = omega arith;
            generations = λ j. ground (arith, mg j, v.generations j, v.started);
            room = omega arith;
            depth = 0;
            free = no_free;
          };
          entries_eq = refl;
          generation_eq = refl;
          unused = unused;
          mark = ground (arith, mg (length h.map));
          gen_else = λ j ne. ground (arith, mg j);
          pos_else = λ j ne. ground (arith, mp j);
        },
      )

  pub reserve_index-some :
      (h : IndexedBinaryHeap T P)
      → IsSound h
      → h.generation + 1 < u64_mod
      → length h.map < usize_max
      → (h' : IndexedBinaryHeap T P) × (s : ℕ) × (reserve_index h
          ≡ some (h', record { slot = s; generation = h.generation + 1 }))
        × Reserved h s h'
  reserve_index-some h v hg fits = elim (ℕ_discrete h.free_list_head usize_max) [
    | yes e ↦ let (h', made, r) = reserve_last h v hg fits e in (h', length h.map, made, r)
    | no ne ↦
        let (h', made, r) = reserve_first h v.depth v hg ne v.free in
        (h', h.free_list_head, made, r)
  ]

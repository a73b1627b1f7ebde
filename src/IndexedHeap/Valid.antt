-- ===== src/IndexedHeap/Valid.antt =====
-- The invariant of the queue: the links, the free list, the generations and the heap order.
use zssp.Base.{
  ℕ, zero, suc, ◌≤◌, ◌<◌, ◌≡◌, refl, sym, ap, ◌∙◌, false, List, [], Option, none, some, length,
  get_elem?, ◌==◌, if◌then◌else◌, arith, ◌≢◌, dec_lt, Bool-cases, inl, inr, get_elem?_lt,
}
use zssp.IndexedHeap.{
  Priority, Entry, IndexedBinaryHeap, BinaryHeapIndex, new, deref_index, get, usize_max,
}
use zssp.IndexedHeap.Reads.{read-get, read_out, get_elem?_out, pos, gen, entry_of, entry_of_live}
use zssp.IndexedHeap.Swap.{IsLinked}
use zssp.IndexedHeap.Order.{IsHeap, Kept}

pub some_inj {ℓ} : {A : Type ℓ} {x y : A} → some x ≡ some y → x ≡ y
some_inj e = cc

-- The free list from `head` has `n` EMPTY slots and ends.
unfoldable pub IsFree : List (ℕ × ℕ) → ℕ → ℕ → Type 0
IsFree m zero head = head ≡ usize_max
IsFree m (suc n) head = (head < length m) × (gen m head ≡ 0) × IsFree m n (pos m head)

pub IsFree-map :
    (m m' : List (ℕ × ℕ)) (n head : ℕ)
    → ((i j : ℕ)
        → i < n
        → IsFree m (suc i) j
        → (j < length m') × (gen m' j ≡ 0) × (pos m' j ≡ pos m j))
    → IsFree m n head
    → IsFree m' n head
unfolding IsFree
IsFree-map m m' zero head same e = e
IsFree-map m m' (suc n) head same (hl, hg, rest) =
    let (hl', hg', hp') = same n head (omega arith) (hl, hg, rest) in
    let rest' = IsFree-map m m' n (pos m head) (λ i j hi. same i j (omega arith)) rest in
    (hl', hg', rw hp' rest')

-- A slot has one place in the free list.
pub IsFree-unique :
    (m : List (ℕ × ℕ)) (n k head : ℕ)
    → length m ≤ usize_max
    → IsFree m n head
    → IsFree m k head
    → n ≡ k
unfolding IsFree
IsFree-unique m zero zero head room p q = refl
IsFree-unique m zero (suc k) head room p (ql, _, _) = absurd (omega arith)
IsFree-unique m (suc n) zero head room (pl, _, _) q = absurd (omega arith)
IsFree-unique m (suc n) (suc k) head room (_, _, p) (_, _, q) =
    ap suc (IsFree-unique m n k (pos m head) room p q)

module _ {ℓ} {T P : Type ℓ} where
  pub record IsSound (h : IndexedBinaryHeap T P) : Type 0 where
    pub linked : IsLinked h
    pub started : 1 ≤ h.generation
    pub generations : (j : ℕ) → gen h.map j ≤ h.generation
    pub room : length h.map ≤ usize_max
    pub depth : ℕ
    pub free : IsFree h.map depth h.free_list_head

  pub record IsQueue (order : Priority P) (h : IndexedBinaryHeap T P) : Type 0 where
    pub sound : IsSound h
    pub heap : IsHeap order h.entries

  pub Kept-IsSound :
      (order : Priority P) (h h' : IndexedBinaryHeap T P) → IsSound h → Kept order h h' → IsSound h'
  unfolding IsFree
  Kept-IsSound order h h' v k = record {
    linked = k.linked;
    started = omega (arith, v.started, k.generation_eq);
    generations = λ j. omega (arith, v.generations j, k.gen_eq j, k.generation_eq);
    room = omega (arith, v.room, k.map_size);
    depth = v.depth;
    free = rw k.free_eq (
        IsFree-map h.map h'.map v.depth h.free_list_head
          (λ i j hi (jl, jg, _).
            (omega (arith, k.map_size), k.gen_eq j ∙ jg, k.pos_free j (omega arith)))
          v.free);
  }

  unfoldable pub content : Option (Entry T P) → Option (T × P)
  content none = none
  content (some e) = some (e.item, e.priority)

  -- What a handle stands for.
  unfoldable pub lookup : IndexedBinaryHeap T P → BinaryHeapIndex → Option (T × P)
  lookup h idx =
      if gen h.map idx.slot == idx.generation then content (entry_of h idx.slot) else none

  pub Kept-lookup :
      (order : Priority P) (h h' : IndexedBinaryHeap T P) (idx : BinaryHeapIndex)
      → Kept order h h'
      → lookup h' idx ≡ lookup h idx
  unfolding lookup
  Kept-lookup order h h' idx k = rw (k.gen_eq idx.slot, k.entry_eq idx.slot) refl

  pub deref_index-slot :
      (h : IndexedBinaryHeap T P) (idx : BinaryHeapIndex) (p g : ℕ)
      → get_elem? h.map idx.slot ≡ some (p, g)
      → deref_index h idx ≡ (if g == idx.generation then some p else none)
  unfolding deref_index
  deref_index-slot h idx p g e = rw (deref_index, e) refl

  pub deref_index_out :
      (h : IndexedBinaryHeap T P) (idx : BinaryHeapIndex)
      → get_elem? h.map idx.slot ≡ none
      → deref_index h idx ≡ none
  unfolding deref_index
  deref_index_out h idx e = rw (deref_index, e) refl

  pub get-lookup :
      (h : IndexedBinaryHeap T P) (idx : BinaryHeapIndex)
      → IsLinked h
      → 2 ≤ idx.generation
      → get h idx ≡ some (lookup h idx)
  unfolding get lookup content
  get-lookup h idx v hg = elim (dec_lt idx.slot (length h.map)) [
    | no out ↦
        let dead = read_out (λ (p, g). g) h.map idx.slot (omega arith) in
        let test : (gen h.map idx.slot == idx.generation) ≡ false = ground (arith, dead) in
        rw (get, deref_index_out h idx (get_elem?_out h.map idx.slot (omega arith)), test) refl
    | yes hs ↦
        let ((p, g), e) = get_elem?_lt h.map idx.slot hs in
        let eg = read-get (λ (p, g). g) h.map idx.slot (p, g) e in
        let ep = read-get (λ (p, g). p) h.map idx.slot (p, g) e in
        elim (Bool-cases (g == idx.generation)) [
          | inr other ↦ rw (get, deref_index-slot h idx p g e, eg, other) refl
          | inl same ↦
              let live : 2 ≤ gen h.map idx.slot = ground (arith, eg) in
              let (entry, there) =
                get_elem?_lt h.entries p (omega (arith, ep, v.pos_lt idx.slot live)) in
              rw
                (
                  get,
                  deref_index-slot h idx p g e,
                  eg,
                  same,
                  entry_of_live h idx.slot live,
                  ep,
                  there,
                )
                refl
        ]
  ]

  -- `idx` finds `value` now, and every other handle finds what it found before.
  pub record Changed (h : IndexedBinaryHeap T P) (idx : BinaryHeapIndex) (value : Option (T × P))
      (h' : IndexedBinaryHeap T P) : Type ℓ where
    pub here : get h' idx ≡ some value
    pub elsewhere :
        (other : BinaryHeapIndex) → 2 ≤ other.generation → other ≢ idx → get h' other ≡ get h other

  pub Changed-lookup :
      (h : IndexedBinaryHeap T P) (idx : BinaryHeapIndex) (value : Option (T × P))
      (h' : IndexedBinaryHeap T P)
      → IsSound h
      → IsSound h'
      → 2 ≤ idx.generation
      → lookup h' idx ≡ value
      → ((other : BinaryHeapIndex)
          → 2 ≤ other.generation
          → other ≢ idx
          → lookup h' other ≡ lookup h other)
      → Changed h idx value h'
  Changed-lookup h idx value h' v v' live e same = record {
    here = get-lookup h' idx v'.linked live ∙ ap some e;
    elsewhere = λ other live' ne.
        get-lookup h' other v'.linked live'
        ∙ ap some (same other live' ne)
        ∙ sym (get-lookup h other v.linked live');
  }

  pub new-IsQueue : (order : Priority P) → IsQueue order new
  unfolding new IsFree
  new-IsQueue order = record {
    sound = record {
      linked = record {
        owner_lt = λ i hi. absurd (omega arith);
        owner_pos = λ i hi. absurd (omega arith);
        owner_gen = λ i hi. absurd (omega arith);
        pos_lt = λ j g. absurd (omega (arith, read_out {A = ℕ × ℕ} (λ (p, g). g) [] j));
        pos_owner = λ j g. absurd (omega (arith, read_out {A = ℕ × ℕ} (λ (p, g). g) [] j));
      };
      started = omega arith;
      generations = λ j. omega (arith, read_out {A = ℕ × ℕ} (λ (p, g). g) [] j);
      room = omega arith;
      depth = 0;
      free = refl;
    };
    heap = λ c c0 hc. absurd (omega arith);
  }

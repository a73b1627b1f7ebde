-- ===== src/IndexedHeap/Append.antt =====
-- The heap with a new entry at the end, before it is sifted: sound, in order but at the end, and only
-- the new handle sees a difference.
use zssp.Base.{
  ℕ, ◌≤◌, ◌<◌, ◌≡◌, ◌≢◌, refl, sym, ap, ◌∙◌, true, false, [], ◌∷◌, ◌++◌, some, length, set, ◌==◌,
  if◌then◌else◌, arith, ℕ_discrete, dec_lt, length-set, length-append,
}
use zssp.IndexedHeap.{Priority, Entry, IndexedBinaryHeap, BinaryHeapIndex, reserved_marker}
use zssp.IndexedHeap.Reads.{
  read-set, read-append, read_out, get_elem?-append_last, pos, gen, owner, entry_of, entry_of_live,
  entry_of_dead,
}
use zssp.IndexedHeap.Order.{IsHeap, UpInv, parent}
use zssp.IndexedHeap.Valid.{IsFree, IsFree-map, IsSound, lookup, content}

module _ {ℓ} {T P : Type ℓ} (order : Priority P) where
  -- The heap with the entry at the end, before it is sifted.
  abbrev pub appended : IndexedBinaryHeap T P → BinaryHeapIndex → T → P → IndexedBinaryHeap T P
  appended h idx item priority = record h {
    entries = h.entries ++ record { item = item; priority = priority; map_idx = idx.slot } ∷ [];
    map = set h.map idx.slot (length h.entries, idx.generation);
  }

  module _ (h : IndexedBinaryHeap T P) (idx : BinaryHeapIndex) (item : T) (priority : P)
      (v : IsSound h) (fresh : gen h.map idx.slot ≡ reserved_marker) (live : 2 ≤ idx.generation)
      (known : idx.generation ≤ h.generation) where
    pub in_map : idx.slot < length h.map
    in_map = elim (dec_lt idx.slot (length h.map)) [
      | yes e ↦ e
      | no ne ↦ absurd (ground (arith, read_out (λ (p, g). g) h.map idx.slot))
    ]

    gen-appended :
        (j : ℕ)
        → gen (appended h idx item priority).map j
          ≡ (if idx.slot == j then idx.generation else gen h.map j)
    gen-appended j =
        read-set (λ (p, g). g) h.map idx.slot j (length h.entries, idx.generation) in_map

    pos-appended :
        (j : ℕ)
        → pos (appended h idx item priority).map j
          ≡ (if idx.slot == j then length h.entries else pos h.map j)
    pos-appended j =
        read-set (λ (p, g). p) h.map idx.slot j (length h.entries, idx.generation) in_map

    pub appended-IsSound : IsSound (appended h idx item priority)
    unfolding IsFree
    appended-IsSound =
        let l = v.linked in
        let e : Entry T P = record { item = item; priority = priority; map_idx = idx.slot } in
        let own = read-append (λ e. e.map_idx) h.entries e in
        let size = length-append h.entries (e ∷ []) in
        let map_size = length-set h.map idx.slot (length h.entries, idx.generation) in
        record {
          linked = record {
            owner_lt = λ i hi. ground (arith, in_map, own i, l.owner_lt i);
            owner_pos = λ i hi. ground (
              arith,
              size,
              own i,
              pos-appended (owner (appended h idx item priority).entries i),
              l.owner_pos i,
              l.owner_gen i,
            );
            owner_gen = λ i hi. ground (
              arith,
              size,
              own i,
              gen-appended (owner (appended h idx item priority).entries i),
              l.owner_gen i,
            );
            pos_lt = λ j g. ground (arith, gen-appended j, pos-appended j, l.pos_lt j);
            pos_owner = λ j g. ground (
              arith,
              gen-appended j,
              pos-appended j,
              own (pos (appended h idx item priority).map j),
              l.pos_owner j,
              l.pos_lt j,
            );
          };
          started = v.started;
          generations = λ j. ground (arith, gen-appended j, v.generations j);
          room = omega (arith, v.room);
          depth = v.depth;
          free =
              IsFree-map h.map (appended h idx item priority).map v.depth h.free_list_head
                (λ i j hi (jl, jg, _).
                  (omega arith, ground (arith, gen-appended j), ground (arith, pos-appended j)))
                v.free;
        }

    pub appended-UpInv :
        IsHeap order h.entries
        → UpInv order (appended h idx item priority).entries (length h.entries)
    appended-UpInv heap =
        let e : Entry T P = record { item = item; priority = priority; map_idx = idx.slot } in
        let k = read-append (λ e. order.rank e.priority) h.entries e in
        let size = length-append h.entries (e ∷ []) in
        record {
          others = λ c c0 cn ne. ground (arith, k c, k (parent c), heap c);
          bridge = λ c c0 cn p0 ep. absurd (omega arith);
        }

    pub appended-lookup : lookup (appended h idx item priority) idx ≡ some (item, priority)
    unfolding lookup content
    appended-lookup =
        let e : Entry T P = record { item = item; priority = priority; map_idx = idx.slot } in
        let h' = appended h idx item priority in
        let g : gen h'.map idx.slot ≡ idx.generation = ground (arith, gen-appended idx.slot) in
        let p : pos h'.map idx.slot ≡ length h.entries = ground (arith, pos-appended idx.slot) in
        let test : (idx.generation == idx.generation) ≡ true = ground arith in
        let here : (length h.entries == length h.entries) ≡ true = ground arith in
        rw
          (
            g,
            test,
            entry_of_live h' idx.slot (omega arith),
            p,
            get_elem?-append_last h.entries e (length h.entries),
            here,
          )
          refl

    pub appended-entry_of :
        (j : ℕ) → j ≢ idx.slot → entry_of (appended h idx item priority) j ≡ entry_of h j
    appended-entry_of j ne =
        let e : Entry T P = record { item = item; priority = priority; map_idx = idx.slot } in
        let h' = appended h idx item priority in
        let g : gen h'.map j ≡ gen h.map j = ground (arith, gen-appended j) in
        let p : pos h'.map j ≡ pos h.map j = ground (arith, pos-appended j) in
        elim (dec_lt (gen h.map j) 2) [
          | yes dead ↦ entry_of_dead h' j (omega arith) ∙ sym (entry_of_dead h j dead)
          | no used ↦
              let live : 2 ≤ gen h.map j = omega arith in
              let before : (pos h.map j == length h.entries) ≡ false =
                ground (arith, v.linked.pos_lt j) in
              entry_of_live h' j (omega arith)
              ∙ rw (p, get_elem?-append_last h.entries e (pos h.map j), before) refl
              ∙ sym (entry_of_live h j live)
        ]

    pub appended-lookup_else :
        (other : BinaryHeapIndex)
        → 2 ≤ other.generation
        → other ≢ idx
        → lookup (appended h idx item priority) other ≡ lookup h other
    unfolding lookup
    appended-lookup_else other live' ne = elim (ℕ_discrete other.slot idx.slot) [
      | no nj ↦
          let g : gen (appended h idx item priority).map other.slot ≡ gen h.map other.slot =
            ground (arith, gen-appended other.slot) in
          rw (g, appended-entry_of other.slot nj) refl
      | yes ej ↦
          let ng : other.generation ≢ idx.generation =
            λ eg. ne (λ i. record { slot = ej i; generation = eg i }) in
          let new_test : (gen (appended h idx item priority).map other.slot == other.generation)
              ≡ false =
            ground (arith, gen-appended other.slot) in
          let old_test : (gen h.map other.slot == other.generation) ≡ false =
            ground (arith, ap (gen h.map) ej) in
          rw (new_test, old_test) refl
    ]

-- ===== src/IndexedHeap/Cut.antt =====
-- The heap without its last entry, before it is sifted: sound, and only the handle of that entry sees
-- a difference.
use zssp.Base.{
  ℕ, suc, ◌-◌, ◌≤◌, ◌<◌, ◌≡◌, ◌≢◌, refl, sym, ap, ◌∙◌, false, none, length, set, take, ◌==◌,
  if◌then◌else◌, arith, subst, ℕ_discrete, dec_lt, length-set, length-take,
}
use zssp.IndexedHeap.{IndexedBinaryHeap, BinaryHeapIndex, empty_marker}
use zssp.IndexedHeap.Reads.{
  read-set, read-take, get_elem?-take, pos, gen, owner, entry_of, entry_of_live, entry_of_dead,
}
use zssp.IndexedHeap.Valid.{IsFree, IsFree-map, IsSound, lookup}

module _ {ℓ} {T P : Type ℓ} where
  -- The heap without its last entry, whose slot is freed.
  abbrev pub cut : IndexedBinaryHeap T P → ℕ → IndexedBinaryHeap T P
  cut h s = record h {
    free_list_head = s;
    entries = take (length h.entries - 1) h.entries;
    map = set h.map s (h.free_list_head, empty_marker);
  }

  module _ (h : IndexedBinaryHeap T P) (s : ℕ) (v : IsSound h) (full : 0 < length h.entries)
      (last : owner h.entries (length h.entries - 1) ≡ s) where
    last_live : (s < length h.map) × (2 ≤ gen h.map s) × (pos h.map s ≡ length h.entries - 1)
    last_live =
        subst (λ x. (x < length h.map) × (2 ≤ gen h.map x) × (pos h.map x ≡ length h.entries - 1))
          last
          (
            v.linked.owner_lt (length h.entries - 1) (omega arith),
            v.linked.owner_gen (length h.entries - 1) (omega arith),
            v.linked.owner_pos (length h.entries - 1) (omega arith),
          )

    pub size-cut : length (cut h s).entries ≡ length h.entries - 1
    size-cut = length-take (length h.entries - 1) h.entries ∙ omega arith

    gen-cut : (j : ℕ) → gen (cut h s).map j ≡ (if s == j then 0 else gen h.map j)
    gen-cut j = read-set (λ (p, g). g) h.map s j (h.free_list_head, empty_marker) last_live.0

    pos-cut : (j : ℕ) → pos (cut h s).map j ≡ (if s == j then h.free_list_head else pos h.map j)
    pos-cut j = read-set (λ (p, g). p) h.map s j (h.free_list_head, empty_marker) last_live.0

    owner-cut : (i : ℕ) → i < length h.entries - 1 → owner (cut h s).entries i ≡ owner h.entries i
    owner-cut i hi = read-take (λ e. e.map_idx) (length h.entries - 1) h.entries i hi

    owner_ne : (i : ℕ) → i < length h.entries - 1 → owner h.entries i ≢ s
    owner_ne i hi e =
        let same = ap (pos h.map) e in
        omega (arith, v.linked.owner_pos i (omega arith), last_live.2)

    pos_ne : (j : ℕ) → 2 ≤ gen h.map j → j ≢ s → pos h.map j ≢ length h.entries - 1
    pos_ne j live ne e = ne (sym (v.linked.pos_owner j live) ∙ ap (owner h.entries) e ∙ last)

    pos-cut_live :
        (j : ℕ)
        → 2 ≤ gen (cut h s).map j
        → (2 ≤ gen h.map j)
          × (j ≢ s)
          × (pos h.map j < length h.entries - 1)
          × (pos (cut h s).map j ≡ pos h.map j)
    pos-cut_live j live =
        let ne : j ≢ s = λ e. ground (arith, gen-cut j) in
        let live' : 2 ≤ gen h.map j = ground (arith, gen-cut j) in
        (
          live',
          ne,
          omega (arith, v.linked.pos_lt j live', pos_ne j live' ne),
          ground (arith, pos-cut j),
        )

    pub cut-IsSound : IsSound (cut h s)
    unfolding IsFree
    cut-IsSound =
        let (sl, sg, sp) = last_live in
        let map_size = length-set h.map s (h.free_list_head, empty_marker) in
        let l = v.linked in
        record {
          linked = record {
            owner_lt = λ i hi. omega (arith, size-cut, owner-cut i, l.owner_lt i);
            owner_pos = λ i hi. ground (
              arith,
              size-cut,
              owner-cut i,
              owner_ne i,
              l.owner_pos i,
              pos-cut (owner (cut h s).entries i),
            );
            owner_gen = λ i hi. ground (
              arith,
              size-cut,
              owner-cut i,
              owner_ne i,
              l.owner_gen i,
              gen-cut (owner (cut h s).entries i),
            );
            pos_lt = λ j g. let (_, _, lt, e) = pos-cut_live j g in omega (arith, size-cut);
            pos_owner = λ j g.
                let (live, _, lt, e) = pos-cut_live j g in
                ap (owner (cut h s).entries) e ∙ owner-cut (pos h.map j) lt ∙ l.pos_owner j live;
          };
          started = v.started;
          generations = λ j. ground (arith, gen-cut j, v.generations j);
          room = omega (arith, v.room);
          depth = suc v.depth;
          free = (
            omega arith,
            ground (arith, gen-cut s),
            subst (IsFree (cut h s).map v.depth) (ground (arith, pos-cut s)) (
                IsFree-map h.map (cut h s).map v.depth h.free_list_head
                  (λ i j hi (jl, jg, _).
                    (omega arith, ground (arith, gen-cut j), ground (arith, pos-cut j)))
                  v.free),
          );
        }

    pub cut-entry_of : (j : ℕ) → j ≢ s → entry_of (cut h s) j ≡ entry_of h j
    cut-entry_of j ne =
        let g : gen (cut h s).map j ≡ gen h.map j = ground (arith, gen-cut j) in
        elim (dec_lt (gen h.map j) 2) [
          | yes dead ↦ entry_of_dead (cut h s) j (omega arith) ∙ sym (entry_of_dead h j dead)
          | no used ↦
              let live : 2 ≤ gen h.map j = omega arith in
              let (_, _, lt, e) = pos-cut_live j (omega arith) in
              entry_of_live (cut h s) j (omega arith)
              ∙ rw e (get_elem?-take (length h.entries - 1) h.entries (pos h.map j) lt)
              ∙ sym (entry_of_live h j live)
        ]

    pub cut-lookup_else :
        (other : BinaryHeapIndex)
        → 2 ≤ other.generation
        → (other.slot ≡ s → other.generation ≢ gen h.map s)
        → lookup (cut h s) other ≡ lookup h other
    unfolding lookup
    cut-lookup_else other live apart = elim (ℕ_discrete other.slot s) [
      | no nj ↦
          let g : gen (cut h s).map other.slot ≡ gen h.map other.slot =
            ground (arith, gen-cut other.slot) in
          rw (g, cut-entry_of other.slot nj) refl
      | yes ej ↦
          let new_test : (gen (cut h s).map other.slot == other.generation) ≡ false =
            ground (arith, gen-cut other.slot) in
          let old_test : (gen h.map other.slot == other.generation) ≡ false =
            ground (arith, ap (gen h.map) ej, apart ej) in
          rw (new_test, old_test) refl
    ]

    pub cut-lookup : (g : ℕ) → 2 ≤ g → lookup (cut h s) (record { slot = s; generation = g }) ≡ none
    unfolding lookup
    cut-lookup g live =
        let test : (gen (cut h s).map s == g) ≡ false = ground (arith, gen-cut s) in rw test refl

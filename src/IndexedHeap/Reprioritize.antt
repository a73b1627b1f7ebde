-- ===== src/IndexedHeap/Reprioritize.antt =====
-- The heap with another priority at one entry, before it is sifted: sound, in order but around that
-- entry, and only its handle sees a difference.
use zssp.Base.{
  ℕ, ◌≤◌, ◌≡◌, ◌≢◌, refl, sym, ap, ◌∙◌, true, false, some, length, get_elem?, set, ◌==◌,
  if◌then◌else◌, arith, subst, Bool-cases, inl, inr, length-set,
}
use zssp.IndexedHeap.{Priority, Entry, IndexedBinaryHeap, BinaryHeapIndex}
use zssp.IndexedHeap.Reads.{
  read-get, read-set, get_elem?-set, lt_of_get, pos, gen, owner, key, entry_of, entry_of_live,
}
use zssp.IndexedHeap.Order.{UpInv, DownInv, parent}
use zssp.IndexedHeap.Valid.{IsSound, IsQueue, lookup, content}

module _ {ℓ} {T P : Type ℓ} (order : Priority P) where
  -- The heap with another priority at `i`, before it is sifted.
  abbrev pub reprioritized : IndexedBinaryHeap T P → ℕ → Entry T P → P → IndexedBinaryHeap T P
  reprioritized h i e p = record h { entries = set h.entries i (record e { priority = p }) }

  module _ (h : IndexedBinaryHeap T P) (i : ℕ) (e : Entry T P) (p : P) (v : IsQueue order h)
      (at : get_elem? h.entries i ≡ some e) where
    key_new :
        (c : ℕ)
        → key order (reprioritized h i e p).entries c
          ≡ (if i == c then order.rank p else key order h.entries c)
    key_new c =
        read-set (λ e. order.rank e.priority) h.entries i c (record e { priority = p })
          (lt_of_get h.entries i e at)

    owner_new : (c : ℕ) → owner (reprioritized h i e p).entries c ≡ owner h.entries c
    owner_new c =
        let set_owner =
          read-set (λ e. e.map_idx) h.entries i c (record e { priority = p })
            (lt_of_get h.entries i e at) in
        ground (arith, set_owner, read-get (λ e. e.map_idx) h.entries i e at)

    pub size_new : length (reprioritized h i e p).entries ≡ length h.entries
    size_new = length-set h.entries i (record e { priority = p })

    pub new-IsSound : IsSound (reprioritized h i e p)
    new-IsSound =
        let l = v.sound.linked in
        record {
          linked = record {
            owner_lt = λ c hc. omega (arith, size_new, owner_new c, l.owner_lt c);
            owner_pos =
                λ c hc. ap (pos h.map) (owner_new c) ∙ l.owner_pos c (omega (arith, size_new));
            owner_gen = λ c hc.
                subst (λ j. 2 ≤ gen h.map j) (sym (owner_new c))
                  (l.owner_gen c (omega (arith, size_new)));
            pos_lt = λ j g. omega (arith, size_new, l.pos_lt j);
            pos_owner = λ j g. owner_new (pos h.map j) ∙ l.pos_owner j g;
          };
          started = v.sound.started;
          generations = v.sound.generations;
          room = v.sound.room;
          depth = v.sound.depth;
          free = v.sound.free;
        }

    pub new-UpInv :
        order.rank e.priority ≤ order.rank p → UpInv order (reprioritized h i e p).entries i
    new-UpInv more =
        let old = read-get (λ e. order.rank e.priority) h.entries i e at in
        record {
          others = λ c c0 cn ne. ground (arith, size_new, key_new c, key_new (parent c), v.heap c);
          bridge = λ c c0 cn i0 ep. ground (
            arith,
            size_new,
            key_new c,
            key_new (parent i),
            v.heap c,
            v.heap i,
            lt_of_get h.entries i e at,
          );
        }

    pub new-DownInv :
        order.rank p ≤ order.rank e.priority → DownInv order (reprioritized h i e p).entries i
    new-DownInv less =
        let old = read-get (λ e. order.rank e.priority) h.entries i e at in
        record {
          others = λ c c0 cn ne. ground (arith, size_new, key_new c, key_new (parent c), v.heap c);
          bridge = λ c c0 cn i0 ep. ground (
            arith,
            size_new,
            key_new c,
            key_new (parent i),
            v.heap c,
            v.heap i,
            lt_of_get h.entries i e at,
          );
        }

    pub new-entry_of_else :
        (j : ℕ) → pos h.map j ≢ i → entry_of (reprioritized h i e p) j ≡ entry_of h j
    unfolding entry_of
    new-entry_of_else j ne =
        let test : (i == pos h.map j) ≡ false = ground arith in
        rw
          (
            get_elem?-set h.entries i (pos h.map j) (record e { priority = p })
                (lt_of_get h.entries i e at),
            test,
          )
          refl

    pub new-lookup :
        (g : ℕ)
        → gen h.map e.map_idx ≡ g
        → lookup (reprioritized h i e p) (record { slot = e.map_idx; generation = g })
          ≡ some (e.item, p)
    unfolding lookup content
    new-lookup g eg =
        let hi = lt_of_get h.entries i e at in
        let own = read-get (λ e. e.map_idx) h.entries i e at in
        let used : 2 ≤ gen h.map e.map_idx =
          subst (λ j. 2 ≤ gen h.map j) own (v.sound.linked.owner_gen i hi) in
        let there : pos h.map e.map_idx ≡ i =
          subst (λ j. pos h.map j ≡ i) own (v.sound.linked.owner_pos i hi) in
        let test : (gen h.map e.map_idx == g) ≡ true = ground arith in
        let here : (i == i) ≡ true = ground arith in
        rw
          (
            test,
            entry_of_live (reprioritized h i e p) e.map_idx used,
            there,
            get_elem?-set h.entries i i (record e { priority = p }) hi,
            here,
          )
          refl

    pub new-lookup_else :
        (g : ℕ) (other : BinaryHeapIndex)
        → gen h.map e.map_idx ≡ g
        → 2 ≤ other.generation
        → other ≢ record { slot = e.map_idx; generation = g }
        → lookup (reprioritized h i e p) other ≡ lookup h other
    unfolding lookup
    new-lookup_else g other eg live ne =
        elim (Bool-cases (gen h.map other.slot == other.generation)) [
          | inr stale ↦ rw stale refl
          | inl same ↦
              let used : 2 ≤ gen h.map other.slot = ground arith in
              let own = read-get (λ e. e.map_idx) h.entries i e at in
              let apart : pos h.map other.slot ≢ i = λ ep.
                let es : other.slot ≡ e.map_idx =
                  sym (v.sound.linked.pos_owner other.slot used) ∙ ap (owner h.entries) ep ∙ own in
                let eo : other.generation ≡ g = ground (arith, ap (gen h.map) es) in
                ne (λ i. record { slot = es i; generation = eo i }) in
              rw (new-entry_of_else other.slot apart) refl
        ]

-- ===== src/IndexedHeap/Order.antt =====
-- The heap order, and the comparisons that the sifts make.
use zssp.Base.{
  ℕ, zero, suc, ◌+◌, ◌-◌, ◌*◌, ◌/◌, ◌≤◌, ◌<◌, ◌≡◌, ◌≢◌, refl, sym, ap, ◌∙◌, List, some, length, ltb,
  arith, get_elem?_lt, inl, inr, ◌⊎◌, Bool-cases, ltb→lt, lt→ltb, ℕ_discrete,
}
use zssp.IndexedHeap.{Priority, Entry, IndexedBinaryHeap, above, largest_child}
use zssp.IndexedHeap.Reads.{read-get, pos, gen, key, entry_of}
use zssp.IndexedHeap.Swap.{IsLinked, Swapped, Swapped-IsLinked, Swapped-entry_of, Swapped-pos_free}

abbrev pub parent : ℕ → ℕ
parent c = (c - 1) / 2

pub gt-ltb {ℓ} :
    {P : Type ℓ} (order : Priority P) (p q : P) → order.gt p q ≡ ltb (order.rank q) (order.rank p)
gt-ltb order p q = elim (Bool-cases (order.gt p q)) [
  | inl yes_gt ↦ yes_gt ∙ sym (lt→ltb (order.rank q) (order.rank p) ((order.gt_iff p q).0 yes_gt))
  | inr no_gt ↦ elim (Bool-cases (ltb (order.rank q) (order.rank p))) [
    | inl yes_lt ↦ (order.gt_iff p q).1 (ltb→lt (order.rank q) (order.rank p) yes_lt) ∙ sym yes_lt
    | inr no_lt ↦ no_gt ∙ sym no_lt
  ]
]

children : (c i : ℕ) → 0 < c → parent c ≡ i → (c ≡ i * 2 + 1) ⊎ (c ≡ i * 2 + 1 + 1)
children c i c0 e = elim (ℕ_discrete c (i * 2 + 1)) [ yes e1 ↦ inl e1 | no n1 ↦ inr (omega arith) ]

module _ {ℓ} {T P : Type ℓ} (order : Priority P) where
  -- No entry outranks its parent.
  abbrev pub IsHeap : List (Entry T P) → Type 0
  IsHeap es = (c : ℕ) → 0 < c → c < length es → key order es c ≤ key order es (parent c)

  -- The heap order but at the edge above `i`, which may be out of order.
  pub record UpInv (es : List (Entry T P)) (i : ℕ) : Type 0 where
    pub others : (c : ℕ) → 0 < c → c < length es → c ≢ i → key order es c ≤ key order es (parent c)
    pub bridge :
        (c : ℕ)
        → 0 < c
        → c < length es
        → 0 < i
        → parent c ≡ i
        → key order es c ≤ key order es (parent i)

  -- The heap order but at the edges below `i`, which may be out of order.
  pub record DownInv (es : List (Entry T P)) (i : ℕ) : Type 0 where
    pub others :
        (c : ℕ) → 0 < c → c < length es → parent c ≢ i → key order es c ≤ key order es (parent c)
    pub bridge :
        (c : ℕ)
        → 0 < c
        → c < length es
        → 0 < i
        → parent c ≡ i
        → key order es c ≤ key order es (parent i)

  -- In a heap nothing outranks the root.
  pub IsHeap-root :
      (es : List (Entry T P))
      → IsHeap es
      → (fuel c : ℕ) → c < fuel
      → c < length es
      → key order es c ≤ key order es 0
  IsHeap-root es heap zero c hf hc = absurd (omega arith)
  IsHeap-root es heap (suc fuel) zero hf hc = omega arith
  IsHeap-root es heap (suc fuel) (suc c) hf hc = omega (
    arith,
    heap (suc c) (omega arith) hc,
    IsHeap-root es heap fuel (parent (suc c)) (omega arith) (omega arith),
  )

  pub above-some :
      (es : List (Entry T P)) (i j : ℕ)
      → i < length es
      → j < length es
      → above order es i j ≡ some (ltb (key order es j) (key order es i))
  unfolding above
  above-some es i j hi hj =
      let (x, gx) = get_elem?_lt es i hi in
      let (y, gy) = get_elem?_lt es j hj in
      let kx = read-get (λ e. order.rank e.priority) es i x gx in
      let ky = read-get (λ e. order.rank e.priority) es j y gy in
      rw (gx, gy, kx, ky) (ap some (gt-ltb order x.priority y.priority))

  -- The child that is compared with a parent that has children is a greatest one.
  pub largest_child-some :
      (es : List (Entry T P)) (i : ℕ)
      → i * 2 + 1 < length es
      → (child : ℕ) × (largest_child order es i ≡ some child)
        × (child < length es)
        × (i < child)
        × (parent child ≡ i)
        × ((c : ℕ) → 0 < c → c < length es → parent c ≡ i → key order es c ≤ key order es child)
  unfolding largest_child
  largest_child-some es i h = elim (Bool-cases (ltb (i * 2 + 1 + 1) (length es))) [
    | inl two ↦
        let both = ltb→lt (i * 2 + 1 + 1) (length es) two in
        let test = above-some es (i * 2 + 1 + 1) (i * 2 + 1) both h in
        elim (Bool-cases (ltb (key order es (i * 2 + 1)) (key order es (i * 2 + 1 + 1)))) [
          | inl larger ↦ (
            i * 2 + 1 + 1,
            rw (two, test, larger) refl,
            both,
            omega arith,
            omega arith,
            λ c c0 cn e. elim (children c i c0 e) [
              | inl e1 ↦ rw e1 (ground arith)
              | inr e2 ↦ rw e2 (omega arith)
            ],
          )
          | inr smaller ↦ (
            i * 2 + 1,
            rw (two, test, smaller) refl,
            h,
            omega arith,
            omega arith,
            λ c c0 cn e. elim (children c i c0 e) [
              | inl e1 ↦ rw e1 (omega arith)
              | inr e2 ↦ rw e2 (ground arith)
            ],
          )
        ]
    | inr one ↦ (
      i * 2 + 1,
      rw one refl,
      h,
      omega arith,
      omega arith,
      λ c c0 cn e. elim (children c i c0 e) [
        | inl e1 ↦ rw e1 (omega arith)
        | inr e2 ↦ absurd (ground arith)
      ],
    )
  ]

  -- What a sift keeps: the number of entries, the links, and what each handle stands for.
  pub record Kept (h h' : IndexedBinaryHeap T P) : Type ℓ where
    pub size : length h'.entries ≡ length h.entries
    pub map_size : length h'.map ≡ length h.map
    pub linked : IsLinked h'
    pub entry_eq : (j : ℕ) → entry_of h' j ≡ entry_of h j
    pub gen_eq : (j : ℕ) → gen h'.map j ≡ gen h.map j
    pub pos_free : (j : ℕ) → gen h.map j < 2 → pos h'.map j ≡ pos h.map j
    pub generation_eq : h'.generation ≡ h.generation
    pub free_eq : h'.free_list_head ≡ h.free_list_head

  pub Kept-refl : (h : IndexedBinaryHeap T P) → IsLinked h → Kept h h
  Kept-refl h v = record {
    size = refl;
    map_size = refl;
    linked = v;
    entry_eq = λ j. refl;
    gen_eq = λ j. refl;
    pos_free = λ j g. refl;
    generation_eq = refl;
    free_eq = refl;
  }

  pub Kept-trans : (h1 h2 h3 : IndexedBinaryHeap T P) → Kept h1 h2 → Kept h2 h3 → Kept h1 h3
  Kept-trans h1 h2 h3 p q = record {
    size = q.size ∙ p.size;
    map_size = q.map_size ∙ p.map_size;
    linked = q.linked;
    entry_eq = λ j. q.entry_eq j ∙ p.entry_eq j;
    gen_eq = λ j. q.gen_eq j ∙ p.gen_eq j;
    pos_free = λ j g. q.pos_free j (omega (arith, p.gen_eq j)) ∙ p.pos_free j g;
    generation_eq = q.generation_eq ∙ p.generation_eq;
    free_eq = q.free_eq ∙ p.free_eq;
  }

  pub Swapped-Kept :
      (h : IndexedBinaryHeap T P) (a b : ℕ) (h' : IndexedBinaryHeap T P)
      → IsLinked h
      → a < length h.entries
      → b < length h.entries
      → Swapped order h a b h'
      → Kept h h'
  Swapped-Kept h a b h' v ha hb s = record {
    size = s.size;
    map_size = s.map_size;
    linked = Swapped-IsLinked order h a b h' v ha hb s;
    entry_eq = Swapped-entry_of order h a b h' v ha hb s;
    gen_eq = s.gen_eq;
    pos_free = Swapped-pos_free order h a b h' v ha hb s;
    generation_eq = s.generation_eq;
    free_eq = s.free_eq;
  }

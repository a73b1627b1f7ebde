-- ===== src/IndexedHeap/Swap.antt =====
-- Exchanging two entries: the links stay right, and no handle sees a difference.
use zssp.Base.{
  ℕ, ◌≤◌, ◌<◌, ◌≡◌, refl, sym, ap, ◌∙◌, List, some, length, get_elem?, set, ◌==◌, ◌≢◌, ℕ_discrete,
  dec_lt, get_elem?-set_self, get_elem?-set_ne, if◌then◌else◌, arith, length-set, get_elem?_lt,
}
use zssp.IndexedHeap.{Priority, IndexedBinaryHeap, set_position, swap, ◌>>=◌}
use zssp.IndexedHeap.Reads.{
  read-get, read-set, pos, gen, owner, key, entry_of, entry_of_live, entry_of_dead,
}

-- Slots in use and entries name one another.
pub record IsLinked {ℓ} {T P : Type ℓ} (h : IndexedBinaryHeap T P) : Type 0 where
  pub owner_lt : (i : ℕ) → i < length h.entries → owner h.entries i < length h.map
  pub owner_pos : (i : ℕ) → i < length h.entries → pos h.map (owner h.entries i) ≡ i
  pub owner_gen : (i : ℕ) → i < length h.entries → 2 ≤ gen h.map (owner h.entries i)
  pub pos_lt : (j : ℕ) → 2 ≤ gen h.map j → pos h.map j < length h.entries
  pub pos_owner : (j : ℕ) → 2 ≤ gen h.map j → owner h.entries (pos h.map j) ≡ j

pub set_position-some :
    (m : List (ℕ × ℕ)) (i p : ℕ)
    → i < length m
    → (m' : List (ℕ × ℕ)) × (set_position m i p ≡ some m')
      × (length m' ≡ length m)
      × ((j : ℕ) → pos m' j ≡ (if i == j then p else pos m j))
      × ((j : ℕ) → gen m' j ≡ gen m j)
unfolding set_position
set_position-some m i p h =
    let ((q, g), e) = get_elem?_lt m i h in
    (
      set m i (p, g),
      rw (e, ◌>>=◌) refl,
      length-set m i (p, g),
      λ j. read-set (λ (p, g). p) m i j (p, g) h,
      λ j.
          ground
            (arith, read-set (λ (p, g). g) m i j (p, g) h, read-get (λ (p, g). g) m i (q, g) e),
    )

module _ {ℓ} {T P : Type ℓ} (order : Priority P) where
  pub record Swapped (h : IndexedBinaryHeap T P) (a b : ℕ) (h' : IndexedBinaryHeap T P)
      : Type ℓ where
    pub size : length h'.entries ≡ length h.entries
    pub map_size : length h'.map ≡ length h.map
    pub key_eq :
        (c : ℕ)
        → key order h'.entries c ≡ (
            if b == c
            then key order h.entries a
            else if a == c
            then key order h.entries b
            else key order h.entries c)
    pub owner_eq :
        (c : ℕ)
        → owner h'.entries c ≡ (
            if b == c
            then owner h.entries a
            else if a == c
            then owner h.entries b
            else owner h.entries c)
    pub entry_a : get_elem? h'.entries a ≡ get_elem? h.entries b
    pub entry_b : get_elem? h'.entries b ≡ get_elem? h.entries a
    pub entry_else : (c : ℕ) → c ≢ a → c ≢ b → get_elem? h'.entries c ≡ get_elem? h.entries c
    pub pos_eq :
        (j : ℕ)
        → pos h'.map j ≡ (
            if owner h.entries b == j then a else if owner h.entries a == j then b else pos h.map j)
    pub gen_eq : (j : ℕ) → gen h'.map j ≡ gen h.map j
    pub generation_eq : h'.generation ≡ h.generation
    pub free_eq : h'.free_list_head ≡ h.free_list_head

  -- A swap of two entries in range does not panic.
  pub swap-some :
      (h : IndexedBinaryHeap T P) (a b : ℕ)
      → IsLinked h
      → a < length h.entries
      → b < length h.entries
      → (h' : IndexedBinaryHeap T P) × (swap h a b ≡ some h') × Swapped h a b h'
  unfolding swap
  swap-some h a b v ha hb =
      let (ea, ga) = get_elem?_lt h.entries a ha in
      let (eb, gb) = get_elem?_lt h.entries b hb in
      let oa = read-get (λ e. e.map_idx) h.entries a ea ga in
      let ob = read-get (λ e. e.map_idx) h.entries b eb gb in
      let (m, w, ml, mp, mg) =
        set_position-some h.map ea.map_idx b (omega (arith, oa, v.owner_lt a)) in
      let (m', w', ml', mp', mg') =
        set_position-some m eb.map_idx a (omega (arith, ob, ml, v.owner_lt b)) in
      let half = set h.entries a eb in
      let fits : b < length half = omega (arith, length-set h.entries a eb) in
      (
        record h { entries = set half b ea; map = m' },
        ground (arith, ga, gb, w, w'),
        record {
          size = length-set half b ea ∙ length-set h.entries a eb;
          map_size = ml' ∙ ml;
          key_eq = λ c. ground (
            arith,
            read-set (λ e. order.rank e.priority) half b c ea fits,
            read-set (λ e. order.rank e.priority) h.entries a c eb ha,
            read-get (λ e. order.rank e.priority) h.entries a ea ga,
            read-get (λ e. order.rank e.priority) h.entries b eb gb,
          );
          owner_eq = λ c. ground (
            arith,
            read-set (λ e. e.map_idx) half b c ea fits,
            read-set (λ e. e.map_idx) h.entries a c eb ha,
            read-get (λ e. e.map_idx) h.entries a ea ga,
            read-get (λ e. e.map_idx) h.entries b eb gb,
          );
          entry_a = elim (ℕ_discrete b a) [
            | yes e ↦
                ap (get_elem? (set half b ea)) (sym e)
                ∙ (get_elem?-set_self half b ea fits ∙ sym ga)
                ∙ ap (get_elem? h.entries) (sym e)
            | no ne ↦ get_elem?-set_ne half ea ne ∙ get_elem?-set_self h.entries a eb ha ∙ sym gb
          ];
          entry_b = get_elem?-set_self half b ea fits ∙ sym ga;
          entry_else = λ c na nb.
              get_elem?-set_ne half ea (λ e. nb (sym e))
              ∙ get_elem?-set_ne h.entries eb (λ e. na (sym e));
          pos_eq = λ j. ground (arith, mp j, mp' j, oa, ob);
          gen_eq = λ j. mg' j ∙ mg j;
          generation_eq = refl;
          free_eq = refl;
        },
      )

  module _ (h : IndexedBinaryHeap T P) (a b : ℕ) (h' : IndexedBinaryHeap T P) (v : IsLinked h)
      (ha : a < length h.entries) (hb : b < length h.entries) (s : Swapped h a b h') where
    pub Swapped-IsLinked : IsLinked h'
    Swapped-IsLinked = record {
      owner_lt = λ i hi.
          ground
            (arith, s.size, s.map_size, s.owner_eq i, v.owner_lt i, v.owner_lt a, v.owner_lt b);
      owner_pos = λ i hi. ground (
        arith,
        s.size,
        s.owner_eq i,
        s.pos_eq (owner h'.entries i),
        v.owner_pos i,
        v.owner_pos a,
        v.owner_pos b,
      );
      owner_gen = λ i hi. ground (
        arith,
        s.size,
        s.owner_eq i,
        s.gen_eq (owner h'.entries i),
        v.owner_gen i,
        v.owner_gen a,
        v.owner_gen b,
      );
      pos_lt = λ j g. ground (arith, s.size, s.gen_eq j, s.pos_eq j, v.pos_lt j);
      pos_owner = λ j g. ground (
        arith,
        s.gen_eq j,
        s.pos_eq j,
        s.owner_eq (pos h'.map j),
        v.pos_owner j,
        v.owner_pos a,
        v.owner_pos b,
      );
    }

    moved :
        (j : ℕ)
        → 2 ≤ gen h.map j
        → get_elem? h'.entries (pos h'.map j) ≡ get_elem? h.entries (pos h.map j)
    moved j live = elim (ℕ_discrete (owner h.entries b) j) [
      | yes eb ↦
          let there : pos h'.map j ≡ a = ground (arith, s.pos_eq j) in
          let here : pos h.map j ≡ b = ap (pos h.map) (sym eb) ∙ v.owner_pos b hb in
          rw (there, here) s.entry_a
      | no nb ↦ elim (ℕ_discrete (owner h.entries a) j) [
        | yes ea ↦
            let there : pos h'.map j ≡ b = ground (arith, s.pos_eq j) in
            let here : pos h.map j ≡ a = ap (pos h.map) (sym ea) ∙ v.owner_pos a ha in
            rw (there, here) s.entry_b
        | no na ↦
            let same : pos h'.map j ≡ pos h.map j = ground (arith, s.pos_eq j) in
            let own = v.pos_owner j live in
            rw same (
              s.entry_else (pos h.map j) (λ e. na (ap (owner h.entries) (sym e) ∙ own))
                (λ e. nb (ap (owner h.entries) (sym e) ∙ own)))
      ]
    ]

    -- No handle sees the swap.
    pub Swapped-entry_of : (j : ℕ) → entry_of h' j ≡ entry_of h j
    Swapped-entry_of j = elim (dec_lt (gen h.map j) 2) [
      | yes dead ↦ entry_of_dead h' j (omega (arith, s.gen_eq j)) ∙ sym (entry_of_dead h j dead)
      | no used ↦
          let live : 2 ≤ gen h.map j = omega arith in
          entry_of_live h' j (omega (arith, s.gen_eq j))
          ∙ moved j live
          ∙ sym (entry_of_live h j live)
    ]

    -- What is not in use stays as it is.
    pub Swapped-pos_free : (j : ℕ) → gen h.map j < 2 → pos h'.map j ≡ pos h.map j
    Swapped-pos_free j g = ground (arith, s.pos_eq j, v.owner_gen a, v.owner_gen b)

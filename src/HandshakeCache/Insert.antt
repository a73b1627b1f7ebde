-- ===== src/HandshakeCache/Insert.antt =====
-- The invariant of the cache, and what `insert`, `remove` and `get` do to it.
use zssp.Base.{
  ℕ, ◌+◌, ◌-◌, ltb, ◌<◌, ◌≡◌, ◌≢◌, refl, sym, ap, ◌∙◌, Bool, true, false, List, [], ◌∷◌, Option,
  none, some, length, get_or, set, ◌==◌, arith, subst, Bool-cases, Option-cases, inl, inr, ◌⊎◌,
  get_or-set, length-set, get_or-replicate, length-replicate,
}
use zssp.HandshakeCache.{
  UnassociatedHandshakeCache, holds, is_some, find, Scan, at, present, full, scan, i64_max, new,
  get, put, insert, remove,
}
use zssp.HandshakeCache.Search.{
  find-Found, find-set_else, holds_self, holds_ne, holds_none, copies, find-copies, copies-set,
  scan-at, scan-present,
}

find-first :
    (ids : List (Option ℕ)) (local_id : ℕ)
    → 0 < length ids
    → find (set ids 0 (some local_id)) local_id ≡ some 0
unfolding find
find-first [] local_id h = absurd (omega arith)
find-first (x ∷ ids) local_id h = rw (holds_self local_id) refl

Scan-cases : (s : Scan) → ((i : ℕ) × (s ≡ at i)) ⊎ (s ≡ present) ⊎ (s ≡ full)
Scan-cases (at i) = inl (i, refl)
Scan-cases present = inr (inl refl)
Scan-cases full = inr (inr refl)

module _ {ℓ} {B : Type ℓ} where
  pub record IsCache (h : UnassociatedHandshakeCache B) : Type ℓ where
    pub size_expiries : length h.cache.expiries ≡ length h.cache.local_ids
    pub size_handshakes : length h.cache.handshakes ≡ length h.cache.local_ids
    pub some_size : 0 < length h.cache.local_ids
    pub stored :
        (i : ℕ)
        → is_some (get_or h.cache.local_ids i none) ≡ is_some (get_or h.cache.handshakes i none)
    pub pending : (i : ℕ) → is_some (get_or h.cache.local_ids i none) ≡ true → h.has_pending ≡ true
    pub bounded : (i : ℕ) → get_or h.cache.expiries i 0 < i64_max

  pub new-IsCache : (size : ℕ) → 0 < size → IsCache (new size)
  unfolding new is_some
  new-IsCache size hs = record {
    size_expiries = length-replicate size 0 ∙ sym (length-replicate size none);
    size_handshakes = length-replicate size none ∙ sym (length-replicate size none);
    some_size = omega (arith, length-replicate {A = Option ℕ} size none);
    stored = λ i.
        rw
          (get_or-replicate {A = Option ℕ} size i none, get_or-replicate {A = Option B} size i none)
          refl;
    pending =
        λ i used. absurd (let e = rw (get_or-replicate {A = Option ℕ} size i none) at used in cc);
    bounded = λ i. omega (arith, get_or-replicate {A = ℕ} size i 0);
  }

  pub put-IsCache :
      (h : UnassociatedHandshakeCache B) (p : Bool) (i : ℕ) (v : Option ℕ) (expiry : ℕ)
      (b : Option B)
      → IsCache h
      → i < length h.cache.local_ids
      → is_some v ≡ is_some b
      → expiry < i64_max
      → (is_some v ≡ true → p ≡ true)
      → (h.has_pending ≡ true → p ≡ true)
      → IsCache (record { has_pending = p; cache = put h.cache i v expiry b })
  unfolding put
  put-IsCache h p i v expiry b c hi same lt now before =
      let ids = λ (j : ℕ). get_or-set h.cache.local_ids i j v none hi in
      let states =
        λ (j : ℕ). get_or-set h.cache.handshakes i j b none (omega (arith, c.size_handshakes)) in
      let times =
        λ (j : ℕ). get_or-set h.cache.expiries i j expiry 0 (omega (arith, c.size_expiries)) in
      record {
        size_expiries =
            length-set h.cache.expiries i expiry
            ∙ c.size_expiries
            ∙ sym (length-set h.cache.local_ids i v);
        size_handshakes =
            length-set h.cache.handshakes i b
            ∙ c.size_handshakes
            ∙ sym (length-set h.cache.local_ids i v);
        some_size = omega (arith, length-set h.cache.local_ids i v, c.some_size);
        stored = λ j. elim (Bool-cases (i == j)) [
          | inl here ↦ rw (ids j, states j, here) same
          | inr there ↦ rw (ids j, states j, there) (c.stored j)
        ];
        pending = λ j used. elim (Bool-cases (i == j)) [
          | inl here ↦ now (rw (ids j, here) at used)
          | inr there ↦ before (c.pending j (rw (ids j, there) at used))
        ];
        bounded = λ j. ground (arith, times j, c.bounded j);
      }

  pub put-get :
      (h : UnassociatedHandshakeCache B) (p : Bool) (i local_id expiry : ℕ) (b : B)
      → IsCache h
      → i < length h.cache.local_ids
      → find (set h.cache.local_ids i (some local_id)) local_id ≡ some i
      → get
          (record { has_pending = p; cache = put h.cache i (some local_id) expiry (some b) })
          local_id
        ≡ some b
  unfolding put get
  put-get h p i local_id expiry b c hi found =
      let here : (i == i) ≡ true = ground arith in
      rw
        (
          get,
          found,
          get_or-set h.cache.handshakes i i (some b) none (omega (arith, c.size_handshakes)),
          here,
        )
        refl

  -- A slot that holds another id is of no concern, before and after.
  pub put-get_else :
      (h : UnassociatedHandshakeCache B) (p : Bool) (i : ℕ) (v : Option ℕ) (expiry : ℕ)
      (b : Option B) (other : ℕ)
      → IsCache h
      → i < length h.cache.local_ids
      → holds (get_or h.cache.local_ids i none) other ≡ false
      → holds v other ≡ false
      → get (record { has_pending = p; cache = put h.cache i v expiry b }) other ≡ get h other
  unfolding put get
  put-get_else h p i v expiry b other c hi before after =
      let same = find-set_else h.cache.local_ids i v other before after in
      elim (Option-cases (find h.cache.local_ids other)) [
        | inl missing ↦ rw (get, same, missing) refl
        | inr (j, found) ↦
            let f = find-Found h.cache.local_ids other j found in
            let apart : (i == j) ≡ false = elim (Bool-cases (i == j)) [
              | inr ne ↦ ne
              | inl e ↦
                  let eq : i ≡ j = ground arith in
                  absurd (
                    let clash =
                      sym before
                      ∙ ap (λ x. holds (get_or h.cache.local_ids x none) other) eq
                      ∙ f.hit in
                    cc)
            ] in
            rw
              (
                get,
                same,
                found,
                get_or-set h.cache.handshakes i j b none (omega (arith, c.size_handshakes)),
                apart,
              )
              refl
      ]

  -- A handshake that is found is there.
  find-get :
      (h : UnassociatedHandshakeCache B) (local_id i : ℕ)
      → IsCache h
      → find h.cache.local_ids local_id ≡ some i
      → (b : B) × (get h local_id ≡ some b)
  unfolding get holds is_some
  find-get h local_id i c found =
      let f = find-Found h.cache.local_ids local_id i found in
      elim (Option-cases (get_or h.cache.local_ids i none)) [
        | inl no_id ↦ absurd (let e = rw no_id at f.hit in cc)
        | inr (id, used) ↦ elim (Option-cases (get_or h.cache.handshakes i none)) [
          | inl no_state ↦ absurd (let e = rw (used, no_state) at (c.stored i) in cc)
          | inr (b, there) ↦ (b, rw (get, found, there) refl)
        ]
      ]

  -- `insert` keeps the invariant. Either it returns the expiry and the state is found under its id; or
  -- it changes nothing, and a state is found under this id.
  pub insert-get :
      (timeout : ℕ) (h : UnassociatedHandshakeCache B) (local_id : ℕ) (state : B) (current_time : ℕ)
      → IsCache h
      → current_time + timeout < i64_max
      → (h' : UnassociatedHandshakeCache B) × (r : Option ℕ) × (insert timeout h local_id state
            current_time
          ≡ (h', r))
        × IsCache h'
        × (((r ≡ some (current_time + timeout)) × (get h' local_id ≡ some state))
            ⊎ ((r ≡ none) × (h' ≡ h) × ((b : B) × (get h local_id ≡ some b))))
  unfolding insert is_some
  insert-get timeout h local_id state current_time c fits =
      let time = current_time + timeout in
      let placed : (i : ℕ) → UnassociatedHandshakeCache B = λ i. record {
        has_pending = true;
        cache = put h.cache i (some local_id) time (some state);
      } in
      let placed-IsCache = λ (i : ℕ) (hi : i < length h.cache.local_ids).
        put-IsCache h true i (some local_id) time (some state) c hi refl fits (λ _. refl)
          (λ _. refl) in
      elim (Scan-cases (scan h.cache.local_ids h.cache.expiries local_id current_time)) [
        | inl (i, there) ↦
            let (hi, found) =
              scan-at h.cache.local_ids h.cache.expiries local_id current_time i there in
            (
              placed i,
              some time,
              rw (insert, there) refl,
              placed-IsCache i hi,
              inl (refl, put-get h true i local_id time state c hi found),
            )
        | inr (inl there) ↦
            let (i, found, young) =
              scan-present h.cache.local_ids h.cache.expiries local_id current_time there in
            (h, none, rw (insert, there) refl, c, inr (refl, refl, find-get h local_id i c found))
        | inr (inr there) ↦
            let found = find-first h.cache.local_ids local_id c.some_size in
            (
              placed 0,
              some time,
              rw (insert, there) refl,
              placed-IsCache 0 c.some_size,
              inl (refl, put-get h true 0 local_id time state c c.some_size found),
            )
      ]

  pub insert-IsCache :
      (timeout : ℕ) (h : UnassociatedHandshakeCache B) (local_id : ℕ) (state : B) (current_time : ℕ)
      → IsCache h
      → current_time + timeout < i64_max
      → IsCache (insert timeout h local_id state current_time).0
  insert-IsCache timeout h local_id state current_time c fits =
      let (h', r, made, v, answer) = insert-get timeout h local_id state current_time c fits in
      subst IsCache (sym (ap (λ x. x.0) made)) v

  get_missing :
      (h : UnassociatedHandshakeCache B) (local_id : ℕ)
      → find h.cache.local_ids local_id ≡ none
      → get h local_id ≡ none
  unfolding get
  get_missing h local_id missing = rw (get, missing) refl

  get-find :
      (h : UnassociatedHandshakeCache B) (local_id : ℕ)
      → IsCache h
      → is_some (get h local_id) ≡ ltb 0 (copies h.cache.local_ids local_id)
  unfolding is_some
  get-find h local_id c =
      let counted = find-copies h.cache.local_ids local_id in
      elim (Option-cases (find h.cache.local_ids local_id)) [
        | inl missing ↦ rw (get_missing h local_id missing) (rw missing at counted)
        | inr (i, found) ↦
            let (b, there) = find-get h local_id i c found in rw there (rw found at counted)
      ]

  -- remove keeps the invariant and what is found under other ids, and it returns whether a state
  -- was found under this id. It takes one slot from the id, if one had it: after it a state is
  -- found under the id only if two or more slots had the id.
  pub remove-IsCache :
      (h : UnassociatedHandshakeCache B) (local_id : ℕ)
      → IsCache h
      → (h' : UnassociatedHandshakeCache B) × (remove h local_id ≡ (h', is_some (get h local_id)))
        × IsCache h'
        × ((other : ℕ) → other ≢ local_id → get h' other ≡ get h other)
        × (copies h'.cache.local_ids local_id ≡ copies h.cache.local_ids local_id - 1)
        × (is_some (get h' local_id) ≡ ltb 1 (copies h.cache.local_ids local_id))
  unfolding remove is_some
  remove-IsCache h local_id c =
      let counted = find-copies h.cache.local_ids local_id in
      elim (Option-cases (find h.cache.local_ids local_id)) [
        | inl missing ↦
            let zero_left : copies h.cache.local_ids local_id ≡ 0 =
              ground (arith, rw missing at counted) in
            (
              h,
              rw (remove, missing, get_missing h local_id missing) refl,
              c,
              λ other ne. refl,
              omega arith,
              get-find h local_id c ∙ rw zero_left refl,
            )
        | inr (i, found) ↦
            let f = find-Found h.cache.local_ids local_id i found in
            let (b, there) = find-get h local_id i c found in
            let h' = record h { cache = put h.cache i none 0 none } in
            let fewer = copies-set h.cache.local_ids local_id i found in
            let kept =
              put-IsCache h h.has_pending i none 0 none c f.within refl (omega arith) (λ e. cc)
                (λ e. e) in
            (
              h',
              rw (remove, found, there) refl,
              kept,
              λ other ne.
                  put-get_else h h.has_pending i none 0 none other c f.within
                    (holds_ne (get_or h.cache.local_ids i none) local_id other f.hit ne)
                    (holds_none other),
              omega (arith, fewer),
              get-find h' local_id kept ∙ ground (arith, fewer),
            )
      ]

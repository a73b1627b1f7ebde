-- ===== src/HandshakeCache/Service.antt =====
-- `service`: what has expired leaves, what has not stays, and the next call is due in time.
use zssp.Base.{
  ℕ, zero, suc, ◌+◌, ◌≤◌, ◌<◌, ◌≡◌, ◌≢◌, refl, sym, ap, ◌∙◌, min, Bool, true, false, List, [], ◌∷◌,
  Option, none, length, get_or, set, leb, ltb, ◌==◌, arith, Bool-cases, inl, inr, ◌⊎◌, ℕ_discrete,
  get_or-set, length-set, lt→ltb, subst,
}
use zssp.HandshakeCache.{
  UnassociatedHandshakeCache, CacheInner, is_some, i64_max, put, expire_slot, expire, service,
}
use zssp.HandshakeCache.Insert.{IsCache, put-IsCache}

used_within : (ids : List (Option ℕ)) (j : ℕ) → is_some (get_or ids j none) ≡ true → j < length ids
unfolding is_some
used_within [] j live = cc
used_within (id ∷ ids) zero live = omega arith
used_within (id ∷ ids) (suc j) live = omega (arith, used_within ids j live)

module _ {ℓ} {B : Type ℓ} where
  abbrev with_cache : CacheInner B → UnassociatedHandshakeCache B
  with_cache c = record { has_pending = true; cache = c }

  unfoldable pub used : CacheInner B → ℕ → Bool
  used c j = is_some (get_or c.local_ids j none)

  -- The slot has not expired and is due for the next call.
  pub record Due (current_time : ℕ) (c : CacheInner B) (t : ℕ) (j : ℕ) : Type 0 where
    pub young : current_time < get_or c.expiries j 0
    pub noted : t ≤ get_or c.expiries j 0

  pub record SameSlot (c c' : CacheInner B) (j : ℕ) : Type ℓ where
    pub id_eq : get_or c'.local_ids j none ≡ get_or c.local_ids j none
    pub expiry_eq : get_or c'.expiries j 0 ≡ get_or c.expiries j 0
    pub handshake_eq : get_or c'.handshakes j none ≡ get_or c.handshakes j none

  put-SameSlot :
      (c : CacheInner B) (i j : ℕ)
      → IsCache (with_cache c)
      → i < length c.local_ids
      → i ≢ j
      → SameSlot c (put c i none 0 none) j
  unfolding put
  put-SameSlot c i j v hi ne =
      let apart : (i == j) ≡ false = ground arith in
      record {
        id_eq = rw (get_or-set c.local_ids i j none none hi, apart) refl;
        expiry_eq = rw (get_or-set c.expiries i j 0 0 (omega (arith, v.size_expiries)), apart) refl;
        handshake_eq =
            rw (get_or-set c.handshakes i j none none (omega (arith, v.size_handshakes)), apart)
              refl;
      }

  -- What the loop leaves behind after `i` slots.
  record Swept (current_time : ℕ) (c c' : CacheInner B) (t : ℕ) (i : ℕ) : Type ℓ where
    valid : IsCache (with_cache c')
    size : length c'.local_ids ≡ length c.local_ids
    due : (j : ℕ) → j < i → used c' j ≡ true → Due current_time c' t j
    kept : (j : ℕ) → (used c j ≡ false) ⊎ (current_time < get_or c.expiries j 0) → SameSlot c c' j

  Swept-expired :
      (current_time : ℕ) (c0 c : CacheInner B) (t i : ℕ)
      → Swept current_time c0 c t i
      → i < length c.local_ids
      → used c i ≡ true
      → get_or c.expiries i 0 ≤ current_time
      → Swept current_time c0 (put c i none 0 none) t (suc i)
  unfolding used put is_some
  Swept-expired current_time c0 c t i s hi here old = record {
    valid =
        put-IsCache (with_cache c) true i none 0 none s.valid hi refl (omega arith) (λ e. refl)
          (λ e. refl);
    size = length-set c.local_ids i none ∙ s.size;
    due = λ j hj live. elim (ℕ_discrete i j) [
      | yes e ↦ absurd (
          let gone : get_or (set c.local_ids i none) j none ≡ none =
            get_or-set c.local_ids i j none none hi
            ∙ (let test : (i == j) ≡ true = ground arith in rw test refl) in
          let clash = rw gone at live in cc)
      | no ne ↦
          let same = put-SameSlot c i j s.valid hi ne in
          let before = s.due j (omega arith) (ap is_some (sym same.id_eq) ∙ live) in
          record {
            young = omega (arith, same.expiry_eq, before.young);
            noted = omega (arith, same.expiry_eq, before.noted);
          }
    ];
    kept = λ j stays.
        let before = s.kept j stays in
        let ne : i ≢ j = λ e. elim stays [
          | inl empty ↦
              let clash : true ≡ false =
                sym here ∙ ap (used c) e ∙ ap is_some before.id_eq ∙ empty in
              cc
          | inr young ↦ omega (arith, before.expiry_eq, ap (λ x. get_or c.expiries x 0) e)
        ] in
        let same = put-SameSlot c i j s.valid hi ne in
        record {
          id_eq = same.id_eq ∙ before.id_eq;
          expiry_eq = same.expiry_eq ∙ before.expiry_eq;
          handshake_eq = same.handshake_eq ∙ before.handshake_eq;
        };
  }

  -- A slot that stays.
  Swept-stays :
      (current_time : ℕ) (c0 c : CacheInner B) (t t' i : ℕ)
      → Swept current_time c0 c t i
      → t' ≤ t
      → (used c i ≡ true → Due current_time c t' i)
      → Swept current_time c0 c t' (suc i)
  Swept-stays current_time c0 c t t' i s le here = record {
    valid = s.valid;
    size = s.size;
    due = λ j hj live. elim (ℕ_discrete i j) [
      | yes e ↦ subst (Due current_time c t') e (here (ap (used c) e ∙ live))
      | no ne ↦
          let before = s.due j (omega arith) live in
          record { young = before.young; noted = omega (arith, before.noted) }
    ];
    kept = s.kept;
  }

  step-Swept :
      (current_time : ℕ) (c0 c : CacheInner B) (t i : ℕ)
      → Swept current_time c0 c t i
      → i < length c.local_ids
      → (c' : CacheInner B) × (t' : ℕ) × (expire_slot i current_time c t ≡ (c', t'))
        × Swept current_time c0 c' t' (suc i)
  unfolding expire_slot used
  step-Swept current_time c0 c t i s hi = elim (Bool-cases (is_some (get_or c.local_ids i none))) [
    | inr empty ↦ (
      c,
      t,
      rw empty refl,
      Swept-stays current_time c0 c t t i s (omega arith)
          (λ live. absurd (let clash = sym live ∙ empty in cc)),
    )
    | inl live ↦ elim (Bool-cases (leb (get_or c.expiries i 0) current_time)) [
      | inl old ↦ (
        put c i none 0 none,
        t,
        rw (live, old) refl,
        Swept-expired current_time c0 c t i s hi live (ground arith),
      )
      | inr young ↦ (
        c,
        min t (get_or c.expiries i 0),
        rw (live, young) refl,
        Swept-stays current_time c0 c t (min t (get_or c.expiries i 0)) i s (omega arith)
            (λ _. record { young = ground arith; noted = omega arith }),
      )
    ]
  ]

  expire-Swept :
      (n i current_time : ℕ) (c0 c : CacheInner B) (t : ℕ)
      → Swept current_time c0 c t i
      → i + n ≡ length c0.local_ids
      → (c' : CacheInner B) × (t' : ℕ) × (expire n i current_time c t ≡ (c', t'))
        × Swept current_time c0 c' t' (length c0.local_ids)
  unfolding expire
  expire-Swept zero i current_time c0 c t s e =
      (c, t, refl, subst (Swept current_time c0 c t) (omega arith) s)
  expire-Swept (suc n) i current_time c0 c t s e =
      let (c1, t1, one, s1) = step-Swept current_time c0 c t i s (omega (arith, s.size)) in
      let (c2, t2, rest, s2) = expire-Swept n (suc i) current_time c0 c1 t1 s1 (omega arith) in
      (c2, t2, rw one rest, s2)

  -- Where the flag is down, nothing is cached.
  unused :
      (h : UnassociatedHandshakeCache B) (j : ℕ)
      → IsCache h
      → h.has_pending ≡ false
      → used h.cache j ≡ false
  unfolding used
  unused h j v down = elim (Bool-cases (is_some (get_or h.cache.local_ids j none))) [
    | inl live ↦ absurd (let clash = sym down ∙ v.pending j live in cc)
    | inr empty ↦ empty
  ]

  raised :
      (h : UnassociatedHandshakeCache B) (p : Bool)
      → IsCache h
      → ((j : ℕ) → used h.cache j ≡ true → p ≡ true)
      → IsCache (record { has_pending = p; cache = h.cache })
  unfolding used
  raised h p v up = record {
    size_expiries = v.size_expiries;
    size_handshakes = v.size_handshakes;
    some_size = v.some_size;
    stored = v.stored;
    pending = up;
    bounded = v.bounded;
  }

  used-lt : (c : CacheInner B) (j : ℕ) → used c j ≡ true → j < length c.local_ids
  unfolding used is_some
  used-lt c j live = used_within c.local_ids j live

  -- `service` keeps the invariant: after it every handshake that is cached expires later than now and
  -- not before the time that it returns, and a slot that was empty or expires later is as it was.
  pub service-Due :
      (h : UnassociatedHandshakeCache B) (current_time : ℕ)
      → IsCache h
      → (h' : UnassociatedHandshakeCache B) × (t : ℕ) × (service h current_time ≡ (h', t))
        × IsCache h'
        × ((j : ℕ) → used h'.cache j ≡ true → Due current_time h'.cache t j)
        × ((j : ℕ)
            → (used h.cache j ≡ false) ⊎ (current_time < get_or h.cache.expiries j 0)
            → SameSlot h.cache h'.cache j)
  unfolding service
  service-Due h current_time v = elim (Bool-cases h.has_pending) [
    | inr down ↦ (
      h,
      i64_max,
      rw down refl,
      v,
      λ j live. absurd (let clash = sym live ∙ unused h j v down in cc),
      λ j stays. record { id_eq = refl; expiry_eq = refl; handshake_eq = refl },
    )
    | inl up ↦
        let start : Swept current_time h.cache h.cache i64_max 0 = record {
          valid = raised h true v (λ j live. refl);
          size = refl;
          due = λ j hj. absurd (omega arith);
          kept = λ j stays. record { id_eq = refl; expiry_eq = refl; handshake_eq = refl };
        } in
        let (c, t, done, s) =
          expire-Swept (length h.cache.local_ids) 0 current_time h.cache h.cache i64_max start
            (omega arith) in
        let due : (j : ℕ) → used c j ≡ true → Due current_time c t j =
          λ j live. s.due j (omega (arith, used-lt c j live, s.size)) live in
        (
          record { has_pending = ltb t i64_max; cache = c },
          t,
          rw (up, done) refl,
          raised (with_cache c) (ltb t i64_max) s.valid
              (λ j live. lt→ltb t i64_max (omega (arith, (due j live).noted, s.valid.bounded j))),
          due,
          s.kept,
        )
  ]

-- ===== src/Fragged/Refine.antt =====
-- The defragmenter with its bit mask does what `Pending` says, reads no uninitialised slot, and
-- neither leaks a fragment nor frees one twice.
use mathlib.Core.List.{append-nil}
use zssp.Base.{
  ℕ, ◌-◌, ◌%◌, ◌≤◌, ◌<◌, ◌^◌, bit_or, ◌≡◌, ◌≢◌, refl, sym, ap, ap₂, ◌∙◌, subst, List, [], ◌∷◌, ◌++◌,
  Option, none, some, length, set, replicate, ℕ_discrete, u64_mod, arith, length-append,
  length-replicate, length-set, length-map, set-append_left, replicate-append,
}
use zssp.Base.Bits.{mask, mask-append_none, bit_or-mask}
use zssp.Fragged.{Fragged, new, drop_in_place, read_all, start, store}
use zssp.Fragged.Drop.{contents, contents-replicate, drop_loop-mask, read_all-full}
use zssp.Fragged.Pending.{Pending, idle, packet, restart, packet-none-mask, mask-packet}

module _ {ℓ} {F : Type ℓ} where
  -- The buffer of `limit` slots holds the packet under way: `have` marks the filled slots, and no
  -- slot past the packet is in use.
  pub record Holds (limit : ℕ) (p : Pending F) (f : Fragged F) : Type ℓ where
    pub nonce_eq : f.nonce ≡ p.nonce
    pub count_eq : f.count ≡ length p.slots
    pub have_eq : f.have ≡ mask p.slots
    pub frags_eq : f.frags ≡ p.slots ++ replicate (limit - length p.slots) none
    pub fits : length p.slots ≤ limit

  contents-append_none :
      (s : List (Option F)) (k : ℕ) → contents (s ++ replicate k none) ≡ contents s
  contents-append_none [] k = contents-replicate k
  contents-append_none (none ∷ s) k = contents-append_none s k
  contents-append_none (some f ∷ s) k = ap (◌∷◌ f) (contents-append_none s k)

  pub new-Holds : (limit : ℕ) → Holds limit idle (new limit)
  unfolding new
  new-Holds limit = record {
    nonce_eq = refl;
    count_eq = refl;
    have_eq = refl;
    frags_eq = let same : limit - 0 ≡ limit = omega arith in rw same;
    fits = omega arith;
  }

  module _ (limit : ℕ) (small : limit < 64) where
    -- Dropping in place frees all that is held and leaves an empty buffer.
    drop_in_place-Holds :
        (p : Pending F) (f : Fragged F)
        → Holds limit p f
        → (g : Fragged F) × (drop_in_place f ≡ some (g, contents p.slots)) × Holds limit idle g
    unfolding drop_in_place
    drop_in_place-Holds p f h =
        let s = p.slots ++ replicate (limit - length p.slots) none in
        let size : length s ≡ limit = omega (
          arith,
          length-append p.slots (replicate (limit - length p.slots) none),
          length-replicate {A = Option F} (limit - length p.slots) none,
          h.fits,
        ) in
        let ran =
          drop_loop-mask s [] 0 65 (omega arith) refl
          ∙ ap₂ (λ n fs. some (replicate n none, fs)) size
              (contents-append_none p.slots (limit - length p.slots)) in
        let ran' = rw (mask-append_none p.slots (limit - length p.slots)) at ran in
        (
          record { nonce = u64_mod - 1; count = 0; have = 0; frags = replicate limit none },
          rw (h.have_eq, h.frags_eq) (rw (ran', drop_in_place) refl),
          record {
            nonce_eq = refl;
            count_eq = refl;
            have_eq = refl;
            frags_eq = let same : limit - 0 ≡ limit = omega arith in rw same;
            fits = omega arith;
          },
        )

    start_same :
        (f : Fragged F) (nonce count : ℕ) → f.nonce ≡ nonce → start f nonce count ≡ some (f, [])
    unfolding start
    start_same f nonce count e = ground arith

    start_other :
        (f g : Fragged F) (fs : List F) (nonce count : ℕ)
        → f.nonce ≢ nonce
        → drop_in_place f ≡ some (g, fs)
        → start f nonce count ≡ some (record g { nonce = nonce; count = count }, fs)
    unfolding start
    start_other f g fs nonce count ne e = ground arith

    fresh-Holds :
        (g : Fragged F) (nonce count : ℕ)
        → Holds limit idle g
        → count ≤ limit
        → Holds limit
            (record { nonce = nonce; slots = replicate count none })
            (record g { nonce = nonce; count = count })
    fresh-Holds g nonce count h fit =
        let size = length-replicate {A = Option F} count none in
        let zero_mask = mask-append_none {A = F} [] count in
        record {
          nonce_eq = refl;
          count_eq = sym size;
          have_eq = h.have_eq ∙ sym zero_mask;
          frags_eq =
              h.frags_eq
              ∙ sym (
                  replicate-append count (limit - length (replicate {A = Option F} count none))
                    (limit - 0) none (omega (arith, size)));
          fits = omega (arith, size);
        }

    pub start-Holds :
        (p : Pending F) (f : Fragged F) (nonce fragment_count : ℕ)
        → Holds limit p f
        → fragment_count ≤ limit
        → (g : Fragged F) × (dropped : List F) × (start f nonce fragment_count ≡ some (g, dropped))
          × Holds limit (restart p nonce fragment_count) g
          × (dropped ++ contents (restart p nonce fragment_count).slots ≡ contents p.slots)
    unfolding restart
    start-Holds p f nonce fragment_count h fit = elim (ℕ_discrete p.nonce nonce) [
      | yes same ↦
          let kept : restart p nonce fragment_count ≡ p = ground arith in
          (
            f,
            [],
            start_same f nonce fragment_count (h.nonce_eq ∙ same),
            subst (λ q. Holds limit q f) (sym kept) h,
            ap (λ q. contents q.slots) kept,
          )
      | no other ↦
          let (g, e, empty) = drop_in_place-Holds p f h in
          let fresh : Pending F = record { nonce = nonce; slots = replicate fragment_count none } in
          let made : restart p nonce fragment_count ≡ fresh = ground arith in
          (
            record g { nonce = nonce; count = fragment_count },
            contents p.slots,
            start_other f g (contents p.slots) nonce fragment_count
                (λ e'. other (sym h.nonce_eq ∙ e')) e,
            subst (λ q. Holds limit q (record g { nonce = nonce; count = fragment_count }))
                (sym made) (fresh-Holds g nonce fragment_count empty fit),
            ap (λ q. contents p.slots ++ contents q.slots) made
                ∙ ap (◌++◌ (contents p.slots)) (contents-replicate fragment_count)
                ∙ append-nil (contents p.slots),
          )
    ]

    -- Storing a fragment in an empty slot.
    store_part :
        (g : Fragged F) (fragment : F) (fragment_no count m : ℕ)
        → bit_or (2 ^ (fragment_no % 64)) g.have ≡ m
        → m ≢ 2 ^ (g.count % 64) - 1
        → store g fragment fragment_no count
          ≡ some (record g { have = m; frags = set g.frags fragment_no (some fragment) }, [])
    unfolding store
    store_part g fragment fragment_no count m e ne = ground arith

    store_full :
        (g : Fragged F) (fragment : F) (fragment_no count : ℕ) (left : List (Option F))
        (fs : List F)
        → bit_or (2 ^ (fragment_no % 64)) g.have ≡ 2 ^ (g.count % 64) - 1
        → read_all count 0 (set g.frags fragment_no (some fragment)) ≡ some (left, fs)
        → store g fragment fragment_no count
          ≡ some (record { nonce = u64_mod - 1; count = 0; have = 0; frags = left }, fs)
    unfolding store
    store_full g fragment fragment_no count left fs e r = ground arith

    module _ (p : Pending F) (g : Fragged F) (fragment : F) (fragment_no : ℕ) (h : Holds limit p g)
        (lt : fragment_no < length p.slots) where
      abbrev filled : List (Option F)
      filled = set p.slots fragment_no (some fragment)

      filled-mask : bit_or (2 ^ (fragment_no % 64)) g.have ≡ mask filled
      filled-mask =
          let in_range : fragment_no % 64 ≡ fragment_no = omega (arith, h.fits) in
          rw (in_range, h.have_eq) (bit_or-mask p.slots fragment_no fragment lt)

      filled_frags :
          set g.frags fragment_no (some fragment)
          ≡ filled ++ replicate (limit - length p.slots) none
      filled_frags =
          ap (λ s. set s fragment_no (some fragment)) h.frags_eq
          ∙ set-append_left p.slots (replicate (limit - length p.slots) none) fragment_no
              (some fragment) lt

      all_ones : 2 ^ (g.count % 64) - 1 ≡ 2 ^ length filled - 1
      all_ones =
          let size = length-set p.slots fragment_no (some fragment) in
          let same : g.count % 64 ≡ length filled = omega (arith, size, h.count_eq, h.fits) in
          rw same

    pub store-Holds_part :
        (p : Pending F) (g : Fragged F) (fragment : F) (fragment_no : ℕ)
        → Holds limit p g
        → fragment_no < length p.slots
        → packet (set p.slots fragment_no (some fragment)) ≡ none
        → (h : Fragged F) × (store g fragment fragment_no (length p.slots) ≡ some (h, []))
          × Holds limit (record p { slots = set p.slots fragment_no (some fragment) }) h
    store-Holds_part p g fragment fragment_no h lt e =
        let s = set p.slots fragment_no (some fragment) in
        let size = length-set p.slots fragment_no (some fragment) in
        (
          record g { have = mask s; frags = set g.frags fragment_no (some fragment) },
          store_part g fragment fragment_no (length p.slots) (mask s)
              (filled-mask p g fragment fragment_no h lt)
              (λ ones. packet-none-mask s e (ones ∙ all_ones p g fragment fragment_no h lt)),
          record {
            nonce_eq = h.nonce_eq;
            count_eq = h.count_eq ∙ sym size;
            have_eq = refl;
            frags_eq = rw size (filled_frags p g fragment fragment_no h lt);
            fits = omega (arith, size, h.fits);
          },
        )

    pub store-Holds_full :
        (p : Pending F) (g : Fragged F) (fragment : F) (fragment_no : ℕ) (fs : List F)
        → Holds limit p g
        → fragment_no < length p.slots
        → packet (set p.slots fragment_no (some fragment)) ≡ some fs
        → (h : Fragged F) × (store g fragment fragment_no (length p.slots) ≡ some (h, fs))
          × Holds limit idle h
    store-Holds_full p g fragment fragment_no fs h lt e =
        let s = set p.slots fragment_no (some fragment) in
        let k = limit - length p.slots in
        let size = length-set p.slots fragment_no (some fragment) in
        let (same, ones) = mask-packet s fs e in
        let n : length fs ≡ length p.slots =
          omega (arith, size, ap length same, length-map fs (λ (f : F). some f)) in
        let read =
          ap (λ l. read_all (length p.slots) 0 l)
            (filled_frags p g fragment fragment_no h lt ∙ ap (λ l. l ++ replicate k none) same)
          ∙ rw n at (read_all-full fs [] (replicate k none) 0 refl) in
        (
          record {
            nonce = u64_mod - 1;
            count = 0;
            have = 0;
            frags = (replicate (length p.slots) none ++ replicate k none);
          },
          store_full g fragment fragment_no (length p.slots)
              (replicate (length p.slots) none ++ replicate k none) fs
              (filled-mask p g fragment fragment_no h lt
                ∙ ones
                ∙ sym (all_ones p g fragment fragment_no h lt))
              read,
          record {
            nonce_eq = refl;
            count_eq = refl;
            have_eq = refl;
            frags_eq = replicate-append (length p.slots) k (limit - 0) none (omega (arith, h.fits));
            fits = omega arith;
          },
        )

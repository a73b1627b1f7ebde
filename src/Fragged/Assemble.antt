-- ===== src/Fragged/Assemble.antt =====
-- `assemble` as a whole: it refines `Pending.receive`, is total, and accounts for every fragment.
use mathlib.Core.List.{append-nil, append_assoc, Perm, perm_middle}
use mathlib.Core.List.Perm
use zssp.Base.{
  ℕ, zero, suc, ◌%◌, ◌<◌, ◌^◌, bit_and, ◌≡◌, ◌≢◌, ◌⊎◌, refl, sym, ap, ◌∙◌, subst, ◌&&◌, List, [],
  ◌∷◌, ◌++◌, map, Option, none, some, length, get_elem?, set, ltb, leb, ℕ_discrete, arith, inl, inr,
  Option-cases, Bool-cases, get_elem?_lt,
}
use zssp.Base.Bits.{bit_and-mask_zero, bit_and-mask-none}
use zssp.Fragged.{Fragged, Outcome, store, accept, assemble}
use zssp.Fragged.Drop.{contents}
use zssp.Fragged.Pending.{
  Pending, packet, restart, fill, receive, mask-packet, fill_other, fill_taken, fill_part,
  fill_full,
}
use zssp.Fragged.Refine.{Holds, start-Holds, store-Holds_part, store-Holds_full}

module _ {ℓ} {F : Type ℓ} where
  contents-set :
      (s : List (Option F)) (i : ℕ) (f : F)
      → get_elem? s i ≡ some none
      → Perm (contents (set s i (some f))) (f ∷ contents s)
  contents-set [] i f e = cc
  contents-set (none ∷ s) zero f e = Perm.refl (f ∷ contents s)
  contents-set (some g ∷ s) zero f e = cc
  contents-set (none ∷ s) (suc i) f e = contents-set s i f e
  contents-set (some g ∷ s) (suc i) f e =
      Perm.trans (Perm.cons g (contents-set s i f e)) (Perm.swap f g (contents s))

  contents-map-some : (fs : List F) → contents (map some fs) ≡ fs
  contents-map-some [] = refl
  contents-map-some (f ∷ fs) = ap (◌∷◌ f) (contents-map-some fs)

  -- The outcome of a call that should leave `q.0`, hand over `q.1`, and account for the fragments `fs`.
  pub record Does (limit : ℕ) (q : Pending F × List F) (fs : List F) (r : Option (Outcome F))
      : Type ℓ where
    pub outcome : Outcome F
    pub returns : r ≡ some outcome
    pub holds : Holds limit q.0 outcome.state
    pub hands_over : outcome.assembled ≡ q.1
    pub accounts : Perm (outcome.dropped ++ (contents q.0.slots ++ outcome.assembled)) fs

  module _ (limit : ℕ) (small : limit < 64) where
    accept_no :
        (g : Fragged F) (dropped : List F) (fragment : F) (fragment_no count : ℕ)
        → (bit_and (2 ^ (fragment_no % 64)) g.have ≢ 0) ⊎ (g.count ≢ count)
        → accept g dropped fragment fragment_no count
          ≡ some (record { state = g; dropped = dropped ++ fragment ∷ []; assembled = [] })
    unfolding accept
    accept_no g dropped fragment fragment_no count (inl h) = ground arith
    accept_no g dropped fragment fragment_no count (inr h) = ground arith

    accept_yes :
        (g h : Fragged F) (dropped fs : List F) (fragment : F) (fragment_no count : ℕ)
        → bit_and (2 ^ (fragment_no % 64)) g.have ≡ 0
        → g.count ≡ count
        → store g fragment fragment_no count ≡ some (h, fs)
        → accept g dropped fragment fragment_no count
          ≡ some (record { state = h; dropped = dropped; assembled = fs })
    unfolding accept
    accept_yes g h dropped fs fragment fragment_no count e c s = ground arith

    refused-Does :
        (p : Pending F) (g : Fragged F) (dropped : List F) (fragment : F) (fragment_no count : ℕ)
        → Holds limit p g
        → (bit_and (2 ^ (fragment_no % 64)) g.have ≢ 0) ⊎ (g.count ≢ count)
        → Does limit
            (p, [])
            (fragment ∷ (dropped ++ contents p.slots))
            (accept g dropped fragment fragment_no count)
    refused-Does p g dropped fragment fragment_no count h no_room = record {
      outcome = record { state = g; dropped = dropped ++ fragment ∷ []; assembled = [] };
      returns = accept_no g dropped fragment fragment_no count no_room;
      holds = h;
      hands_over = refl;
      accounts =
          rw (append-nil (contents p.slots), append_assoc dropped (fragment ∷ []))
            (perm_middle dropped (contents p.slots));
    }

    stored-Does :
        (p : Pending F) (g : Fragged F) (dropped : List F) (fragment : F) (fragment_no : ℕ)
        → Holds limit p g
        → fragment_no < length p.slots
        → get_elem? p.slots fragment_no ≡ some none
        → Does limit
            (fill p fragment fragment_no (length p.slots))
            (fragment ∷ (dropped ++ contents p.slots))
            (accept g dropped fragment fragment_no (length p.slots))
    stored-Does p g dropped fragment fragment_no h lt empty =
        let s = set p.slots fragment_no (some fragment) in
        let in_range : fragment_no % 64 ≡ fragment_no = omega (arith, h.fits) in
        let clear : bit_and (2 ^ (fragment_no % 64)) g.have ≡ 0 =
          rw (in_range, h.have_eq) (bit_and-mask-none p.slots fragment_no empty) in
        let moved = contents-set p.slots fragment_no fragment empty in
        let total =
          Perm.trans (Perm.append_left dropped moved) (perm_middle dropped (contents p.slots)) in
        elim (Option-cases (packet s)) [
          | inl e ↦
              let (g', r, h') = store-Holds_part limit small p g fragment fragment_no h lt e in
              rw (fill_part p fragment fragment_no empty e) (record {
                outcome = record { state = g'; dropped = dropped; assembled = [] };
                returns =
                    accept_yes g g' dropped [] fragment fragment_no (length p.slots) clear
                      h.count_eq r;
                holds = h';
                hands_over = refl;
                accounts = rw (append-nil (contents s)) total;
              })
          | inr (fs, e) ↦
              let (g', r, h') = store-Holds_full limit small p g fragment fragment_no fs h lt e in
              rw (fill_full p fragment fragment_no fs empty e) (record {
                outcome = record { state = g'; dropped = dropped; assembled = fs };
                returns =
                    accept_yes g g' dropped fs fragment fragment_no (length p.slots) clear
                      h.count_eq r;
                holds = h';
                hands_over = refl;
                accounts =
                    let held = ap contents (mask-packet s fs e).0 ∙ contents-map-some fs in
                    subst (λ l. Perm (dropped ++ l) (fragment ∷ (dropped ++ contents p.slots))) held
                      total;
              })
        ]

    taken-Does :
        (p : Pending F) (g : Fragged F) (dropped : List F) (fragment f : F) (fragment_no : ℕ)
        → Holds limit p g
        → fragment_no < length p.slots
        → get_elem? p.slots fragment_no ≡ some (some f)
        → Does limit
            (fill p fragment fragment_no (length p.slots))
            (fragment ∷ (dropped ++ contents p.slots))
            (accept g dropped fragment fragment_no (length p.slots))
    taken-Does p g dropped fragment f fragment_no h lt taken =
        let in_range : fragment_no % 64 ≡ fragment_no = omega (arith, h.fits) in
        rw (fill_taken p fragment fragment_no f taken) (
          refused-Does p g dropped fragment fragment_no (length p.slots) h (
            inl λ clear.
              let clear' = rw (in_range, h.have_eq) at clear in
              let empty = bit_and-mask_zero p.slots fragment_no lt clear' in cc))

    in_slot-Does :
        (o : Option F) (p : Pending F) (g : Fragged F) (dropped : List F) (fragment : F)
        (fragment_no : ℕ)
        → Holds limit p g
        → fragment_no < length p.slots
        → get_elem? p.slots fragment_no ≡ some o
        → Does limit
            (fill p fragment fragment_no (length p.slots))
            (fragment ∷ (dropped ++ contents p.slots))
            (accept g dropped fragment fragment_no (length p.slots))
    in_slot-Does none p g dropped fragment fragment_no h lt e =
        stored-Does p g dropped fragment fragment_no h lt e
    in_slot-Does (some f) p g dropped fragment fragment_no h lt e =
        taken-Does p g dropped fragment f fragment_no h lt e

    accept-Does :
        (p : Pending F) (g : Fragged F) (dropped : List F) (fragment : F) (fragment_no count : ℕ)
        → Holds limit p g
        → fragment_no < count
        → Does limit
            (fill p fragment fragment_no count)
            (fragment ∷ (dropped ++ contents p.slots))
            (accept g dropped fragment fragment_no count)
    accept-Does p g dropped fragment fragment_no count h lt =
        elim (ℕ_discrete (length p.slots) count) [
          | no other ↦ rw (fill_other p fragment fragment_no count other) (
              refused-Does p g dropped fragment fragment_no count h
                (inr λ e. other (sym h.count_eq ∙ e)))
          | yes same ↦
              let inside : fragment_no < length p.slots = omega arith in
              let (o, e) = get_elem?_lt p.slots fragment_no inside in
              subst
                (λ n.
                  Does limit (fill p fragment fragment_no n)
                    (fragment ∷ (dropped ++ contents p.slots))
                    (accept g dropped fragment fragment_no n))
                same (in_slot-Does o p g dropped fragment fragment_no h inside e)
        ]

    -- A call of assemble on a buffer of fewer than 64 slots that holds the pending packet p reads
    -- and drops only initialised slots, leaves the packet that the mask-free specification leaves,
    -- hands over the packet that it hands over, in the order of the fragments' numbers, and every
    -- fragment that was held or came with the call is freed, handed over or still held exactly
    -- once.
    pub assemble-receive :
        (p : Pending F) (f : Fragged F) (nonce : ℕ) (fragment : F) (fragment_no count : ℕ)
        → Holds limit p f
        → Does limit
            (receive limit p nonce fragment fragment_no count)
            (fragment ∷ contents p.slots)
            (assemble limit f nonce fragment fragment_no count)
    unfolding assemble receive
    assemble-receive p f nonce fragment fragment_no count h =
        elim (Bool-cases (ltb fragment_no count && leb count limit)) [
          | inl good ↦
              let (g, dropped, e, h', total) =
                start-Holds limit small p f nonce count h (ground arith) in
              rw (good, e)
                (subst
                  (λ l.
                    Does limit (fill (restart p nonce count) fragment fragment_no count)
                      (fragment ∷ l) (accept g dropped fragment fragment_no count))
                  total
                  (accept-Does (restart p nonce count) g dropped fragment fragment_no count h'
                    (ground arith)))
          | inr bad ↦ rw bad (record {
            outcome = record { state = f; dropped = fragment ∷ []; assembled = [] };
            returns = refl;
            holds = h;
            hands_over = refl;
            accounts = rw (append-nil (contents p.slots)) (Perm.refl (fragment ∷ contents p.slots));
          })
        ]

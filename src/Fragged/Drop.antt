-- ===== src/Fragged/Drop.antt =====
-- The loops over the slots: `drop_in_place` frees exactly the fragments that are there, and `read_all`
-- moves them out in order.
use mathlib.Core.List.{append_assoc}
use zssp.Base.{
  ℕ, zero, suc, ◌+◌, ◌*◌, ◌/◌, ◌%◌, ◌<◌, ◌≡◌, refl, ap, ap₂, sym, ◌∙◌, List, [], ◌∷◌, ◌++◌, map,
  Option, none, some, length, get_elem?, set, replicate, arith, ℕ_discrete, length-append,
}
use zssp.Base.Bits.{mask, mask_zero, bit_and-one}
use zssp.Fragged.{move_out, drop_loop, read_all}

module _ {ℓ} {F : Type ℓ} where
  -- The fragments that the slots hold, in order.
  abbrev pub contents : List (Option F) → List F
  contents [] = []
  contents (none ∷ s) = contents s
  contents (some f ∷ s) = f ∷ contents s

  pub contents-replicate : (n : ℕ) → contents (replicate n none) ≡ []
  contents-replicate zero = refl
  contents-replicate (suc n) = contents-replicate n

  get_elem?-append :
      (pre s : List (Option F)) (o : Option F) (i : ℕ)
      → length pre ≡ i
      → get_elem? (pre ++ o ∷ s) i ≡ some o
  get_elem?-append [] s o zero h = refl
  get_elem?-append [] s o (suc i) h = absurd (omega arith)
  get_elem?-append (p ∷ pre) s o zero h = absurd (omega arith)
  get_elem?-append (p ∷ pre) s o (suc i) h = get_elem?-append pre s o i (omega arith)

  set-append :
      (pre s : List (Option F)) (o v : Option F) (i : ℕ)
      → length pre ≡ i
      → set (pre ++ o ∷ s) i v ≡ pre ++ v ∷ s
  set-append [] s o v zero h = refl
  set-append [] s o v (suc i) h = absurd (omega arith)
  set-append (p ∷ pre) s o v zero h = absurd (omega arith)
  set-append (p ∷ pre) s o v (suc i) h = ap (◌∷◌ p) (set-append pre s o v i (omega arith))

  -- The slot behind `pre` is moved out.
  move_out-append :
      (pre s : List (Option F)) (f : F) (i : ℕ)
      → length pre ≡ i
      → move_out (pre ++ some f ∷ s) i ≡ some (pre ++ none ∷ s, f)
  unfolding move_out
  move_out-append pre s f i h =
      rw (get_elem?-append pre s (some f) i h, move_out)
        (ap (λ left. some (left, f)) (set-append pre s (some f) none i h))

  drop_loop_zero :
      (fuel have i : ℕ) (frags : List (Option F))
      → have ≡ 0
      → drop_loop (suc fuel) have i frags ≡ some (frags, [])
  unfolding drop_loop
  drop_loop_zero fuel have i frags e = rw e refl

  drop_loop_even :
      (fuel have i : ℕ) (frags : List (Option F))
      → 0 < have
      → have % 2 ≡ 0
      → drop_loop (suc fuel) have i frags ≡ drop_loop fuel (have / 2) (i + 1) frags
  unfolding drop_loop
  drop_loop_even fuel have i frags h e = ground (arith, bit_and-one have)

  drop_loop_odd :
      (fuel have i : ℕ) (frags left rest : List (Option F)) (f : F) (fs : List F)
      → have % 2 ≡ 1
      → move_out frags i ≡ some (left, f)
      → drop_loop fuel (have / 2) (i + 1) left ≡ some (rest, fs)
      → drop_loop (suc fuel) have i frags ≡ some (rest, f ∷ fs)
  unfolding drop_loop
  drop_loop_odd fuel have i frags left rest f fs e m r = ground (arith, bit_and-one have)

  contents-mask_zero : (s : List (Option F)) → mask s ≡ 0 → contents s ≡ []
  contents-mask_zero s h = ap contents (mask_zero s h) ∙ contents-replicate (length s)

  -- The loop frees the fragments of the slots from `i` on, whose bits `have` shows.
  pub drop_loop-mask :
      (s pre : List (Option F)) (i fuel : ℕ)
      → length s < fuel
      → length pre ≡ i
      → drop_loop fuel (mask s) i (pre ++ s) ≡ some (pre ++ replicate (length s) none, contents s)
  drop_loop-mask s pre i zero h l = absurd (omega arith)
  drop_loop-mask [] pre i (suc fuel) h l = unfold drop_loop in refl
  drop_loop-mask (none ∷ s) pre i (suc fuel) h l = elim (ℕ_discrete (mask s) 0) [
    | yes e ↦
        drop_loop_zero fuel (2 * mask s) i (pre ++ none ∷ s) (omega arith)
        ∙ ap₂ (λ left fs. some (pre ++ none ∷ left, fs)) (mask_zero s e)
            (sym (contents-mask_zero s e))
    | no e ↦
        let same : 2 * mask s / 2 ≡ mask s = omega arith in
        let ih =
          drop_loop-mask s (pre ++ none ∷ []) (i + 1) fuel (omega arith)
            (omega (arith, length-append pre (none ∷ []))) in
        drop_loop_even fuel (2 * mask s) i (pre ++ none ∷ s) (omega arith) (omega arith)
        ∙ rw same (rw (append_assoc pre (none ∷ []), append_assoc pre (none ∷ [])) at ih)
  ]
  drop_loop-mask (some f ∷ s) pre i (suc fuel) h l =
      let same : (1 + 2 * mask s) / 2 ≡ mask s = omega arith in
      let ih =
        drop_loop-mask s (pre ++ none ∷ []) (i + 1) fuel (omega arith)
          (omega (arith, length-append pre (none ∷ []))) in
      drop_loop_odd fuel (1 + 2 * mask s) i (pre ++ some f ∷ s) (pre ++ none ∷ s) _ f (contents s)
        (omega arith) (move_out-append pre s f i l)
        (rw same (rw (append_assoc pre (none ∷ []), append_assoc pre (none ∷ [])) at ih))

  -- Reading out the full slots behind `pre`.
  pub read_all-full :
      (xs : List F) (pre s : List (Option F)) (i : ℕ)
      → length pre ≡ i
      → read_all (length xs) i (pre ++ (map some xs ++ s))
        ≡ some (pre ++ (replicate (length xs) none ++ s), xs)
  unfolding read_all
  read_all-full [] pre s i h = refl
  read_all-full (x ∷ xs) pre s i h =
      let ih =
        read_all-full xs (pre ++ none ∷ []) s (i + 1)
          (omega (arith, length-append pre (none ∷ []))) in
      let ih' = rw (append_assoc pre (none ∷ []), append_assoc pre (none ∷ [])) at ih in
      rw (move_out-append pre (map some xs ++ s) x i h, read_all) (rw (ih', read_all) refl)

-- ===== src/Fragged/Pending.antt =====
-- What the defragmenter is for: the slots of one packet, filled one by one. No bit masks, no
-- uninitialised memory, and a packet is handed over when no slot is empty.
use zssp.Base.{
  ℕ, ◌-◌, ◌^◌, ◌≡◌, ◌≢◌, inl, inr, Option-cases, refl, ap, ◌∙◌, ◌&&◌, List, [], ◌∷◌, map, Option,
  none, some, length, get_elem?, set, replicate, ltb, leb, ◌==◌, if◌then◌else◌, u64_mod, arith,
}
use mathlib.Core.List.{append-nil}
use zssp.Base.Bits.{mask, mask_ones, pow2-suc, pow2-pos}

pub record Pending {ℓ} (F : Type ℓ) : Type ℓ where
  pub nonce : ℕ
  pub slots : List (Option F)

module _ {ℓ} {F : Type ℓ} where
  -- No packet is under way.
  abbrev pub idle : Pending F
  idle = record { nonce = u64_mod - 1; slots = [] }

  -- The packet, if every slot is filled.
  unfoldable pub packet : List (Option F) → Option (List F)
  packet [] = some []
  packet (none ∷ s) = none
  packet (some f ∷ s) = elim (packet s) [ none ↦ none | some fs ↦ some (f ∷ fs) ]

  unfoldable pub restart : Pending F → ℕ → ℕ → Pending F
  restart p nonce fragment_count =
      if p.nonce == nonce
      then p
      else record { nonce = nonce; slots = replicate fragment_count none }

  unfoldable pub finish : Pending F → List (Option F) → Pending F × List F
  finish p slots = elim (packet slots) [
    | some fs ↦ (idle, fs)
    | none ↦ (record p { slots = slots }, [])
  ]

  unfoldable pub fill : Pending F → F → ℕ → ℕ → Pending F × List F
  unfolding finish
  fill p fragment fragment_no fragment_count =
      if length p.slots == fragment_count
      then (elim (get_elem? p.slots fragment_no) [
        | some none ↦ finish p (set p.slots fragment_no (some fragment))
        | _ ↦ (p, [])
      ])
      else (p, [])

  -- The state and the packet after a fragment.
  unfoldable pub receive : ℕ → Pending F → ℕ → F → ℕ → ℕ → Pending F × List F
  receive limit p nonce fragment fragment_no fragment_count =
      if ltb fragment_no fragment_count && leb fragment_count limit
      then fill (restart p nonce fragment_count) fragment fragment_no fragment_count
      else (p, [])

  pub packet-map-some : (fs : List F) → packet (map some fs) ≡ some fs
  unfolding packet
  packet-map-some [] = refl
  packet-map-some (f ∷ fs) = rw (packet-map-some fs, packet) refl

  packet_inv : (s : List (Option F)) (fs : List F) → packet s ≡ some fs → s ≡ map some fs
  unfolding packet
  packet_inv [] fs e = cc
  packet_inv (none ∷ s) fs e = cc
  packet_inv (some f ∷ s) fs e = elim (Option-cases (packet s)) [
    | inl no_packet ↦ let e' = rw (no_packet, packet) at e in cc
    | inr (gs, rest) ↦ let e' = rw (rest, packet) at e in let ih = packet_inv s gs rest in cc
  ]

  -- All the bits below the number of slots are set exactly if the packet is complete.
  pub packet-mask :
      (s : List (Option F)) → mask s ≡ 2 ^ length s - 1 → (fs : List F) × (s ≡ map some fs)
  packet-mask s h =
      let (fs, l, e) = mask_ones s (length s) 0 (omega arith) h in
      (fs, e ∙ append-nil (map some fs))

  pub packet-none-mask : (s : List (Option F)) → packet s ≡ none → mask s ≢ 2 ^ length s - 1
  packet-none-mask s h e =
      let (fs, same) = packet-mask s e in let made = ap packet same ∙ packet-map-some fs in cc

  mask-map-some : (fs : List F) → mask (map some fs) ≡ 2 ^ length (map some fs) - 1
  mask-map-some [] = refl
  mask-map-some (f ∷ fs) = omega (
    arith,
    mask-map-some fs,
    pow2-suc (length (map (λ (x : F). some x) fs)),
    pow2-pos (length (map (λ (x : F). some x) fs)),
  )

  pub mask-packet :
      (s : List (Option F)) (fs : List F)
      → packet s ≡ some fs
      → (s ≡ map some fs) × (mask s ≡ 2 ^ length s - 1)
  mask-packet s fs h = let same = packet_inv s fs h in (same, rw same (mask-map-some fs))

  module _ (p : Pending F) (fragment : F) (fragment_no : ℕ) where
    pub fill_other :
        (count : ℕ) → length p.slots ≢ count → fill p fragment fragment_no count ≡ (p, [])
    unfolding fill
    fill_other count ne = ground arith

    pub fill_taken :
        (f : F)
        → get_elem? p.slots fragment_no ≡ some (some f)
        → fill p fragment fragment_no (length p.slots) ≡ (p, [])
    unfolding fill
    fill_taken f e = ground arith

    pub fill_part :
        get_elem? p.slots fragment_no ≡ some none
        → packet (set p.slots fragment_no (some fragment)) ≡ none
        → fill p fragment fragment_no (length p.slots)
          ≡ (record p { slots = set p.slots fragment_no (some fragment) }, [])
    unfolding fill
    fill_part e n = ground arith

    pub fill_full :
        (fs : List F)
        → get_elem? p.slots fragment_no ≡ some none
        → packet (set p.slots fragment_no (some fragment)) ≡ some fs
        → fill p fragment fragment_no (length p.slots) ≡ (idle, fs)
    unfolding fill
    fill_full fs e n = ground arith

-- ===== src/Window/Order.antt =====
-- Packets that arrive out of order: what the window accepts.
use zssp.Base.{
  ℕ, ◌+◌, ◌%◌, ◌≤◌, ◌<◌, ◌≡◌, ◌≢◌, ◌∙◌, true, List, [], ◌∷◌, length, arith, u64_mod,
  length-replicate,
}
use zssp.Window.{new, update, is_fresh}
use zssp.Window.Run.{run, greatest, length-run, slot-run-new}

same_slot : (c d l : ℕ) → 0 < l → d % l ≡ c % l → d < c + l → c ≤ d → c ≡ d
same_slot c d l p h k q = grind arith

-- The counter `c` is new to a window of `l` slots: no call had it, and no call was `l` or more ahead.
abbrev pub IsNewTo : ℕ → ℕ → List ℕ → Type 0
IsNewTo l c [] = Unit {0}
IsNewTo l c (d ∷ cs) = (d ≢ c) × (d < c + l) × IsNewTo l c cs

length-new : (l : ℕ) → length (new l).slots ≡ l
unfolding new
length-new l = length-replicate {A = ℕ} l 0

greatest-le : (l c : ℕ) (cs : List ℕ) → 0 < l → IsNewTo l c cs → greatest l (c % l) cs ≤ c
unfolding greatest
greatest-le l c [] p h = omega arith
greatest-le l c (d ∷ cs) p h = ground (arith, greatest-le l c cs p h.2, same_slot c d l p)

-- A window of l slots, with l not zero, that was new before the calls cs accepts a counter that
-- none of them had, if none of them was l or more ahead of it, the counter plus one is at most
-- limit above what its slot holds, and the counter plus one is below 2^64.
pub update-run-new :
    (limit l c : ℕ) (cs : List ℕ)
    → 0 < l
    → c + 1 < u64_mod
    → IsNewTo l c cs
    → c + 1 ≤ greatest l (c % l) cs + limit
    → (update limit (run limit (new l) cs) c).1 ≡ true
unfolding update is_fresh
update-run-new limit l c cs p small h near =
    let size = length-run limit (new l) cs ∙ length-new l in
    rw (size, slot-run-new limit l cs (c % l) p) (ground (arith, greatest-le l c cs p h))

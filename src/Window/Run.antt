-- ===== src/Window/Run.antt =====
-- A schedule of updates of one window, and what a slot holds after it.
use native.Mathlib.Nat.{mod-lt}
use zssp.Base.{
  ℕ, ◌%◌, ◌<◌, max, ◌≡◌, refl, ◌∙◌, List, [], ◌∷◌, length, get_or, arith, length-set,
  length-replicate, get_or-set, get_or-replicate, ◌==◌, if◌then◌else◌, wrapping_add,
}
use zssp.Window.{Window, new, update}

-- The window after the calls, oldest first.
unfoldable pub run : ℕ → Window → List ℕ → Window
run limit w [] = w
run limit w (c ∷ cs) = run limit (update limit w c).0 cs

-- The greatest wrapped successor of the counters of `cs` that share a slot of `l` with `slot`.
unfoldable pub greatest : ℕ → ℕ → List ℕ → ℕ
greatest l slot [] = 0
greatest l slot (c ∷ cs) =
    if c % l == slot then max (wrapping_add c 1) (greatest l slot cs) else greatest l slot cs

pub length-update :
    (limit : ℕ) (w : Window) (c : ℕ) → length (update limit w c).0.slots ≡ length w.slots
unfolding update
length-update limit w c = length-set w.slots _ _

pub length-run :
    (limit : ℕ) (w : Window) (cs : List ℕ) → length (run limit w cs).slots ≡ length w.slots
unfolding run
length-run limit w [] = refl
length-run limit w (c ∷ cs) = length-run limit (update limit w c).0 cs ∙ length-update limit w c

pub slot-update :
    (limit : ℕ) (w : Window) (c i : ℕ)
    → 0 < length w.slots
    → get_or (update limit w c).0.slots i 0 ≡ (
        if c % length w.slots == i
        then max (get_or w.slots i 0) (wrapping_add c 1)
        else get_or w.slots i 0)
unfolding update
slot-update limit w c i h = ground (
  arith,
  get_or-set w.slots (c % length w.slots) i
      (max (get_or w.slots (c % length w.slots) 0) (wrapping_add c 1)) 0,
  mod-lt c h,
)

-- A slot holds the greatest wrapped successor that was put into it.
pub slot-run :
    (limit : ℕ) (w : Window) (cs : List ℕ) (i : ℕ)
    → 0 < length w.slots
    → get_or (run limit w cs).slots i 0 ≡ max (get_or w.slots i 0) (greatest (length w.slots) i cs)
unfolding run greatest
slot-run limit w [] i h = omega arith
slot-run limit w (c ∷ cs) i h =
    let same = length-update limit w c in
    let ih = slot-run limit (update limit w c).0 cs i (omega (arith, same)) in
    let ih' = rw same at ih in ground (arith, ih', slot-update limit w c i h)

-- From a new window.
pub slot-run-new :
    (limit l : ℕ) (cs : List ℕ) (i : ℕ)
    → 0 < l
    → get_or (run limit (new l) cs).slots i 0 ≡ greatest l i cs
unfolding new
slot-run-new limit l cs i h =
    let size = length-replicate {A = ℕ} l 0 in
    let e =
      rw (size, get_or-replicate {A = ℕ} l i 0) at
        (slot-run limit (new l) cs i (omega (arith, size))) in
    omega (arith, e)

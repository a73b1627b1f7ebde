-- ===== src/Window/Replay.antt =====
-- No counter passes the window twice, in any schedule.
use mathlib.Core.List.{Nodup, Nodup-cons, Nodup-nil, Mem, mem-cons, not-mem-nil}
use mathlib.Core.HLevel.{⊥_prop}
use mathlib.Core.Logic.Or
use zssp.Base.{
  ℕ, ◌%◌, ◌≤◌, ◌<◌, ◌≡◌, false, List, [], ◌∷◌, length, get_or, arith, Bool-cases, inl, inr,
  if◌then◌else◌, wrapping_add,
}
use zssp.Window.{Window, update, slot_of}
use zssp.Window.Run.{run, length-update, length-run, slot-update, slot-run}

-- A counter is refused for ever once its slot holds its successor or more.
pub update_refused :
    (limit : ℕ) (w : Window) (c : ℕ)
    → wrapping_add c 1 ≤ get_or w.slots (slot_of w c) 0
    → (update limit w c).1 ≡ false
unfolding update
update_refused limit w c h = ground arith

-- After a call with counter `c` and any calls since, a further call with `c` is refused.
pub update-run-false :
    (limit : ℕ) (w : Window) (c : ℕ) (cs : List ℕ)
    → 0 < length w.slots
    → (update limit (run limit (update limit w c).0 cs) c).1 ≡ false
update-run-false limit w c cs h =
    let v = (update limit w c).0 in
    let same = length-update limit w c in
    let same' = length-run limit v cs in
    update_refused limit (run limit v cs) c (
      rw (same', same)
        (ground (
          arith,
          slot-run limit v cs (c % length w.slots) (omega (arith, same)),
          slot-update limit w c (c % length w.slots) h,
        )))

-- The counters that the window accepts, oldest first.
unfoldable pub accepted : ℕ → Window → List ℕ → List ℕ
accepted limit w [] = []
accepted limit w (c ∷ cs) =
    let rest = accepted limit (update limit w c).0 cs in
    if (update limit w c).1 then c ∷ rest else rest

seen-not-mem :
    (limit : ℕ) (w : Window) (c : ℕ) (cs : List ℕ)
    → 0 < length w.slots
    → wrapping_add c 1 ≤ get_or w.slots (slot_of w c) 0
    → ¬ Mem c (accepted limit w cs)
unfolding accepted
seen-not-mem limit w c [] h e = λ m. not-mem-nil m
seen-not-mem limit w c (d ∷ cs) h e =
    let same = length-update limit w d in
    let later =
      seen-not-mem limit (update limit w d).0 c cs (omega (arith, same))
        (rw same (ground (arith, slot-update limit w d (c % length w.slots) h))) in
    elim (Bool-cases (update limit w d).1) [
      | inl hit ↦ rw hit λ m.
          Or.elim ⊥_prop (mem-cons.0 m)
            (λ same_counter. let refused = update_refused limit w d (rw same_counter at e) in cc)
            later
      | inr miss ↦ rw miss later
    ]

-- The counters that a window accepts are distinct, whatever order they come in and however often each
-- of them comes.
pub accepted-Nodup :
    (limit : ℕ) (w : Window) (cs : List ℕ) → 0 < length w.slots → Nodup (accepted limit w cs)
unfolding accepted
accepted-Nodup limit w [] h = Nodup-nil
accepted-Nodup limit w (c ∷ cs) h =
    let same = length-update limit w c in
    let pos : 0 < length (update limit w c).0.slots = omega (arith, same) in
    let later = accepted-Nodup limit (update limit w c).0 cs pos in
    elim (Bool-cases (update limit w c).1) [
      | inl hit ↦ rw hit (
          Nodup-cons.1 (
            seen-not-mem limit (update limit w c).0 c cs pos
                (rw same (ground (arith, slot-update limit w c (c % length w.slots) h))),
            later,
          ))
      | inr miss ↦ rw miss later
    ]

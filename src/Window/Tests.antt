-- ===== src/Window/Tests.antt =====
-- performance/src/antireplay.rs: schedules of calls of a window of four slots.
use mathlib.Core.List.{Nodup}
use zssp.Base.{ℕ, ◌≡◌, refl, true, false, List, [], ◌∷◌, arith}
use zssp.Window.{new, update, check}
use zssp.Window.Run.{run, greatest}
use zssp.Window.Replay.{accepted, accepted-Nodup}
use zssp.Window.Order.{update-run-new}

-- Out of order, repeated and too old: 5 is accepted after 7, and 1 is too old after 5.
abbrev schedule : List ℕ
schedule = 0 ∷ 7 ∷ 5 ∷ 7 ∷ 1 ∷ 6 ∷ 5 ∷ []

accepted_run : accepted 100 (new 4) schedule ≡ 0 ∷ 7 ∷ 5 ∷ 6 ∷ []
unfolding accepted new update
accepted_run = refl

-- The greatest counter wraps to 0 and is never accepted.
update_greatest : (update 100 (new 4) 0xffff_ffff_ffff_ffff).1 ≡ false
unfolding update new
update_greatest = refl

check_too_far : check 100 (new 4) 200 ≡ false
unfolding check new
check_too_far = refl

accepted-Nodup_example : Nodup (accepted 100 (new 4) schedule)
unfolding new
accepted-Nodup_example = accepted-Nodup 100 (new 4) schedule (omega arith)

update-run-new_example : (update 100 (run 100 (new 4) (0 ∷ 7 ∷ 5 ∷ [])) 4).1 ≡ true
unfolding greatest
update-run-new_example =
    update-run-new 100 4 4 (0 ∷ 7 ∷ 5 ∷ []) (omega arith) (omega arith) (omega arith) (omega arith)

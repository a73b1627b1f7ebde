-- ===== src/Window.antt =====
-- performance/src/antireplay.rs: the anti-replay window of a session and of the challenge protocol.
-- The const parameters `L` and `MAX` are the length of `slots` and the argument `max`. Every atomic
-- slot is a number below 2^64, and each method is one atomic access of one slot, so a schedule of
-- concurrent calls is a list of calls.
pub mod Run
pub mod Replay
pub mod Order
mod Tests
use zssp.Base.{
  ℕ, ◌+◌, ◌%◌, ◌<◌, max, Bool, ◌&&◌, List, length, get_or, set, replicate, ltb, leb, u64_mod,
  wrapping_add, wrapping_sub,
}

pub record Window : Type 0 where
  pub slots : List ℕ

-- `Window::new`, with `l` slots.
unfoldable pub new : ℕ → Window
new l = record { slots = replicate l 0 }

abbrev pub slot_of : Window → ℕ → ℕ
slot_of w counter = counter % length w.slots

-- The comparison that `check` and `update` share, of the old value of a slot with the counter.
unfoldable pub is_fresh : ℕ → ℕ → ℕ → Bool
is_fresh limit prev_counter counter =
    ltb prev_counter counter && leb (wrapping_sub counter prev_counter) limit

unfoldable pub check : ℕ → Window → ℕ → Bool
unfolding is_fresh
check limit w counter =
    is_fresh limit (get_or w.slots (slot_of w counter) 0) (wrapping_add counter 1)

-- `fetch_max` returns the old value of the slot and leaves the greater one.
unfoldable pub update : ℕ → Window → ℕ → Window × Bool
unfolding is_fresh
update limit w counter =
    let slot = slot_of w counter in
    let next = wrapping_add counter 1 in
    let prev_counter = get_or w.slots slot 0 in
    (record { slots = set w.slots slot (max prev_counter next) }, is_fresh limit prev_counter next)

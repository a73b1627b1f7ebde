-- ===== src/Fragged/Tests.antt =====
-- performance/src/fragged.rs: runs of the defragmenter with eight slots.
use zssp.Base.{ℕ, ◌-◌, ◌≡◌, refl, List, [], ◌∷◌, ◌++◌, Option, some, u64_mod, arith}
use zssp.Fragged.{
  Fragged, new, drop_in_place, drop_loop, move_out, read_all, start, store, accept, assemble, ◌>>=◌,
}
use zssp.Fragged.Pending.{idle, receive}
use zssp.Fragged.Refine.{new-Holds}
use zssp.Fragged.Assemble.{Does, assemble-receive}

-- Calls one after the other: the packets handed over and the fragments freed, in order.
session : Fragged ℕ → List (ℕ × ℕ × ℕ × ℕ) → Option (List (List ℕ) × List ℕ)
session f [] = some ([], [])
session f ((nonce, fragment, i, count) ∷ calls) = assemble 8 f nonce fragment i count >>= λ o.
    session o.state calls >>= λ (packets, freed). some (o.assembled ∷ packets, o.dropped ++ freed)

-- Three fragments out of order with a duplicate, then a packet that another one cuts short.
session_run :
    session (new 8) (
      (7, 30, 2, 3)
      ∷ (7, 10, 0, 3)
      ∷ (7, 11, 0, 3)
      ∷ (7, 20, 1, 3)
      ∷ (8, 40, 0, 2)
      ∷ (9, 50, 0, 1)
      ∷ [])
    ≡ some ([] ∷ [] ∷ [] ∷ (10 ∷ 20 ∷ 30 ∷ []) ∷ [] ∷ (50 ∷ []) ∷ [], 11 ∷ 40 ∷ [])
unfolding session new assemble start drop_in_place drop_loop accept store read_all move_out
session_run = refl

-- A new buffer takes no packet with the greatest counter, which stands for none.
greatest_refused : session (new 8) ((u64_mod - 1, 10, 0, 1) ∷ []) ≡ some ([] ∷ [], 10 ∷ [])
unfolding session new assemble start drop_in_place drop_loop accept store read_all move_out
greatest_refused = refl

assemble-receive_example :
    Does {F = ℕ} 8 (receive 8 idle 7 30 2 3) (30 ∷ []) (assemble 8 (new 8) 7 30 2 3)
assemble-receive_example = assemble-receive 8 (omega arith) idle (new 8) 7 30 2 3 (new-Holds 8)

-- ===== src/Crypto/Tests.antt =====
-- performance/src/crypto/mod.rs: runs of the byte comparison.
use zssp.Base.{ℕ, ◌≡◌, ◌↔◌, refl, true, false, List, [], ◌∷◌}
use zssp.Crypto.{secure_eq, secure_eq_iff}

secure_eq_last : secure_eq (1 ∷ 2 ∷ []) (1 ∷ 3 ∷ []) ≡ false
unfolding secure_eq
secure_eq_last = refl

secure_eq_iff_example :
    (secure_eq (1 ∷ 2 ∷ []) (1 ∷ 2 ∷ []) ≡ true) ↔ (◌≡◌ {A = List ℕ} (1 ∷ 2 ∷ []) (1 ∷ 2 ∷ []))
secure_eq_iff_example = secure_eq_iff (1 ∷ 2 ∷ []) (1 ∷ 2 ∷ [])

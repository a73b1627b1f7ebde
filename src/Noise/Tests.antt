-- ===== src/Noise/Tests.antt =====
-- reference/src/symmetric_state.rs: runs.
use zssp.Base.{ℕ, ◌≡◌, refl, List, replicate, arith}
use zssp.Noise.Kdf.{kbkdf_buffer_inj}
use zssp.Proto.Handshake.{label_kbkdf_chain}

abbrev chaining_key : List ℕ
chaining_key = replicate 64 5

kbkdf_buffer_inj_example :
    (◌≡◌ {A = ℕ} 1 1)
    × (label_kbkdf_chain ≡ label_kbkdf_chain)
    × (chaining_key ≡ chaining_key)
    × (◌≡◌ {A = ℕ} 2 2)
kbkdf_buffer_inj_example =
    kbkdf_buffer_inj 1 1 2 2 label_kbkdf_chain label_kbkdf_chain chaining_key chaining_key refl refl
      refl refl (omega arith) (omega arith) refl

-- ===== src/Zeta/Nonce.antt =====
-- reference/src/zeta.rs: the nonces. A nonce has three zeros, the packet type and the counter.
use mathlib.Core.List.{}
use zssp.Base.{
  ℕ, ◌+◌, ◌-◌, ◌<◌, ◌≡◌, refl, sym, ap, ◌∙◌, List, ◌∷◌, ◌++◌, length, get_or, drop, replicate,
  arith, ltb, if◌then◌else◌, u64_mod,
}
use zssp.Base.Bytes.{
  to_be_bytes, from_be_bytes, from_be_bytes-to_be_bytes, length-to_be_bytes, AllBytes,
  to_be_bytes-from_be_bytes,
}
use zssp.Proto.{packet_nonce_size}
use zssp.Results.{Outcome, ok, panic}

unfoldable pub to_nonce : ℕ → ℕ → List ℕ
unfolding to_be_bytes
to_nonce packet_type counter = replicate 3 0 ++ (packet_type ∷ to_be_bytes 8 counter)

-- The packet type and the counter.
unfoldable pub from_nonce : {E : Type 0} → List ℕ → Outcome E (ℕ × ℕ)
unfolding from_be_bytes
from_nonce n =
    let c_start = length n - 8 in
    if ltb (length n) packet_nonce_size
    then panic
    else ok (get_or n (c_start - 1) 0, from_be_bytes (drop c_start n))

pub length-to_nonce : (t c : ℕ) → length (to_nonce t c) ≡ 12
unfolding to_nonce
length-to_nonce t c = ap (λ m. 4 + m) (length-to_be_bytes 8 c)

pub drop-to_nonce : (t c : ℕ) → drop 4 (to_nonce t c) ≡ to_be_bytes 8 c
unfolding to_nonce
drop-to_nonce t c = refl

-- A nonce that is made from a packet type and a 64-bit counter gives both back.
pub from_nonce-to_nonce :
    {E : Type 0} (t c : ℕ) → c < u64_mod → from_nonce {E = E} (to_nonce t c) ≡ ok (t, c)
unfolding from_nonce to_nonce
from_nonce-to_nonce t c h = ap (λ x. ok (t, x)) (from_be_bytes-to_be_bytes 8 c (omega arith))

-- Two nonces are the same only if both their packet types and their 64-bit counters are.
pub to_nonce_inj :
    (t t' c c' : ℕ)
    → c < u64_mod
    → c' < u64_mod
    → to_nonce t c ≡ to_nonce t' c'
    → (t ≡ t') × (c ≡ c')
unfolding to_nonce
to_nonce_inj t t' c c' h h' e = (
  ap (λ n. get_or n 3 0) e,
  sym (from_be_bytes-to_be_bytes 8 c (omega arith))
      ∙ ap (λ n. from_be_bytes (drop 4 n)) e
      ∙ from_be_bytes-to_be_bytes 8 c' (omega arith),
)

-- Behind the packet type, the nonce of a counter that is read from eight bytes has these bytes.
pub drop-to_nonce-from_be_bytes :
    (t : ℕ) (bs : List ℕ)
    → length bs ≡ 8
    → AllBytes bs
    → drop 4 (to_nonce t (from_be_bytes bs)) ≡ bs
drop-to_nonce-from_be_bytes t bs size bytes =
    drop-to_nonce t (from_be_bytes bs) ∙ to_be_bytes-from_be_bytes 8 bs size bytes

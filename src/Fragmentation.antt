-- ===== src/Fragmentation.antt =====
-- reference/src/fragmentation.rs: `send_with_fragmentation` and the header of a fragment.
-- `accepted n` is the answer of the caller's `send` to its call number `n`. The block cipher under a
-- header key is a function on 16 bytes, `none` where there is no key. The result `none` is a panic, and
-- a failed debug assertion is one.
pub mod Slices
pub mod Reassemble
mod Tests
use zssp.Base.{
  ℕ, zero, suc, ◌+◌, ◌-◌, ◌/◌, ◌%◌, ◌^◌, min, Bool, true, false, ◌&&◌, List, [], ◌∷◌, ◌++◌, Option,
  none, some, length, set, take, drop, replicate, ltb, leb, ◌==◌, if◌then◌else◌, u64_mod,
}
use zssp.Base.Bytes.{to_be_bytes}
use zssp.Proto.{
  header_size, kid_size, max_fragments, fragment_no_idx, fragment_count_idx, packet_nonce_start,
  header_auth_start, header_auth_end,
}

infixl 5 ◌>>=◌
abbrev pub ◌>>=◌ {ℓ κ} : {A : Type ℓ} {B : Type κ} → Option A → (A → Option B) → Option B
none >>= f = none
some a >>= f = f a

-- `header[start..start + bytes.len()].copy_from_slice(bytes)`.
unfoldable pub copy_at : List ℕ → ℕ → List ℕ → List ℕ
copy_at xs start bytes = take start xs ++ (bytes ++ drop (start + length bytes) xs)

unfoldable pub create_fragment_header : ℕ → ℕ → ℕ → List ℕ → List ℕ
unfolding copy_at
create_fragment_header kid_send fragment_count fragment_no n =
    let header = copy_at (replicate header_size 0) 0 (to_be_bytes kid_size kid_send) in
    let numbered = set header fragment_no_idx (fragment_no % 2 ^ 8) in
    let counted = set numbered fragment_count_idx (fragment_count % 2 ^ 8) in
    copy_at counted packet_nonce_start n

-- `&xs[i..j]`.
unfoldable pub slice : List ℕ → ℕ → ℕ → Option (List ℕ)
slice xs i j = if leb i j && leb j (length xs) then some (take (j - i) (drop i xs)) else none

-- The block cipher in place on the bytes of the header that are encrypted.
unfoldable pub in_place : Option (List ℕ → List ℕ) → List ℕ → Option (List ℕ)
in_place none fragment = some fragment
in_place (some prp) fragment =
    if leb header_auth_end (length fragment)
    then some (
        take header_auth_start fragment
        ++ (prp (take (header_auth_end - header_auth_start) (drop header_auth_start fragment))
            ++ drop header_auth_end fragment))
    else none

-- `Result<(), bool>`.
pub data Sent : Type 0 where
  ok : Sent
  err : Bool → Sent

-- The fragments that `send` was called with, and the result.
module _ (accepted : ℕ → Bool) (hk_send : Option (List ℕ → List ℕ)) (identifier : ℕ)
    (packet_nonce packet : List ℕ)
    (fragment_count fragment_base_size fragment_size_remainder : ℕ) where
  -- The loop with `n` fragments left.
  unfoldable pub send_loop : ℕ → ℕ → ℕ → Option (List (List ℕ) × Sent)
  send_loop zero fragment_no i = some ([], ok)
  send_loop (suc n) fragment_no i =
      let extra = if ltb fragment_no fragment_size_remainder then 1 else 0 in
      let j = i + fragment_base_size + extra in
      let rest = send_loop n (fragment_no + 1) j in
      do
        part ← slice packet i j
        fragment ←
            in_place hk_send
              (create_fragment_header identifier fragment_count fragment_no packet_nonce ++ part)
        let sent : Option (List (List ℕ) × Sent) = do
          (fragments, result) ← rest
          some (fragment ∷ fragments, result)
        if accepted fragment_no then sent else some (fragment ∷ [], err false)

-- The number of fragments, by a ceiling division.
unfoldable pub fragment_count_of : ℕ → ℕ → ℕ
fragment_count_of size payload_mtu = min (size + (payload_mtu - 1)) (u64_mod - 1) / payload_mtu

unfoldable pub send_with_fragmentation :
    (ℕ → Bool) → ℕ → ℕ → List ℕ → List ℕ → Option (List ℕ → List ℕ) → Option (List (List ℕ) × Sent)
send_with_fragmentation accepted mtu identifier packet_nonce packet hk_send =
    let payload_mtu = mtu - header_size in
    let fragment_count = fragment_count_of (length packet) payload_mtu in
    let base = length packet / fragment_count in
    let remainder = length packet % fragment_count in
    let loop =
      send_loop accepted hk_send identifier packet_nonce packet fragment_count base remainder
        fragment_count 0 0 in
    let send = if ltb max_fragments fragment_count then some ([], err true) else loop in
    let counted = if fragment_count == 0 then none else send in
    if leb 4 payload_mtu then counted else none

-- ===== src/Fragmentation/Reassemble.antt =====
-- `send_with_fragmentation`: the fragments, opened in order, make the packet.
use zssp.Base.{
  ℕ, zero, suc, ◌+◌, ◌-◌, ◌*◌, ◌/◌, ◌%◌, ◌≤◌, ◌<◌, ◌≡◌, refl, sym, ap, Bool, true, false, List, [],
  ◌∷◌, ◌++◌, Option, some, length, drop, ltb, leb, ◌==◌, if◌then◌else◌, arith, length-append,
  drop-append,
}
use zssp.Proto.{header_size}
use zssp.Fragmentation.{
  create_fragment_header, in_place, ok, send_loop, fragment_count_of, send_with_fragmentation,
  ◌>>=◌,
}
use zssp.Fragmentation.Slices.{length-create_fragment_header, slice-drop}
use native.Mathlib.Nat.{mul-suc, div-add-mod', mod-lt}

-- What a receiver with the key makes of the fragments in order: their payloads, one after the other.
unfoldable pub opened : Option (List ℕ → List ℕ) → List (List ℕ) → Option (List ℕ)
opened hk_recv [] = some []
opened hk_recv (fragment ∷ fragments) = do
  plain ← in_place hk_recv fragment
  rest ← opened hk_recv fragments
  some (drop header_size plain ++ rest)

-- The receiver's cipher undoes the sender's.
abbrev pub Undoes : Option (List ℕ → List ℕ) → Option (List ℕ → List ℕ) → Type 0
Undoes hk_send hk_recv =
    (f : List ℕ)
    → 20 ≤ length f
    → (g : List ℕ) × (in_place hk_send f ≡ some g)
      × (length g ≡ length f)
      × (in_place hk_recv g ≡ some f)

drop_out : (xs : List ℕ) (n : ℕ) → length xs ≤ n → drop n xs ≡ []
drop_out [] zero h = refl
drop_out [] (suc n) h = refl
drop_out (x ∷ xs) zero h = absurd (omega arith)
drop_out (x ∷ xs) (suc n) h = drop_out xs n (omega arith)

module _ (accepted : ℕ → Bool) (hk_send hk_recv : Option (List ℕ → List ℕ)) (identifier : ℕ)
    (packet_nonce packet : List ℕ) (fragment_count base remainder : ℕ)
    (answers : (k : ℕ) → accepted k ≡ true) (undoes : Undoes hk_send hk_recv)
    (nonce_size : length packet_nonce ≡ 10) (long : 4 ≤ base) where
  send_loop-opened :
      (n fragment_no i : ℕ)
      → i + base * n + (remainder - fragment_no) ≡ length packet
      → remainder - fragment_no ≤ n
      → (fragments : List (List ℕ)) × (send_loop accepted hk_send identifier packet_nonce packet
            fragment_count base remainder n fragment_no i
          ≡ some (fragments, ok))
        × (opened hk_recv fragments ≡ some (drop i packet))
        × (length fragments ≡ n)
  unfolding send_loop opened
  send_loop-opened zero fragment_no i total few =
      ([], refl, ap some (sym (drop_out packet i (omega arith))), refl)
  send_loop-opened (suc n) fragment_no i total few =
      let extra = if ltb fragment_no remainder then 1 else 0 in
      let j = i + base + extra in
      let product = mul-suc base n in
      let next : j + base * n + (remainder - (fragment_no + 1)) ≡ length packet = ground arith in
      let (part, cut, joined, part_size) = slice-drop packet i j (omega arith) (omega arith) in
      let header = create_fragment_header identifier fragment_count fragment_no packet_nonce in
      let header_len =
        length-create_fragment_header identifier fragment_count fragment_no packet_nonce
          nonce_size in
      let (g, sealed, g_size, unsealed) =
        undoes (header ++ part) (omega (arith, length-append header part)) in
      let fewer : remainder - (fragment_no + 1) ≤ n = omega arith in
      let (fragments, sent, made, size) = send_loop-opened n (fragment_no + 1) j next fewer in
      (
        g ∷ fragments,
        rw (cut, sealed, sent, answers fragment_no) refl,
        rw (unsealed, made, drop-append header part 16 header_len) (ap some joined),
        omega arith,
      )

-- Where every call of send is accepted, the packet is not empty and needs at most 48 fragments,
-- each with room for the block that is encrypted, the nonce has 10 bytes and the mtu is at least
-- 20, and the cipher of the receiver undoes that of the sender, the fragments in order make the
-- packet, and they are as many as the count says.
pub send_with_fragmentation-opened :
    (accepted : ℕ → Bool) (mtu identifier : ℕ) (packet_nonce packet : List ℕ)
    (hk_send hk_recv : Option (List ℕ → List ℕ))
    → ((k : ℕ) → accepted k ≡ true)
    → Undoes hk_send hk_recv
    → length packet_nonce ≡ 10
    → 20 ≤ mtu
    → 0 < fragment_count_of (length packet) (mtu - header_size)
    → fragment_count_of (length packet) (mtu - header_size) ≤ 48
    → 4 ≤ length packet / fragment_count_of (length packet) (mtu - header_size)
    → (fragments : List (List ℕ)) × (send_with_fragmentation accepted mtu identifier packet_nonce
          packet hk_send
        ≡ some (fragments, ok))
      × (opened hk_recv fragments ≡ some packet)
      × (length fragments ≡ fragment_count_of (length packet) (mtu - header_size))
unfolding send_with_fragmentation
send_with_fragmentation-opened accepted mtu identifier packet_nonce packet hk_send hk_recv answers
      undoes nonce_size enough some_fragments few long =
    let count = fragment_count_of (length packet) (mtu - header_size) in
    let base = length packet / count in
    let remainder = length packet % count in
    let split = div-add-mod' (length packet) count in
    let less = mod-lt (length packet) {m = count} some_fragments in
    let total : 0 + base * count + (remainder - 0) ≡ length packet = omega arith in
    let (fragments, sent, made, size) =
      send_loop-opened accepted hk_send hk_recv identifier packet_nonce packet count base remainder
        answers undoes nonce_size long count 0 0 total (omega arith) in
    let test1 : leb 4 (mtu - header_size) ≡ true = ground arith in
    let test2 : (count == 0) ≡ false = ground arith in
    let test3 : ltb 48 count ≡ false = ground arith in
    (fragments, rw (test1, test2, test3) sent, made, size)

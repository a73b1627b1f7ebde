-- ===== src/Fragmentation/Tests.antt =====
-- reference/src/fragmentation.rs: packets of twenty bytes under a cipher that swaps the halves of a block.
use zssp.Base.{
  ℕ, ◌≡◌, refl, ◌∙◌, true, false, List, [], ◌∷◌, ◌++◌, none, some, length, take, drop, ltb, arith,
  length-append, length-take, length-drop, take-append, drop-append, take-append-drop,
}
use zssp.Base.Bytes.{to_be_bytes}
use zssp.Fragmentation.{
  send_with_fragmentation, send_loop, slice, in_place, create_fragment_header, copy_at,
  fragment_count_of, ok, err,
}
use zssp.Fragmentation.Slices.{in_place-inverse}
use zssp.Fragmentation.Reassemble.{opened, Undoes, send_with_fragmentation-opened}

abbrev swap_halves : List ℕ → List ℕ
swap_halves block = drop 8 block ++ take 8 block

swap_halves-Undoes : Undoes (some swap_halves) (some swap_halves)
swap_halves-Undoes f long =
    in_place-inverse swap_halves swap_halves f
      (λ block size.
        length-append (drop 8 block) (take 8 block)
        ∙ omega (arith, length-drop 8 block, length-take 8 block))
      (λ block size.
        let half : length (drop 8 block) ≡ 8 = omega (arith, length-drop 8 block) in
        rw
          (
            drop-append (drop 8 block) (take 8 block) 8 half,
            take-append (drop 8 block) (take 8 block) 8 half,
          )
          (take-append-drop 8 block))
      long

abbrev nonce : List ℕ
nonce = 9 ∷ 8 ∷ 7 ∷ 6 ∷ 5 ∷ 4 ∷ 3 ∷ 2 ∷ 1 ∷ 0 ∷ []

abbrev twenty : List ℕ
twenty =
    1 ∷ 2 ∷ 3 ∷ 4 ∷ 5 ∷ 6 ∷ 7 ∷ 8 ∷ 9 ∷ 10 ∷ 11 ∷ 12 ∷ 13 ∷ 14 ∷ 15 ∷ 16 ∷ 17 ∷ 18 ∷ 19 ∷ 20 ∷ []

header_bytes : create_fragment_header 0x0102_0304 3 1 nonce ≡ 1 ∷ 2 ∷ 3 ∷ 4 ∷ 1 ∷ 3 ∷ nonce
unfolding create_fragment_header copy_at to_be_bytes
header_bytes = refl

-- The second call of `send` is refused.
refused :
    send_with_fragmentation (λ n. ltb n 1) 28 0 nonce twenty none
    ≡ some (
      (create_fragment_header 0 2 0 nonce ++ take 10 twenty)
          ∷ (create_fragment_header 0 2 1 nonce ++ drop 10 twenty)
          ∷ [],
      err false,
    )
unfolding send_with_fragmentation send_loop slice in_place create_fragment_header copy_at
    to_be_bytes fragment_count_of
refused = refl

-- An empty packet divides by zero.
empty_panics : send_with_fragmentation (λ n. true) 128 0 nonce [] none ≡ none
unfolding send_with_fragmentation send_loop fragment_count_of
empty_panics = refl

send_with_fragmentation-opened_example :
    (fragments : List (List ℕ)) × (send_with_fragmentation
        (λ n. true)
        24
        5
        nonce
        twenty
        (some swap_halves)
      ≡ some (fragments, ok))
    × (opened (some swap_halves) fragments ≡ some twenty)
    × (length fragments ≡ 3)
unfolding fragment_count_of
send_with_fragmentation-opened_example =
    send_with_fragmentation-opened (λ n. true) 24 5 nonce twenty (some swap_halves)
      (some swap_halves) (λ k. refl) swap_halves-Undoes refl (omega arith) (omega arith)
      (omega arith) (omega arith)

-- ===== src/Noise/Kdf.antt =====
-- The inputs of the key derivation are unambiguous.
use zssp.Base.{
  ℕ, ◌*◌, ◌%◌, ◌^◌, ◌<◌, ◌≡◌, refl, sym, ap, ◌∙◌, List, [], ◌∷◌, ◌++◌, length, take, drop, arith,
  take-append, drop-append,
}
use zssp.Base.Bytes.{to_be_bytes, from_be_bytes, from_be_bytes-to_be_bytes}
use zssp.Noise.{kbkdf_buffer}

-- Parts of the same size are found again in the whole.
append_inj :
    (xs xs' ys ys' : List ℕ)
    → length xs ≡ length xs'
    → xs ++ ys ≡ xs' ++ ys'
    → (xs ≡ xs') × (ys ≡ ys')
append_inj xs xs' ys ys' size e = (
  sym (take-append xs ys (length xs) refl)
      ∙ ap (take (length xs)) e
      ∙ take-append xs' ys' (length xs) (sym size),
  sym (drop-append xs ys (length xs) refl)
      ∙ ap (drop (length xs)) e
      ∙ drop-append xs' ys' (length xs) (sym size),
)

head_of : List ℕ → ℕ
head_of [] = 0
head_of (x ∷ xs) = x

-- Two inputs of the key derivation are the same only if they are for the same output, the same label of
-- four bytes, the same chaining key of 64 bytes and the same number of outputs, which is below 128.
pub kbkdf_buffer_inj :
    (i i' n n' : ℕ) (label label' ck ck' : List ℕ)
    → length label ≡ 4
    → length label' ≡ 4
    → length ck ≡ 64
    → length ck' ≡ 64
    → n < 128
    → n' < 128
    → kbkdf_buffer i label ck n ≡ kbkdf_buffer i' label' ck' n'
    → (i ≡ i') × (label ≡ label') × (ck ≡ ck') × (n ≡ n')
unfolding kbkdf_buffer head_of
kbkdf_buffer_inj i i' n n' label label' ck ck' l4 l4' c64 c64' small small' e =
    let size = λ (m : ℕ). to_be_bytes 2 (m * 8 * 64 % 2 ^ 16) in
    let (ei, e1) =
      append_inj (i ∷ []) (i' ∷ []) (label ++ ((0 ∷ []) ++ (ck ++ size n)))
        (label' ++ ((0 ∷ []) ++ (ck' ++ size n'))) refl e in
    let (el, e2) =
      append_inj label label' ((0 ∷ []) ++ (ck ++ size n)) ((0 ∷ []) ++ (ck' ++ size n'))
        (l4 ∙ sym l4') e1 in
    let (_, e3) = append_inj (0 ∷ []) (0 ∷ []) (ck ++ size n) (ck' ++ size n') refl e2 in
    let (ec, e4) = append_inj ck ck' (size n) (size n') (c64 ∙ sym c64') e3 in
    let bits : n * 8 * 64 % 2 ^ 16 ≡ n' * 8 * 64 % 2 ^ 16 =
      sym (from_be_bytes-to_be_bytes 2 (n * 8 * 64 % 2 ^ 16) (omega arith))
      ∙ ap from_be_bytes e4
      ∙ from_be_bytes-to_be_bytes 2 (n' * 8 * 64 % 2 ^ 16) (omega arith) in
    (ap head_of ei, el, ec, omega arith)

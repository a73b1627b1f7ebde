-- ===== src/Zeta/Tokens.antt =====
-- reference/src/zeta.rs: the tokens of the handshake patterns. What is left to read of a packet is a
-- list, and to read more than there is is a panic.
use mathlib.Core.List.{append-nil}
use zssp.Base.{
  subst, [], ℕ, ◌≡◌, refl, true, List, ◌++◌, Option, length, take, drop, arith, leb, if◌then◌else◌,
  length-append, take-append, drop-append,
}
use zssp.Crypto.Layer.{CryptoLayer}
use zssp.Noise.{SymmetricState, mix_hash, mix_key}
use zssp.Proto.Handshake.{p384_public_key_size}
use zssp.Results.{Outcome, ok, panic, ◌>>=◌}

-- The next `n` bytes, and the bytes behind them.
unfoldable pub read : {E : Type 0} → ℕ → List ℕ → Outcome E (List ℕ × List ℕ)
read n bytes = if leb n (length bytes) then ok (take n bytes, drop n bytes) else panic

pub read-append :
    {E : Type 0} (n : ℕ) (part rest : List ℕ)
    → length part ≡ n
    → read {E = E} n (part ++ rest) ≡ ok (part, rest)
unfolding read
read-append n part rest size =
    let enough : leb n (length (part ++ rest)) ≡ true =
      rw (length-append part rest) (ground arith) in
    rw (enough, take-append part rest n size, drop-append part rest n size) refl

pub read_whole :
    {E : Type 0} (n : ℕ) (part : List ℕ) → length part ≡ n → read {E = E} n part ≡ ok (part, [])
read_whole {E = E} n part size =
    subst (λ bytes. read {E = E} n bytes ≡ ok (part, [])) (append-nil part)
      (read-append n part [] size)

module _ (c : CryptoLayer) where
  -- `e_secret` is the key pair that is generated.
  unfoldable pub write_e : SymmetricState → c.KeyPair → List ℕ → SymmetricState × List ℕ
  unfolding mix_hash mix_key
  write_e noise e_secret packet =
      let pub_key = c.public_key_bytes e_secret in
      (mix_key c (mix_hash c noise pub_key) pub_key, packet ++ pub_key)

  -- The state, the key if it is one, and the bytes behind it.
  unfoldable pub read_e :
      {E : Type 0}
      → SymmetricState
      → List ℕ
      → Outcome E (SymmetricState × Option c.PublicKey × List ℕ)
  unfolding mix_hash mix_key read
  read_e noise packet = do
    (pub_key, rest) ← read p384_public_key_size packet
    ok (mix_key c (mix_hash c noise pub_key) pub_key, c.from_bytes pub_key, rest)

  unfoldable pub mix_dh : SymmetricState → c.KeyPair → c.PublicKey → SymmetricState
  unfolding mix_key
  mix_dh noise secret remote = mix_key c noise (c.agree secret remote)

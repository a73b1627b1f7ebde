-- ===== src/Zeta/Safe/Tokens.antt =====
-- reference/src/zeta.rs: what the handlers read from a message, and its size.
use zssp.Base.{
  ℕ, ◌-◌, ◌≤◌, ◌≡◌, sym, ap, ◌∙◌, true, false, Bool, Bool-cases, List, Option, none, some, inl, inr,
  length, drop, arith, leb, length-drop,
}
use zssp.Crypto.Layer.{CryptoLayer}
use zssp.Noise.{SymmetricState}
use zssp.Results.{
  Outcome, ok, fail_if, ok_or, fault, FaultType, invalid_packet, failed_auth, >>=-ok, ok_inj,
  ReceiveError, ◌>>=◌, ◌>>◌,
}
use zssp.Zeta.Data.{IoResult, done, failed, Zeta}
use zssp.Zeta.K1.{read_kid, read_k1}
use zssp.Zeta.K2.{read_k2}
use zssp.Zeta.Tokens.{read, read_e}
use zssp.Zeta.X2.{saved}
use zssp.Zeta.X1.{}
use zssp.Zeta.Safe.{NoPanic, bind-NoPanic, ok_or-NoPanic}

pub read-NoPanic :
    (E : Type 0) (n : ℕ) (bytes : List ℕ) → n ≤ length bytes → NoPanic (read {E = E} n bytes)
unfolding read
read-NoPanic E n bytes h = ground arith

pub read-length :
    (E : Type 0) (n : ℕ) (bytes part rest : List ℕ)
    → read {E = E} n bytes ≡ ok (part, rest)
    → length rest ≡ length bytes - n
unfolding read
read-length E n bytes part rest h = elim (Bool-cases (leb n (length bytes))) [
  | inl l ↦
      let same : drop n bytes ≡ rest = ap (λ p. p.1) (ok_inj (rw l at h)) in
      ap length (sym same) ∙ length-drop n bytes
  | inr l ↦ let no = rw l at h in cc
]

-- A handler that reads, tests or unwraps and then goes on.
pub read_then-NoPanic {κ} :
    {E : Type 0} {B : Type κ} (n : ℕ) (bytes : List ℕ) (f : List ℕ × List ℕ → Outcome E B)
    → n ≤ length bytes
    → ((part rest : List ℕ) → length rest ≡ length bytes - n → NoPanic (f (part, rest)))
    → NoPanic (read {E = E} n bytes >>= f)
read_then-NoPanic {E = E} n bytes f h k =
    bind-NoPanic (read {E = E} n bytes) f (read-NoPanic E n bytes h)
      λ (part, rest) l. k part rest (read-length E n bytes part rest l)

pub guard-NoPanic {κ} :
    {E : Type 0} {B : Type κ} (b : Bool) (e : E) (next : Outcome E B)
    → NoPanic next
    → NoPanic (fail_if b e >> next)
guard-NoPanic true e next h = tt
guard-NoPanic false e next h = h

pub need-NoPanic {ℓ κ} :
    {E : Type 0} {A : Type ℓ} {B : Type κ} (o : Option A) (e : E) (f : A → Outcome E B)
    → ((a : A) → NoPanic (f a))
    → NoPanic (ok_or o e >>= f)
need-NoPanic none e f h = tt
need-NoPanic (some a) e f h = h a

pub saved-NoPanic : (o : IoResult Bool) → NoPanic (saved o)
unfolding saved
saved-NoPanic (done true) = tt
saved-NoPanic (done false) = tt
saved-NoPanic (failed e) = tt

module _ (c : CryptoLayer) where
  pub read_e-NoPanic :
      (noise : SymmetricState) (packet : List ℕ)
      → 49 ≤ length packet
      → NoPanic (read_e c {E = ReceiveError} noise packet)
  unfolding read_e
  read_e-NoPanic noise packet h =
      bind-NoPanic (read {E = ReceiveError} 49 packet) _ (read-NoPanic ReceiveError 49 packet h)
        λ _ _. tt

  pub read_e-length :
      (noise noise' : SymmetricState) (packet rest : List ℕ) (e : Option c.PublicKey)
      → read_e c {E = ReceiveError} noise packet ≡ ok (noise', e, rest)
      → length rest ≡ length packet - 49
  unfolding read_e
  read_e-length noise noise' packet rest e h =
      let ((part, rest'), first, last) = >>=-ok (read {E = ReceiveError} 49 packet) _ h in
      let same : rest' ≡ rest = ap (λ t. t.2) (ok_inj last) in
      ap length (sym same) ∙ read-length ReceiveError 49 packet part rest' first

  pub read_kid-NoPanic :
      (noise : SymmetricState) (packet_type : ℕ) (zero_kid : FaultType) (packet : List ℕ)
      → 20 ≤ length packet
      → NoPanic (read_kid c noise packet_type zero_kid packet)
  unfolding read_kid
  read_kid-NoPanic noise packet_type zero_kid packet h =
      bind-NoPanic (read {E = ReceiveError} 4 packet) _
        (read-NoPanic ReceiveError 4 packet (omega arith))
        λ (payload, rest) l.
          let size = read-length ReceiveError 4 packet payload rest l in
          bind-NoPanic (read {E = ReceiveError} 16 rest) _
            (read-NoPanic ReceiveError 16 rest (omega (arith, size))) λ (tag, rest') _. ground arith

module _ {c : CryptoLayer} where
  pub read_k1-NoPanic :
      (zeta : Zeta c) (s : c.KeyPair) (k1 : List ℕ) → length k1 ≡ 69 → NoPanic (read_k1 zeta s k1)
  unfolding read_k1
  read_k1-NoPanic zeta s k1 size =
      bind-NoPanic (read_e c {E = ReceiveError} _ k1) _ (read_e-NoPanic c _ k1 (omega arith))
        λ (noise, e, rest) l.
          let left = read_e-length c _ noise k1 rest e l in
          bind-NoPanic (ok_or e (fault failed_auth true)) _ (ok_or-NoPanic _ _) λ e_remote _.
            bind-NoPanic (read_kid c _ 5 failed_auth rest) _
              (read_kid-NoPanic c _ 5 failed_auth rest (omega (arith, left))) λ _ _. tt

  pub read_k2-NoPanic :
      (zeta : Zeta c) (noise : SymmetricState) (e_secret : c.KeyPair) (k2 : List ℕ)
      → length k2 ≡ 69
      → NoPanic (read_k2 zeta noise e_secret k2)
  unfolding read_k2
  read_k2-NoPanic zeta noise e_secret k2 size =
      bind-NoPanic (read_e c {E = ReceiveError} noise k2) _
        (read_e-NoPanic c noise k2 (omega arith))
        λ (noise', e, rest) l.
          let left = read_e-length c noise noise' k2 rest e l in
          bind-NoPanic (ok_or e (fault failed_auth true)) _ (ok_or-NoPanic _ _)
            λ e_remote _. read_kid-NoPanic c _ 6 invalid_packet rest (omega (arith, left))

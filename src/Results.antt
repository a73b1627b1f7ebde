-- ===== src/Results.antt =====
-- reference/src/result.rs: errors as values, and the outcome of a function that can fail. The place
-- of an error in the source, a debugging aid, is left out; an error of the storage is a number.
use zssp.Base.{ℕ, ◌≡◌, refl, ap, Bool, true, false, Option, none, some}

pub data FaultType : Type 0 where
  unknown_local_key_id invalid_packet failed_auth expired_counter out_of_sequence : FaultType

pub record ByzantineFault : Type 0 where
  pub error : FaultType
  pub unnatural : Bool

pub data ReceiveError : Type 0 where
  byzantine_fault : ByzantineFault → ReceiveError
  max_key_lifetime_exceeded rejected : ReceiveError
  storage_error write_error : ℕ → ReceiveError

pub data SendError : Type 0 where
  mtu_too_small session_expired session_not_established data_too_large : SendError

abbrev pub fault : FaultType → Bool → ReceiveError
fault name unnatural = byzantine_fault (record { error = name; unnatural = unnatural })

-- `Result`, with a panic, and with a loop that has used all the random numbers it was given.
pub data Outcome {ℓ} (E : Type 0) (A : Type ℓ) : Type ℓ where
  ok : A → Outcome E A
  err : E → Outcome E A
  panic unfinished : Outcome E A

-- What follows a call with `?`: only a value goes on.
infixl 5 ◌>>=◌
abbrev pub ◌>>=◌ {u v} :
    {E : Type 0} {X : Type u} {Y : Type v} → Outcome E X → (X → Outcome E Y) → Outcome E Y
unfinished >>= next = unfinished
panic >>= next = panic
err why >>= next = err why
ok x >>= next = next x

infixl 5 ◌>>◌
abbrev pub ◌>>◌ {u} : {E : Type 0} {Y : Type u} → Outcome E (Unit {0}) → Outcome E Y → Outcome E Y
first >> next = first >>= λ done. next

-- An early return with an error.
abbrev pub fail_if : {E : Type 0} → Bool → E → Outcome E (Unit {0})
fail_if true e = err e
fail_if false e = ok tt

abbrev pub ok_or {ℓ} : {E : Type 0} {A : Type ℓ} → Option A → E → Outcome E A
ok_or none e = err e
ok_or (some a) e = ok a

abbrev pub unwrap {ℓ} : {E : Type 0} {A : Type ℓ} → Option A → Outcome E A
unwrap none = panic
unwrap (some a) = ok a

-- Where the whole gives a value, its first step gives one.
pub >>=-ok {u v} :
    {E : Type 0} {X : Type u} {Y : Type v} (first : Outcome E X) (next : X → Outcome E Y) {y : Y}
    → (first >>= next) ≡ ok y
    → (x : X) × (first ≡ ok x) × (next x ≡ ok y)
>>=-ok unfinished next h = cc
>>=-ok panic next h = cc
>>=-ok (err why) next h = cc
>>=-ok (ok x) next h = (x, refl, h)

pub ok_inj {u} : {E : Type 0} {X : Type u} {x y : X} → ◌≡◌ {A = Outcome E X} (ok x) (ok y) → x ≡ y
ok_inj {x = x} e = ap (λ o. elim o [ ok z ↦ z | err why ↦ x | panic ↦ x | unfinished ↦ x ]) e

unfoldable pub is_panic {ℓ} : {E : Type 0} {A : Type ℓ} → Outcome E A → Bool
is_panic (ok a) = false
is_panic (err e) = false
is_panic panic = true
is_panic unfinished = false

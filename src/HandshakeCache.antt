-- ===== src/HandshakeCache.antt =====
-- performance/src/handshake_cache.rs: a cache of handshake states by local id, in three arrays.
-- A `NonZeroU32` and an `i64` time are natural numbers: no time is negative, and no sum of a time and
-- the timeout reaches 2^63. The lock makes each method one step. The `Arc` of a state is its value.
pub mod Search
pub mod Insert
pub mod Service
mod Tests
use zssp.Base.{
  ℕ, zero, suc, ◌+◌, ◌-◌, ◌^◌, min, Bool, true, false, ◌&&◌, ◌||◌, List, [], ◌∷◌, Option, none,
  some, length, get_or, set, replicate, ltb, leb, ◌==◌, if◌then◌else◌,
}

pub record CacheInner {ℓ} (B : Type ℓ) : Type ℓ where
  pub local_ids : List (Option ℕ)
  pub expiries : List ℕ
  pub handshakes : List (Option B)

pub record UnassociatedHandshakeCache {ℓ} (B : Type ℓ) : Type ℓ where
  pub has_pending : Bool
  pub cache : CacheInner B

abbrev pub i64_max : ℕ
i64_max = 2 ^ 63 - 1

-- `*id == Some(local_id)`.
unfoldable pub holds : Option ℕ → ℕ → Bool
holds none local_id = false
holds (some id) local_id = id == local_id

unfoldable pub is_some {ℓ} : {A : Type ℓ} → Option A → Bool
is_some none = false
is_some (some a) = true

unfoldable pub later : Option ℕ → Option ℕ
later none = none
later (some i) = some (suc i)

-- The first slot that holds the id, in the loops of `get` and `remove`.
unfoldable pub find : List (Option ℕ) → ℕ → Option ℕ
find [] local_id = none
find (id ∷ ids) local_id =
    let rest = later (find ids local_id) in if holds id local_id then some 0 else rest

-- How the loop of `insert` ends: at a slot that may be used, at the id itself, or at the end.
pub data Scan : Type 0 where
  at : ℕ → Scan
  present : Scan
  full : Scan

unfoldable pub shift : Scan → Scan
shift (at i) = at (suc i)
shift present = present
shift full = full

unfoldable pub scan : List (Option ℕ) → List ℕ → ℕ → ℕ → Scan
scan [] expiries local_id current_time = full
scan (id ∷ ids) [] local_id current_time = full
scan (id ∷ ids) (expiry ∷ expiries) local_id current_time =
    let rest = shift (scan ids expiries local_id current_time) in
    if is_some id
    then (if leb expiry current_time then at 0 else if holds id local_id then present else rest)
    else at 0

module _ {ℓ} {B : Type ℓ} where
  unfoldable pub new : ℕ → UnassociatedHandshakeCache B
  new size = record {
    has_pending = false;
    cache = record {
      local_ids = replicate size none;
      expiries = replicate size 0;
      handshakes = replicate size none;
    };
  }

  unfoldable pub get : UnassociatedHandshakeCache B → ℕ → Option B
  get h local_id = elim (find h.cache.local_ids local_id) [
    | none ↦ none
    | some i ↦ get_or h.cache.handshakes i none
  ]

  -- One slot of the three arrays.
  unfoldable pub put : CacheInner B → ℕ → Option ℕ → ℕ → Option B → CacheInner B
  put c i id expiry handshake = record {
    local_ids = set c.local_ids i id;
    expiries = set c.expiries i expiry;
    handshakes = set c.handshakes i handshake;
  }

  -- With the timeout of the settings. The loop's `idx` stays 0 where it ends without a break.
  unfoldable pub insert :
      ℕ → UnassociatedHandshakeCache B → ℕ → B → ℕ → UnassociatedHandshakeCache B × Option ℕ
  unfolding put
  insert timeout h local_id state current_time =
      let expiry = current_time + timeout in
      let place : ℕ → UnassociatedHandshakeCache B × Option ℕ = λ idx. (
        record { has_pending = true; cache = put h.cache idx (some local_id) expiry (some state) },
        some expiry,
      ) in
      elim (scan h.cache.local_ids h.cache.expiries local_id current_time) [
        | at idx ↦ place idx
        | present ↦ (h, none)
        | full ↦ place 0
      ]

  unfoldable pub remove : UnassociatedHandshakeCache B → ℕ → UnassociatedHandshakeCache B × Bool
  unfolding put
  remove h local_id = elim (find h.cache.local_ids local_id) [
    | none ↦ (h, false)
    | some i ↦ (record h { cache = put h.cache i none 0 none }, true)
  ]

  -- The body of the loop of `service` for slot `i`, with the next service time so far.
  unfoldable pub expire_slot : ℕ → ℕ → CacheInner B → ℕ → CacheInner B × ℕ
  unfolding put
  expire_slot i current_time c next_service_time =
      let expiry = get_or c.expiries i 0 in
      if is_some (get_or c.local_ids i none)
      then (if leb expiry current_time
          then (put c i none 0 none, next_service_time)
          else (c, min next_service_time expiry))
      else (c, next_service_time)

  -- The loop from slot `i` on, for `n` slots.
  unfoldable pub expire : ℕ → ℕ → ℕ → CacheInner B → ℕ → CacheInner B × ℕ
  expire zero i current_time c next_service_time = (c, next_service_time)
  expire (suc n) i current_time c next_service_time =
      let (c', next') = expire_slot i current_time c next_service_time in
      expire n (suc i) current_time c' next'

  unfoldable pub service : UnassociatedHandshakeCache B → ℕ → UnassociatedHandshakeCache B × ℕ
  service h current_time =
      let (c, next_service_time) =
        expire (length h.cache.local_ids) 0 current_time h.cache i64_max in
      if h.has_pending
      then (record { has_pending = ltb next_service_time i64_max; cache = c }, next_service_time)
      else (h, i64_max)

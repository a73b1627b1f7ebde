-- ===== src/Zeta/Keys.antt =====
-- reference/src/zeta.rs: the keys, the counters and the timers of a session, and the key ids.
use zssp.Base.{
  ℕ, ◌+◌, ◌-◌, ◌%◌, min, Bool, true, false, ◌&&◌, ◌||◌, List, [], ◌∷◌, Option, none, some, length,
  get_or, set, ltb, leb, ◌==◌, if◌then◌else◌, u64_mod, wrapping_add,
}
use zssp.Crypto.Layer.{CryptoLayer}
use zssp.Proto.{counter_window_max_skip_ahead}
use zssp.Proto.Handshake.{hard_expiration}
use zssp.Results.{Outcome, ok, panic, unfinished, ◌>>=◌}
use zssp.Zeta.Data.{DuplexKey, Settings, Zeta, null, i64_max}

-- The maps of the context: key ids to session objects, and the session objects.
pub record SessionMap : Type 0 where
  pub session_map : List (ℕ × ℕ)
  pub sessions : List ℕ

unfoldable pub lookup {ℓ} : {A : Type ℓ} → List (ℕ × A) → ℕ → Option A
lookup [] kid = none
lookup ((k, a) ∷ m) kid = let rest = lookup m kid in if k == kid then some a else rest

unfoldable pub contains_key {ℓ} : {A : Type ℓ} → List (ℕ × A) → ℕ → Bool
unfolding lookup
contains_key m kid = elim (lookup m kid) [ some a ↦ true | none ↦ false ]

unfoldable pub remove_key {ℓ} : {A : Type ℓ} → List (ℕ × A) → ℕ → List (ℕ × A)
remove_key [] kid = []
remove_key ((k, a) ∷ m) kid =
    let rest = remove_key m kid in if k == kid then rest else (k, a) ∷ rest

unfoldable pub remove_session : List ℕ → ℕ → List ℕ
remove_session [] s = []
remove_session (t ∷ ts) s = let rest = remove_session ts s in if t == s then rest else t ∷ rest

-- The loop looks at one random number after the other.
unfoldable pub gen_kid {ℓ} : {E : Type 0} {A : Type ℓ} → List (ℕ × A) → List ℕ → Outcome E ℕ
unfolding contains_key
gen_kid session_map [] = unfinished
gen_kid session_map (kid ∷ rng) =
    let rest = gen_kid session_map rng in
    if (kid == 0) || contains_key session_map kid then rest else ok kid

unfoldable pub saturating_add : ℕ → ℕ → ℕ
saturating_add a b = min (a + b) (u64_mod - 1)

-- One round of the loop of `expire`.
unfoldable pub forget : SessionMap → DuplexKey → SessionMap
unfolding lookup remove_key remove_session
forget m key = elim key.recv.kid [
  | none ↦ m
  | some kid_recv ↦ elim (lookup m.session_map kid_recv) [
    | none ↦ m
    | some weak ↦ record {
      session_map = remove_key m.session_map kid_recv;
      sessions = remove_session m.sessions weak;
    }
  ]
]

-- The entry of a key id that `remap` takes out, and the map without it.
unfoldable pub take_out : List (ℕ × ℕ) → Option ℕ → ℕ → List (ℕ × ℕ) × ℕ
unfolding lookup remove_key
take_out session_map none session = (session_map, session)
take_out session_map (some kid) session = elim (lookup session_map kid) [
  | none ↦ (session_map, session)
  | some weak ↦ (remove_key session_map kid, weak)
]

-- The test of a counter against its slot of the window. The sum wraps around, as in a build without
-- overflow checks.
unfoldable pub takes : List ℕ → ℕ → Bool
unfolding saturating_add
takes window counter =
    let slot = get_or window (counter % length window) 0 in
    let adj_counter = saturating_add counter 1 in
    ltb slot adj_counter && leb adj_counter (wrapping_add slot counter_window_max_skip_ahead)

module _ {c : CryptoLayer} where
  unfoldable pub check_counter_window : Zeta c → ℕ → Bool
  check_counter_window zeta counter = takes zeta.counter_antireplay_window counter

  unfoldable pub update_counter_window : Zeta c → ℕ → Zeta c × Bool
  update_counter_window zeta counter =
      let window = zeta.counter_antireplay_window in
      if takes window counter
      then (
        record zeta {
          counter_antireplay_window =
              set window (counter % length window) (saturating_add counter 1);
        },
        true,
      )
      else (zeta, false)

  -- `key_index ^ is_next` chooses the key.
  unfoldable pub key_ref : Zeta c → Bool → DuplexKey
  key_ref zeta is_next =
      if zeta.key_index
      then if is_next then zeta.key0 else zeta.key1
      else if is_next
      then zeta.key1
      else zeta.key0

  -- The assignment of a whole key through `key_mut`.
  unfoldable pub key_mut : Zeta c → Bool → DuplexKey → Zeta c
  key_mut zeta is_next key =
      if zeta.key_index
      then if is_next then record zeta { key0 = key } else record zeta { key1 = key }
      else if is_next
      then record zeta { key1 = key }
      else record zeta { key0 = key }

  -- `is_held` says that the caller holds `sessions` borrowed: to borrow it again is a panic, which comes
  -- after the changes of the session.
  unfoldable pub expire :
      {E : Type 0} → Bool → Zeta c → SessionMap → Zeta c × SessionMap × Outcome E (Unit {0})
  unfolding forget
  expire is_held zeta m =
      let gone = record zeta { resend_timer = i64_max; timeout_timer = i64_max; beta = null } in
      if is_held then (gone, m, panic) else (gone, forget (forget m zeta.key0) zeta.key1, ok tt)

  unfoldable pub next_timer : Zeta c → ℕ
  next_timer zeta = min zeta.timeout_timer zeta.resend_timer

  -- The new state, and the counter with whether it is time to rekey.
  unfoldable pub get_counter : Settings → Zeta c → Zeta c × Option (ℕ × Bool)
  unfolding saturating_add
  get_counter settings zeta =
      let counter = zeta.send_counter in
      if leb hard_expiration counter then (zeta, none) else (
        record zeta { send_counter = counter + 1 },
        some (
          counter,
          leb (saturating_add zeta.key_creation_counter settings.rekey_after_key_uses) counter,
        ),
      )

  -- The map with the new id, and that id. `session` is the object of this session.
  unfoldable pub remap :
      {E : Type 0} → ℕ → Zeta c → List ℕ → SessionMap → Outcome E (SessionMap × ℕ)
  unfolding take_out gen_kid key_ref
  remap session zeta rng m =
      let (session_map, weak) = take_out m.session_map (key_ref zeta true).recv.kid session in
      do
        new_kid_recv ← gen_kid session_map rng
        ok (record m { session_map = (new_kid_recv, weak) ∷ session_map }, new_kid_recv)

-- ===== src/Zeta/Safe.antt =====
-- reference/src/zeta.rs: the keys that a session needs in each state, and what a transition may not do.
pub mod Accept
pub mod Confirm
pub mod Handshake
pub mod Payload
pub mod Timers
pub mod Tokens
pub mod Rekey
pub mod Respond
pub mod Run
mod Tests
use zssp.Base.{
  ℕ, ◌-◌, ◌<◌, ◌≤◌, ◌≡◌, ◌≢◌, refl, sym, ap, subst, ◌∙◌, true, false, Bool, Bool-cases, ◌&&◌, ◌||◌,
  not, List, [], ◌∷◌, Option, none, some, inl, inr, length, take, drop, arith, ltb, ◌==◌,
}
use zssp.Crypto.Layer.{CryptoLayer}
use zssp.Results.{
  Outcome, ok, err, panic, unfinished, fail_if, ok_or, is_panic, unwrap, fault, invalid_packet,
  unknown_local_key_id, out_of_sequence, >>=-ok, ReceiveError, ◌>>=◌,
}
use zssp.Zeta.Data.{
  App, Settings, DuplexKey, Keys, Zeta, ZetaAutomata, null, s1, s2, a1, a3, r1, r2,
}
use zssp.Zeta.X2.{same_kid}
use zssp.Zeta.Once.{authenticate-ok}
use zssp.Zeta.Auth.{to_s2, authenticate, stop_expired}
use zssp.Zeta.Confirm.{is_s1, c2_auth, received_c2_trans}
use zssp.Zeta.Control.{Step, stop, continue}
use zssp.Zeta.Keys.{SessionMap, expire, key_ref, update_counter_window, takes}
use zssp.Zeta.Nonce.{from_nonce}

abbrev pub IsPresent {ℓ} : {A : Type ℓ} → Option A → Type 0
IsPresent none = ⊥
IsPresent (some a) = Unit {0}

-- A key that is complete.
pub record HasKeys (k : DuplexKey) : Type 0 where
  pub send_kek : IsPresent k.send.kek
  pub send_nk : IsPresent k.send.nk
  pub send_kid : IsPresent k.send.kid
  pub recv_kek : IsPresent k.recv.kek
  pub recv_nk : IsPresent k.recv.nk
  pub recv_kid : IsPresent k.recv.kid

abbrev pub NoPanic {ℓ} : {E : Type 0} {A : Type ℓ} → Outcome E A → Type 0
NoPanic (ok a) = Unit {0}
NoPanic (err e) = Unit {0}
NoPanic panic = ⊥
NoPanic unfinished = Unit {0}

pub bind-NoPanic {ℓ κ} :
    {E : Type 0} {A : Type ℓ} {B : Type κ} (m : Outcome E A) (f : A → Outcome E B)
    → NoPanic m
    → ((a : A) → m ≡ ok a → NoPanic (f a))
    → NoPanic (m >>= f)
bind-NoPanic (ok a) f h k = k a refl
bind-NoPanic (err e) f h k = tt
bind-NoPanic panic f h k = h
bind-NoPanic unfinished f h k = tt

pub fail_if-NoPanic : {E : Type 0} (b : Bool) (e : E) → NoPanic (fail_if b e)
fail_if-NoPanic true e = tt
fail_if-NoPanic false e = tt

pub ok_or-NoPanic {ℓ} : {E : Type 0} {A : Type ℓ} (o : Option A) (e : E) → NoPanic (ok_or o e)
ok_or-NoPanic none e = tt
ok_or-NoPanic (some a) e = tt

pub unwrap-NoPanic {ℓ} :
    (E : Type 0) {A : Type ℓ} (o : Option A) → IsPresent o → NoPanic (unwrap {E = E} o)
unwrap-NoPanic E none h = h
unwrap-NoPanic E (some a) h = tt

pub not-false : {b : Bool} → not b ≡ false → b ≡ true
not-false {b = true} h = refl
not-false {b = false} h = cc

-- A test that lets go on is false.
pub fail_if-ok : {E : Type 0} (b : Bool) (e : E) → fail_if b e ≡ ok tt → b ≡ false
fail_if-ok true e h = cc
fail_if-ok false e h = refl

pub from_nonce-NoPanic : (E : Type 0) (n : List ℕ) → length n ≡ 12 → NoPanic (from_nonce {E = E} n)
unfolding from_nonce
from_nonce-NoPanic E n h = rw h tt

pub IsPresent-some {ℓ} : {A : Type ℓ} (o : Option A) → IsPresent o → (a : A) × (o ≡ some a)
IsPresent-some none h = absurd h
IsPresent-some (some a) h = (a, refl)

pub NoPanic-is_panic {ℓ} :
    {E : Type 0} {A : Type ℓ} (o : Outcome E A) → NoPanic o → is_panic o ≡ false
unfolding is_panic
NoPanic-is_panic (ok a) h = refl
NoPanic-is_panic (err e) h = refl
NoPanic-is_panic panic h = absurd h
NoPanic-is_panic unfinished h = refl

is_panic-NoPanic {ℓ} : {E : Type 0} {A : Type ℓ} (o : Outcome E A) → is_panic o ≡ false → NoPanic o
unfolding is_panic
is_panic-NoPanic (ok a) h = tt
is_panic-NoPanic (err e) h = tt
is_panic-NoPanic panic h = cc
is_panic-NoPanic unfinished h = tt

module _ {c : CryptoLayer} where
  pub authenticate-NoPanic :
      (zeta : Zeta c) (key n body tag : List ℕ)
      → length n ≡ 12
      → NoPanic (authenticate zeta key n body tag)
  unfolding authenticate from_nonce
  authenticate-NoPanic zeta key n body tag h = ground arith

  -- The keys that a state needs, for the next key and the current one. An offer has room for the answer
  -- to a challenge.
  abbrev pub Ready : ZetaAutomata c → DuplexKey → DuplexKey → Type 0
  Ready null next current = Unit {0}
  Ready (a1 a) next current = 32 ≤ length a.packet.payload
  Ready (a3 identity packet) next current = HasKeys next
  Ready s1 next current = HasKeys current
  Ready s2 next current = HasKeys current
  Ready (r1 noise e_secret k1) next current = HasKeys current × IsPresent next.recv.kid
  Ready (r2 k2) next current = HasKeys current × HasKeys next

  abbrev pub IsSession : Zeta c → Type 0
  IsSession zeta = Ready zeta.beta (key_ref zeta true) (key_ref zeta false)

  pub is_s1-HasKeys :
      (beta : ZetaAutomata c) (next current : DuplexKey)
      → Ready beta next current
      → is_s1 beta ≡ true
      → HasKeys current
  unfolding is_s1
  is_s1-HasKeys null next current h e = cc
  is_s1-HasKeys s1 next current h e = h
  is_s1-HasKeys s2 next current h e = cc
  is_s1-HasKeys (a1 a) next current h e = cc
  is_s1-HasKeys (a3 identity packet) next current h e = cc
  is_s1-HasKeys (r1 noise e_secret k1) next current h e = cc
  is_s1-HasKeys (r2 k2) next current h e = cc

  -- What a transition leaves is a session, and its result is no panic.
  pub record Safe {E A : Type 0} (s : Step c E A) : Type 0 where
    pub session : IsSession s.zeta
    pub no_panic : NoPanic s.result

  -- What a transition leaves is a session, and its result is a panic exactly where `due` says so.
  pub record Panics {E A : Type 0} (due : Bool) (s : Step c E A) : Type 0 where
    pub session : IsSession s.zeta
    pub panics : is_panic s.result ≡ due

  pub Safe-Panics : {E A : Type 0} (s : Step c E A) → Safe s → Panics false s
  Safe-Panics s h = record { session = h.session; panics = NoPanic-is_panic s.result h.no_panic }

  pub Panics-Safe : {E A : Type 0} (s : Step c E A) → Panics false s → Safe s
  Panics-Safe s h = record { session = h.session; no_panic = is_panic-NoPanic s.result h.panics }

  -- The states that a timeout ends.
  unfoldable pub expires : ZetaAutomata c → Bool
  expires s1 = true
  expires (r1 noise e_secret k1) = true
  expires (r2 k2) = true
  expires null = false
  expires s2 = false
  expires (a1 a) = false
  expires (a3 identity packet) = false

  pub continue-Safe :
      {A B : Type 0} (zeta : Zeta c) (m : SessionMap) (o : Outcome ReceiveError A)
      (f : A → Step c ReceiveError B)
      → IsSession zeta
      → NoPanic o
      → ((a : A) → o ≡ ok a → Safe (f a))
      → Safe (continue zeta m o f)
  unfolding continue stop
  continue-Safe zeta m (ok a) f h k l = l a refl
  continue-Safe zeta m (err e) f h k l = record { session = h; no_panic = tt }
  continue-Safe zeta m panic f h k l = absurd k
  continue-Safe zeta m unfinished f h k l = record { session = h; no_panic = tt }

  -- The same session but for the window.
  abbrev pub SameSession : Zeta c → Zeta c → Type 0
  SameSession zeta zeta' =
      zeta' ≡ record zeta { counter_antireplay_window = zeta'.counter_antireplay_window }

  pub authenticate-SameSession :
      (zeta zeta' : Zeta c) (key n body tag plain : List ℕ)
      → authenticate zeta key n body tag ≡ ok (zeta', plain)
      → SameSession zeta zeta'
  unfolding update_counter_window
  authenticate-SameSession zeta zeta' key n body tag plain h =
      let (t, counter, nonce, taken) = authenticate-ok zeta zeta' key n body tag plain h in
      let same : SameSession zeta (update_counter_window zeta counter).0 =
        elim (Bool-cases (takes zeta.counter_antireplay_window counter)) [
          | inl t ↦ rw t refl
          | inr t ↦ rw t refl
        ] in
      subst (λ r. SameSession zeta r.0) taken same

  pub same_session :
      (zeta zeta' : Zeta c) → SameSession zeta zeta' → IsSession zeta → IsSession zeta'
  unfolding key_ref
  same_session zeta zeta' same h = subst IsSession (sym same) h

  pub same_keys :
      (zeta zeta' : Zeta c) (is_next : Bool)
      → SameSession zeta zeta'
      → HasKeys (key_ref zeta is_next)
      → HasKeys (key_ref zeta' is_next)
  unfolding key_ref
  same_keys zeta zeta' is_next same h = subst (λ z. HasKeys (key_ref z is_next)) (sym same) h

  pub to_s2-Safe :
      {A : Type 0} (settings : Settings) (time r : ℕ) (before zeta : Zeta c) (m : SessionMap)
      (f : Zeta c → Step c ReceiveError A)
      → 0 < settings.rekey_time_max_jitter
      → ((zeta' : Zeta c)
          → zeta'.beta ≡ s2
          → (key_ref zeta' false ≡ key_ref zeta false)
          → Safe (f zeta'))
      → Safe (continue before m (to_s2 settings time r zeta) f)
  unfolding to_s2 continue key_ref
  to_s2-Safe settings time r before zeta m f pos k =
      let never : (settings.rekey_time_max_jitter == 0) ≡ false = ground arith in
      rw never (k _ refl refl)

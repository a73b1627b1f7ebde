-- ===== src/Zeta/Data.antt =====
-- reference/src/zeta.rs: the state of a session, and what the state machine asks of the application.
-- A time is counted from `i64::MIN`. Of a defragmenter, the state of a session has the header key, of
-- a session object its number, and a key id is a number that is not zero.
use zssp.Base.{ℕ, ◌-◌, ◌^◌, Bool, List, Option, none}
use zssp.Crypto.Layer.{CryptoLayer}
use zssp.Noise.{SymmetricState}
use zssp.Ratchet.{RatchetState, RatchetStates, CompareAndSwap}

abbrev pub i64_max : ℕ
i64_max = 2 ^ 64 - 1

abbrev pub i64_min : ℕ
i64_min = 0

pub record Keys : Type 0 where
  pub kek : Option (List ℕ)
  pub nk : Option (List ℕ)
  pub kid : Option ℕ

pub record DuplexKey : Type 0 where
  pub send : Keys
  pub recv : Keys

abbrev pub no_keys : Keys
no_keys = record { kek = none; nk = none; kid = none }

-- `DuplexKey::default`.
abbrev pub no_key : DuplexKey
no_key = record { send = no_keys; recv = no_keys }

pub record Packet : Type 0 where
  pub kid : ℕ
  pub nonce : List ℕ
  pub payload : List ℕ

-- A call of `send`, with the header key, if there is one.
pub record Sent : Type 0 where
  pub packet : Packet
  pub hk : Option (List ℕ)

pub record Settings : Type 0 where
  pub initial_offer_timeout : ℕ
  pub rekey_timeout : ℕ
  pub rekey_after_time : ℕ
  pub rekey_time_max_jitter : ℕ
  pub rekey_after_key_uses : ℕ
  pub resend_time : ℕ

-- `Result<T, std::io::Error>`.
pub data IoResult (A : Type 0) : Type 0 where
  done : A → IoResult A
  failed : ℕ → IoResult A

pub record AcceptAction : Type 0 where
  pub session_data : Option ℕ
  pub responder_disallows_downgrade : Bool
  pub responder_silently_rejects : Bool

module _ (c : CryptoLayer) where
  pub record StateA1 : Type 0 where
    pub noise : SymmetricState
    pub e_secret : c.KeyPair
    pub e1_secret : c.Kem
    pub identity : List ℕ
    pub packet : Packet

  pub record StateB2 : Type 0 where
    pub ratchet_state : RatchetState
    pub kid_send : ℕ
    pub kid_recv : ℕ
    pub hk_send : List ℕ
    pub e_secret : c.KeyPair
    pub noise : SymmetricState
    pub defrag : List ℕ

  pub data ZetaAutomata : Type 0 where
    null s1 s2 : ZetaAutomata
    a1 : StateA1 → ZetaAutomata
    a3 : List ℕ → Packet → ZetaAutomata
    r1 : SymmetricState → c.KeyPair → List ℕ → ZetaAutomata
    r2 : List ℕ → ZetaAutomata

  pub record Zeta : Type 0 where
    pub session_data : ℕ
    pub was_bob : Bool
    pub s_remote : c.PublicKey
    pub send_counter : ℕ
    pub key_creation_counter : ℕ
    pub key_index : Bool
    -- `keys[0]` and `keys[1]`.
    pub key0 : DuplexKey
    pub key1 : DuplexKey
    pub ratchet_state1 : RatchetState
    pub ratchet_state2 : Option RatchetState
    pub hk_send : List ℕ
    pub resend_timer : ℕ
    pub timeout_timer : ℕ
    pub beta : ZetaAutomata
    pub counter_antireplay_window : List ℕ
    pub defrag : List ℕ

  -- The answers of the application to the calls of one transition.
  pub record App : Type 0 where
    pub time : ℕ
    pub hello_requires_recognized_ratchet : Bool
    pub initiator_disallows_downgrade : Bool
    pub check_accept_session : c.PublicKey → List ℕ → AcceptAction
    pub restore_by_fingerprint : List ℕ → IoResult (Option RatchetState)
    pub restore_by_identity : c.PublicKey → ℕ → IoResult (Option RatchetStates)
    pub save_ratchet_state : c.PublicKey → ℕ → CompareAndSwap → IoResult Bool

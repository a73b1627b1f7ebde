-- ===== src/Zeta/Tests.antt =====
-- reference/src/zeta.rs: runs of the state machine with the sample crypto layer.
use zssp.Base.{
  ℕ, inr, ◌+◌, ◌≢◌, ◌≡◌, ◌<◌, refl, true, false, List, [], ◌∷◌, none, some, replicate, arith,
}
use zssp.Crypto.Sample.{sample, sample_laws}
use zssp.Noise.{get_ask}
use zssp.Proto.Handshake.{label_header_key}
use zssp.Ratchet.{RatchetState, is_empty, empty, new_initial_states, eq}
use zssp.Crypto.{secure_eq}
use zssp.Results.{ok, ReceiveError}
use zssp.Zeta.Data.{
  Packet, DuplexKey, s1, a3, App, done, Settings, Zeta, a1, no_key, no_keys, StateA1,
}
use zssp.Zeta.Hello.{Offer, create_a1_state, fingerprint_or_zero}
use zssp.Zeta.Kids.{gen_kid-free}
use zssp.Zeta.Keys.{SessionMap, gen_kid, key_ref, contains_key, takes, update_counter_window}
use zssp.Zeta.Timers.{Randoms}
use zssp.Zeta.Storage.{IsBalanced, updates-IsBalanced}
use zssp.Zeta.X3.{x3_update}
use zssp.Zeta.K1.{k1_update}
use zssp.Zeta.K2.{k2_update}
use zssp.Zeta.Confirm.{c1_update}
use zssp.Zeta.X1.{Answer, find_ratchet_state, restore}
use zssp.Zeta.X2.{x2_update, same_kid}
use zssp.Zeta.Auth.{authenticate, find_kid}
use zssp.Zeta.Payload.{can_send, send_payload, received_payload_in_place}
use zssp.Zeta.Delivery.{send_payload-received}
use zssp.Zeta.Once.{accept_all, received_payload_in_place_once}
use zssp.Zeta.Nonce.{to_nonce, from_nonce, to_nonce_inj, from_nonce-to_nonce}
use zssp.Zeta.Agree.Handshake.{without_response}
use zssp.Zeta.Agree.Open.{Opens, trans_to_a1-Opens}
use zssp.Zeta.Agree.Keys.{Matched, IsOffering, Completes, handshake_Established}

abbrev pub settings : Settings
settings = record {
  initial_offer_timeout = 10;
  rekey_timeout = 60;
  rekey_after_time = 3600;
  rekey_time_max_jitter = 600;
  rekey_after_key_uses = 1024;
  resend_time = 1;
}

abbrev pub app : App sample
app = record {
  time = 100;
  hello_requires_recognized_ratchet = false;
  initiator_disallows_downgrade = false;
  check_accept_session = λ s identity. record {
    session_data = some 7;
    responder_disallows_downgrade = false;
    responder_silently_rejects = false;
  };
  restore_by_fingerprint = λ rf. done none;
  restore_by_identity = λ s session_data. done (some new_initial_states);
  save_ratchet_state = λ s session_data u. done true;
}

abbrev pub no_sessions : SessionMap
no_sessions = record { session_map = []; sessions = [] }

abbrev pub offer : Offer sample
offer = record { e_secret = 3; e1_secret = 4; pow = 5 }

abbrev pub offered : StateA1 sample
offered = create_a1_state sample offer 6 10 empty none (1 ∷ 2 ∷ [])

abbrev pub alice : Zeta sample
alice = record {
  session_data = 7;
  was_bob = false;
  s_remote = 6;
  send_counter = 0;
  key_creation_counter = 0;
  key_index = true;
  key0 = record no_key { recv = record no_keys { kid = some 10 } };
  key1 = no_key;
  ratchet_state1 = empty;
  ratchet_state2 = none;
  hk_send = (get_ask sample offered.noise label_header_key).1;
  resend_timer = 101;
  timeout_timer = 110;
  beta = a1 offered;
  counter_antireplay_window = replicate 128 0;
  defrag = (get_ask sample offered.noise label_header_key).0;
}

alice-IsOffering : IsOffering sample sample_laws alice offer 6 10 (1 ∷ 2 ∷ [])
unfolding key_ref
alice-IsOffering = record { state = refl; own_kid = refl; header_keys = refl }

abbrev pub answer : Answer sample
answer = record { e_secret = 8; encapsulation = 9; kids = 20 ∷ [] }

abbrev pub randoms : Randoms sample
randoms = record { kids = 30 ∷ []; offer = offer }

handshake_Established_example :
    Completes sample sample_laws settings app app no_sessions no_sessions no_sessions 1 2 alice
      offer 5 6 10 20
      (1 ∷ 2 ∷ [])
      answer
      randoms
      7
      new_initial_states
      offered.packet.nonce
      (without_response offered.packet.payload)
unfolding fingerprint_or_zero find_ratchet_state restore secure_eq gen_kid contains_key eq
handshake_Established_example =
    handshake_Established sample sample_laws settings app app no_sessions no_sessions no_sessions 1
      2 alice offer 5 6 10 20 (1 ∷ 2 ∷ []) answer randoms 7 new_initial_states alice-IsOffering
      (omega arith) (omega arith) (omega arith) (omega arith) refl refl (omega arith) refl refl
      (λ u. refl) refl refl refl (λ u. refl) refl

-- Two sessions with matching keys.
abbrev key_ab : DuplexKey
key_ab = record {
  send = record { kek = some (1 ∷ []); nk = some (3 ∷ []); kid = some 20 };
  recv = record { kek = some (2 ∷ []); nk = some (4 ∷ []); kid = some 10 };
}

abbrev key_ba : DuplexKey
key_ba = record {
  send = record { kek = some (2 ∷ []); nk = some (4 ∷ []); kid = some 10 };
  recv = record { kek = some (1 ∷ []); nk = some (3 ∷ []); kid = some 20 };
}

abbrev pub sender : Zeta sample
sender = record alice { key_index = false; key0 = key_ba; beta = s1; send_counter = 1 }

abbrev pub receiver : Zeta sample
receiver = record alice {
  key0 = key_ab;
  beta = a3 [] (record { kid = 20; nonce = []; payload = [] });
}

matched : Matched (key_ref sender false) (key_ref receiver true)
unfolding key_ref
matched = record {
  kek1 = 2 ∷ [];
  kek2 = 1 ∷ [];
  nk1 = 4 ∷ [];
  nk2 = 3 ∷ [];
  kid1 = 10;
  kid2 = 20;
  this = refl;
  that = refl;
}

abbrev receiver' : Zeta sample
receiver' = record receiver { counter_antireplay_window = 0 ∷ (2 ∷ replicate 126 0) }

send_payload-received_example :
    let s = send_payload settings sender no_sessions (65 ∷ 66 ∷ []) in
    (packet : Packet) × (s.sent ≡ record { packet = packet; hk = some sender.hk_send } ∷ [])
    × (s.result ≡ ok tt)
    × (s.zeta.send_counter ≡ sender.send_counter + 1)
    × (received_payload_in_place receiver packet.kid packet.nonce packet.payload
        ≡ ok (receiver', 65 ∷ 66 ∷ []))
unfolding can_send find_kid key_ref same_kid update_counter_window matched takes
send_payload-received_example =
    send_payload-received sample sample_laws settings sender receiver receiver' no_sessions
      (65 ∷ 66 ∷ []) true matched refl (omega arith) refl refl

-- A packet from `sender`, and the same packet once more.
abbrev packet_bytes : List ℕ
packet_bytes = 65 ∷ (66 ∷ replicate 16 7)

received_once :
    received_payload_in_place receiver 10 (to_nonce 8 1) packet_bytes ≡ ok (receiver', 65 ∷ 66 ∷ [])
unfolding received_payload_in_place find_kid same_kid key_ref authenticate from_nonce to_nonce
    update_counter_window takes
received_once = refl

received_payload_in_place_once_example :
    received_payload_in_place (accept_all receiver' (2 ∷ [])) 10 (to_nonce 8 1) packet_bytes
    ≢ ok (receiver', 65 ∷ 66 ∷ [])
received_payload_in_place_once_example =
    received_payload_in_place_once receiver receiver' 10 10 (to_nonce 8 1) packet_bytes
      (65 ∷ 66 ∷ []) packet_bytes (2 ∷ []) (receiver', 65 ∷ 66 ∷ []) (omega arith) received_once

to_nonce_inj_example : (◌≡◌ {A = ℕ} 8 8) × (◌≡◌ {A = ℕ} 1 1)
to_nonce_inj_example = to_nonce_inj 8 8 1 1 (omega arith) (omega arith) refl

from_nonce-to_nonce_example : from_nonce {E = ReceiveError} (to_nonce 8 258) ≡ ok (8, 258)
from_nonce-to_nonce_example = from_nonce-to_nonce 8 258 (omega arith)

abbrev next_state : RatchetState
next_state = record empty { fingerprint = replicate 32 1; chain_len = 1 }

abbrev twice : Zeta sample
twice = record alice { ratchet_state2 = some next_state }

updates-IsBalanced_example :
    IsBalanced (x2_update twice 2 next_state)
    × IsBalanced (x3_update next_state new_initial_states)
    × IsBalanced (k1_update twice next_state)
    × IsBalanced (k2_update twice next_state)
    × IsBalanced (c1_update twice)
unfolding is_empty secure_eq
updates-IsBalanced_example =
    updates-IsBalanced twice 2 next_state new_initial_states refl (inr refl)

abbrev taken_kids : List (ℕ × ℕ)
taken_kids = (7, 1) ∷ []

gen_kid-free_example :
    (kid : ℕ) × (gen_kid {E = ReceiveError} taken_kids (0 ∷ (7 ∷ (9 ∷ []))) ≡ ok kid)
    × (0 < kid)
    × (contains_key taken_kids kid ≡ false)
unfolding contains_key
gen_kid-free_example = gen_kid-free taken_kids (0 ∷ 7 ∷ []) [] 9 (omega arith) refl

trans_to_a1-Opens_example :
    Opens sample sample_laws settings app app no_sessions no_sessions no_sessions 1 2 offer 5 6 10
      20
      (1 ∷ 2 ∷ [])
      (10 ∷ [])
      answer
      randoms
      7
      7
      (some new_initial_states)
      new_initial_states
      new_initial_states
unfolding fingerprint_or_zero find_ratchet_state restore secure_eq gen_kid contains_key eq
trans_to_a1-Opens_example =
    trans_to_a1-Opens sample sample_laws settings app app no_sessions no_sessions no_sessions 1 2
      offer 5 6 10 20 (1 ∷ 2 ∷ []) (10 ∷ []) answer randoms 7 7 (some new_initial_states)
      new_initial_states refl refl (omega arith) (omega arith) (omega arith) (omega arith) refl refl
      (omega arith) refl refl (λ u. refl) refl refl refl (λ u. refl) refl

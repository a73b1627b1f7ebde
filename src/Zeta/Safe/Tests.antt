-- ===== src/Zeta/Safe/Tests.antt =====
-- reference/src/zeta.rs: calls on a session with the sample crypto layer.
use zssp.Base.{◌≡◌, none, leb, ◌&&◌, ℕ, refl, true, false, List, [], ◌∷◌, replicate, arith}
use zssp.Crypto.Sample.{sample, sample_laws}
use zssp.Zeta.Confirm.{received_c1_trans}
use zssp.Zeta.Data.{Packet, StateB2, r1, s2}
use zssp.Zeta.K1.{received_k1_trans}
use zssp.Zeta.K2.{received_k2_trans}
use zssp.Zeta.Keys.{key_ref, expire}
use zssp.Zeta.Nonce.{to_nonce}
use zssp.Zeta.Run.{Call, receive_payload, receive_c1, send_data, tick, respond, end_session, run}
use zssp.Zeta.Tests.{
  settings, app, no_sessions, offered, alice, answer, randoms, offer, sender, receiver,
}
use zssp.Zeta.Timers.{service, timeout_trans, timeout_in, expired}
use zssp.Ratchet.{empty}
use zssp.Results.{is_panic}
use zssp.Zeta.X1.{received_x1_trans}
use zssp.Zeta.X2.{received_x2_trans}
use zssp.Zeta.X3.{received_x3_trans}
use zssp.Zeta.Safe.{IsSession, Panics, expires, HasKeys, NoPanic, Safe}
use zssp.Zeta.Safe.Accept.{SafeNew, received_x3_trans-SafeNew}
use zssp.Zeta.Safe.Confirm.{received_c1_trans-Safe}
use zssp.Zeta.Safe.Handshake.{received_x1_trans-NoPanic, received_x2_trans-Safe}
use zssp.Zeta.Safe.Rekey.{received_k1_trans-Safe, received_k2_trans-Safe}
use zssp.Zeta.Safe.Run.{SafeLeft, any_overdue, is_overdue, run-SafeLeft}
use zssp.Zeta.Safe.Timers.{create_a1_state-room, service-Panics}

keys : HasKeys (key_ref sender false)
unfolding key_ref
keys = record {
  send_kek = tt;
  send_nk = tt;
  send_kid = tt;
  recv_kek = tt;
  recv_nk = tt;
  recv_kid = tt;
}

receiver_keys : HasKeys (key_ref receiver true)
unfolding key_ref
receiver_keys = record {
  send_kek = tt;
  send_nk = tt;
  send_kid = tt;
  recv_kek = tt;
  recv_nk = tt;
  recv_kid = tt;
}

abbrev packet : ℕ → ℕ → Packet
packet packet_type size = record {
  kid = 20;
  nonce = to_nonce packet_type 1;
  payload = replicate size 7;
}

abbrev calls : List (Call sample)
calls =
    send_data (65 ∷ 66 ∷ [])
    ∷ (receive_payload (packet 8 18)
        ∷ (receive_c1 app 3 (packet 3 16)
            ∷ (respond 9 5 (replicate 32 0)
                ∷ (tick 9000 randoms ∷ (send_data [] ∷ (end_session ∷ []))))))

-- A service after the timeout.
tick_overdue : any_overdue settings 1 2 sender no_sessions (tick 9000 randoms ∷ []) ≡ true
unfolding any_overdue is_overdue expires
tick_overdue = refl

run-SafeLeft_example :
    SafeLeft
      (any_overdue settings 1 2 sender no_sessions calls)
      (run settings 1 2 sender no_sessions calls)
unfolding to_nonce
run-SafeLeft_example =
    run-SafeLeft sample_laws settings 1 2 sender no_sessions calls (omega arith) keys
      (tt, (refl, (refl, (refl, (tt, (tt, (tt, tt)))))))

alice_room : IsSession alice
unfolding key_ref
alice_room = create_a1_state-room sample offer 6 10 empty none (1 ∷ 2 ∷ [])

received_x1_trans-NoPanic_example :
    NoPanic (received_x1_trans sample app 2 [] offered.packet.nonce offered.packet.payload answer)
received_x1_trans-NoPanic_example =
    received_x1_trans-NoPanic sample app 2 [] offered.packet.nonce offered.packet.payload answer

received_x2_trans-Safe_example : Safe (
    received_x2_trans settings app 1 2 alice no_sessions randoms 10
      (to_nonce 1 0)
      (replicate 1653 0))
unfolding to_nonce
received_x2_trans-Safe_example =
    received_x2_trans-Safe settings app 1 2 alice no_sessions randoms 10 (to_nonce 1 0)
      (replicate 1653 0) alice_room refl

abbrev kept : StateB2 sample
kept = record {
  ratchet_state = alice.ratchet_state1;
  kid_send = 10;
  kid_recv = 20;
  hk_send = [];
  e_secret = 8;
  noise = offered.noise;
  defrag = [];
}

received_x3_trans-SafeNew_example :
    SafeNew (received_x3_trans settings app no_sessions 1 kept 20 (replicate 90 1))
received_x3_trans-SafeNew_example =
    received_x3_trans-SafeNew settings app no_sessions 1 kept 20 (replicate 90 1)

received_k1_trans-Safe_example : Safe (
    received_k1_trans settings app 1 2
      (record sender { beta = s2 })
      no_sessions
      3
      (30 ∷ [])
      20
      (to_nonce 5 1)
      (replicate 85 1))
unfolding key_ref to_nonce
received_k1_trans-Safe_example =
    received_k1_trans-Safe sample_laws settings app 1 2 (record sender { beta = s2 }) no_sessions 3
      (30 ∷ []) 20 (to_nonce 5 1) (replicate 85 1) keys refl

received_k2_trans-Safe_example : Safe (
    received_k2_trans settings app
      (record sender { key1 = sender.key0; beta = r1 offered.noise 3 [] })
      no_sessions
      20
      (to_nonce 6 1)
      (replicate 85 1))
unfolding key_ref to_nonce
received_k2_trans-Safe_example =
    received_k2_trans-Safe sample_laws settings app
      (record sender { key1 = sender.key0; beta = r1 offered.noise 3 [] }) no_sessions 20
      (to_nonce 6 1) (replicate 85 1) (keys, tt) refl

received_c1_trans-Safe_example :
    Safe (received_c1_trans settings app 3 receiver no_sessions 10 (to_nonce 3 1) (replicate 16 0))
unfolding to_nonce
received_c1_trans-Safe_example =
    received_c1_trans-Safe settings app 3 receiver no_sessions 10 (to_nonce 3 1) (replicate 16 0)
      receiver_keys (omega arith) refl

service-Panics_example :
    Panics
      (leb sender.timeout_timer 9000 && (expires sender.beta && true))
      (service true settings 1 2 sender no_sessions 9000 randoms)
service-Panics_example = service-Panics true settings 1 2 sender no_sessions 9000 randoms keys

-- It does panic.
sender_panics : is_panic (service true settings 1 2 sender no_sessions 9000 randoms).result ≡ true
unfolding service timeout_trans timeout_in expired expire is_panic
sender_panics = refl

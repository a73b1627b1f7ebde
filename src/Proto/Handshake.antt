-- ===== src/Proto/Handshake.antt =====
-- reference/src/proto.rs: the sizes, the packet types and the labels of the key exchange.
use zssp.Base.{ℕ, ◌+◌, ◌-◌, ◌*◌, List, [], ◌∷◌, u64_mod}
use zssp.Proto.{kid_size, aes_gcm_tag_size}

abbrev pub hashlen : ℕ
hashlen = 64

abbrev pub aes_256_key_size : ℕ
aes_256_key_size = 32

abbrev pub ratchet_size : ℕ
ratchet_size = 32

abbrev pub p384_public_key_size : ℕ
p384_public_key_size = 49

abbrev pub kyber_public_key_size : ℕ
kyber_public_key_size = 1568

abbrev pub kyber_ciphertext_size : ℕ
kyber_ciphertext_size = 1568

abbrev pub packet_type_handshake_hello : ℕ
packet_type_handshake_hello = 0

abbrev pub packet_type_handshake_response : ℕ
packet_type_handshake_response = 1

abbrev pub packet_type_handshake_completion : ℕ
packet_type_handshake_completion = 2

abbrev pub packet_type_key_confirm : ℕ
packet_type_key_confirm = 3

abbrev pub packet_type_ack : ℕ
packet_type_ack = 4

abbrev pub packet_type_rekey_init : ℕ
packet_type_rekey_init = 5

abbrev pub packet_type_rekey_complete : ℕ
packet_type_rekey_complete = 6

abbrev pub packet_type_session_rejected : ℕ
packet_type_session_rejected = 7

abbrev pub packet_type_data : ℕ
packet_type_data = 8

abbrev pub packet_type_challenge : ℕ
packet_type_challenge = 9

abbrev pub handshake_hello_size : ℕ
handshake_hello_size =
    kid_size
    + p384_public_key_size
    + kyber_public_key_size
    + aes_gcm_tag_size
    + 2 * ratchet_size
    + aes_gcm_tag_size

abbrev pub handshake_response_size : ℕ
handshake_response_size =
    p384_public_key_size + kyber_ciphertext_size + aes_gcm_tag_size + kid_size + aes_gcm_tag_size

abbrev pub identity_max_size : ℕ
identity_max_size = 4096

abbrev pub handshake_completion_min_size : ℕ
handshake_completion_min_size = p384_public_key_size + aes_gcm_tag_size + aes_gcm_tag_size

abbrev pub handshake_completion_max_size : ℕ
handshake_completion_max_size = handshake_completion_min_size + identity_max_size

abbrev pub key_confirmation_size : ℕ
key_confirmation_size = aes_gcm_tag_size

abbrev pub acknowledgement_size : ℕ
acknowledgement_size = aes_gcm_tag_size

abbrev pub session_rejected_size : ℕ
session_rejected_size = aes_gcm_tag_size

abbrev pub rekey_size : ℕ
rekey_size = p384_public_key_size + kid_size + aes_gcm_tag_size + aes_gcm_tag_size

abbrev pub hard_expiration : ℕ
hard_expiration = u64_mod - 1

-- Initial value of `h`: the name in ASCII, and zeros.
abbrev pub protocol_name_noise_xk : List ℕ
protocol_name_noise_xk =
    78 ∷ 111 ∷ 105 ∷ 115 ∷ 101 ∷ 95 ∷ 88 ∷ 75 ∷ 104 ∷ 102 ∷ 115 ∷ 43 ∷ 112 ∷ 115 ∷ 107 ∷ 50 ∷ 95
    ∷ 80 ∷ 51 ∷ 56 ∷ 52 ∷ 43 ∷ 75 ∷ 121 ∷ 98 ∷ 101 ∷ 114 ∷ 49 ∷ 48 ∷ 50 ∷ 52 ∷ 95 ∷ 65 ∷ 69 ∷ 83
    ∷ 71 ∷ 67 ∷ 77 ∷ 95 ∷ 83 ∷ 72 ∷ 65 ∷ 53 ∷ 49 ∷ 50 ∷ 0 ∷ 0 ∷ 0 ∷ 0 ∷ 0 ∷ 0 ∷ 0 ∷ 0 ∷ 0 ∷ 0 ∷ 0
    ∷ 0 ∷ 0 ∷ 0 ∷ 0 ∷ 0 ∷ 0 ∷ 0 ∷ 0 ∷ []

-- Initial value of `ck` for rekeying.
abbrev pub protocol_name_noise_kk : List ℕ
protocol_name_noise_kk =
    78 ∷ 111 ∷ 105 ∷ 115 ∷ 101 ∷ 95 ∷ 75 ∷ 75 ∷ 112 ∷ 115 ∷ 107 ∷ 48 ∷ 95 ∷ 80 ∷ 51 ∷ 56 ∷ 52 ∷ 95
    ∷ 65 ∷ 69 ∷ 83 ∷ 71 ∷ 67 ∷ 77 ∷ 95 ∷ 83 ∷ 72 ∷ 65 ∷ 53 ∷ 49 ∷ 50 ∷ 0 ∷ 0 ∷ 0 ∷ 0 ∷ 0 ∷ 0 ∷ 0 ∷ 0
    ∷ 0 ∷ 0 ∷ 0 ∷ 0 ∷ 0 ∷ 0 ∷ 0 ∷ 0 ∷ 0 ∷ 0 ∷ 0 ∷ 0 ∷ 0 ∷ 0 ∷ 0 ∷ 0 ∷ 0 ∷ 0 ∷ 0 ∷ 0 ∷ 0 ∷ 0 ∷ 0 ∷ 0
    ∷ 0 ∷ []

-- `b"ZSSP_OTP_TO_RATCHET"`.
abbrev pub label_otp_to_ratchet : List ℕ
label_otp_to_ratchet =
    90 ∷ 83 ∷ 83 ∷ 80 ∷ 95 ∷ 79 ∷ 84 ∷ 80 ∷ 95 ∷ 84 ∷ 79 ∷ 95 ∷ 82 ∷ 65 ∷ 84 ∷ 67 ∷ 72 ∷ 69 ∷ 84
    ∷ []

-- `b"ZSSP"`.
abbrev pub label_kbkdf_chain : List ℕ
label_kbkdf_chain = 90 ∷ 83 ∷ 83 ∷ 80 ∷ []

-- `b"ASKR"`.
abbrev pub label_ratchet_state : List ℕ
label_ratchet_state = 65 ∷ 83 ∷ 75 ∷ 82 ∷ []

-- `b"ASKH"`.
abbrev pub label_header_key : List ℕ
label_header_key = 65 ∷ 83 ∷ 75 ∷ 72 ∷ []

-- `b"ASKK"`.
abbrev pub label_kex_key : List ℕ
label_kex_key = 65 ∷ 83 ∷ 75 ∷ 75 ∷ []

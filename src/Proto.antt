-- ===== src/Proto.antt =====
-- performance/src/proto.rs: the sizes and limits of the protocol.
pub mod Handshake
use zssp.Base.{ℕ, ◌+◌, ◌-◌, ◌*◌, ◌^◌, u64_mod}

-- Sizes of the primitives, from the files of performance/src/crypto.
abbrev pub aes_gcm_tag_size : ℕ
aes_gcm_tag_size = 16

abbrev pub aes_gcm_nonce_size : ℕ
aes_gcm_nonce_size = 12

abbrev pub kid_size : ℕ
kid_size = 4

abbrev pub counter_size : ℕ
counter_size = 8

abbrev pub mac_size : ℕ
mac_size = 16

abbrev pub pow_size : ℕ
pow_size = 8

abbrev pub pow_start : ℕ
pow_start = counter_size + mac_size

abbrev pub challenge_size : ℕ
challenge_size = counter_size + mac_size + pow_size

abbrev pub difficulty : ℕ
difficulty = 13

abbrev pub header_size : ℕ
header_size = 16

abbrev pub packet_nonce_size : ℕ
packet_nonce_size = 10

abbrev pub header_auth_start : ℕ
header_auth_start = 4

abbrev pub header_auth_end : ℕ
header_auth_end = 20

abbrev pub packet_nonce_start : ℕ
packet_nonce_start = header_size - packet_nonce_size

abbrev pub fragment_no_idx : ℕ
fragment_no_idx = 4

abbrev pub fragment_count_idx : ℕ
fragment_count_idx = 5

abbrev pub max_fragments : ℕ
max_fragments = 48

abbrev pub min_packet_size : ℕ
min_packet_size = header_size + aes_gcm_tag_size

abbrev pub min_transport_mtu : ℕ
min_transport_mtu = 128

-- The greatest payload that fits `max_fragments` fragments.
unfoldable pub max_sendable_len : ℕ → ℕ
max_sendable_len mtu = (mtu - header_size) * max_fragments - aes_gcm_tag_size

abbrev pub expire_after_uses : ℕ
expire_after_uses = 2 ^ 32 - 1

abbrev pub thread_safe_counter_hard_expire : ℕ
thread_safe_counter_hard_expire = u64_mod - 1 - 2 ^ 16

abbrev pub counter_window_max_ooo : ℕ
counter_window_max_ooo = 128

abbrev pub counter_window_max_skip_ahead : ℕ
counter_window_max_skip_ahead = 2 ^ 24

abbrev pub challenge_counter_window_max_ooo : ℕ
challenge_counter_window_max_ooo = 32

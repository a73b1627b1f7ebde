-- ===== src/Zeta/Agree.antt =====
-- reference/src/zeta.rs: both sides of a handshake, what one reads from a packet that the other wrote.
pub mod Hello
pub mod Answer
pub mod Completion
pub mod Handshake
pub mod Keys
pub mod Open

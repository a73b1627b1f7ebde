-- ===== src/Zeta.antt =====
-- reference/src/zeta.rs: the session state machine of the reference implementation.
pub mod Data
pub mod Nonce
pub mod Tokens
pub mod Keys
pub mod Kids
pub mod Hello
pub mod Control
pub mod Timers
pub mod X1
pub mod X2
pub mod X3
pub mod Agree
pub mod Auth
pub mod Confirm
pub mod Payload
pub mod K1
pub mod K2
pub mod Delivery
pub mod Once
pub mod Run
pub mod Storage
pub mod Safe
mod Tests

-- ===== src/Keepalive.antt =====
-- The loops that watch a tunnel: crates/snxcore/src/tunnel/ipsec/keepalive.rs and
-- tunnel/ssl/keepalive.rs. A loop that may run for ever is its step: a round takes what the outside
-- says and gives the next state, or the loop's end. The clock is left out but for the pauses.
pub mod Ipsec
pub mod Ssl
pub mod Exhaustion

-- ===== src/Stun.antt =====
-- The package stun2: the STUN messages that tell a peer its public address, and the server that
-- tells the kind of NAT.
pub mod Message
pub mod Client
pub mod Attributes
pub mod Lookup
pub mod RoundTrip
pub mod Server
pub mod Exchange
mod Tests

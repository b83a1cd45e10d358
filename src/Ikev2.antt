-- ===== src/Ikev2.antt =====
-- pkg/ikev2: the messages of IKEv2 and their wire format.
pub mod Types
pub mod Header
pub mod Body
pub mod Sa
pub mod Ts
pub mod Cp
pub mod Payload
pub mod Match
pub mod Packet

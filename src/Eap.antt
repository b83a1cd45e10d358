-- ===== src/Eap.antt =====
-- pkg/eap: the EAP-AKA packets, their attributes, and the answer to a challenge that is out of step.
pub mod Packet
pub mod Attributes
pub mod Auts
pub mod Reauth
mod Tests

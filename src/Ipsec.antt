-- ===== src/Ipsec.antt =====
-- pkg/ipsec: the packets of the tunnel.
pub mod Esp
pub mod Socket

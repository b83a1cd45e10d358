-- ===== src/Sim.antt =====
-- pkg/sim: who answers the challenges of the network.
pub mod Soft

-- ===== src/Driver.antt =====
-- pkg/driver: the network configuration of the host.
pub mod NetTools
pub mod Transaction

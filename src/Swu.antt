-- ===== src/Swu.antt =====
-- pkg/swu: the session of the client with the gateway.
pub mod Window
pub mod Error
pub mod Fragment
pub mod Session
pub mod Message
pub mod Sending
pub mod Keys
pub mod Control
pub mod Rekey
pub mod AuthFinal
pub mod Mobike
pub mod Selector
pub mod Routes

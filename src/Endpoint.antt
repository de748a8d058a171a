-- ===== src/Endpoint.antt =====
-- internal/endpoint: the choice among the addresses of one peer.
pub mod Pick
pub mod Fastest
pub mod Choice
pub mod Switch
pub mod Window
pub mod Cooldown
pub mod Waiting

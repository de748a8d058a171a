-- ===== src/Tunnel.antt =====
-- internal/tunnel: the manager of the tunnels, and the phases of a connect and a disconnect.
pub mod Trace
pub mod Phases
pub mod Follows
pub mod Plan
pub mod Release
pub mod Rollback
pub mod Disconnect
pub mod Manager

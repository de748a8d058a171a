-- ===== src/Reconnect.antt =====
-- internal/reconnect: the monitor that reconnects dead tunnels.
pub mod Backoff
pub mod Firewall
pub mod Delays
pub mod Slots
pub mod Health
pub mod Cancels
pub mod Owners
pub mod OneRetry
pub mod Repair

-- ===== src/Helper.antt =====
-- internal/helper: the privileged helper that runs the automation engine.
pub mod Decision
pub mod Gates
pub mod State
pub mod Agreement
pub mod Mailbox
pub mod Answered
pub mod Engine
pub mod Latches

-- ===== src/Tests.antt =====
-- Tests of the definitions, and each law applied at a concrete input.
mod Rules
mod Endpoints
mod Engine
mod Evaluations
mod Frames
mod Routes
mod Config
mod Monitor
mod Tunnels
mod History
mod Updates

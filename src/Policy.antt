-- ===== src/Policy.antt =====
-- internal/policy: the analyzers of conflicts between tunnels.
pub mod Prefix
pub mod Blocks
pub mod Geometry
pub mod Report
pub mod Ties
pub mod Protection
pub mod Overlap
pub mod Dns
pub mod Domains
pub mod Analysis
pub mod Blocking

-- ===== src/Wifi.antt =====
-- internal/wifi: the automation rules that decide when a tunnel connects.
pub mod Model
pub mod Clock
pub mod Mac
pub mod Conditions
pub mod Evaluate
pub mod FirstMatch
pub mod Marking
pub mod SsidIndependence
pub mod Normalize
pub mod Migration
pub mod Window
pub mod MacLaws
pub mod Names

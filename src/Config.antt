-- ===== src/Config.antt =====
-- internal/config and internal/domain: the .conf file, its parser, serializer and validator.
pub mod Model
pub mod Accessors
pub mod Words
pub mod Parser
pub mod Printer
pub mod Lines
pub mod Numbers
pub mod Items
pub mod Fields
pub mod Steps
pub mod Interface
pub mod Peers
pub mod RoundTrip
pub mod Validator
pub mod Accepted
pub mod Verdict
pub mod Bounds

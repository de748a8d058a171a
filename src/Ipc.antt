-- ===== src/Ipc.antt =====
-- internal/ipc: the frames on the socket between the application and its helper.
pub mod Frame
pub mod Header
pub mod Stream

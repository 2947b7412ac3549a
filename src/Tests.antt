-- ===== src/Tests.antt =====
-- Concrete runs of the functions of src/: each theorem that has hypotheses is applied where they hold.
pub mod Data
pub mod Buffers
pub mod Transfers
pub mod Responses
pub mod Strings
pub mod Handler
pub mod Sharing
pub mod Files
pub mod Bodies
pub mod Connections
pub mod Requests
pub mod Process
pub mod Scripts
pub mod Framing

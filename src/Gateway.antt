-- ===== src/Gateway.antt =====
-- src/gateway: the process that clients talk to.
pub mod Registry
pub mod Router
pub mod Handler

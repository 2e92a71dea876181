-- ===== src/Worker.antt =====
-- src/common/worker and src/common/idempotency/state_log.py: the stateful workers, their write-ahead log
-- and the end-of-stream ring. The definitions stand in Hooks, Memory, Node, Ring and Messages, and those
-- of the workers with side input in SideInput and SideWorker.
pub mod Hooks
pub mod AppLaws
pub mod Memory
pub mod Node
pub mod SideInput
pub mod SideWorker
pub mod Sharding
pub mod Ring
pub mod Messages
pub mod Laws
pub mod Termination
pub mod Recovery

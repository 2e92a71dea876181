-- ===== src/Communication.antt =====
-- src/common/communication/: bytes on a TCP socket, and messages with their length in front.
pub mod Socket
pub mod Framing

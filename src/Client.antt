-- ===== src/Client.antt =====
-- src/client/main.py: the client, as it reads its files, sends its batches and collects the results.
pub mod Results
pub mod Batches
pub mod Session
pub mod Stream

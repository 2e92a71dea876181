-- ===== src/Lib.antt =====
-- The stateful workers of a distributed pipeline that looks for money laundering: a gateway sends the
-- batches of each client through a graph of stages, and each stage is a set of worker nodes fed by
-- message queues that may deliver a message again. This library models the parts that deal with
-- crashes and repeated deliveries: the client and the gateway that number what they exchange, the
-- workers that log what they handle, the workers that wait for side input, and the watchdog that
-- elects a leader and revives hosts.
--
-- Parts and files:
--   Models            src/common/models/eof.py: ends of stream and ring tokens.
--   Ids               src/common/idempotency/ids.py: the ids by which a repeated message is recognised.
--   Worker/Memory     src/common/idempotency/state_log.py with the overrides of
--                     src/common/worker/stateful_worker.py: the state in memory, snapshots, replay.
--   Worker/Node       the same, with the write-ahead log: append, compaction, cleanup, recovery.
--   Worker/Ring       src/common/worker/stateful_worker.py: the tokens that count, flush and clean up.
--   Worker/Messages   `_handle_message` (src/common/worker/worker.py) and `_handle_control_message`.
--   Worker/Hooks      what a concrete worker overrides, as a record of operations.
--   Worker/AppLaws    what recovery needs of a concrete worker, as a record of laws; its instances, in
--                     Workers/LowAmount/Durable, are the two low-amount workers.
--   Worker/Laws, Worker/Termination, Worker/Recovery   the proofs about these.
--   Worker/SideInput  src/common/worker/utils/side_input_tracker.py.
--   Worker/SideWorker src/common/worker/side_input_stateless_worker.py with stateless_worker.py, worker.py
--                     and utils/spill.py; Recovery below it is the restart.
--   Workers/AnomalyFilter, Workers/BankMapper   the two workers of that kind, as its overrides.
--   Worker/Sharding   src/common/worker/utils/sharding.py and `_flush_sharded`.
--   Workers/LowAmount, Workers/BankMax, Workers/PaymentFormat, Workers/AccountGraph,
--   Workers/PathFrequency, Workers/DuplicateAccounts
--                     the workers under src/workers/ of these names
--                     (AccountGraph: bidirectional_sharder, account_frequency_filter, path_mapper).
--   Watchdog/Election src/watchdog/main.py; Watchdog/Monitor src/watchdog/internal/health_monitor.py.
--   Client/Batches, Client/Results, Client/Session, Client/Stream
--                     src/client/main.py: reading and numbering of batches, collection of results, the
--                     sessions, and what becomes of the messages at the gateway.
--   Gateway/Registry, Gateway/Router, Gateway/Handler
--                     src/gateway/internal: client_registry.py with reaper.py, internal_router.py and
--                     client_handler.py.
--   Communication     src/common/communication: the exact read of socket/safe_socket.py, and the framing of
--                     protocol/length_prefix.py and protocol/external.py.
--   Prelude           shared types and lemmas: dictionaries, sets, texts, signed integers.
--   Tests             runs on concrete inputs.
--
-- Correspondence. A worker is a `Node`: its memory (the fields of StatefulWorker and StateLog), its
-- log, the number of appends since the last compaction, and whether it has recovered. Each handler is
-- a function from a node to a node and the list of what it hands to the middleware; none is an
-- exception. A handler runs whole under the state lock, so it is one step. A Python dict is a list of
-- pairs, a set is a list without repetitions, and a str is the list of its code points. Threads
-- of one process are steps in any order: the events of a client handler (messages, deliveries, turns of
-- the sender) and of a side input worker (main messages, side messages, drains). A client's session is
-- the list of what its receiver hands over. Every function is total by structural recursion; the
-- read of a socket has fuel for one round more than the bytes asked for, since each round but the last
-- adds a byte.
--
-- Not modelled: the middleware (RabbitMQ), the socket library, protobuf, threads, signals and configuration; the
-- bytes of the log file (a log is a list of records); amounts as floats (any type with the comparison
-- that the code uses).
pub mod Prelude
pub mod Models
pub mod Ids
pub mod Worker
pub mod Workers
pub mod Client
pub mod Gateway
pub mod Communication
pub mod Watchdog
pub mod Tests

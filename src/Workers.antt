-- ===== src/Workers.antt =====
-- workers/: the concrete nodes of the pipeline, each by its own state and overrides.
pub mod LowAmount
pub mod BankMax
pub mod PaymentFormat
pub mod AccountGraph
pub mod DuplicateAccounts
pub mod PathFrequency
pub mod AnomalyFilter
pub mod BankMapper

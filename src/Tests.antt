-- ===== src/Tests.antt =====
-- Concrete inputs: the theorems applied where their hypotheses hold, and runs of the code.
pub mod Curve
pub mod Policy
pub mod Indexer
pub mod Rpc
pub mod Pool
pub mod Logs
pub mod Site
pub mod Quotes
pub mod Times
pub mod Bundle
pub mod Exemptions
pub mod Trades
pub mod Service
pub mod Amounts
pub mod Cohort

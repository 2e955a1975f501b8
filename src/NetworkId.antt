-- ===== src/NetworkId.antt =====
-- internal/platformcontroller/networkid.go: identifiers from one sequence, with retained claims.
pub mod Scan
pub mod Reserve
pub mod Entries
pub mod Ledger
pub mod Requests
pub mod Numbers
pub mod Distinct
pub mod Allocate
pub mod Correct
pub mod Outcome

-- ===== src/Dispatch.antt =====
-- dispatch/dispatch: the remediation assistant.
pub mod Correlation
pub mod Json
pub mod Executor
pub mod Runbook
pub mod Proposal
pub mod Record
pub mod Memory
pub mod RootCause
pub mod Graph
pub mod Learning

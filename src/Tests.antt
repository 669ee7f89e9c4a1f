-- ===== src/Tests.antt =====
-- Runs of the modelled code on small inputs, and each theorem at an input that meets its
-- hypotheses.
pub mod Capture
pub mod Pfcp
pub mod Nas
pub mod Flow
pub mod Correlate
pub mod Sbi
pub mod Correlation
pub mod Search
pub mod Stores
pub mod Remediation
pub mod Tools
pub mod Incidents
pub mod PfcpDecode
pub mod NgapDecode

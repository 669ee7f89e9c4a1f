-- ===== src/Analyzer.antt =====
-- 5gcap/fivegcap: the capture analyzer.
pub mod Value
pub mod Octets
pub mod Capture
pub mod Pfcp
pub mod Nas
pub mod Ngap
pub mod Flow
pub mod Sbi
pub mod Correlate
pub mod Kpi

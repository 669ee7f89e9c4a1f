-- ===== src/Triage.antt =====
-- triage/triage: the explanation of incidents.
pub mod Memory
pub mod Search
pub mod Export
pub mod Incidents
pub mod Tools
pub mod Objective

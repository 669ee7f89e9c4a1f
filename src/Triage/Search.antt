-- ===== src/Triage/Search.antt =====
-- triage/triage/search.py: the tree search over actions.
pub mod Node
pub mod Rollout
pub mod Run
pub mod Action

-- ===== src/Release.antt =====
-- internal/release and the stores that it writes.
pub mod Graph
pub mod Planner
pub mod Tables
pub mod Store
pub mod TaskStore
pub mod Reload
pub mod Service
pub mod Effects
pub mod Audit

-- ===== src/Agents.antt =====
-- internal/agent and store/postgres/agent.go: registration, heartbeats, tasks and the states of agents.
pub mod Graph
pub mod Tables
pub mod Store
pub mod Service
pub mod Trails
pub mod Kept
pub mod Histories
pub mod Unmoved

-- ===== src/Access.antt =====
-- internal/domain/permission.go, store/postgres/domain_permission.go and role.go, and the check of
-- api/middleware/dns_permission.go: who may do what with a domain.
pub mod Levels
pub mod Store
pub mod Service
pub mod Decisions
pub mod Grants

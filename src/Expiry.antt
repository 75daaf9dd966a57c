-- ===== src/Expiry.antt =====
-- internal/domain/expiry.go and task.go, with the statements of store/postgres/domain.go that they
-- send: how near domains are to their expiry, and who is told. Times are in nanoseconds.
pub mod Status
pub mod Check
pub mod Bands
pub mod Pages
pub mod Notices

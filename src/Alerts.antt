-- ===== src/Alerts.antt =====
-- internal/alert and the statements of store/postgres/alert.go and notification.go that it sends:
-- alert events, the rules that route them, and what is sent.
pub mod Tables
pub mod Store
pub mod Engine
pub mod Deduplication
pub mod Routing
pub mod Recovery
pub mod Dispatcher
pub mod Delivery

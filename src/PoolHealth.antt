-- ===== src/PoolHealth.antt =====
-- internal/poolhealth/manager.go: the health monitor of a node pool. The state is `Model`, the
-- handlers are in `Backoff`, `Member`, `Selection`, `Snapshots` and `Monitor`; a time is the number of
-- nanoseconds since 1970, and Go's zero time is `none`.
pub mod Examples
pub mod Model
pub mod Backoff
pub mod Order
pub mod Selection
pub mod Snapshots
pub mod Monitor
pub mod Member

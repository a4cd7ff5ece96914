-- ===== src/NodePool.antt =====
-- internal/nodepool/manager.go: the stored node pools. `Model` has the types, `Validate` the checks
-- and defaults, `Store` the operations on the stored list, `Reconcile` the ones that follow changes
-- of the subscriptions, `Resolve` the reads that look members up.
pub mod Model
pub mod Validate
pub mod Resolve
pub mod Store
pub mod Reconcile
pub mod Examples

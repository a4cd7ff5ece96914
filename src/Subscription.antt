-- ===== src/Subscription.antt =====
-- internal/subscription: the stored subscriptions of proxy nodes. `Model` has the types, `Lookup` the
-- reads, `Store` the operations on the stored list, `Import` the import of node links, `Merge`
-- what a refresh makes of the nodes, `Refresh` the operations that the pools and rules follow.
pub mod Model
pub mod Lookup
pub mod Shown
pub mod Store
pub mod Import
pub mod Merge
pub mod Refresh
pub mod Manager
pub mod Examples

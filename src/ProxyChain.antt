-- ===== src/ProxyChain.antt =====
-- internal/proxychain/manager.go: the stored proxy chains. `Model` has the types, `Validate` the
-- checks, `Resolve` the reads that look nodes and pools up, `Store` the operations on the stored
-- list.
pub mod Model
pub mod Validate
pub mod Resolve
pub mod Store
pub mod Examples

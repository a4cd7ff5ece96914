-- ===== src/Lib.antt =====
-- sing-box WebUI: the control plane, written in Go, of a browser console for the sing-box proxy. It
-- stores subscriptions of proxy nodes, groups nodes into pools, links them into chains, watches the
-- pools' health, and writes the configuration that sing-box runs with.
--
-- The parts modelled, with the files of the repository and of this library:
--
-- * internal/poolhealth/manager.go, PoolHealth: the monitor that probes the nodes of a pool and points
--   the sing-box selector to one of them. `PoolHealth.Model` has the types; `Backoff` is `backoffFor`;
--   `Member` is `applyResultLocked`; `Selection` is `bestSelectionLocked`; `Snapshots` holds the state
--   of `Manager` and `updateSnapshotLocked`; `Monitor` is `StartContext`, `refreshActivity`, `checkDue`,
--   `checkDormantDue`, `checkTargets`, `probeTargets`, `validateConfig` and one turn of `run`. The
--   answers of the sing-box API and the clock are arguments of each step, and the outcomes that the
--   goroutines of `probeTargets` deliver are a list in any order. `Stop` and `waitReady`, which end and
--   delay the loop, are left out, and so are the HTTP calls.
-- * internal/nodepool/manager.go, NodePool: the stored pools. `Validate` is `validate` and
--   `validatePool`, `Store` is `Create`, `Update`, `Delete`, `Reorder` and `load`, `Reconcile` is
--   `ReconcileSubscriptionNodes`, `DeleteSubscriptionMembers` and `ReconcileReferences`, `Resolve` is
--   `get`, `toView`, `validateMembers` and `ResolveWithMembers`. The parsers of net/url and net/netip
--   are the record `Net`, and the digest of a node is a function, both arguments.
-- * internal/proxychain/manager.go, ProxyChain: the stored chains, in the same four parts. A chain's
--   pool is resolved by the pools' own `resolve_with_members`.
-- * What both stores share stands in Storage: the list in memory, the list in the file, the save that
--   may fail and its rollback, and the loop of `Reorder`. The file is replaced by a rename, so a failed
--   save leaves it alone; JSON encoding is taken to be faithful, and the file to hold the list itself.
--   Each operation runs under the manager's lock and is one step.
-- * internal/subscription/manager.go and model.go, Subscription: `Model` has the types, `Lookup` the reads
--   that the other stores make, `Shown` the views. `Store` is the part of `Create` before its refresh,
--   `Update`, `Activate`, `SelectNode`, `Reorder`, the part of `Delete` under the lock, `dueForUpdate`,
--   and `validateSubscriptionURL` of fetcher.go; `Import` is `ImportNodes`; `Merge` is `mergeNodeLists`,
--   `nodesByID` and the item that `refresh` stores; `Refresh` is `refresh`, `fetchWithFallback`,
--   `recordRefreshError`, `Delete`, `cleanupDependencies` and `Create`, over the states of the pools and
--   of the rules, which `PoolSink` and `RuleSink` (the record `Sinks`) change; `Manager` runs any calls.
--   What a fetch answers, the parsers of subscriptions, links and URLs, and the redaction of URLs are
--   arguments. An operation returns no view of the item, but `ImportNodes` its lines. A refresh is one
--   step: the lock of its id keeps other refreshes, imports and deletions of the same subscription out;
--   what the other operations do between its fetch and its save is not modelled, nor are the events
--   that the managers publish.
-- * cmd/webui/main.go makes the node pools the pool sink of the subscriptions: Wiring.
-- * internal/events/broker.go, Events: the broker of events. A subscriber's channel is the list of what
--   waits in it.
-- * internal/netsafety/address.go, Netsafety: `AllowedPublicAddress`. What net/netip says of loopback,
--   private, link-local and multicast addresses is written out as ranges.
-- * internal/supervisor/manager_linux.go and state.go, Supervisor: the manager of the sing-box process.
--   The parts of `Start` and `Stop` under the lock, `wait`, and the goroutine that restarts the process
--   after its delay are steps of a relation, in any order. `Logs` is `ringBuffer`, `Delay` is
--   `restartDelayLocked` with its jitter. The signals and the grace period of `Start` are not modelled.
-- * internal/trafficpolicy/manager.go, TrafficPolicy: the policy that switches to a download pool while
--   there is much traffic. `Calls` is `tick` and `Update` up to their calls of the control service's
--   `Apply`, and `landed` is what follows when such a call ends; `Runs` interleaves them. The rate, which
--   the code computes in floating point, is a function.
-- * internal/dnsprofile/manager.go, DnsProfile: the stored DNS profile, `validateProfile` with the checks
--   of tags, addresses and prefixes, `Update` and `load`. strconv.Atoi and the parsers of net/netip are
--   arguments.
--
-- Numbers: Go's int and int64 are the integers of Prelude.Int, with the wrap of an int64 written out
-- where the code adds latencies and doubles delays; durations and times are nanoseconds; times do not
-- overflow. Byte counts of texts are the lengths that the native strings have, and `strings.TrimSpace`
-- is written out over the code points that Unicode counts as white space. No definition runs on fuel:
-- the loops of `backoffFor` and `restartDelayLocked` recurse on the rounds that are left, which are read
-- off the failure and restart counts.
--
-- Not modelled: the parsers of subscriptions and node links, routing rules, proxy channels, the sing-box
-- configuration and its revisions, the apply and rollback of the control service, the measurements of
-- latency, connections and connectivity: planned, but for the network I/O. The HTTP interface and the
-- browser client are glue.
pub mod DnsProfile
pub mod Events
pub mod Netsafety
pub mod NodePool
pub mod PoolHealth
pub mod Prelude
pub mod ProxyChain
pub mod Storage
pub mod Subscription
pub mod Supervisor
pub mod TrafficPolicy
pub mod Wiring

-- ===== src/Topology.antt =====
-- web/src/lib/topology-view.ts: the services of the dependency graph with their status; web/src/pages/topology.tsx: the
-- page that loads and shows them.
pub mod Status
pub mod Build
pub mod Rank
pub mod Address
pub mod Load
pub mod Panel
mod Tests

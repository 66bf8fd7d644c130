-- ===== src/Query.antt =====
-- librereuse/query: what is asked of a regex or of a cluster.
pub mod Base
pub mod ClusterMatch
pub mod Fuzzy
pub mod Match
pub mod Report
mod Tests

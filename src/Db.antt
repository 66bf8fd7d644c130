-- ===== src/Db.antt =====
-- librereuse/db: regex entities, clusters of them, and the repositories that are queried.
pub mod Entity
pub mod Cluster
pub mod PatternReader
pub mod RegexRepository
pub mod ClusterRepository
pub mod Parallel
pub mod Agreement
mod Tests

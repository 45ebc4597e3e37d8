-- ===== src/Recommender.antt =====
-- internal/recommender: workload-wide recommendations from the histograms of the pods.
-- `Aggregate`, `Bounds`, `Recommend` and `Checkpoint` hold the code of the files of these names (`Bounds`
-- that of percentile.go, confidence.go, margin.go and clampToPolicy); the others are proofs.
pub mod Aggregate
pub mod Bounds
pub mod Recommend
pub mod Checkpoint
pub mod Ordering
pub mod Chain
pub mod Names
pub mod Totality
pub mod Tests
pub mod PayloadTests
mod ChainTests

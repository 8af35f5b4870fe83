-- ===== src/Examples.antt =====
-- The theorems at concrete inputs.
mod Node
mod Pipeline
mod Batch
mod Sorting
mod Merge
mod Fuse
mod Scores
mod Fleet
mod Stages
mod RoundRobin
mod Tiles
mod Wire
mod Samples
mod Evaluation
mod Dashboard

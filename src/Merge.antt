-- ===== src/Merge.antt =====
-- The tile merge: src/common/tiled_shard.py, the geometry of boxes and the suppression of
-- overlapping detections. An array is its length and its entries by index. Floats, and numpy's
-- sorting of them, are parameters.
pub mod Boxes
pub mod Suppress
pub mod Visits
pub mod Kept
pub mod Union
pub mod Fuse
pub mod Whole

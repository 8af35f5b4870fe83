-- ===== src/Stages.antt =====
-- The three services of the shard pipeline and the files between them:
-- src/apps/image-shard-inference/service/{segment,inference,stitch}.
pub mod Bus
pub mod Written
pub mod Visited
pub mod Frame
pub mod Composed
pub mod Coding
pub mod Containers
pub mod Segment
pub mod Infer
pub mod Stitch

-- ===== src/Wire.antt =====
-- The stdio protocol between a SOAM service container (python3.6) and its worker (python3.12).
-- The worker's side is src/common/worker_io.py, the container's is
-- src/apps/image-shard-inference/service/shard_wire.py. A pipe is a list of bytes and whether its
-- writing end is closed. JSON enters as a codec of request lines.
pub mod Stream
pub mod Serve
pub mod Container
pub mod Exchange
pub mod Batch

-- ===== src/Batch.antt =====
-- The batch application: src/apps/batch-inference/client/soam_client.py. The sample sets of the
-- shared folder, the division of the tasks over sending threads, and the tally of the replies.
pub mod Client
pub mod Partition
pub mod Sets
pub mod Samples
pub mod Tally

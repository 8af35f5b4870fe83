-- ===== src/Pipeline.antt =====
-- The streaming shard client: src/apps/image-shard-inference/client/shard_client.py, the threads
-- that `main` starts and the state they share.
--
-- The five threads are small-step machines over one record. A step is what a thread does between
-- two points where another may run: taking or releasing the semaphore, a section under
-- `state_lock`, a message to a SOAM session, or one fetched output. `Event` lists the steps, and a
-- step that a thread is not ready for changes nothing; so a list of events is an interleaving.
-- The SOAM sessions are the environment: an output may be unsuccessful, may fail to parse, and may
-- come twice. The image id `"%s_%d" % (run_id, i)` is written `i`. Times are whole units. Of a
-- merged result only the number of boxes is kept.
mod State
mod Steps
pub mod Frames
pub mod Slots
pub mod Dispatch
pub mod Counts
pub mod Progress
pub mod Losses
unfoldable pub use State.*
unfoldable pub use Steps.*

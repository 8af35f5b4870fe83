-- ===== src/Lib.antt =====
-- Verification of the Akida applications of Symphony: several applications that spread
-- neural-network inference over a fleet of Akida chips.
--
-- The image-shard application cuts each frame into tiles, runs the tiles as separate tasks, and
-- merges their detections into one result. Its client
-- (src/apps/image-shard-inference/client/shard_client.py) keeps a bounded number of frames in flight
-- through three SOAM sessions: segment, inference and stitch. A service container (python3.6) talks
-- to a worker process (python3.12) over stdio and a shared buffer. The merge itself is a library
-- (src/common/tiled_shard.py). The batch application sends whole samples through one session, and its
-- worker runs them on the chip. The serial application has an HTTP service on each node that maps
-- models onto its chip and runs single inputs.
--
-- Files:
--   Prelude            lists, Boolean tests, results and dictionaries that the other files share
--   Pipeline           the client's threads over their shared state: `main` of shard_client.py.
--                      Pipeline/State has its variables, Pipeline/Steps the bodies of `_finish`,
--                      `seg_submit`, `seg_fetch`, `inf_fetch`, `stitch_fetch` and `watchdog`, cut
--                      where another thread may run
--   Tiles              the layouts, the crops and the downscaling of tiled_shard.py
--   Merge              the merge of tiled_shard.py: boxes, suppression, the union-find (Merge/Union),
--                      `fuse_seam_fragments` (Merge/Fuse) and `merge_tile_detections` (Merge/Whole)
--   Decode             `decode_tile` of tiled_shard.py
--   Scores             src/common/detection_map.py
--   Wire               the stdio protocol: worker_io.py and `Py312Worker.request` of shard_wire.py;
--                      Wire/Batch has src/apps/batch-inference/service/akida_worker.py
--   Pool               `load_meta`, `frame_bytes` and `FramePool` of shard_client.py
--   Batch              the batch client, src/apps/batch-inference/client/soam_client.py: `resolve_set`,
--                      `build_pool`, `submit` and the loops of `main`
--   Chip               one Akida device: `Chip` of src/common/akida_chip.py
--   Node               the HTTP service of a node: `_init`, `do_POST` and `do_GET` of
--                      src/apps/serial-http-round-robin/service/http_server.py
--   Stages             the three services of the image-shard application, under
--                      src/apps/image-shard-inference/service: `Segmenter` of segment_worker.py,
--                      `TileDetector` of inference_worker.py, `Stitcher` of stitch_worker.py, the files
--                      that they share (Stages/Bus), and the containers' `on_invoke`
--   Fleet              src/common/fleet.py: `roster`, `workers`, and `read` with its cache
--   RoundRobin         the round-robin dashboard without its pages, `_discover_nodes`, `live_clients`,
--                      `api_load`, `api_unload` and `api_run_samples` of
--                      src/apps/serial-http-round-robin/dashboard/app.py
--   Kit                the reader of the test kits, src/common/testkit.py
--   Samples            the preparation of sample sets, src/common/prepare_samples.py; Samples/Served
--                      joins it with Pool
--   Evaluation         `collect`, `find_source_npz`, `read_dump` and `main` of scripts/eval_shard_map.py
--   Verify             scripts/verify_reference.py
--   Dashboard          the servers of the image-shard and the batch dashboard, `list_datasets`,
--                      `open_frames`, `score`, `api_run` and `api_frame` of
--                      src/apps/image-shard-inference/dashboard/app.py, and `api_run` of
--                      src/apps/batch-inference/dashboard/app.py
--   Names              src/common/akida_product.py and src/common/models.py
--   Examples           the theorems at concrete inputs
--
-- An interleaving of the client is a list of events; an event that its thread is not ready for
-- changes nothing. The services are the environment: their outputs are arbitrary, and the theorems
-- that need it say that an output names a frame that was sent (`AreHonest`). The stdio protocol has
-- a codec for JSON and the sizes of the single reads of a pipe as parameters, the merge has the float
-- operations and numpy's sorting, and the chip has the Akida runtime, each of whose calls may raise, and the files beside a model.
--
-- The stages read and write the files of one directory, which is part of their state; a call of an
-- inference worker comes from any node, in whatever state that node is then. What docker prints and
-- what the log files hold are arguments of the fleet's functions.
--
-- A dataset goes from its archive (Kit) through the preparation (Samples) into a file of bytes and a
-- sidecar, from which the client takes frames (Pool) and the dashboard draws them (Dashboard). An
-- array is its shape and the bytes of each of its entries. The scripts and the dashboard score
-- the same records (Evaluation, Scores), and `State` of Dashboard/Frame is what the server keeps
-- between requests, also where one raises after it has set a part.
--
-- Two loops run on fuel. `_read_exact` has one more than the number of bytes wanted: every read
-- that returns brings a byte. `find` of the union-find has the number of calls of `union`: each
-- makes the forest at most one deeper, and each round of the loop goes up. All other loops are
-- structural.
--
-- Not modelled: the batch container; the staging of files by the HTTP client; the choice of the
-- device at startup. Reading and writing a file of the pipeline directory fails only where the file
-- is not there, and writing a sample set does not fail. The pages of the dashboards, the drawing of
-- detections and the text that the scripts print are presentation. SOAM, numpy and the
-- Akida runtime are parameters where a theorem needs them.
mod Prelude
pub mod Tiles
pub mod Pipeline
pub mod Wire
mod Examples
pub mod Merge
pub mod Batch
pub mod Pool
pub mod Chip
pub mod Node
pub mod Names
pub mod Decode
pub mod Scores
pub mod Fleet
pub mod Stages
pub mod RoundRobin
pub mod Kit
pub mod Samples
pub mod Evaluation
pub mod Dashboard
pub mod Verify

-- ===== src/Lib.antt =====
-- A verification library for nawat, a local-first workspace for training runs: what is on local
-- disk is a disposable mirror of object storage, and what is in use is never taken away.
--
-- The parts and how they interact. Keys (nawat/keys.py) name artifacts; a key is a prefix in
-- object storage and a directory below the cache root. The object store (nawat/store.py) holds the
-- durable copies: `publish` uploads a directory and then compares manifests. Leases
-- (nawat/leases.py, nawat/process.py) say which artifacts running processes use. The cache
-- (nawat/cache.py) keeps a table of artifacts beside the directory tree, reconciles the two, and
-- frees space after it has verified each artifact against the store. Runs (nawat/runs.py) are
-- records in a table with a file beside each, and train into a lineage of checkpoints
-- (nawat/checkpoints.py), which are kept until a run has succeeded. The executor
-- (nawat/executor.py) waits for the GPU lock (nawat/gpulock.py), leases the inputs, runs the
-- trainer, publishes what it made and records how the run ended. It runs experiments only, whose
-- parameters are declared (nawat/lab/params.py) and whose plan a person has approved
-- (nawat/lab/experiment.py).
--
-- - Prelude and its children: shared names, Boolean tests, lists, dictionaries, sorting, and text
--   as lists of code points.
-- - Errors: nawat/errors.py, and results of functions that may raise; an operation that changes
--   state returns the state beside its result, so that what it wrote before it raised stays
--   written. Errors/Post says what holds after such an operation, when it returns and when it
--   raises.
-- - Keys: nawat/keys.py, function by function under the source's names. Keys/Shape inverts
--   `parse`; Keys/Safety, Keys/RoundTrip and Keys/Prefix hold the theorems.
-- - Process and Leases: nawat/process.py and nawat/leases.py over a record Host of what the
--   operating system answers. Leases/Alive and Leases/Reaping hold the theorems.
-- - Store: nawat/store.py. Store/Backend is the class ObjectStore as an interface with laws,
--   Store/Verify and Store/Publish its theorems, Store/Local the class LocalObjectStore, which has
--   the laws.
-- - Cache: nawat/cache.py. Cache is the state, the table and reconciliation; Cache/Reclaim the
--   operations that free disk; Cache/Frame and Cache/Loss the lemmas, Cache/NoLoss, Cache/Order
--   and Cache/Unused the theorems.
-- - Checkpoints: nawat/checkpoints.py. Checkpoints holds reading, sweeping, pruning and `settle`;
--   Checkpoints/Bytes the walk of `directory_bytes` with its theorem, Checkpoints/Names the names
--   of lineages with theirs, Checkpoints/Newest, Checkpoints/Pruned and Checkpoints/Settle the
--   theorems of `latest`, `prune` and `settle`.
-- - Runs: nawat/runs.py. Runs holds the records, `create` and `update`; Runs/Queue the order of
--   the queue with its theorem, Runs/Reconcile the reconciliation after a restart, with its lemmas
--   in Runs/Rows and its theorem in Runs/History, Runs/Rebuild the rebuilding from files with its
--   theorem; Runs/Updates what `update` leaves to be found.
-- - Shards: nawat/shards.py. Shards holds `pack` and `verify`, Shards/Progress what holds while
--   `pack` runs, Shards/Packed the theorem that they agree.
-- - GpuLock: nawat/gpulock.py. GpuLock holds the locks over a state World of files and holders,
--   GpuLock/Exclusion the theorems.
-- - Executor: nawat/executor.py. Executor/World is its state and the record Parts of what it
--   calls; Executor/Planning, Executor/Trainer, Executor/Outputs and Executor/Run are `_execute`
--   and its calls, a function for each of its parts; Executor/Turns is the wait for the GPU,
--   `execute`, `cancel` and the queue. Executor/Rows, Executor/KeptRows and Executor/Terminal
--   follow the row of a run through `_execute`, Executor/KeptLeases and Executor/Released its
--   leases; the modules below Executor/Turns hold the theorems on turns, cancellation and
--   abandoned runs.
-- - Params: nawat/lab/params.py. Params holds the values, `coerce` and `resolve`, over a record
--   Python of what Python does with floats and texts; Params/Kinds and Params/Layers the theorems.
--   A tuple counts as a list.
-- - Sweep: nawat/lab/sweep.py. Sweep holds `split_values`, the combinations and the combined hash;
--   Sweep/Values and Sweep/Grid the theorems.
-- - Approval: the approval in nawat/lab/experiment.py, over a record Hashes of the hash functions
--   and a record Site of the files and the environment; Approval/Required and Approval/Given the
--   theorems.
-- - Examples: every theorem that has a hypothesis at a concrete input, and runs of the operations.
--
-- Bounds and abstractions. Numbers are natural numbers: times are whole clock ticks, sizes are
-- bytes. Loops recur on their lists; the one exception, the walk of `directory_bytes` in
-- Checkpoints/Bytes, has the number of folders in the tree as its fuel, and a turn of the loop
-- lists one folder. `wait_for_turn` of the executor has one element of a list for each turn of its
-- loop, what the other processes do while it sleeps; where the list ends before the turn of the
-- run comes, the result is that it is still waiting. The tables have a row under its key, for the
-- text of the key; where the cache reads the text back with `Key.parse`, so does the model, but
-- leases keep the key that was given, and the keys of the tables are taken to come from
-- `Key.parse`. Exceptions that are no `Exception`, such as an interrupt from the keyboard,
-- failures of the database, of the log and of writing `run.json`, and a lock file that cannot be
-- opened do not occur. Which member of a tar file is stored as a link is a parameter. The texts of
-- `error` that quote a number or an exception are fixed texts. A file is its size and time, since
-- sizes are all that the program compares. The local disk holds its files by path and its marker
-- files by directory; a directory that holds nothing is not represented. One operation of the
-- cache reads the clock once. Where SQL leaves the order of equal rows open, the model takes one
-- order. An upload sends files in order; after a failure each remaining file is sent or not as an
-- oracle says, as the thread pool may.
--
-- Not modelled. Messages of errors, progress callbacks, logging, and the text formats of SQL rows
-- and JSON files. The S3 client is the parameter ObjectStore: a listing that succeeds is what the
-- store holds, and a put that succeeds has stored the file at its size without touching the other
-- files of its key. The size of a tar file, what `shutil.rmtree` leaves behind, the digits that
-- Python reads, and the SHA-256 of a text are parameters too. The JSON forms of the records are
-- left out. In the executor, the clock, the scripts, the trainer and its exit code, what other
-- processes do while it waits, and the calls of the cache, the store and the checkpoints are the
-- parameters Parts and Waiting; the environment and the log of the trainer are left out. Of
-- experiments only the approval is modelled; of `experiment.json` the parts that the approval
-- reads, with parameters and inputs as texts. The other parts of the repository are listed with
-- reasons in the manifest.
pub mod Prelude
pub mod Errors
pub mod Keys
pub mod Process
pub mod Leases
pub mod Store
pub mod Cache
pub mod Checkpoints
pub mod Runs
pub mod Shards
pub mod GpuLock
pub mod Executor
pub mod Params
pub mod Sweep
pub mod Approval
pub mod Examples

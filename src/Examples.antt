-- ===== src/Examples.antt =====
-- The theorems at concrete inputs, and runs of the operations on small data.
mod Checkpoints
mod GpuLock
mod Shards
mod Runs
mod Executor
mod Turns
mod Params
mod Sweep
mod Approval
mod Keys
mod Leases
mod Bucket
mod Stores
mod Caches

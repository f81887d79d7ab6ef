-- ===== src/Executor.antt =====
-- nawat/executor.py: running one training job, from staging to its last record.
pub mod World
pub mod Planning
pub mod Trainer
pub mod Outputs
pub mod Run
pub mod Turns
pub mod Rows
pub mod KeptRows
pub mod Terminal
pub mod KeptLeases
pub mod Released

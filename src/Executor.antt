-- ===== src/Executor.antt =====
-- tortoise/backends/base/executor.py: what the executor sends to the database for an object.
-- The SQL text is pypika's: a statement stands for it, with its columns and its parameters.
pub mod Update
pub mod Insert
pub mod Prefetch
pub mod Plan

-- ===== src/Jobs.antt =====
-- services/api/job_queue.py
pub mod Record
pub mod Request
pub mod Exec
pub mod State
pub mod Queue
pub mod Worker
pub mod Reads
pub mod Codec
mod Rules
pub mod Saved
pub mod Invariant
pub mod System
pub mod Durable

-- ===== src/Artifacts.antt =====
-- The artifact files of the conversion queue: the content-addressed store of
-- services/api/artifact_store.py, and what `JobQueue._persist`, `JobQueue._delete_persisted` and
-- `JobQueue._cleanup_unreferenced_artifacts` of services/api/job_queue.py do with it.
pub mod Store
pub mod Stored
pub mod Saved
pub mod References
pub mod RoundTrip
pub mod Kept
pub mod Intact
mod Tests

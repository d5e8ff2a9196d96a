-- ===== src/Reviews.antt =====
-- The recording of a reviewer's decision (services/api/review_decision_workflow.py) with the roles of
-- services/api/poc_web.py, over the repository as an interface.
pub mod Roles
pub mod Record
pub mod Guarded
pub mod Stored
pub mod Programs
mod Tests

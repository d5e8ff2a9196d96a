-- ===== src/Lib.antt =====
-- Verification of VeriDoc, a service that converts and validates regulated documents.
--
-- The parts that are modelled, and where:
--
-- Jobs (services/api/job_queue.py): the conversion queue. Record and Request hold its records and
-- the comparison of requests, State the tables of `JobQueue` and their small writes, Queue the
-- methods that create, publish and discard jobs, Worker those that run them, Reads those that only
-- read. A method is a program of the monad of Exec, a state with errors. Each method holds the
-- queue's lock from its start to its end, so that a run of several threads is a sequence of whole
-- calls: System gives it as the relations `Step` and `Reach`. The SQLite tables are the interface
-- `Persistence`: a save or a delete may succeed or raise, at any time. `uuid4` and the clock are
-- arguments; a new job has an id that the queue has not seen. Invariant states what holds of the
-- tables, Reads.Served and Reads.Listed what the reading methods hand out, Codec how values and
-- jobs are written for the durable queue and read back, where a JSON text stands for its value,
-- Rules and Saved the rules of reasoning about a method, and the children of System what the calls
-- do.
--
-- Jobs.Durable (services/api/job_queue.py): the database as an instance of `Persistence`, with its
-- rows, which Codec.Job encodes and decodes, and a list of the faults to come: `upsert` is the
-- transaction of `_persist`, `delete_with` that of `_delete_persisted`. Matched says how the rows
-- stand to the tables in memory; Writes, Calls and Births show what each method does to them,
-- Faults what a failure behind the commit does. Durable.Restart is `_restore_jobs`: Reading and
-- Seen what it decodes, Load its loop over the rows, Loop the one over the interrupted jobs, Line,
-- Standing and Bounds the deque, Recovery and Carried the whole and Promise what it means for the
-- jobs.
--
-- Artifacts (services/api/artifact_store.py, services/api/job_queue.py): the files behind the
-- rows. Store is `ArtifactFileStore` over the folders and files that it touches, References the
-- table of artifact rows with the file side of `_persist`, `_delete_persisted` and
-- `_cleanup_unreferenced_artifacts`, and Stored, Saved, RoundTrip, Intact and Kept what can be
-- read afterwards. SHA-256 is an argument. Of the errors of the file system, those are modelled
-- that the kinds of the files at a path lead to.
--
-- Templates (core/ir/template_versions.py): the registry of template versions. Version and
-- Timestamp read texts as the two regular expressions and datetime.fromisoformat of Python 3.12
-- do, Calendar has the moments, Registry the constructor, Select the methods; Unique, Written and
-- the children of Select say what they mean. The clock is an argument.
--
-- Validate (core/validate/automatic.py): the automatic validation of extracted items and tables
-- against the expected records. Categories reads texts as GMP review categories, Records the
-- fields of a record, Conditions the extraction metadata; Item and Table are the two validations
-- and Decision their outcome. The order in which Python goes through a set is a parameter: of the
-- known categories of one length, and of the matching cells.
--
-- Audit (services/api/persistence_contracts.py): the contracts of audit actions, in Contracts, and
-- their lookup by alias, in Aliases.
--
-- Reviews (services/api/review_decision_workflow.py, with ROLE_PERMISSIONS of
-- services/api/poc_web.py): the recording of a reviewer's decision. Roles says who may record
-- what, Record is the workflow, over `Repository`, an interface whose operations may raise at any
-- time and whose transactions are rolled back when their body or the commit raises, which holds of
-- one that is not itself a transaction's. Guarded and Stored say what a call went through and what
-- it leaves, with the rules of Programs.
--
-- Py: Python's dynamic values, with its equality, floats as exact dyadic numbers, and the text
-- operations that the code uses. Prelude: numbers, dicts and lists.
--
-- Every definition is total. Loops are structural recursion on a list or a text, so there is no
-- fuel. Integers are unbounded, as Python's are; float(n) overflows from 2^1024 - 2^970.
--
-- Not modelled: the migration of old tables of the durable queue and the repository behind the
-- reviews, which are SQL, the configured path of the artifact store, the parsers and renderers,
-- which call libraries, the calls of language models, the HTTP service and the desktop client.
-- Jobs.Durable keeps the contents of the artifact files with the rows, and Artifacts takes the
-- rows of the jobs for granted; a restart is given whether the files are read. int() refuses more
-- than 4300 digits, which version numbers are not held to here. `casefold` is modelled as far as
-- the ASCII characters of its result go, which is all that the validation looks at. Dicts whose
-- values do not equal themselves (a NaN) are outside the theorem on repeated requests.
pub mod Prelude
pub mod Py
pub mod Jobs
pub mod Validate
pub mod Audit
pub mod Templates
pub mod Artifacts
pub mod Reviews

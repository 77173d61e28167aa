-- ===== src/Lib.antt =====
-- Parts of the Polder research pipeline, which keeps its state as JSON records in directories
-- under `.research` and the evidence directories: tasks with leases, systematic reviews with their
-- runs, evidence, its classifications and their reviews, and the rules of the decision package.
-- Evidence that is registered is classified; the classifications are reviewed; a systematic review
-- reads sources and segments.
--
-- Base: the names that all modules share; `Result` and `Exec` for code that raises, with and
--   without stored state; `Dir` for a directory of JSON records, where `write_atomic` of
--   src/polder_research/atomic.py writes a record that its schema accepts, or refuses; `Time` for
--   timestamps; `Text` for the pattern of record ids.
-- Tasks: src/polder_research/tasks/__init__.py. The state is `Store`, the directories of the tasks
--   and of the lease files. `write_task`, `update_task_status`, `acquire_lease` and `release_lease`
--   are functions of that name; `require_task`, `save`, `grant` and `freed` are the reads and checks
--   in them, in the order of the source; `log_lease` is the second write of `acquire_lease`, which can
--   fail when the task is already replaced. Modules: Leasing, Opening, Frame (all operations).
-- Method: src/polder_research/research_methods/__init__.py. `Method.Records.Store` holds runs,
--   protocols, searches, candidates, screenings, appraisals, extractions, and the sources and
--   segments of src/polder_research/evidence/__init__.py that a review reads. An operation that
--   writes is a pure function of the state that makes the record or refuses (`screening_decision`,
--   `candidate_record`, ...), followed by the write (`store_screening`, ...).
--   Reading: `_record`, `_records`, `_frozen_for_run`. Protocol: `create_protocol`,
--   `freeze_protocol`. Collect: `record_search`, `_dedupe_key`, `register_candidate`. Screening:
--   `record_screening_decision`, `adjudicate_screening`. Final: `_final_decision`,
--   `_final_extraction`. Extraction: `record_appraisal`, `record_extraction`,
--   `adjudicate_extraction`. Flow: `screening_flow`. Complete: `validate_run_for_completion`.
--   All later operations read what the earlier ones wrote, and each first calls `frozen_for_run`.
--
-- Runs: src/polder_research/runs/__init__.py, on the same state: `write_run`, `update_run_status`,
--   which asks `frozen_for_run` and `validate_run_for_completion` before a review is completed.
-- Evidence: src/polder_research/evidence/__init__.py. `Evidence.Records.Store` holds a directory for
--   each kind of record. Sources: `register_source`, `find_duplicate_source`, `acquire_source`. Links
--   and Register: the checks (`segment_record`, `edge_record`, ...) and the operations of that name.
--   Persist: a record is written once, or before and after its classification. Integrity: what
--   records refer to, and every sequence of calls. Acquired: content and duplicates.
-- Classification: src/polder_research/classification/__init__.py and classification_review.py beside
--   it. `classify_text` first asks `request` (`lock_key`: what the name of the lock needs; Provider:
--   `select_provider` and the checks of the hosted provider), then gives a settled record of the
--   same request or stores a new attempt, whose decisions Answers reads from the reply. Hosted: with
--   the labels of evidence. Review: `record_review` on the directory of reviews.
-- Decision: `remote_eligibility` of src/polder_research/decision/privacy.py and `evaluate_field` of
--   src/polder_research/decision/policy.py, pure functions; Projection:
--   `build_effective_projection` of src/polder_research/decision/projection.py, which reads the
--   classifications and the active reviews; Scheduler: `LayaBatchScheduler` of
--   src/polder_research/decision/scheduler.py, whose state is the queue of requests.
--
-- Parameters of the model: the verdict of each JSON schema on a record, the digest of a protocol's
-- content, the replies of classification providers, the fingerprint of a classification request,
-- what a classification does to an evidence record, the router of the batch scheduler, Python's
-- text functions and digests in `_dedupe_key`, the check of an export file, new ids, the readings
-- of the clock, whether the privacy preflight finds anything, whether the completion check has an
-- issue with the audit report, and the comparisons of scores. A clock reading is a number of
-- microseconds; in Method it is the value of `_now`, in whole seconds. A directory is a list of
-- files in the order in which they are read, and a new file stands last. Loops are structural
-- recursion over lists; there is no fuel. Of a record only the fields that the code reads or
-- copies are modelled.
--
-- A failure of the file system at a write is modelled at the second write of `acquire_lease`;
-- elsewhere a write stores its record, or refuses it by the schema and changes nothing.
--
-- Not modelled: the audit report of a review and the part of the completion check that reads it;
-- the event that `acquire_source` writes and the file of the effective projection; the usage,
-- runtime and routing fields of a classification; the other components of the package (decision
-- engine and providers, classification operations, workflow, handoffs, maintenance, agents, the
-- web console, the scripts); the file locks, which an operation waits for and holds throughout,
-- and the temporary file of an atomic write.
pub mod Base
pub mod Classification
pub mod Decision
pub mod Evidence
pub mod Method
pub mod Runs
pub mod Tasks

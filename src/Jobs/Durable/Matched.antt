-- ===== src/Jobs/Durable/Matched.antt =====
-- How the rows of the database stand to the tables in memory (services/api/job_queue.py).
use veri_doc.Prelude.{
  String, ◌≡◌, refl, ◌∙◌, sym, true, false, Option, none, some, arith, eq_iff, ◌==◌, if◌then◌else◌,
  Bool-cases, inl, inr,
}
use veri_doc.Prelude.Int.{ℤ}
use veri_doc.Prelude.Dict
use veri_doc.Prelude.Dict.{Dict, get-put, get-remove}
use veri_doc.Prelude.Lists.{contains}
use veri_doc.Jobs.Record.{JobRecord, is_queued}
use veri_doc.Jobs.Codec.Job.{encode_job}
use veri_doc.Jobs.State.{JobQueue}
use veri_doc.Jobs.Durable.{Database, Row}

-- A queued job's row has its place in the deque.
abbrev pub IsRowOf : Dict ℤ → String → JobRecord → Row → Type 0
IsRowOf seqs id job row =
    (row.0 ≡ encode_job job) × (is_queued job.status ≡ true → row.1 ≡ Dict.get seqs id)

-- The row is the encoding of the job that is there.
abbrev pub IsJobOf : Option JobRecord → Row → Type 0
IsJobOf found row = (job : JobRecord) × (found ≡ some job) × (row.0 ≡ encode_job job)

-- The published jobs have rows, and nothing else has.
pub record Matched (q : JobQueue Database) : Type 0 where
  pub stored :
      (id : String) (job : JobRecord)
      → Dict.get q.jobs id ≡ some job
      → contains q.unpublished_job_ids id ≡ false
      → (row : Row) × (Dict.get q.store.rows id ≡ some row) × IsRowOf q.pending_sequences id job row
  pub known :
      (id : String) (row : Row)
      → Dict.get q.store.rows id ≡ some row
      → IsJobOf (Dict.get q.jobs id) row × (contains q.unpublished_job_ids id ≡ false)

-- One job's tables change, and its row with them; the others' stay.
pub Matched-at :
    (q q' : JobQueue Database) (id : String)
    → Matched q
    → ((j : String) → (id == j) ≡ false → Dict.get q'.jobs j ≡ Dict.get q.jobs j)
    → ((j : String)
        → (id == j) ≡ false
        → Dict.get q'.pending_sequences j ≡ Dict.get q.pending_sequences j)
    → ((j : String)
        → (id == j) ≡ false
        → contains q'.unpublished_job_ids j ≡ contains q.unpublished_job_ids j)
    → ((j : String) → (id == j) ≡ false → Dict.get q'.store.rows j ≡ Dict.get q.store.rows j)
    → ((job : JobRecord)
        → Dict.get q'.jobs id ≡ some job
        → contains q'.unpublished_job_ids id ≡ false
        → (row : Row) × (Dict.get q'.store.rows id ≡ some row)
          × IsRowOf q'.pending_sequences id job row)
    → ((row : Row)
        → Dict.get q'.store.rows id ≡ some row
        → IsJobOf (Dict.get q'.jobs id) row × (contains q'.unpublished_job_ids id ≡ false))
    → Matched q'
Matched-at q q' id h jobs seqs hides rows stored known = record {
  stored = λ j job found public. elim (Bool-cases (id == j)) [
    | inl hit ↦
        let same : id ≡ j = (eq_iff id j).0 hit in
        rw (← same) (stored job (rw same found) (rw same public))
    | inr miss ↦
        let r = h.stored j job (sym (jobs j miss) ∙ found) (sym (hides j miss) ∙ public) in
        (r.0, rows j miss ∙ r.1, (r.2.0, λ waits. r.2.1 waits ∙ sym (seqs j miss)))
  ];
  known = λ j row found. elim (Bool-cases (id == j)) [
    | inl hit ↦ let same : id ≡ j = (eq_iff id j).0 hit in rw (← same) (known row (rw same found))
    | inr miss ↦
        let r = h.known j row (sym (rows j miss) ∙ found) in
        let (job, there, is) = r.0 in ((job, jobs j miss ∙ there, is), hides j miss ∙ r.1)
  ];
}

-- The tables that the rows answer to are the same.
abbrev Same : JobQueue Database → JobQueue Database → Type 0
Same q q' =
    (q'.jobs ≡ q.jobs)
    × (q'.pending_sequences ≡ q.pending_sequences)
    × (q'.unpublished_job_ids ≡ q.unpublished_job_ids)
    × (q'.store.rows ≡ q.store.rows)

pub Same-Matched : (q q' : JobQueue Database) → Matched q → Same q q' → Matched q'
Same-Matched q q' h (jobs, seqs, hides, rows) = record {
  stored = λ j job. rw (jobs, seqs, hides, rows) (h.stored j job);
  known = λ j row. rw (jobs, hides, rows) (h.known j row);
}

module _ (q q' : JobQueue Database) (id : String) (h : Matched q) where
  -- A published job and its row are written together.
  pub Matched-saved :
      (job : JobRecord) (s t : Option ℤ)
      → ((j : String) → Dict.get q'.jobs j ≡ (if id == j then some job else Dict.get q.jobs j))
      → ((j : String)
          → Dict.get q'.pending_sequences j
            ≡ (if id == j then t else Dict.get q.pending_sequences j))
      → ((j : String)
          → contains q'.unpublished_job_ids j
            ≡ (if id == j then false else contains q.unpublished_job_ids j))
      → ((j : String)
          → Dict.get q'.store.rows j
            ≡ (if id == j then some (encode_job job, s) else Dict.get q.store.rows j))
      → (is_queued job.status ≡ true → s ≡ t)
      → Matched q'
  Matched-saved job s t jobs seqs hides rows place =
      let own = (eq_iff id id).1 refl in
      let here : Dict.get q'.jobs id ≡ some job = ground (arith, jobs id) in
      let shown : contains q'.unpublished_job_ids id ≡ false = ground (arith, hides id) in
      let written : Dict.get q'.store.rows id ≡ some (encode_job job, s) =
        ground (arith, rows id) in
      let sequence : Dict.get q'.pending_sequences id ≡ t = ground (arith, seqs id) in
      Matched-at q q' id h (λ j miss. rw (jobs j, miss) refl) (λ j miss. rw (seqs j, miss) refl)
        (λ j miss. rw (hides j, miss) refl) (λ j miss. rw (rows j, miss) refl)
        (λ job' found public. (
          (encode_job job, s),
          written,
          (ground arith, λ waits. place (ground arith) ∙ sym sequence),
        ))
        (λ row found. ((job, here, ground arith), shown))

  -- A job without a row goes, or one that stays unpublished comes.
  pub Matched-hidden :
      ((j : String) → (id == j) ≡ false → Dict.get q'.jobs j ≡ Dict.get q.jobs j)
      → ((j : String)
          → (id == j) ≡ false
          → Dict.get q'.pending_sequences j ≡ Dict.get q.pending_sequences j)
      → ((j : String)
          → (id == j) ≡ false
          → contains q'.unpublished_job_ids j ≡ contains q.unpublished_job_ids j)
      → ((j : String)
          → Dict.get q'.store.rows j ≡ (if id == j then none else Dict.get q.store.rows j))
      → ((job : JobRecord)
          → Dict.get q'.jobs id ≡ some job
          → contains q'.unpublished_job_ids id ≡ true)
      → Matched q'
  Matched-hidden jobs seqs hides rows hidden =
      let own = (eq_iff id id).1 refl in
      let lost : Dict.get q'.store.rows id ≡ none = ground (arith, rows id) in
      Matched-at q q' id h jobs seqs hides (λ j miss. rw (rows j, miss) refl)
        (λ job found public. ground (arith, hidden job)) (λ row found. ground arith)

-- ===== src/Jobs/Durable/Restart/Seen.antt =====
-- The rows as `_restore_jobs` (services/api/job_queue.py) decodes them, and the tables with the jobs
-- that it finds.
use veri_doc.Prelude.{
  String, ◌≡◌, refl, [], ◌∷◌, Option, none, some, Option-cases, arith, eq_iff, ◌==◌, ◌∙◌, ap,
  Bool-cases, inl, inr,
}
use veri_doc.Prelude.Dict
use veri_doc.Prelude.Dict.{
  Dict, Distinct, map_values, map_found, get-map_values, Distinct-map_values, get-empty,
}
use veri_doc.Jobs.Record.{JobRecord, ok}
use veri_doc.Jobs.Codec.Job.{encode_job}
use veri_doc.Jobs.Codec.JobRoundTrip.{reread, IsProperJob, decode_job-encode_job}
use veri_doc.Jobs.State.{JobQueue}
use veri_doc.Jobs.Invariant.{Inv, key_of, status_of, is_active}
use veri_doc.Jobs.Durable.{Row, Database}
use veri_doc.Jobs.Durable.Restart.{Loaded, load_rows}
use veri_doc.Jobs.Durable.Restart.Carried.{runs}

-- What is read of a row of a job.
abbrev loaded_of : Option Row → Option JobRecord → Option Loaded
loaded_of (some row) (some job) = some (reread job, row.1)
loaded_of _ _ = none

-- Each row encodes a job of Python values.
abbrev pub Readable : Dict JobRecord → Dict Row → Type 0
Readable jobs base =
    (id : String) (row : Row)
    → Dict.get base id ≡ some row
    → (job : JobRecord) × (Dict.get jobs id ≡ some job)
      × (row.0 ≡ encode_job job)
      × (IsProperJob job)

abbrev pub IsRead : Dict JobRecord → Dict Row → Dict Loaded → Type 0
IsRead jobs base rows =
    (load_rows base ≡ ok rows)
    × ((id : String) → Dict.get rows id ≡ loaded_of (Dict.get base id) (Dict.get jobs id))
    × Distinct rows

get_head : (k : String) (row : Row) (base : Dict Row) → Dict.get ((k, row) ∷ base) k ≡ some row
unfolding Dict.get
get_head k row base = ground (arith, eq_iff k k)

get_tail :
    (k : String) (row : Row) (base : Dict Row) (id : String) (row' : Row)
    → Distinct ((k, row) ∷ base)
    → Dict.get base id ≡ some row'
    → Dict.get ((k, row) ∷ base) id ≡ some row'
unfolding Dict.get
get_tail k row base id row' d found = ground (arith, eq_iff k id, d.0)

read_first :
    (k : String) (row : Row) (job : JobRecord) (base : Dict Row) (jobs : Dict JobRecord)
    (rows : Dict Loaded) (id : String)
    → Dict.get jobs k ≡ some job
    → Dict.get rows id ≡ loaded_of (Dict.get base id) (Dict.get jobs id)
    → Dict.get ((k, (reread job, row.1)) ∷ rows) id
      ≡ loaded_of (Dict.get ((k, row) ∷ base) id) (Dict.get jobs id)
unfolding Dict.get
read_first k row job base jobs rows id there at = elim (Bool-cases (k == id)) [
  | inl hit ↦ rw (hit, ← (eq_iff k id).0 hit, there) refl
  | inr miss ↦ rw miss at
]

pub loaded_of-job :
    (o : Option Row) (j : Option JobRecord) (row : Loaded)
    → loaded_of o j ≡ some row
    → (r : Row) × (o ≡ some r) × ((job : JobRecord) × (j ≡ some job) × (reread job ≡ row.0))
loaded_of-job (some r) (some job) row e =
    let same : ◌≡◌ {A = Loaded} (reread job, r.1) row = ground arith in
    (r, refl, (job, refl, ap (λ l. l.0) same))
loaded_of-job (some r) none row e = ground arith
loaded_of-job none j row e = ground arith

pub load_rows-IsRead :
    (jobs : Dict JobRecord) (base : Dict Row)
    → Distinct base
    → Readable jobs base
    → (rows : Dict Loaded) × IsRead jobs base rows
unfolding load_rows
load_rows-IsRead jobs [] d h =
    ([], (refl, (λ id. rw (get-empty {V = Loaded} id, get-empty {V = Row} id) refl), tt))
load_rows-IsRead jobs ((k, row) ∷ base) d h =
    let (job, there, is, proper) = h k row (get_head k row base) in
    let (rows, whole) =
      load_rows-IsRead jobs base d.1 (λ id r found. h id r (get_tail k row base id r d found)) in
    let (loads, at, apart) = whole in
    (
      (k, (reread job, row.1)) ∷ rows,
      (
        rw (is, decode_job-encode_job job proper, loads) refl,
        (λ id. read_first k row job base jobs rows id there (at id)),
        (at k ∙ rw d.0 refl, apart),
      ),
    )

-- The queue with its jobs as JSON gives them back.
abbrev pub seen : JobQueue Database → JobQueue Database
seen q = record q { jobs = map_values reread q.jobs }

status_of-reread : (o : Option JobRecord) → status_of (map_found reread o) ≡ status_of o
status_of-reread none = refl
status_of-reread (some job) = refl

key_of-reread : (o : Option JobRecord) → key_of (map_found reread o) ≡ key_of o
key_of-reread none = refl
key_of-reread (some job) = refl

pub runs-reread : (o : Option JobRecord) → runs (map_found reread o) ≡ runs o
runs-reread none = refl
runs-reread (some job) = refl

-- Every job of the queue holds Python values.
abbrev pub AllProper : JobQueue Database → Type 0
AllProper q = (id : String) (job : JobRecord) → Dict.get q.jobs id ≡ some job → IsProperJob job

module _ (q : JobQueue Database) (h : Inv q) where
  pub preimage :
      (id : String) (job : JobRecord)
      → Dict.get (seen q).jobs id ≡ some job
      → (j : JobRecord) × (Dict.get q.jobs id ≡ some j) × (reread j ≡ job)
  preimage id job found = elim (Option-cases (Dict.get q.jobs id)) [
    | inl lost ↦ ground (arith, get-map_values reread q.jobs id)
    | inr (j, there) ↦ (j, there, ground (arith, get-map_values reread q.jobs id))
  ]

  same_status :
      (id : String) → status_of (Dict.get (seen q).jobs id) ≡ status_of (Dict.get q.jobs id)
  same_status id = rw (get-map_values reread q.jobs id) (status_of-reread (Dict.get q.jobs id))

  same_key : (id : String) → key_of (Dict.get (seen q).jobs id) ≡ key_of (Dict.get q.jobs id)
  same_key id = rw (get-map_values reread q.jobs id) (key_of-reread (Dict.get q.jobs id))

  pub Inv-seen : Inv (seen q)
  Inv-seen = record {
    distinct = Distinct-map_values reread q.jobs h.distinct;
    keyed =
        λ id job found. let (j, there, e) = preimage id job found in rw (← e) (h.keyed id j there);
    indexed = λ id job found.
        let (j, there, e) = preimage id job found in rw (← e) (h.indexed id j there);
    bound = λ key id e. same_key id ∙ h.bound key id e;
    pending_queued = λ id e. same_status id ∙ h.pending_queued id e;
    pending_public = h.pending_public;
    unpublished_queued = λ id e. same_status id ∙ h.unpublished_queued id e;
    sequenced = h.sequenced;
    ascending = h.ascending;
    before_next = h.before_next;
    single_high_quality = λ i j a b found_a found_b active_a active_b.
        let (x, there_x, ex) = preimage i a found_a in
        let (y, there_y, ey) = preimage j b found_b in
        h.single_high_quality i j x y there_x there_y (ap is_active ex ∙ active_a)
          (ap is_active ey ∙ active_b);
  }

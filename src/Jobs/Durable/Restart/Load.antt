-- ===== src/Jobs/Durable/Restart/Load.antt =====
-- The loop of `_restore_jobs` (services/api/job_queue.py) over the rows: what it reads of a row that
-- stands for a job of its id.
use veri_doc.Prelude.{
  ℕ, suc, String, ◌≡◌, refl, Bool, true, false, ◌||◌, ◌&&◌, List, [], ◌∷◌, ◌++◌, Option, none, some,
  arith, eq_iff, ◌==◌, ◌∙◌, Bool-cases, inl, inr, if◌then◌else◌,
}
use veri_doc.Prelude.Int.{ℤ}
use veri_doc.Prelude.Dict
use veri_doc.Prelude.Dict.{Dict, get-put, get-empty, Distinct}
use veri_doc.Jobs.Record.{JobRecord, is_running, is_queued}
use veri_doc.Jobs.Durable.Restart.{
  Loaded, Waiting, Interrupted, Scan, add_waiting, scan_row, scan_rows,
}
use veri_doc.Jobs.Durable.Restart.Loop.{rejoin_all, AllKnown, interrupts}

unfoldable pub waits : List Waiting → String → Bool
waits [] id = false
waits (w ∷ ws) id = w.job_id == id || waits ws id

-- The row of each id holds the job of that id.
abbrev pub Keyed : Dict Loaded → Type 0
Keyed rows = (id : String) (row : Loaded) → Dict.get rows id ≡ some row → row.0.job_id ≡ id

-- The idempotency key of each row's job leads to it.
abbrev pub OwnsJobs : Dict String → Dict Loaded → Type 0
OwnsJobs index rows =
    (id : String) (row : Loaded)
    → Dict.get rows id ≡ some row
    → Dict.get index row.0.idempotency_key ≡ some id

abbrev pub job_of : Option Loaded → Option JobRecord → Option JobRecord
job_of none old = old
job_of (some row) old = some row.0

abbrev pub is_interrupted : Option Loaded → Bool
is_interrupted none = false
is_interrupted (some row) = is_running row.0.status

abbrev pub has_place : Option ℤ → Bool
has_place none = false
has_place (some s) = true

abbrev pub is_waiting : Option Loaded → Bool
is_waiting none = false
is_waiting (some row) = is_queued row.0.status && has_place row.1

pub get_cons :
    (k : String) (row : Loaded) (rows : Dict Loaded) (id : String)
    → Dict.get ((k, row) ∷ rows) id ≡ (if k == id then some row else Dict.get rows id)
unfolding Dict.get
get_cons k row rows id = refl

module _ (k : String) (row : Loaded) (rows : Dict Loaded) (d : Distinct ((k, row) ∷ rows)) where
  pub tail_get :
      (id : String) (row' : Loaded)
      → Dict.get rows id ≡ some row'
      → Dict.get ((k, row) ∷ rows) id ≡ some row'
  tail_get id row' found = ground (arith, get_cons k row rows id, eq_iff k id, d.0)

  pub head_get : Dict.get ((k, row) ∷ rows) k ≡ some row
  head_get = ground (arith, get_cons k row rows k, eq_iff k k)

  module _ (keyed : Keyed ((k, row) ∷ rows)) where
    pub Keyed-head : row.0.job_id ≡ k
    Keyed-head = keyed k row head_get

    pub Keyed-tail : Keyed rows
    Keyed-tail id row' found = keyed id row' (tail_get id row' found)

pub scan_rows-jobs :
    (n : ℕ) (rows : Dict Loaded) (s : Scan) (id : String)
    → Distinct rows
    → Keyed rows
    → Dict.get (scan_rows n rows s).jobs id ≡ job_of (Dict.get rows id) (Dict.get s.jobs id)
unfolding scan_rows scan_row
scan_rows-jobs n [] s id d keyed = rw (get-empty {V = Loaded} id) refl
scan_rows-jobs n ((k, row) ∷ rows) s id d keyed =
    scan_rows-jobs (suc n) rows (scan_row n row s) id d.1 (Keyed-tail k row rows d keyed)
    ∙ ground (
      arith,
      get_cons k row rows id,
      get-put s.jobs row.0.job_id id row.0,
      Keyed-head k row rows d keyed,
      eq_iff k id,
      d.0,
    )

interrupts-append :
    (rs : List Interrupted) (r : Interrupted) (id : String)
    → interrupts (rs ++ r ∷ []) id ≡ (interrupts rs id || r.job.job_id == id)
unfolding interrupts
interrupts-append [] r id = ground arith
interrupts-append (x ∷ rs) r id = ground (arith, interrupts-append rs r id)

waits-append :
    (ws : List Waiting) (w : Waiting) (id : String)
    → waits (ws ++ w ∷ []) id ≡ (waits ws id || w.job_id == id)
unfolding waits
waits-append [] w id = ground arith
waits-append (x ∷ ws) w id = ground (arith, waits-append ws w id)

pub append-waits :
    (vs ws : List Waiting) (id : String) → waits (vs ++ ws) id ≡ (waits vs id || waits ws id)
unfolding waits
append-waits [] ws id = ground arith
append-waits (v ∷ vs) ws id = ground (arith, append-waits vs ws id)

pub rejoin_all-waits :
    (first : ℤ) (index : ℕ) (rs : List Interrupted) (id : String)
    → waits (rejoin_all first index rs) id ≡ interrupts rs id
unfolding waits interrupts rejoin_all
rejoin_all-waits first index [] id = refl
rejoin_all-waits first index (r ∷ rs) id = ground (arith, rejoin_all-waits first (suc index) rs id)

pub scan_rows-interrupts :
    (n : ℕ) (rows : Dict Loaded) (s : Scan) (id : String)
    → Distinct rows
    → Keyed rows
    → interrupts (scan_rows n rows s).running id
      ≡ (interrupts s.running id || is_interrupted (Dict.get rows id))
unfolding scan_rows scan_row
scan_rows-interrupts n [] s id d keyed = rw (get-empty {V = Loaded} id) (ground arith)
scan_rows-interrupts n ((k, row) ∷ rows) s id d keyed =
    let r : Interrupted = record { rowid = n; sequence = row.1; job = row.0 } in
    scan_rows-interrupts (suc n) rows (scan_row n row s) id d.1 (Keyed-tail k row rows d keyed)
    ∙ ground (
      arith,
      get_cons k row rows id,
      interrupts-append s.running r id,
      Keyed-head k row rows d keyed,
      eq_iff k id,
      d.0,
    )

add_waiting-waits :
    (o : Option ℤ) (n : ℕ) (k : String) (ws : List Waiting) (id : String)
    → waits (add_waiting o n k ws) id ≡ (waits ws id || has_place o && k == id)
add_waiting-waits none n k ws id = ground arith
add_waiting-waits (some s) n k ws id =
    waits-append ws (record { sequence = s; rowid = n; job_id = k }) id

pub scan_rows-waits :
    (n : ℕ) (rows : Dict Loaded) (s : Scan) (id : String)
    → Distinct rows
    → Keyed rows
    → waits (scan_rows n rows s).pending id ≡ (waits s.pending id || is_waiting (Dict.get rows id))
unfolding scan_rows scan_row
scan_rows-waits n [] s id d keyed = rw (get-empty {V = Loaded} id) (ground arith)
scan_rows-waits n ((k, row) ∷ rows) s id d keyed =
    scan_rows-waits (suc n) rows (scan_row n row s) id d.1 (Keyed-tail k row rows d keyed)
    ∙ ground (
      arith,
      get_cons k row rows id,
      add_waiting-waits row.1 n row.0.job_id s.pending id,
      Keyed-head k row rows d keyed,
      eq_iff k id,
      d.0,
    )

pub get_at :
    {V : Type 0} {k id : String} (d : Dict V) (v : V)
    → k ≡ id
    → Dict.get d id ≡ some v
    → Dict.get d k ≡ some v
get_at d v same found = rw same found

AllKnown-append :
    (jobs : Dict JobRecord) (keys : Dict String) (rs : List Interrupted) (r : Interrupted)
    → AllKnown jobs keys rs
    → Dict.get jobs r.job.job_id ≡ some r.job
    → is_running r.job.status ≡ true
    → Dict.get keys r.job.idempotency_key ≡ some r.job.job_id
    → AllKnown jobs keys (rs ++ r ∷ [])
AllKnown-append jobs keys [] r all found runs own = (found, runs, own, tt)
AllKnown-append jobs keys (x ∷ rs) r all found runs own =
    (all.0, all.1, all.2, AllKnown-append jobs keys rs r all.3 found runs own)

-- Each interrupted job that the loop finds is one of the rows.
pub scan_rows-AllKnown :
    (jobs : Dict JobRecord) (keys : Dict String) (n : ℕ) (rows : Dict Loaded) (s : Scan)
    → Distinct rows
    → Keyed rows
    → OwnsJobs keys rows
    → ((id : String) (row : Loaded) → Dict.get rows id ≡ some row → Dict.get jobs id ≡ some row.0)
    → AllKnown jobs keys s.running
    → AllKnown jobs keys (scan_rows n rows s).running
unfolding scan_rows scan_row
scan_rows-AllKnown jobs keys n [] s d keyed own there all = all
scan_rows-AllKnown jobs keys n ((k, row) ∷ rows) s d keyed own there all =
    let at : row.0.job_id ≡ k = Keyed-head k row rows d keyed in
    let first = head_get k row rows d in
    scan_rows-AllKnown jobs keys (suc n) rows (scan_row n row s) d.1 (Keyed-tail k row rows d keyed)
      (λ id row' found. own id row' (tail_get k row rows d id row' found))
      (λ id row' found. there id row' (tail_get k row rows d id row' found))
      (elim (Bool-cases (is_running row.0.status)) [
        | inl runs ↦ rw runs (
            AllKnown-append jobs keys s.running _ all (get_at jobs row.0 at (there k row first))
              runs (rw at (own k row first)))
        | inr idle ↦ rw idle all
      ])

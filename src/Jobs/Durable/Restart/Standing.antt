-- ===== src/Jobs/Durable/Restart/Standing.antt =====
-- Which job stands before which in the deque that `_restore_jobs` (services/api/job_queue.py) builds.
use veri_doc.Prelude.{
  String, ◌≡◌, refl, Bool, true, false, List, [], ◌∷◌, ◌++◌, arith, eq_iff, ◌==◌, ◌∙◌, sym,
  Bool-cases, inl, inr, if◌then◌else◌,
}
use mathlib.Core.List.{append-nil, append_assoc}
use veri_doc.Prelude.Int.{ℤ, ◌≤ℤ◌, ◌<ℤ◌}
use veri_doc.Prelude.Lists.{contains}
use veri_doc.Jobs.State.{JobQueue, push_pending}
use veri_doc.Jobs.Durable.{Database}
use veri_doc.Jobs.Durable.Restart.{Waiting, line_up}
use veri_doc.Jobs.Durable.Restart.Load.{waits}
use veri_doc.Jobs.Durable.Restart.Line.{AllFrom, IsOrdered, IsAt}

abbrev ids_of : List Waiting → List String
ids_of [] = []
ids_of (w ∷ ws) = w.job_id ∷ ids_of ws

line_up-ids :
    (ws : List Waiting) (q : JobQueue Database)
    → (line_up ws q).pending_job_ids ≡ q.pending_job_ids ++ ids_of ws
unfolding line_up push_pending
line_up-ids [] q = sym (append-nil q.pending_job_ids)
line_up-ids (w ∷ ws) q =
    line_up-ids ws (push_pending w.job_id w.sequence q)
    ∙ append_assoc q.pending_job_ids (w.job_id ∷ []) (ids_of ws)

-- `b` stands behind the first `a`.
unfoldable pub stands_before : List String → String → String → Bool
stands_before [] a b = false
stands_before (x ∷ xs) a b = if x == a then contains xs b else stands_before xs a b

ids_of-contains : (ws : List Waiting) (id : String) → contains (ids_of ws) id ≡ waits ws id
unfolding contains waits
ids_of-contains [] id = refl
ids_of-contains (w ∷ ws) id = ground (arith, ids_of-contains ws id)

AllFrom-waits :
    (n : ℤ) (ws : List Waiting) (id : String) (s : ℤ)
    → AllFrom n ws
    → IsAt id s ws
    → waits ws id ≡ true
    → n ≤ℤ s
unfolding waits
AllFrom-waits n [] id s from at there = ground arith
AllFrom-waits n (w ∷ ws) id s from at there = elim (Bool-cases (w.job_id == id)) [
  | inl hit ↦ let e = at.0 ((eq_iff w.job_id id).0 hit) in rw (← e) from.0
  | inr miss ↦ AllFrom-waits n ws id s from.1 at.1 (ground arith)
]

ordered-stands_before :
    (ws : List Waiting) (i j : String) (s t : ℤ)
    → IsOrdered ws
    → IsAt i s ws
    → IsAt j t ws
    → s <ℤ t
    → waits ws i ≡ true
    → waits ws j ≡ true
    → stands_before (ids_of ws) i j ≡ true
unfolding waits stands_before
ordered-stands_before [] i j s t order at_i at_j lt wi wj = ground arith
ordered-stands_before (w ∷ ws) i j s t order at_i at_j lt wi wj =
    elim (Bool-cases (w.job_id == i)) [
      | inl hit ↦
          let e = at_i.0 ((eq_iff w.job_id i).0 hit) in
          ground (arith, ids_of-contains ws j, at_j.0, eq_iff w.job_id j)
      | inr miss ↦ elim (Bool-cases (w.job_id == j)) [
        | inl front ↦
            let e = at_j.0 ((eq_iff w.job_id j).0 front) in
            let le = AllFrom-waits w.sequence ws i s order.0 at_i.1 (ground arith) in ground arith
        | inr behind ↦ rw miss (
            ordered-stands_before ws i j s t order.1 at_i.1 at_j.1 lt (ground arith) (ground arith))
      ]
    ]

-- Of two entries of an ordered line, the one with the lower sequence stands first in the deque.
pub line_up-stands_before :
    (ws : List Waiting) (q : JobQueue Database) (i j : String) (s t : ℤ)
    → q.pending_job_ids ≡ []
    → IsOrdered ws
    → IsAt i s ws
    → IsAt j t ws
    → s <ℤ t
    → waits ws i ≡ true
    → waits ws j ≡ true
    → stands_before (line_up ws q).pending_job_ids i j ≡ true
line_up-stands_before ws q i j s t none_yet order at_i at_j lt wi wj =
    rw (line_up-ids ws q, none_yet) (ordered-stands_before ws i j s t order at_i at_j lt wi wj)

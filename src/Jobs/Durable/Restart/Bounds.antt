-- ===== src/Jobs/Durable/Restart/Bounds.antt =====
-- The next sequence number after `_restore_jobs` (services/api/job_queue.py).
use veri_doc.Prelude.{
  String, ◌≡◌, refl, List, [], ◌∷◌, some, arith, Bool-cases, inl, inr, if◌then◌else◌,
}
use veri_doc.Prelude.Int.{ℤ, pos, ◌+ℤ◌, ltb_ℤ, ◌≤ℤ◌, ◌<ℤ◌, int_laws}
use veri_doc.Prelude.Dict
use veri_doc.Prelude.Dict.{Dict, get-put, get-empty, Distinct}
use veri_doc.Jobs.State.{JobQueue, push_pending}
use veri_doc.Jobs.Durable.{Database}
use veri_doc.Jobs.Durable.Restart.{
  Waiting, goes_first, insert, sorted, line_up, greatest_from, next_after,
}

-- Every entry's sequence is below `n`.
abbrev AllUnder : ℤ → List Waiting → Type 0
AllUnder n [] = Unit
AllUnder n (w ∷ ws) = (w.sequence <ℤ n) × AllUnder n ws

abbrev AllAtMost : ℤ → List Waiting → Type 0
AllAtMost n [] = Unit
AllAtMost n (w ∷ ws) = (w.sequence ≤ℤ n) × AllAtMost n ws

AllAtMost-AllUnder : (n : ℤ) (ws : List Waiting) → AllAtMost n ws → AllUnder (n +ℤ pos 1) ws
AllAtMost-AllUnder n [] h = tt
AllAtMost-AllUnder n (w ∷ ws) h = (grind int_laws, AllAtMost-AllUnder n ws h.1)

le_trans : (a b c : ℤ) → a ≤ℤ b → b ≤ℤ c → a ≤ℤ c
le_trans a b c h k = ground arith

greater-bounds : (m s : ℤ) (k : ℤ) → (if ltb_ℤ m s then s else m) ≡ k → (m ≤ℤ k) × (s ≤ℤ k)
greater-bounds m s k e = elim (Bool-cases (ltb_ℤ m s)) [
  | inl more ↦ rw (← e, more) (ground arith, ground arith)
  | inr less ↦ rw (← e, less) (ground arith, ground arith)
]

greatest_from-bound :
    (m : ℤ) (ws : List Waiting) → (m ≤ℤ greatest_from m ws) × AllAtMost (greatest_from m ws) ws
unfolding greatest_from
greatest_from-bound m [] = (ground arith, tt)
greatest_from-bound m (w ∷ ws) =
    let k = if ltb_ℤ m w.sequence then w.sequence else m in
    let r = greatest_from-bound k ws in
    let b = greater-bounds m w.sequence k refl in
    (
      le_trans m k (greatest_from k ws) b.0 r.0,
      (le_trans w.sequence k (greatest_from k ws) b.1 r.0, r.1),
    )

next_after-AllUnder : (ws : List Waiting) (d : ℤ) → AllUnder (next_after ws d) ws
unfolding next_after
next_after-AllUnder [] d = tt
next_after-AllUnder (w ∷ ws) d =
    let r = greatest_from-bound w.sequence ws in
    AllAtMost-AllUnder (greatest_from w.sequence ws) (w ∷ ws) r

insert-AllUnder :
    (n : ℤ) (w : Waiting) (ws : List Waiting)
    → w.sequence <ℤ n
    → AllUnder n ws
    → AllUnder n (insert w ws)
unfolding insert
insert-AllUnder n w [] lt h = (lt, tt)
insert-AllUnder n w (v ∷ vs) lt h = elim (Bool-cases (goes_first v w)) [
  | inl later ↦ rw later (h.0, insert-AllUnder n w vs lt h.1)
  | inr now ↦ rw now (lt, h)
]

sorted-AllUnder : (n : ℤ) (ws : List Waiting) → AllUnder n ws → AllUnder n (sorted ws)
unfolding sorted
sorted-AllUnder n [] h = tt
sorted-AllUnder n (w ∷ ws) h = insert-AllUnder n w (sorted ws) h.0 (sorted-AllUnder n ws h.1)

line_up-under :
    (n : ℤ) (ws : List Waiting) (q : JobQueue Database)
    → AllUnder n ws
    → ((id : String) (s : ℤ) → Dict.get q.pending_sequences id ≡ some s → s <ℤ n)
    → (id : String) (s : ℤ) → Dict.get (line_up ws q).pending_sequences id ≡ some s
    → s <ℤ n
unfolding line_up push_pending
line_up-under n [] q h old id s found = old id s found
line_up-under n (w ∷ ws) q h old id s found =
    line_up-under n ws (push_pending w.job_id w.sequence q) h.1
      (λ j t there. ground (arith, get-put q.pending_sequences w.job_id j w.sequence, old j t, h.0))
      id s found

-- The number behind the line's is above every sequence in it.
pub line_up-next :
    (ws : List Waiting) (q : JobQueue Database) (d : ℤ)
    → q.pending_sequences ≡ []
    → (id : String) (s : ℤ) → Dict.get (line_up (sorted ws) q).pending_sequences id ≡ some s
    → s <ℤ next_after ws d
line_up-next ws q d fresh id s found =
    line_up-under (next_after ws d) (sorted ws) q
      (sorted-AllUnder (next_after ws d) ws (next_after-AllUnder ws d))
      (λ j t there. ground (arith, get-empty {V = ℤ} j)) id s found

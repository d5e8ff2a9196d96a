-- ===== src/Reviews/Programs.antt =====
-- What a program of several steps that may raise changes and answers, for the proofs about
-- services/api/review_decision_workflow.py.
use veri_doc.Prelude.{Bool, true, false, ◌≡◌, refl, ap, arith, ◌⊎◌, inl, inr}
use veri_doc.Jobs.Record.{Error, Result, ok, err}
use veri_doc.Jobs.Exec.{Exec, resume, return, raise_if, lift, ◌>>=◌}

resume_kept :
    {S A B : Type 0} (o : Result A) (s' s : S) (f : A → Exec S B)
    → s' ≡ s
    → ((a : A) → (f a s).1 ≡ s)
    → (resume o f s').1 ≡ s
resume_kept (ok a) s' s f e k = rw e (k a)
resume_kept (err x) s' s f e k = e

-- Two programs that change nothing, one after the other, change nothing.
pub bind_kept :
    {S A B : Type 0} (m : Exec S A) (f : A → Exec S B) (s : S)
    → (m s).1 ≡ s
    → ((a : A) → (f a s).1 ≡ s)
    → ((m >>= f) s).1 ≡ s
unfolding ◌>>=◌
bind_kept m f s e k = resume_kept (m s).0 (m s).1 s f e k

resume_same :
    {S A B : Type 0} (o : Result A) (s : S) (f : A → Exec S B)
    → ((a : A) (t : S) → (f a t).1 ≡ t)
    → (resume o f s).1 ≡ s
resume_same (ok a) s f k = k a s
resume_same (err x) s f k = refl

-- What follows changes nothing.
pub bind_same :
    {S A B : Type 0} (m : Exec S A) (f : A → Exec S B) (s : S)
    → ((a : A) (t : S) → (f a t).1 ≡ t)
    → ((m >>= f) s).1 ≡ (m s).1
unfolding ◌>>=◌
bind_same m f s k = resume_same (m s).0 (m s).1 f k

resume_run :
    {S A B : Type 0} (o : Result A) (s : S) (f : A → Exec S B) (a : A)
    → o ≡ ok a
    → resume o f s ≡ f a s
resume_run (ok x) s f a e = let same : x ≡ a = ground arith in ap (λ y. f y s) same
resume_run (err x) s f a e = ground arith

pub bind_run :
    {S A B : Type 0} (m : Exec S A) (f : A → Exec S B) (s : S) (a : A)
    → (m s).0 ≡ ok a
    → (m >>= f) s ≡ f a (m s).1
unfolding ◌>>=◌
bind_run m f s a e = resume_run (m s).0 (m s).1 f a e

resume_cases :
    {S A B : Type 0} (o : Result A) (s : S) (f : A → Exec S B)
    → ((resume o f s).1 ≡ s) ⊎ ((a : A) × (o ≡ ok a) × (resume o f s ≡ f a s))
resume_cases (ok a) s f = inr (a, refl, refl)
resume_cases (err x) s f = inl refl

pub bind_cases :
    {S A B : Type 0} (m : Exec S A) (f : A → Exec S B) (s : S)
    → (((m >>= f) s).1 ≡ (m s).1) ⊎ ((a : A) × ((m s).0 ≡ ok a) × ((m >>= f) s ≡ f a (m s).1))
unfolding ◌>>=◌
bind_cases m f s = resume_cases (m s).0 (m s).1 f

pub lift_kept : {S A : Type 0} (o : Result A) (s : S) → (lift o s).1 ≡ s
unfolding lift
lift_kept o s = refl

pub return_kept : {S A : Type 0} (a : A) (s : S) → (return a s).1 ≡ s
unfolding return
return_kept a s = refl

pub raise_if_kept : {S : Type 0} (b : Bool) (e : Error) (s : S) → (raise_if b e s).1 ≡ s
unfolding raise_if
raise_if_kept true e s = refl
raise_if_kept false e s = refl

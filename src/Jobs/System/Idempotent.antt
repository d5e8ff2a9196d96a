-- ===== src/Jobs/System/Idempotent.antt =====
-- Repeated calls of `create_job` of the job queue (services/api/job_queue.py) with one request.
use veri_doc.Prelude.{
  ℕ, String, ◌≡◌, refl, sym, Bool, true, false, ◌&&◌, List, Option, none, some, arith, eq_refl,
}
use mathlib.Core.Path.{subst}
use veri_doc.Prelude.Dict
use veri_doc.Prelude.Dict.{get-put}
use veri_doc.Prelude.Lists.{contains}
use veri_doc.Py.Value.{Value, Fields, null, dict, get}
use veri_doc.Py.Equality.{IsPlain, IsPlainFields, py_eq_refl, get-IsPlain}
use veri_doc.Jobs.Record.{JobRecord, Result, ok}
use veri_doc.Jobs.Request.{
  JobRequest, normalize_job_request, same_fields, same_content, same_source_binding,
  same_template_binding, by_template_id, template_id_text,
}
use veri_doc.Jobs.Exec.{◌>>=◌, raise_if_rule, gets_rule, end_rule, modify_rule, when_rule}
use veri_doc.Jobs.State.{Persistence, JobQueue, register, push_pending}
use veri_doc.Jobs.Queue.{
  Fresh, new_job, find_job, same_request, get_idempotent_job_locked, create_job_locked, create_job,
  keep_or_create,
}
use veri_doc.Jobs.Rules.{allocate_if_rule, persist_rule, append_pending_rule, idempotent_rule}
use veri_doc.Jobs.Invariant.{Inv}
use veri_doc.Jobs.Invariant.Change.{true_not_false}

abbrev IsPlainOption : Option Fields → Type 0
IsPlainOption none = Unit
IsPlainOption (some fs) = IsPlainFields fs

-- The request's dicts are values that equal themselves.
pub record IsPlainRequest (r : JobRequest) : Type 0 where
  pub plain_source : IsPlainOption r.source
  pub plain_template : IsPlainOption r.template
  pub plain_parameters : IsPlainOption r.request_parameters

same_fields_refl : (o : Option Fields) → IsPlainOption o → same_fields o o ≡ true
unfolding same_fields
same_fields_refl none h = refl
same_fields_refl (some fs) h = py_eq_refl (dict fs) h

module _ (sha256 : List ℕ → String) where
  same_content_refl : (fs : Fields) (v : Value) → IsPlain v → same_content sha256 fs v v ≡ true
  unfolding same_content
  same_content_refl fs null h = py_eq_refl null h
  same_content_refl fs v h = py_eq_refl v h

  same_source_binding_refl :
      (o : Option Fields) → IsPlainOption o → same_source_binding sha256 o o ≡ true
  unfolding same_source_binding
  same_source_binding_refl none h = refl
  same_source_binding_refl (some fs) h = ground (
    arith,
    py_eq_refl (get fs "sha256") (get-IsPlain fs "sha256" h),
    py_eq_refl (get fs "size_bytes") (get-IsPlain fs "size_bytes" h),
    py_eq_refl (get fs "content_type") (get-IsPlain fs "content_type" h),
    same_content_refl fs (get fs "content") (get-IsPlain fs "content" h),
  )

by_template_id_refl :
    (o : Option String) (same : Bool) → same ≡ true → by_template_id o o same ≡ true
by_template_id_refl none same h = h
by_template_id_refl (some a) same h = eq_refl a

same_template_binding_refl :
    (o : Option Fields) → IsPlainOption o → same_template_binding o o ≡ true
unfolding same_template_binding
same_template_binding_refl none h = refl
same_template_binding_refl (some fs) h =
    by_template_id_refl (template_id_text (get fs "template_id")) _ (py_eq_refl (dict fs) h)

-- A request matches the job that was made from it.
same_request_refl :
    (sha256 : List ℕ → String) (fresh : Fresh) (r : JobRequest)
    → IsPlainRequest r
    → same_request sha256 true (new_job fresh r) r ≡ true
unfolding same_request
same_request_refl sha256 fresh r h = ground (
  arith,
  eq_refl r.filename,
  eq_refl r.mode,
  same_source_binding_refl sha256 r.source h.plain_source,
  same_template_binding_refl r.template h.plain_template,
  same_fields_refl r.request_parameters h.plain_parameters,
)

module _ (sha256 : List ℕ → String) (P : Persistence) where
  lookup_known :
      (r : JobRequest) (q : JobQueue P.Store) (id : String) (job : JobRecord)
      → Dict.get q.idempotency_index r.idempotency_key ≡ some id
      → contains q.unpublished_job_ids id ≡ false
      → Dict.get q.jobs id ≡ some job
      → same_request sha256 true job r ≡ true
      → get_idempotent_job_locked sha256 false true r q ≡ (ok (some job), q)
  unfolding get_idempotent_job_locked ◌>>=◌ find_job
  lookup_known r q id job bound public found same = ground arith

  -- A request whose key is bound to a published job that it matches is answered with that job.
  create_job-known :
      (fresh : Fresh) (r r' : JobRequest) (enqueue : Bool) (q : JobQueue P.Store) (id : String)
      (job : JobRecord)
      → normalize_job_request r ≡ ok r'
      → Dict.get q.idempotency_index r'.idempotency_key ≡ some id
      → contains q.unpublished_job_ids id ≡ false
      → Dict.get q.jobs id ≡ some job
      → same_request sha256 true job r' ≡ true
      → create_job sha256 P fresh r enqueue q ≡ (ok job, q)
  unfolding create_job ◌>>=◌
  create_job-known fresh r r' enqueue q id job normal bound public found same =
      ground (arith, lookup_known r' q id job bound public found same)

  -- What a second call of `create_job` answers after the outcome `first` of the first call.
  abbrev pub Repeats : Fresh → JobRequest → Bool → Result JobRecord × JobQueue P.Store → Type 0
  Repeats again r enqueue first =
      (job : JobRecord)
      → first.0 ≡ ok job
      → create_job sha256 P again r enqueue first.1 ≡ (ok job, first.1)

  -- The tables know the job that was registered under the request's key.
  registered_known :
      (fresh again : Fresh) (r r' : JobRequest) (enqueue : Bool) (q' t : JobQueue P.Store)
      → IsPlainRequest r'
      → normalize_job_request r ≡ ok r'
      → contains q'.unpublished_job_ids fresh.job_id ≡ false
      → t.jobs ≡ (register (new_job fresh r') true q').jobs
      → t.idempotency_index ≡ (register (new_job fresh r') true q').idempotency_index
      → t.unpublished_job_ids ≡ (register (new_job fresh r') true q').unpublished_job_ids
      → Repeats again r enqueue (ok (new_job fresh r'), t)
  unfolding register
  registered_known fresh again r r' enqueue q' t plain normal public jobs index hidden job e =
      let made : new_job fresh r' ≡ job = cc in
      rw (← made) (
        create_job-known again r r' enqueue t fresh.job_id (new_job fresh r') normal
          (ground (
            arith,
            get-put q'.idempotency_index r'.idempotency_key r'.idempotency_key fresh.job_id,
            eq_refl r'.idempotency_key,
          ))
          (rw hidden public)
          (ground (
            arith,
            get-put q'.jobs fresh.job_id fresh.job_id (new_job fresh r'),
            eq_refl fresh.job_id,
          ))
          (same_request_refl sha256 fresh r' plain))

  create_job_locked-Repeats :
      (fresh again : Fresh) (r r' : JobRequest) (first second : Bool) (q : JobQueue P.Store)
      → IsPlainRequest r'
      → normalize_job_request r ≡ ok r'
      → contains q.unpublished_job_ids fresh.job_id ≡ false
      → Repeats again r second (create_job_locked P fresh r' first true q)
  unfolding create_job_locked push_pending
  create_job_locked-Repeats fresh again r r' first second q plain normal public =
      let R = Repeats again r second in
      gets_rule R _ _ q (
        raise_if_rule R _ _ _ q (λ _ job e. cc)
          λ free.
            allocate_if_rule R (first && true) none _ q
              (λ both.
                when_rule R true _ _ _
                  (λ _.
                    persist_rule P R _ _ none _ _ (λ x st job e. cc)
                      λ st. modify_rule R _ _ _ (
                        when_rule R (first && true) _ _ _
                          (λ _. append_pending_rule R fresh.job_id _ _ _ (
                            end_rule R _ _ (
                              registered_known fresh again r r' second _ _ plain normal public refl
                                refl refl)))
                          (λ n. absurd (true_not_false both n))))
                  (λ n. absurd (true_not_false {b = true} refl n)))
              (λ skip.
                when_rule R true _ _ q
                  (λ _.
                    persist_rule P R _ _ none _ q (λ x st job e. cc)
                      λ st. modify_rule R _ _ _ (
                        when_rule R (first && true) _ _ _ (λ y. absurd (true_not_false y skip))
                          (λ _. end_rule R _ _ (
                            registered_known fresh again r r' second _ _ plain normal public refl
                              refl refl))))
                  (λ n. absurd (true_not_false {b = true} refl n))))

  keep_or_create-Repeats :
      (fresh again : Fresh) (r r' : JobRequest) (first second : Bool) (q : JobQueue P.Store)
      → Inv q
      → Dict.get q.jobs fresh.job_id ≡ none
      → IsPlainRequest r'
      → normalize_job_request r ≡ ok r'
      → Repeats again r second (
          (get_idempotent_job_locked sha256 false true r'
              >>= keep_or_create sha256 P fresh r' first)
            q)
  unfolding keep_or_create
  keep_or_create-Repeats fresh again r r' first second q h new plain normal =
      let R = Repeats again r second in
      idempotent_rule sha256 R false true r' _ q (λ x job e. cc)
        (λ id job bound shown found same. end_rule R job q λ job' e.
          let it : job ≡ job' = cc in
          rw (← it)
            (create_job-known again r r' second q id job normal bound (ground arith) found same))
        (λ unbound.
          create_job_locked-Repeats fresh again r r' first second q plain normal
            (ground (arith, h.unpublished_queued fresh.job_id)))

  create_job-eq :
      (fresh : Fresh) (r r' : JobRequest) (enqueue : Bool) (q : JobQueue P.Store)
      → normalize_job_request r ≡ ok r'
      → create_job sha256 P fresh r enqueue q
        ≡ (get_idempotent_job_locked sha256 false true r'
              >>= keep_or_create sha256 P fresh r' enqueue)
            q
  unfolding create_job ◌>>=◌
  create_job-eq fresh r r' enqueue q normal = rw normal

  -- In a consistent queue with a new id, once create_job has returned a job for a request whose
  -- values equal themselves, calling it again with the request returns that job and leaves the
  -- whole state as it is.
  pub create_job-idempotent :
      (fresh again : Fresh) (r r' : JobRequest) (first second : Bool) (q : JobQueue P.Store)
      (job : JobRecord)
      → Inv q
      → Dict.get q.jobs fresh.job_id ≡ none
      → IsPlainRequest r'
      → normalize_job_request r ≡ ok r'
      → (create_job sha256 P fresh r first q).0 ≡ ok job
      → create_job sha256 P again r second (create_job sha256 P fresh r first q).1
        ≡ (ok job, (create_job sha256 P fresh r first q).1)
  create_job-idempotent fresh again r r' first second q job h new plain normal e =
      subst (Repeats again r second) (sym (create_job-eq fresh r r' first q normal))
        (keep_or_create-Repeats fresh again r r' first second q h new plain normal) job e

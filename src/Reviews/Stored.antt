-- ===== src/Reviews/Stored.antt =====
-- What a call leaves in the repository, and that its answer is read back from there
-- (services/api/review_decision_workflow.py).
use veri_doc.Reviews.Programs.{
  bind_kept, bind_same, bind_run, bind_cases, lift_kept, return_kept, raise_if_kept,
}
use veri_doc.Prelude.{
  Bool, ◌&&◌, true, false, not, Option, none, some, ◌≡◌, refl, ◌∙◌, ap, arith, ◌⊎◌, inl, inr,
}
use mathlib.Core.Path.{subst}
use veri_doc.Py.Value.{int, str, get, py_eq}
use veri_doc.Jobs.Record.{ok}
use veri_doc.Jobs.Exec.{return, raise_if, lift, ◌>>=◌}
use veri_doc.Reviews.Record.{
  ReviewDecision, AuditEvent, Repository, DecisionRequest, AuthoritativeReviewDecision,
  CheckedRequest, text_of, check_request, look, transaction, write_decision, both, same_snapshot,
  read_snapshot, read_back, record_authoritative_review_decision,
}
use veri_doc.Reviews.Guarded.{
  bind-ok, raise_if-ok, lift-ok, check_request-IsAllowed, transaction-ok, transaction_cases,
}

-- The answer shows the decision and the event that are stored.
abbrev pub IsAnswer : AuthoritativeReviewDecision → ReviewDecision → AuditEvent → Type 0
IsAnswer d p a =
    (d.decision_id ≡ p.decision_id)
    × (d.review_item_id ≡ p.review_item_id)
    × (d.artifact_id ≡ p.artifact_id)
    × (d.decision ≡ p.decision)
    × (d.actor_id ≡ p.actor)
    × (d.actor_role ≡ p.role)
    × (d.decided_at ≡ p.created_at)
    × (d.audit_event_id ≡ a.event_id)
    × (py_eq (get a.payload "decision_version") (int d.version) ≡ true)
    × (py_eq (get a.payload "item_version") (str d.item_version) ≡ true)
    × (py_eq (get a.payload "reason") (str d.reason) ≡ true)

return-ok : {S A : Type 0} (a b : A) (s : S) → (return a s).0 ≡ ok b → a ≡ b
unfolding return
return-ok a b s h = ground arith

matching : (a b c : Bool) → not (a && b && c) ≡ false → (a ≡ true) × (b ≡ true) × (c ≡ true)
matching true true true h = (refl, refl, refl)
matching true true false h = ground arith
matching true false c h = ground arith
matching false b c h = ground arith

module _ (R : Repository) (r : DecisionRequest) (c : CheckedRequest) where
  read_snapshot_kept : (s : R.State) → (read_snapshot R r c s).1 ≡ s
  unfolding read_snapshot
  read_snapshot_kept s =
      bind_kept (look R (R.get_review_decision (text_of r.decision_id))) _ s refl
        λ p. bind_kept (look R (R.get_audit_event c.audit_event_id)) _ s refl λ a. return_kept _ s

  snapshot_transaction_kept : (s : R.State) → (transaction R (read_snapshot R r c) s).1 ≡ s
  snapshot_transaction_kept s = elim (transaction_cases R (read_snapshot R r c) s) [
    | inl e ↦ e
    | inr (e, _) ↦ ap (λ o. o.1) e ∙ read_snapshot_kept s
  ]

  read_back_kept : (s : R.State) → (read_back R r c s).1 ≡ s
  unfolding read_back
  read_back_kept s =
      bind_kept (transaction R (read_snapshot R r c)) _ s (snapshot_transaction_kept s) λ snapshot.
        bind_kept (lift (both R snapshot.0 snapshot.1)) _ s (lift_kept _ s)
          λ pair. bind_kept (raise_if _ _) _ s (raise_if_kept _ _ s) λ u. return_kept _ s

module _ (R : Repository) (r : DecisionRequest) where
  kept_or_written :
      (k : CheckedRequest) (s : R.State)
      → (((transaction R (write_decision R r k) >>= λ _. read_back R r k) s).1 ≡ s)
        ⊎ (((u : Unit {0}) × ((write_decision R r k s).0 ≡ ok u))
            × (((transaction R (write_decision R r k) >>= λ _. read_back R r k) s).1
                ≡ (write_decision R r k s).1))
  kept_or_written k s =
      let same =
        bind_same (transaction R (write_decision R r k)) (λ _. read_back R r k) s
          λ _ t. read_back_kept R r k t in
      elim (transaction_cases R (write_decision R r k) s) [
        | inl e ↦ inl (same ∙ e)
        | inr (e, u) ↦ inr (u, same ∙ ap (λ o. o.1) e)
      ]

  -- For any repository and state, whether the call returns or raises, it leaves the state as it
  -- was, or the request passed its checks, the body of the first transaction returned, and the
  -- state is the one that the body left.
  pub record_authoritative_review_decision-IsAtomic :
      (s : R.State)
      → ((record_authoritative_review_decision R r s).1 ≡ s)
        ⊎ ((k : CheckedRequest) × ((check_request r s).0 ≡ ok k)
            × ((u : Unit {0}) × ((write_decision R r k s).0 ≡ ok u))
            × ((record_authoritative_review_decision R r s).1 ≡ (write_decision R r k s).1))
  unfolding record_authoritative_review_decision
  record_authoritative_review_decision-IsAtomic s =
      let same = (check_request-IsAllowed r s).0 in
      elim (bind_cases (check_request r) _ s) [
        | inl e ↦ inl (e ∙ same)
        | inr (k, checked, e) ↦
            let here = ap (λ o. o.1) e in
            elim (kept_or_written k s) [
              | inl kept ↦ inl (
                  here
                  ∙ ap (λ t. ((transaction R (write_decision R r k) >>= λ _. read_back R r k) t).1)
                      same
                  ∙ kept)
              | inr (u, written) ↦ inr (
                k,
                checked,
                u,
                here
                    ∙ ap
                        (λ t. ((transaction R (write_decision R r k) >>= λ _. read_back R r k) t).1)
                        same
                    ∙ written,
              )
            ]
      ]

  both-ok :
      (p : Option ReviewDecision) (a : Option AuditEvent) (x : ReviewDecision × AuditEvent)
      → both R p a ≡ ok x
      → (p ≡ some x.0) × (a ≡ some x.1)
  both-ok (some p) (some a) (q, b) h =
      let e : ◌≡◌ {A = ReviewDecision × AuditEvent} (p, a) (q, b) = ground arith in
      (ap (λ x. some x.0) e, ap (λ x. some x.1) e)
  both-ok none a x h = ground arith
  both-ok (some p) none x h = ground arith

  read_snapshot-ok :
      (c : CheckedRequest) (t : R.State) (x : Option ReviewDecision × Option AuditEvent)
      → (read_snapshot R r c t).0 ≡ ok x
      → (R.get_review_decision (text_of r.decision_id) t ≡ ok x.0)
        × (R.get_audit_event c.audit_event_id t ≡ ok x.1)
  unfolding read_snapshot
  read_snapshot-ok c t x h =
      let (p, found, h1) =
        bind-ok (look R (R.get_review_decision (text_of r.decision_id))) _ t x h in
      let (a, event, h2) = bind-ok (look R (R.get_audit_event c.audit_event_id)) _ t x h1 in
      let e = return-ok (p, a) x t h2 in (found ∙ ap (λ y. ok y.0) e, event ∙ ap (λ y. ok y.1) e)

  read_back-ok :
      (c : CheckedRequest) (t : R.State) (d : AuthoritativeReviewDecision)
      → (read_back R r c t).0 ≡ ok d
      → (p : ReviewDecision) × (a : AuditEvent) × (R.get_review_decision (text_of r.decision_id) t
          ≡ ok (some p))
        × (R.get_audit_event c.audit_event_id t ≡ ok (some a))
        × IsAnswer d p a
  unfolding read_back same_snapshot
  read_back-ok c t d h =
      let (x, read, h1) = bind-ok (transaction R (read_snapshot R r c)) _ t d h in
      let (found, event) =
        read_snapshot-ok c t x (transaction-ok R (read_snapshot R r c) t x read) in
      let (y, paired, h2) = bind-ok (lift (both R x.0 x.1)) _ _ d h1 in
      let (some_p, some_a) = both-ok x.0 x.1 y (lift-ok R (both R x.0 x.1) _ y paired) in
      let (u, passed, h3) = bind-ok (raise_if (not (same_snapshot R c (y.1).payload)) _) _ _ d h2 in
      let (v, i, w) =
        matching _ _ _ (raise_if-ok (not (same_snapshot R c (y.1).payload)) _ _ u passed) in
      let e = return-ok _ d _ h3 in
      (
        y.0,
        y.1,
        found ∙ ap ok some_p,
        event ∙ ap ok some_a,
        subst (λ d. IsAnswer d y.0 y.1) e (refl, refl, refl, refl, refl, refl, refl, refl, v, i, w),
      )

  -- If the call returns, the request passed its checks, and the state after the call holds a
  -- decision with the ids, artifact, decision, actor, role and time of the answer, and an audit
  -- event with the event id of the answer, whose payload has its version, item version and reason.
  pub record_authoritative_review_decision-IsReadBack :
      (s : R.State) (d : AuthoritativeReviewDecision)
      → (record_authoritative_review_decision R r s).0 ≡ ok d
      → (c : CheckedRequest) × ((check_request r s).0 ≡ ok c)
        × ((p : ReviewDecision) × (a : AuditEvent) × (R.get_review_decision
                (text_of r.decision_id)
                (record_authoritative_review_decision R r s).1
              ≡ ok (some p))
            × (R.get_audit_event c.audit_event_id (record_authoritative_review_decision R r s).1
                ≡ ok (some a))
            × IsAnswer d p a)
  unfolding record_authoritative_review_decision
  record_authoritative_review_decision-IsReadBack s d h =
      let (c, checked, h1) = bind-ok (check_request r) _ s d h in
      let t = (check_request r s).1 in
      let (u, wrote, h2) = bind-ok (transaction R (write_decision R r c)) _ t d h1 in
      let after = (transaction R (write_decision R r c) t).1 in
      let whole =
        bind_run (check_request r) _ s c checked
        ∙ bind_run (transaction R (write_decision R r c)) (λ _. read_back R r c) t u wrote in
      let state = ap (λ o. o.1) whole ∙ read_back_kept R r c after in
      let (p, a, found, event, answer) = read_back-ok c after d h2 in
      (
        c,
        checked,
        (
          p,
          a,
          ap (R.get_review_decision (text_of r.decision_id)) state ∙ found,
          ap (R.get_audit_event c.audit_event_id) state ∙ event,
          answer,
        ),
      )

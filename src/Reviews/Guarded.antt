-- ===== src/Reviews/Guarded.antt =====
-- What a recorded decision went through, and what a refused one leaves
-- (services/api/review_decision_workflow.py).
use veri_doc.Prelude.{
  Bool, true, false, ◌&&◌, not, Option, none, some, ◌≡◌, refl, ◌∙◌, ap, arith, ◌⊎◌, inl, inr,
}
use veri_doc.Jobs.Record.{Error, Result, ok, err, value_error}
use veri_doc.Jobs.Exec.{Exec, resume, raise_if, lift, ◌>>=◌, lift_rule, raise_if_rule, end_rule}
use veri_doc.Reviews.Roles.{may_record}
use veri_doc.Reviews.Record.{
  ReviewItem, Repository, DecisionRequest, AuthoritativeReviewDecision, CheckedRequest,
  check_request, found_item, is_approval, is_high_risk_item, look, settle, transaction,
  write_decision, record_authoritative_review_decision,
}

resume-ok :
    {S A B : Type 0} (r : Result A) (s : S) (f : A → Exec S B) (b : B)
    → (resume r f s).0 ≡ ok b
    → (a : A) × (r ≡ ok a) × ((f a s).0 ≡ ok b)
resume-ok (ok a) s f b e = (a, refl, e)
resume-ok (err x) s f b e = ground arith

-- A program that returns has returned from its first step.
pub bind-ok :
    {S A B : Type 0} (m : Exec S A) (f : A → Exec S B) (s : S) (b : B)
    → ((m >>= f) s).0 ≡ ok b
    → (a : A) × ((m s).0 ≡ ok a) × ((f a (m s).1).0 ≡ ok b)
unfolding ◌>>=◌
bind-ok m f s b e = resume-ok (m s).0 (m s).1 f b e

pub raise_if-ok :
    {S : Type 0} (b : Bool) (e : Error) (s : S) (u : Unit {0})
    → (raise_if b e s).0 ≡ ok u
    → b ≡ false
unfolding raise_if
raise_if-ok true e s u h = ground arith
raise_if-ok false e s u h = refl

allowed_of :
    (x c : CheckedRequest)
    → ok x ≡ ok c
    → not (may_record x.role x.decision) ≡ false
    → may_record c.role c.decision ≡ true
allowed_of x c h may =
    let e : x ≡ c = ground arith in
    let allowed : may_record x.role x.decision ≡ true = ground arith in rw (← e) allowed

-- The checks allow only those who may record the decision, and change nothing.
module _ {S : Type 0} (r : DecisionRequest) (s : S) where
  abbrev IsAllowed : Result CheckedRequest × S → Type 0
  IsAllowed o =
      (o.1 ≡ s) × ((c : CheckedRequest) → o.0 ≡ ok c → may_record c.role c.decision ≡ true)

  stopped : (e : Error) → IsAllowed (err e, s)
  stopped e = (refl, λ c h. ground arith)

  pub check_request-IsAllowed : IsAllowed (check_request r s)
  unfolding check_request
  check_request-IsAllowed =
      lift_rule IsAllowed _ _ s (λ e _. stopped e)
        λ role _.
          lift_rule IsAllowed _ _ s (λ e _. stopped e)
            λ text _.
              raise_if_rule IsAllowed _ _ _ s (λ _. stopped _)
                λ may.
                  lift_rule IsAllowed _ _ s (λ e _. stopped e)
                    λ version _.
                      lift_rule IsAllowed _ _ s (λ e _. stopped e)
                        λ id _.
                          lift_rule IsAllowed _ _ s (λ e _. stopped e)
                            λ item_version _.
                              lift_rule IsAllowed _ _ s (λ e _. stopped e)
                                λ reason _.
                                  lift_rule IsAllowed _ _ s (λ e _. stopped e)
                                    λ actor _.
                                      lift_rule IsAllowed _ _ s (λ e _. stopped e)
                                        λ decision_id _.
                                          end_rule IsAllowed _ s (refl, λ c h. allowed_of _ c h may)

module _ (R : Repository) where
  settle_cases :
      {A : Type 0} (s : R.State) (o : Result A × R.State) (e : Option Error)
      → ((settle R s o e).1 ≡ s) ⊎ ((settle R s o e ≡ o) × ((a : A) × (o.0 ≡ ok a)))
  settle_cases s (ok a, s') none = inr (refl, (a, refl))
  settle_cases s (ok a, s') (some e) = inl refl
  settle_cases s (err x, s') e = inl refl

  settle-ok :
      {A : Type 0} (s : R.State) (o : Result A × R.State) (e : Option Error) (a : A)
      → (settle R s o e).0 ≡ ok a
      → o.0 ≡ ok a
  settle-ok s (ok x, s') none a h = h
  settle-ok s (ok x, s') (some e) a h = ground arith
  settle-ok s (err x, s') e a h = ground arith

  found_item-ok : (o : Option ReviewItem) (i : ReviewItem) → found_item o ≡ ok i → o ≡ some i
  found_item-ok none i h = ground arith
  found_item-ok (some j) i h = let e : j ≡ i = ground arith in rw e refl

  pub lift-ok : {A S : Type 0} (o : Result A) (s : S) (a : A) → (lift o s).0 ≡ ok a → o ≡ ok a
  unfolding lift
  lift-ok o s a h = h

  lift_state : {A S : Type 0} (o : Result A) (s : S) → (lift o s).1 ≡ s
  unfolding lift
  lift_state o s = refl

  -- What the first transaction has seen of the item when it returns.
  write_decision-guard :
      (r : DecisionRequest) (c : CheckedRequest) (s : R.State) (u : Unit {0})
      → (write_decision R r c s).0 ≡ ok u
      → (item : ReviewItem) × (R.get_review_item c.review_item_id s ≡ ok (some item))
        × (is_high_risk_item r item ≡ true → is_approval c.role c.decision ≡ true)
  unfolding write_decision
  write_decision-guard r c s u h =
      let (found, looked, h1) = bind-ok (look R (R.get_review_item c.review_item_id)) _ s u h in
      let (item, there, h2) = bind-ok (lift (found_item found)) _ s u h1 in
      let exists = found_item-ok found item (lift-ok (found_item found) s item there) in
      let (v, passed, h3) =
        bind-ok
          (raise_if (is_high_risk_item r item && not (is_approval c.role c.decision))
            (value_error "high-risk review item requires approver approval"))
          _ _ u h2 in
      let guard =
        raise_if-ok (is_high_risk_item r item && not (is_approval c.role c.decision)) _ _ v
          passed in
      (item, looked ∙ ap ok exists, λ high. ground arith)

  pub transaction-ok :
      {A : Type 0} (m : Exec R.State A) (s : R.State) (a : A)
      → (transaction R m s).0 ≡ ok a
      → (m s).0 ≡ ok a
  unfolding transaction
  transaction-ok m s a h = settle-ok s (m s) (R.commit s (m s).1) a h

  pub transaction_cases :
      {A : Type 0} (m : Exec R.State A) (s : R.State)
      → ((transaction R m s).1 ≡ s) ⊎ ((transaction R m s ≡ m s) × ((a : A) × ((m s).0 ≡ ok a)))
  unfolding transaction
  transaction_cases m s = settle_cases s (m s) (R.commit s (m s).1)

  -- If record_authoritative_review_decision returns, from any repository and state, the request
  -- passed its checks, its role has the permission that its decision needs, the review item was
  -- stored before, and if the request or the severity of the item says high risk, the decision is
  -- "approved" by an approver or an admin.
  pub record_authoritative_review_decision-IsAuthorized :
      (r : DecisionRequest) (s : R.State) (d : AuthoritativeReviewDecision)
      → (record_authoritative_review_decision R r s).0 ≡ ok d
      → (c : CheckedRequest) × ((check_request r s).0 ≡ ok c)
        × (may_record c.role c.decision ≡ true)
        × ((item : ReviewItem) × (R.get_review_item c.review_item_id s ≡ ok (some item))
            × (is_high_risk_item r item ≡ true → is_approval c.role c.decision ≡ true))
  unfolding record_authoritative_review_decision
  record_authoritative_review_decision-IsAuthorized r s d h =
      let (c, checked, h1) = bind-ok (check_request r) _ s d h in
      let (same, allowed) = check_request-IsAllowed r s in
      let (u, wrote, h2) = bind-ok (transaction R (write_decision R r c)) _ _ d h1 in
      let written : (transaction R (write_decision R r c) s).0 ≡ ok u = rw (← same) wrote in
      (
        c,
        checked,
        allowed c checked,
        write_decision-guard r c s u (transaction-ok (write_decision R r c) s u written),
      )

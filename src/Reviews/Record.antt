-- ===== src/Reviews/Record.antt =====
-- `record_authoritative_review_decision` of services/api/review_decision_workflow.py. The repository
-- is an interface: each of its operations may raise, and so may a commit.
use Prim.Native.String.{◌++◌}
use veri_doc.Prelude.{String, Bool, true, false, ◌&&◌, ◌||◌, not, Option, none, some, ◌==◌}
use veri_doc.Prelude.Int.{ℤ, pos, ltb_ℤ}
use veri_doc.Py.Value.{Value, int, str, dict, Fields, field, end, get, py_eq}
use veri_doc.Py.Text.{strip, is_blank, lower_text}
use veri_doc.Jobs.Record.{Error, Result, ok, err, value_error, runtime_error, external_error}
use veri_doc.Jobs.Exec.{Exec, return, lift, raise_if, when, ◌>>=◌, ◌>>◌}
use veri_doc.Reviews.Roles.{may_record}

-- The fields of a review item that the workflow reads.
pub record ReviewItem : Type 0 where
  pub status : String
  pub severity : String

pub record ReviewDecision : Type 0 where
  pub decision_id : String
  pub review_item_id : String
  pub artifact_id : String
  pub job_id : String
  pub document_id : String
  pub actor : String
  pub role : String
  pub decision : String
  pub created_at : String

-- The arguments of `create_audit_event`, and the event's payload as JSON gives it back.
pub record AuditEvent : Type 0 where
  pub event_id : String
  pub job_id : String
  pub document_id : String
  pub actor : String
  pub action : String
  pub scope_type : String
  pub scope_id : String
  pub payload : Fields

pub record Repository : Type 1 where
  pub State : Type 0
  pub get_review_item : String → State → Result (Option ReviewItem)
  pub update_review_item_status : String → String → Exec State (Unit {0})
  -- decision_id, review_item_id, artifact_id, actor, role and decision
  pub create_review_decision :
      String → String → String → String → String → String → Exec State ReviewDecision
  pub create_audit_event : AuditEvent → Exec State (Unit {0})
  pub get_review_decision : String → State → Result (Option ReviewDecision)
  pub get_audit_event : String → State → Result (Option AuditEvent)
  -- What committing raises, from the state before and the one to be kept.
  pub commit : State → State → Option Error

pub record DecisionRequest : Type 0 where
  pub decision_id : Value
  pub decision_version : Value
  pub review_item_id : Value
  pub item_version : Value
  pub artifact_id : String
  pub actor_id : Value
  pub actor_role : Value
  pub decision : Value
  pub reason : Value
  pub high_risk : Bool

pub record AuthoritativeReviewDecision : Type 0 where
  pub decision_id : String
  pub version : ℤ
  pub review_item_id : String
  pub item_version : String
  pub artifact_id : String
  pub decision : String
  pub reason : String
  pub actor_id : String
  pub actor_role : String
  pub decided_at : String
  pub audit_event_id : String

-- `_required_text`
unfoldable pub required_text : Value → String → Result String
required_text (str s) name = elim (is_blank s) [
  | true ↦ err (value_error (name ++ " must be a non-empty string"))
  | false ↦ ok (strip s)
]
required_text _ name = err (value_error (name ++ " must be a non-empty string"))

-- An int that is no bool and positive.
unfoldable pub positive_version : Value → Result ℤ
positive_version (int n) = elim (ltb_ℤ n (pos 1)) [
  | true ↦ err (value_error "decision_version must be a positive integer")
  | false ↦ ok n
]
positive_version _ = err (value_error "decision_version must be a positive integer")

unfoldable pub reads_as : String → String → Bool
reads_as text word = lower_text (strip text) == word

-- `_review_decision_audit_payload`
abbrev pub review_decision_audit_payload : ReviewDecision → ℤ → String → String → Fields
review_decision_audit_payload d version item_version reason =
    field "actor" (dict (field "id" (str d.actor) (field "role" (str d.role) end))) (
      field "artifact_id" (str d.artifact_id) (
        field "decided_at" (str d.created_at) (
          field "decision" (str d.decision) (
            field "decision_version" (int version) (
              field "item_version" (str item_version) (
                field "reason" (str reason)
                  (field "review_item_id" (str d.review_item_id) end)))))))

-- The texts of a request, stripped.
pub record CheckedRequest : Type 0 where
  pub role : String
  pub decision : String
  pub version : ℤ
  pub review_item_id : String
  pub item_version : String
  pub reason : String
  pub actor_id : String
  pub audit_event_id : String

-- The checks before the first transaction.
unfoldable pub check_request : {S : Type 0} → DecisionRequest → Exec S CheckedRequest
check_request r = do
  role ← lift (required_text r.actor_role "actor_role")
  decision_text ← lift (required_text r.decision "decision")
  let decision = lower_text decision_text
  raise_if (not (may_record role decision)) (external_error "PermissionError")
  version ← lift (positive_version r.decision_version)
  review_item_id ← lift (required_text r.review_item_id "review_item_id")
  item_version ← lift (required_text r.item_version "item_version")
  reason ← lift (required_text r.reason "reason")
  actor_id ← lift (required_text r.actor_id "actor_id")
  decision_id ← lift (required_text r.decision_id "decision_id")
  return (record {
    role = role;
    decision = decision;
    version = version;
    review_item_id = review_item_id;
    item_version = item_version;
    reason = reason;
    actor_id = actor_id;
    audit_event_id = "audit-" ++ decision_id;
  })

abbrev pub text_of : Value → String
text_of (str s) = s
text_of _ = ""

abbrev pub found_item : Option ReviewItem → Result ReviewItem
found_item none = err (value_error "review item does not exist")
found_item (some item) = ok item

-- The role and the decision that a high-risk item needs.
abbrev pub is_approval : String → String → Bool
is_approval role decision = (role == "approver" || role == "admin") && decision == "approved"

unfoldable pub is_high_risk_item : DecisionRequest → ReviewItem → Bool
is_high_risk_item r item = r.high_risk || reads_as item.severity "high"

module _ (R : Repository) where
  abbrev M : Type 0 → Type 0
  M A = Exec R.State A

  abbrev pub look : {A : Type 0} → (R.State → Result A) → M A
  look f s = (f s, s)

  abbrev pub settle :
      {A : Type 0} → R.State → Result A × R.State → Option Error → Result A × R.State
  settle s (err e, s') _ = (err e, s)
  settle s (ok a, s') none = (ok a, s')
  settle s (ok a, s') (some e) = (err e, s)

  -- `with repository.transaction()`, of a repository that is not itself a transaction's: what raises
  -- is rolled back.
  unfoldable pub transaction : {A : Type 0} → M A → M A
  transaction m s = let r = m s in settle s r (R.commit s r.1)

  -- The body of the first transaction.
  unfoldable pub write_decision : DecisionRequest → CheckedRequest → M (Unit {0})
  write_decision r c = do
    found ← look (R.get_review_item c.review_item_id)
    item ← lift (found_item found)
    raise_if (is_high_risk_item r item && not (is_approval c.role c.decision))
        (value_error "high-risk review item requires approver approval")
    when (reads_as item.status "open") (R.update_review_item_status c.review_item_id "closed")
    stored ←
        R.create_review_decision (text_of r.decision_id) c.review_item_id r.artifact_id c.actor_id
          c.role c.decision
    R.create_audit_event (record {
      event_id = c.audit_event_id;
      job_id = stored.job_id;
      document_id = stored.document_id;
      actor = c.actor_id;
      action = c.decision;
      scope_type = "review_decision";
      scope_id = stored.decision_id;
      payload = review_decision_audit_payload stored c.version c.item_version c.reason;
    })

  abbrev pub both : Option ReviewDecision → Option AuditEvent → Result (ReviewDecision × AuditEvent)
  both (some d) (some a) = ok (d, a)
  both _ _ = err (runtime_error "authoritative review decision persistence was incomplete")

  unfoldable pub same_snapshot : CheckedRequest → Fields → Bool
  same_snapshot c payload =
      py_eq (get payload "decision_version") (int c.version)
      && py_eq (get payload "item_version") (str c.item_version)
      && py_eq (get payload "reason") (str c.reason)

  -- The body of the second transaction.
  unfoldable pub read_snapshot :
      DecisionRequest → CheckedRequest → M (Option ReviewDecision × Option AuditEvent)
  read_snapshot r c = do
    persisted ← look (R.get_review_decision (text_of r.decision_id))
    event ← look (R.get_audit_event c.audit_event_id)
    return (persisted, event)

  -- The second transaction, and the checks of what it has read.
  unfoldable pub read_back : DecisionRequest → CheckedRequest → M AuthoritativeReviewDecision
  read_back r c = do
    snapshot ← transaction (read_snapshot r c)
    pair ← lift (both snapshot.0 snapshot.1)
    raise_if (not (same_snapshot c (pair.1).payload))
        (runtime_error "authoritative review decision audit snapshot did not match")
    return (record {
      decision_id = (pair.0).decision_id;
      version = c.version;
      review_item_id = (pair.0).review_item_id;
      item_version = c.item_version;
      artifact_id = (pair.0).artifact_id;
      decision = (pair.0).decision;
      reason = c.reason;
      actor_id = (pair.0).actor;
      actor_role = (pair.0).role;
      decided_at = (pair.0).created_at;
      audit_event_id = (pair.1).event_id;
    })

  -- `record_authoritative_review_decision`
  unfoldable pub record_authoritative_review_decision :
      DecisionRequest → M AuthoritativeReviewDecision
  record_authoritative_review_decision r = do
    c ← check_request r
    transaction (write_decision r c)
    read_back r c

-- ===== src/Reviews/Tests.antt =====
-- Runs of a recorded decision (services/api/review_decision_workflow.py) over a repository in memory
-- whose commits succeed.
use veri_doc.Prelude.{String, true, false, Option, none, some, ◌≡◌, refl, [], ◌∷◌, ◌⊎◌}
use veri_doc.Prelude.Dict
use veri_doc.Prelude.Dict.{Dict}
use veri_doc.Prelude.Int.{pos}
use veri_doc.Py.Value.{str, int, get, py_eq}
use veri_doc.Py.Float.{float_eq}
use veri_doc.Py.Text.{strip, is_blank, lower_text}
use veri_doc.Jobs.Record.{ok, err, external_error}
use veri_doc.Jobs.Exec.{Exec, ◌>>=◌}
use veri_doc.Prelude.Lists.{contains}
use veri_doc.Reviews.Roles.{role_permissions, review_decision_permissions, may_record}
use veri_doc.Reviews.Record.{
  ReviewItem, ReviewDecision, AuditEvent, Repository, DecisionRequest, AuthoritativeReviewDecision,
  CheckedRequest, required_text, positive_version, reads_as, check_request, is_approval,
  is_high_risk_item, transaction, write_decision, same_snapshot, read_snapshot, read_back,
  record_authoritative_review_decision, text_of,
}
use veri_doc.Reviews.Guarded.{record_authoritative_review_decision-IsAuthorized}
use veri_doc.Reviews.Stored.{
  IsAnswer, record_authoritative_review_decision-IsAtomic,
  record_authoritative_review_decision-IsReadBack,
}

-- Opening this opens the workflow.
runs : Unit {0}
unfolding Dict.get Dict.put contains ◌>>=◌ role_permissions review_decision_permissions may_record
    required_text positive_version reads_as check_request is_high_risk_item transaction
    write_decision same_snapshot read_snapshot read_back record_authoritative_review_decision strip
    is_blank lower_text py_eq get float_eq
runs = tt

record Desk : Type 0 where
  items : Dict ReviewItem
  decisions : Dict ReviewDecision
  events : Dict AuditEvent

abbrev close : String → Option ReviewItem → Desk → Desk
close id none s = s
close id (some item) s = record {
  items = Dict.put s.items id (record { status = "closed"; severity = item.severity });
  decisions = s.decisions;
  events = s.events;
}

abbrev update : String → String → Exec Desk (Unit {0})
update id _ s = (ok tt, close id (Dict.get s.items id) s)

abbrev stored : String → String → String → String → String → String → ReviewDecision
stored id item artifact actor role decision = record {
  decision_id = id;
  review_item_id = item;
  artifact_id = artifact;
  job_id = "j1";
  document_id = "doc1";
  actor = actor;
  role = role;
  decision = decision;
  created_at = "2026-01-01T00:00:00Z";
}

abbrev create : String → String → String → String → String → String → Exec Desk ReviewDecision
create id item artifact actor role decision s = (
  ok (stored id item artifact actor role decision),
  record {
    items = s.items;
    decisions = Dict.put s.decisions id (stored id item artifact actor role decision);
    events = s.events;
  },
)

abbrev create_event : AuditEvent → Exec Desk (Unit {0})
create_event e s = (
  ok tt,
  record { items = s.items; decisions = s.decisions; events = Dict.put s.events e.event_id e },
)

abbrev desk : Repository
desk = record {
  State = Desk;
  get_review_item = λ id s. ok (Dict.get s.items id);
  update_review_item_status = update;
  create_review_decision = create;
  create_audit_event = create_event;
  get_review_decision = λ id s. ok (Dict.get s.decisions id);
  get_audit_event = λ id s. ok (Dict.get s.events id);
  commit = λ _ _. none;
}

abbrev before : Desk
before = record {
  items = ("i1", record { status = "Open"; severity = "High" }) ∷ [];
  decisions = [];
  events = [];
}

abbrev request_by : String → DecisionRequest
request_by role = record {
  decision_id = str "d1";
  decision_version = int (pos 1);
  review_item_id = str "i1";
  item_version = str "v1";
  artifact_id = "a1";
  actor_id = str "ann";
  actor_role = str role;
  decision = str " Approved ";
  reason = str "checked";
  high_risk = false;
}

abbrev by_approver : DecisionRequest
by_approver = request_by "approver"

abbrev answer : AuthoritativeReviewDecision
answer = record {
  decision_id = "d1";
  version = pos 1;
  review_item_id = "i1";
  item_version = "v1";
  artifact_id = "a1";
  decision = "approved";
  reason = "checked";
  actor_id = "ann";
  actor_role = "approver";
  decided_at = "2026-01-01T00:00:00Z";
  audit_event_id = "audit-d1";
}

approved : (record_authoritative_review_decision desk by_approver before).0 ≡ ok answer
unfolding runs
approved = refl

closed :
    Dict.get (record_authoritative_review_decision desk by_approver before).1.items "i1"
    ≡ some (record { status = "closed"; severity = "High" })
unfolding runs
closed = refl

-- A reviewer may not approve.
refused :
    record_authoritative_review_decision desk (request_by "reviewer") before
    ≡ (err (external_error "PermissionError"), before)
unfolding runs
refused = refl

record_authoritative_review_decision-IsAuthorized_example :
    (c : CheckedRequest) × ((check_request by_approver before).0 ≡ ok c)
    × (may_record c.role c.decision ≡ true)
    × ((item : ReviewItem) × (◌≡◌ {A = _}
          (desk.get_review_item c.review_item_id before)
          (ok (some item)))
        × (is_high_risk_item by_approver item ≡ true → is_approval c.role c.decision ≡ true))
record_authoritative_review_decision-IsAuthorized_example =
    record_authoritative_review_decision-IsAuthorized desk by_approver before answer approved

record_authoritative_review_decision-IsAtomic_example :
    ((record_authoritative_review_decision desk by_approver before).1 ≡ before)
    ⊎ ((k : CheckedRequest) × ((check_request by_approver before).0 ≡ ok k)
        × ((u : Unit {0}) × ((write_decision desk by_approver k before).0 ≡ ok u))
        × ((record_authoritative_review_decision desk by_approver before).1
            ≡ (write_decision desk by_approver k before).1))
record_authoritative_review_decision-IsAtomic_example =
    record_authoritative_review_decision-IsAtomic desk by_approver before

record_authoritative_review_decision-IsReadBack_example :
    (c : CheckedRequest) × ((check_request by_approver before).0 ≡ ok c)
    × ((p : ReviewDecision) × (a : AuditEvent) × (desk.get_review_decision
            (text_of by_approver.decision_id)
            (record_authoritative_review_decision desk by_approver before).1
          ≡ ok (some p))
        × (desk.get_audit_event c.audit_event_id
              (record_authoritative_review_decision desk by_approver before).1
            ≡ ok (some a))
        × IsAnswer answer p a)
record_authoritative_review_decision-IsReadBack_example =
    record_authoritative_review_decision-IsReadBack desk by_approver before answer approved

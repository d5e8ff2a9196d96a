-- ===== src/Audit/Contracts.antt =====
-- The audit action contracts of services/api/persistence_contracts.py.
use veri_doc.Prelude.{
  String, Bool, true, false, List, [], ◌∷◌, ◌++◌, ◌&&◌, Option, none, some, ◌==◌,
}
use veri_doc.Prelude.Dict
use veri_doc.Prelude.Dict.{Dict}
use veri_doc.Prelude.Lists.{contains}
use veri_doc.Py.Value.{Value, str}
use veri_doc.Jobs.Record.{Result, ok, err, value_error}

-- `_AuditActionContract`: a frozenset is a list of its members.
pub record AuditActionContract : Type 0 where
  pub name : String
  pub aliases : List String
  pub scope_types : List String
  pub event_types : List String
  pub job_statuses : Option (List String)
  pub result_statuses : Option (List String)
  pub lifecycle_state : Option String
  pub evidence_type : Option String
  pub requires_uploader : Bool
  pub requires_unattempted_job : Bool

abbrev job_audit_scopes : List String
job_audit_scopes = "conversion_job" ∷ "job" ∷ "job_event" ∷ []

abbrev result_lifecycle_scopes : List String
result_lifecycle_scopes = job_audit_scopes ++ "conversion_result" ∷ []

abbrev desktop_audit_scopes : List String
desktop_audit_scopes = job_audit_scopes ++ "document" ∷ []

abbrev upload_audit_scopes : List String
upload_audit_scopes = job_audit_scopes ++ "document" ∷ "source_artifact" ∷ "source_document" ∷ []

abbrev review_request_scopes : List String
review_request_scopes = "document" ∷ "review_decision" ∷ "review_item" ∷ []

abbrev queued_job_statuses : List String
queued_job_statuses = "queued" ∷ []

abbrev running_job_statuses : List String
running_job_statuses = "processing" ∷ "running" ∷ "started" ∷ []

abbrev failed_job_statuses : List String
failed_job_statuses = "failed" ∷ []

abbrev succeeded_job_statuses : List String
succeeded_job_statuses = "completed" ∷ "succeeded" ∷ "success" ∷ []

abbrev failed_result_statuses : List String
failed_result_statuses = "failed" ∷ []

abbrev succeeded_result_statuses : List String
succeeded_result_statuses =
    "blocked" ∷ "completed" ∷ "converted" ∷ "requires_review" ∷ "succeeded" ∷ "success" ∷ []

abbrev source_upload : AuditActionContract
source_upload = record {
  name = "source_upload";
  aliases = "document.uploaded" ∷ "upload" ∷ "uploaded" ∷ [];
  scope_types = upload_audit_scopes;
  event_types = [];
  job_statuses = none;
  result_statuses = none;
  lifecycle_state = none;
  evidence_type = none;
  requires_uploader = true;
  requires_unattempted_job = false;
}

abbrev desktop_upload : AuditActionContract
desktop_upload = record {
  name = "desktop_upload";
  aliases = "desktop_upload" ∷ [];
  scope_types = desktop_audit_scopes;
  event_types = "desktop.job_operation" ∷ [];
  job_statuses = some queued_job_statuses;
  result_statuses = none;
  lifecycle_state = none;
  evidence_type = none;
  requires_uploader = true;
  requires_unattempted_job = true;
}

abbrev document_inspected : AuditActionContract
document_inspected = record {
  name = "document_inspected";
  aliases = "document.inspected" ∷ [];
  scope_types = "document" ∷ "source_document" ∷ [];
  event_types = [];
  job_statuses = none;
  result_statuses = none;
  lifecycle_state = none;
  evidence_type = none;
  requires_uploader = false;
  requires_unattempted_job = false;
}

abbrev artifact_generated : AuditActionContract
artifact_generated = record {
  name = "artifact_generated";
  aliases = "artifact.generated" ∷ [];
  scope_types = "artifact" ∷ "generated_artifact" ∷ [];
  event_types = [];
  job_statuses = none;
  result_statuses = none;
  lifecycle_state = none;
  evidence_type = none;
  requires_uploader = false;
  requires_unattempted_job = false;
}

abbrev review_opened : AuditActionContract
review_opened = record {
  name = "review_opened";
  aliases = "review.opened" ∷ [];
  scope_types = "review_item" ∷ [];
  event_types = [];
  job_statuses = none;
  result_statuses = none;
  lifecycle_state = none;
  evidence_type = none;
  requires_uploader = false;
  requires_unattempted_job = false;
}

abbrev pub job_queued : AuditActionContract
job_queued = record {
  name = "job_queued";
  aliases = "conversion.queued" ∷ "conversion_queued" ∷ "job.queued" ∷ "job_queued" ∷ [];
  scope_types = job_audit_scopes;
  event_types = "job.lifecycle" ∷ [];
  job_statuses = some queued_job_statuses;
  result_statuses = none;
  lifecycle_state = some "queued";
  evidence_type = none;
  requires_uploader = false;
  requires_unattempted_job = false;
}

abbrev job_running : AuditActionContract
job_running = record {
  name = "job_running";
  aliases =
      "conversion.running" ∷ "conversion.started" ∷ "conversion_running" ∷ "conversion_started"
      ∷ "job.running" ∷ "job.started" ∷ "job_running" ∷ "job_started" ∷ [];
  scope_types = job_audit_scopes;
  event_types = "job.lifecycle" ∷ [];
  job_statuses = some running_job_statuses;
  result_statuses = none;
  lifecycle_state = some "running";
  evidence_type = none;
  requires_uploader = false;
  requires_unattempted_job = false;
}

abbrev job_failed : AuditActionContract
job_failed = record {
  name = "job_failed";
  aliases = "conversion.failed" ∷ "conversion_failed" ∷ "job.failed" ∷ "job_failed" ∷ [];
  scope_types = result_lifecycle_scopes;
  event_types = "job.lifecycle" ∷ [];
  job_statuses = some failed_job_statuses;
  result_statuses = some failed_result_statuses;
  lifecycle_state = some "failed";
  evidence_type = none;
  requires_uploader = false;
  requires_unattempted_job = false;
}

abbrev job_succeeded : AuditActionContract
job_succeeded = record {
  name = "job_succeeded";
  aliases =
      "conversion.completed" ∷ "conversion.succeeded" ∷ "conversion_completed"
      ∷ "conversion_succeeded" ∷ "job.completed" ∷ "job.succeeded" ∷ "job_completed"
      ∷ "job_succeeded" ∷ [];
  scope_types = result_lifecycle_scopes;
  event_types = "job.lifecycle" ∷ [];
  job_statuses = some succeeded_job_statuses;
  result_statuses = some succeeded_result_statuses;
  lifecycle_state = some "succeeded";
  evidence_type = none;
  requires_uploader = false;
  requires_unattempted_job = false;
}

abbrev job_retry : AuditActionContract
job_retry = record {
  name = "job_retry";
  aliases =
      "conversion.retry_requested" ∷ "conversion_retry_requested" ∷ "job.retry_requested"
      ∷ "job_retry_requested" ∷ "retry_conversion" ∷ [];
  scope_types = job_audit_scopes;
  event_types = "conversion_job.action_requested" ∷ "job.lifecycle" ∷ [];
  job_statuses = some failed_job_statuses;
  result_statuses = none;
  lifecycle_state = some "retry";
  evidence_type = none;
  requires_uploader = false;
  requires_unattempted_job = false;
}

abbrev download_result : AuditActionContract
download_result = record {
  name = "download_result";
  aliases = "download_result" ∷ [];
  scope_types = job_audit_scopes;
  event_types = "conversion_job.action_requested" ∷ [];
  job_statuses = some succeeded_job_statuses;
  result_statuses = none;
  lifecycle_state = none;
  evidence_type = some "download_artifact";
  requires_uploader = false;
  requires_unattempted_job = false;
}

abbrev desktop_result_download : AuditActionContract
desktop_result_download = record {
  name = "desktop_result_download";
  aliases = "desktop_result_download" ∷ [];
  scope_types = desktop_audit_scopes;
  event_types = "desktop.job_operation" ∷ [];
  job_statuses = some succeeded_job_statuses;
  result_statuses = none;
  lifecycle_state = none;
  evidence_type = some "download_artifact";
  requires_uploader = false;
  requires_unattempted_job = false;
}

abbrev open_detail : AuditActionContract
open_detail = record {
  name = "open_detail";
  aliases = "open_detail" ∷ [];
  scope_types = job_audit_scopes;
  event_types = "conversion_job.action_requested" ∷ [];
  job_statuses = none;
  result_statuses = none;
  lifecycle_state = none;
  evidence_type = none;
  requires_uploader = false;
  requires_unattempted_job = false;
}

abbrev review_approve_request : AuditActionContract
review_approve_request = record {
  name = "review_approve_request";
  aliases = "approve" ∷ [];
  scope_types = review_request_scopes;
  event_types = "conversion_review.action_requested" ∷ [];
  job_statuses = none;
  result_statuses = none;
  lifecycle_state = none;
  evidence_type = none;
  requires_uploader = false;
  requires_unattempted_job = false;
}

abbrev review_edit_request : AuditActionContract
review_edit_request = record {
  name = "review_edit_request";
  aliases = "edit" ∷ [];
  scope_types = review_request_scopes;
  event_types = "conversion_review.action_requested" ∷ [];
  job_statuses = none;
  result_statuses = none;
  lifecycle_state = none;
  evidence_type = none;
  requires_uploader = false;
  requires_unattempted_job = false;
}

abbrev review_outcome : AuditActionContract
review_outcome = record {
  name = "review_outcome";
  aliases =
      "approved" ∷ "edited" ∷ "rejected" ∷ "review.approve" ∷ "review.approved" ∷ "review.edit"
      ∷ "review.edited" ∷ "review.reject" ∷ "review.rejected" ∷ [];
  scope_types = "review_decision" ∷ [];
  event_types = [];
  job_statuses = none;
  result_statuses = none;
  lifecycle_state = none;
  evidence_type = none;
  requires_uploader = false;
  requires_unattempted_job = false;
}

-- `_AUDIT_ACTION_CONTRACTS`
abbrev pub audit_action_contracts : List AuditActionContract
audit_action_contracts =
    source_upload ∷ desktop_upload ∷ document_inspected ∷ artifact_generated ∷ review_opened
    ∷ job_queued ∷ job_running ∷ job_failed ∷ job_succeeded ∷ job_retry ∷ download_result
    ∷ desktop_result_download ∷ open_detail ∷ review_approve_request ∷ review_edit_request
    ∷ review_outcome ∷ []

-- One entry of the dict for each alias of the contract.
unfoldable pub put_aliases :
    Dict AuditActionContract → List String → AuditActionContract → Dict AuditActionContract
put_aliases d [] c = d
put_aliases d (a ∷ as') c = put_aliases (Dict.put d a c) as' c

-- The comprehension of `_AUDIT_ACTION_CONTRACT_BY_ALIAS`: a later entry of a key replaces it.
unfoldable pub by_alias :
    Dict AuditActionContract → List AuditActionContract → Dict AuditActionContract
unfolding put_aliases
by_alias d [] = d
by_alias d (c ∷ cs) = by_alias (put_aliases d c.aliases c) cs

-- `_audit_action_contract`
unfoldable pub audit_action_contract : String → Option AuditActionContract
audit_action_contract action = Dict.get (by_alias [] audit_action_contracts) action

-- `_require_audit_action_contract`
unfoldable pub require_audit_action_contract : String → Result AuditActionContract
require_audit_action_contract action = elim (audit_action_contract action) [
  | none ↦ err (value_error "audit action must have a declared contract")
  | some contract ↦ ok contract
]

-- `_evidence_aliases_for_contract`
unfoldable pub evidence_aliases_for_contract : AuditActionContract → List String
evidence_aliases_for_contract contract = elim contract.evidence_type [
  | none ↦ []
  | some kind ↦ elim (kind == "download_artifact") [
    | true ↦ "download_filename" ∷ "output_sha256" ∷ []
    | false ↦ []
  ]
]

-- `_require_audit_action_scope`
unfoldable pub require_audit_action_scope : String → String → Result AuditActionContract
require_audit_action_scope action scope_type = elim (require_audit_action_contract action) [
  | err e ↦ err e
  | ok contract ↦ elim (contains contract.scope_types scope_type) [
    | true ↦ ok contract
    | false ↦ err (value_error "audit action is not valid for the selected scope type")
  ]
]

matches_contract : String → String → Result AuditActionContract → Result Bool
matches_contract event_type scope_type (err e) = err e
matches_contract event_type scope_type (ok contract) =
    ok (contains contract.event_types event_type && contains contract.scope_types scope_type)

-- `_audit_event_type_matches_action`
unfoldable pub audit_event_type_matches_action : Value → String → String → Result Bool
unfolding matches_contract
audit_event_type_matches_action (str event_type) action scope_type = elim (event_type == action) [
  | true ↦ ok true
  | false ↦ matches_contract event_type scope_type (require_audit_action_contract action)
]
audit_event_type_matches_action _ action scope_type = ok false

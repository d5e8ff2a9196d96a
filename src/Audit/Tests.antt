-- ===== src/Audit/Tests.antt =====
-- Runs of the audit contracts (services/api/persistence_contracts.py).
use veri_doc.Prelude.{◌≡◌, refl, true, ◌↔◌, some}
use veri_doc.Prelude.Dict
use veri_doc.Prelude.Lists.{contains}
use veri_doc.Audit.Contracts.{
  AuditActionContract, audit_action_contracts, put_aliases, by_alias, audit_action_contract,
  require_audit_action_contract, audit_event_type_matches_action, job_queued,
}
use veri_doc.Audit.Aliases.{
  IsDeclared, audit_action_contract_unique, audit_event_type_matches_action-IsDeclared,
}

audit_action_contract_unique_example :
    (audit_action_contract "job.queued" ≡ some job_queued)
    ↔ IsDeclared job_queued audit_action_contracts
      × (contains job_queued.aliases "job.queued" ≡ true)
audit_action_contract_unique_example = audit_action_contract_unique job_queued "job.queued"

audit_event_type_matches_action-IsDeclared_example :
    (c : AuditActionContract) × IsDeclared c audit_action_contracts
    × (contains c.aliases "job.queued" ≡ true)
    × (contains c.event_types "job.lifecycle" ≡ true)
    × (contains c.scope_types "job" ≡ true)
unfolding audit_event_type_matches_action require_audit_action_contract audit_action_contract
    by_alias put_aliases Dict.get Dict.put contains
audit_event_type_matches_action-IsDeclared_example =
    audit_event_type_matches_action-IsDeclared "job.lifecycle" "job.queued" "job" refl refl

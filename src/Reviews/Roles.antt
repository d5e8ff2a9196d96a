-- ===== src/Reviews/Roles.antt =====
-- Who may record which decision: ROLE_PERMISSIONS of services/api/poc_web.py and
-- REVIEW_DECISION_PERMISSIONS of services/api/review_decision_workflow.py.
use veri_doc.Prelude.{String, Bool, false, List, [], ◌∷◌, Option, some}
use veri_doc.Prelude.Dict
use veri_doc.Prelude.Dict.{Dict}
use veri_doc.Prelude.Lists.{contains}

-- The order of the permissions of a role does not matter, since they are only tested.
unfoldable pub role_permissions : Dict (List String)
role_permissions =
    ("viewer", "job_events:read" ∷ "jobs:read" ∷ "review_events:read" ∷ "templates:read" ∷ [])
    ∷ (
      "operator",
      "convert" ∷ "job_events:read" ∷ "jobs:create" ∷ "jobs:read" ∷ "jobs:retry" ∷ "templates:read"
          ∷ [],
    )
    ∷ (
      "reviewer",
      "convert" ∷ "job_events:read" ∷ "jobs:create" ∷ "jobs:read" ∷ "review_events:edit"
          ∷ "review_events:read" ∷ "templates:read" ∷ [],
    )
    ∷ (
      "approver",
      "convert" ∷ "job_events:read" ∷ "jobs:create" ∷ "jobs:read" ∷ "review_events:approve"
          ∷ "review_events:edit" ∷ "review_events:read" ∷ "templates:read" ∷ [],
    )
    ∷ (
      "admin",
      "convert" ∷ "job_events:read" ∷ "jobs:create" ∷ "jobs:read" ∷ "jobs:retry"
          ∷ "review_events:approve" ∷ "review_events:edit" ∷ "review_events:read"
          ∷ "templates:manage" ∷ "templates:read" ∷ [],
    )
    ∷ ("audit_viewer", "job_events:read" ∷ "review_events:read" ∷ [])
    ∷ []

unfoldable pub review_decision_permissions : Dict String
review_decision_permissions =
    ("approved", "review_events:approve")
    ∷ ("edited", "review_events:edit")
    ∷ ("rejected", "review_events:approve")
    ∷ []

abbrev has_permission : Option String → Option (List String) → Bool
has_permission (some permission) (some permissions) = contains permissions permission
has_permission _ _ = false

-- The test of `record_authoritative_review_decision`.
unfoldable pub may_record : String → String → Bool
may_record role decision =
    has_permission (Dict.get review_decision_permissions decision) (Dict.get role_permissions role)

-- ===== src/Audit/Aliases.antt =====
-- The lookup of an action's contract by its aliases (services/api/persistence_contracts.py).
use veri_doc.Prelude.{
  String, ◌≡◌, ◌↔◌, refl, Bool, true, false, ◌&&◌, not, List, [], ◌∷◌, Option, none, some, arith,
  eq_iff, ◌==◌, if◌then◌else◌, Bool-cases, Option-cases, inl, inr,
}
use veri_doc.Prelude.Dict
use veri_doc.Prelude.Dict.{Dict, get-put}
use veri_doc.Prelude.Lists.{contains, any, all}
use veri_doc.Py.Value.{str}
use veri_doc.Jobs.Record.{ok}
use veri_doc.Audit.Contracts.{
  audit_event_type_matches_action, require_audit_action_contract, AuditActionContract,
  audit_action_contracts, put_aliases, by_alias, audit_action_contract,
}

-- The last of the contracts that declare the action.
abbrev last_owner : List AuditActionContract → String → Option AuditActionContract
last_owner [] action = none
last_owner (c ∷ cs) action = elim (last_owner cs action) [
  | some d ↦ some d
  | none ↦ if contains c.aliases action then some c else none
]

get-put_aliases :
    (d : Dict AuditActionContract) (as' : List String) (c : AuditActionContract) (a : String)
    → Dict.get (put_aliases d as' c) a ≡ (if contains as' a then some c else Dict.get d a)
unfolding put_aliases contains
get-put_aliases d [] c a = refl
get-put_aliases d (x ∷ as') c a =
    ground (arith, get-put_aliases (Dict.put d x c) as' c a, get-put d x a c, eq_iff x a)

or_found : Option AuditActionContract → Option AuditActionContract → Option AuditActionContract
or_found (some c) found = some c
or_found none found = found

get-by_alias :
    (d : Dict AuditActionContract) (cs : List AuditActionContract) (a : String)
    → Dict.get (by_alias d cs) a ≡ or_found (last_owner cs a) (Dict.get d a)
unfolding by_alias or_found
get-by_alias d [] a = refl
get-by_alias d (c ∷ cs) a =
    ground (arith, get-by_alias (put_aliases d c.aliases c) cs a, get-put_aliases d c.aliases c a)

-- The contracts of a list.
pub data IsDeclared (c : AuditActionContract) : List AuditActionContract → Type 0 where
  first : {cs : List AuditActionContract} → IsDeclared c (c ∷ cs)
  later :
      {d : AuditActionContract} {cs : List AuditActionContract}
      → IsDeclared c cs
      → IsDeclared c (d ∷ cs)

last_owner-contains :
    (cs : List AuditActionContract) (a : String) (c : AuditActionContract)
    → last_owner cs a ≡ some c
    → IsDeclared c cs × (contains c.aliases a ≡ true)
last_owner-contains [] a c h = cc
last_owner-contains (d ∷ cs) a c h = elim (Option-cases (last_owner cs a)) [
  | inl none' ↦ elim (Bool-cases (contains d.aliases a)) [
    | inl hit ↦ let same : d ≡ c = ground arith in rw (← same) (first, hit)
    | inr miss ↦ cc
  ]
  | inr (e, found) ↦
      let same : e ≡ c = ground arith in
      let r = last_owner-contains cs a e found in rw (← same) (later r.0, r.1)
]

-- No action of a contract is one of a later contract's.
abbrev owned : List AuditActionContract → String → Bool
owned cs a = any (λ d. contains d.aliases a) cs

abbrev apart : List AuditActionContract → Bool
apart [] = true
apart (c ∷ cs) = all (λ a. not (owned cs a)) c.aliases && apart cs

last_owner-none :
    (cs : List AuditActionContract) (a : String) → owned cs a ≡ false → last_owner cs a ≡ none
unfolding any
last_owner-none [] a h = refl
last_owner-none (c ∷ cs) a h = ground (arith, last_owner-none cs a)

all_at :
    (p : String → Bool) (xs : List String) (a : String)
    → all p xs ≡ true
    → contains xs a ≡ true
    → p a ≡ true
unfolding all contains
all_at p [] a h e = cc
all_at p (x ∷ xs) a h e = elim (Bool-cases (x == a)) [
  | inl hit ↦ let same : x ≡ a = (eq_iff x a).0 hit in ground arith
  | inr miss ↦ all_at p xs a (ground arith) (ground arith)
]

last_owner-apart :
    (cs : List AuditActionContract)
    → apart cs ≡ true
    → (c : AuditActionContract) → IsDeclared c cs
    → (a : String) → contains c.aliases a ≡ true
    → last_owner cs a ≡ some c
last_owner-apart (d ∷ cs) h c first a e =
    let free = all_at (λ x. not (owned cs x)) d.aliases a (ground arith) e in
    let lost = last_owner-none cs a (ground arith) in ground arith
last_owner-apart (d ∷ cs) h c (later m) a e =
    let found = last_owner-apart cs (ground arith) c m a e in ground arith
last_owner-apart [] h c m a e = elim m [ ]

contracts_apart : apart audit_action_contracts ≡ true
unfolding contains any all
contracts_apart = refl

unique_in :
    (cs : List AuditActionContract)
    → apart cs ≡ true
    → (c : AuditActionContract) (a : String)
    → (Dict.get (by_alias [] cs) a ≡ some c) ↔ IsDeclared c cs × (contains c.aliases a ≡ true)
unfolding Dict.get or_found
unique_in cs h c a =
    let found = get-by_alias [] cs a in
    (
      λ e. last_owner-contains cs a c (elim (Option-cases (last_owner cs a)) [
        | inl lost ↦ ground arith
        | inr (d, owner) ↦ ground arith
      ]),
      λ (m, e). let owner = last_owner-apart cs h c m a e in ground arith,
    )

-- An action has a contract exactly if a declared contract has it among its aliases, and it is that
-- contract.
pub audit_action_contract_unique :
    (c : AuditActionContract) (action : String)
    → (audit_action_contract action ≡ some c)
      ↔ IsDeclared c audit_action_contracts × (contains c.aliases action ≡ true)
unfolding audit_action_contract
audit_action_contract_unique c action = unique_in audit_action_contracts contracts_apart c action

-- An event type that is not the action itself matches it only if the action's declared contract
-- has that event type and the scope type.
pub audit_event_type_matches_action-IsDeclared :
    (event_type action scope_type : String)
    → (event_type == action) ≡ false
    → audit_event_type_matches_action (str event_type) action scope_type ≡ ok true
    → (c : AuditActionContract) × IsDeclared c audit_action_contracts
      × (contains c.aliases action ≡ true)
      × (contains c.event_types event_type ≡ true)
      × (contains c.scope_types scope_type ≡ true)
unfolding audit_event_type_matches_action require_audit_action_contract
audit_event_type_matches_action-IsDeclared event_type action scope_type differs h =
    elim (Option-cases (audit_action_contract action)) [
      | inl lost ↦ cc
      | inr (c, found) ↦
          let own = (audit_action_contract_unique c action).0 found in
          (c, own.0, own.1, ground arith, ground arith)
    ]

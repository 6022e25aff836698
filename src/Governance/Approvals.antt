-- ===== src/Governance/Approvals.antt =====
-- backend/app/governance/approvals/store.py: `class ApprovalStoreImpl`. A row of a table is a
-- member of a list in the order of insertion. `clock n` is the n-th reading of the clock in a call
-- and `fresh n` the n-th generated uuid. A flush writes what the session holds already.
mod Rows
pub mod Trail
mod Sweep
pub mod Decisions
mod Tests
use azienda.Base.{
  ℕ, ◌+◌, String, Bool, true, false, ◌&&◌, Option, none, some, List, [], ◌∷◌, ◌++◌, str_eq, leb,
  ◌==◌, if◌then◌else◌, or_else, is_some, length, take, drop, map, select, find, update_where,
  Result, ok, err, Exec, pure, raise, raise_if, or_raise, gets, modify, ◌>>=◌, ◌>>◌,
}
use azienda.Contracts.{
  Factor, Reason, TenantId, Uuid, Time, TenantContext, Actor, user, agent, system, Fields, end,
  ActionRequest, PolicyDecision, ApprovalStatus, pending, approved, denied, expired, Approval,
}

pub data Kind : Type 0 where
  user_kind agent_kind : Kind

pub record ApprovalRecord : Type 0 where
  pub id : Uuid
  pub tenant_id : TenantId
  pub action : String
  pub resource : Option String
  pub args : Fields
  pub risk_score : ℕ
  pub risk_factors : List Factor
  pub policy_id : Option Uuid
  pub reasons : List Reason
  pub status : ApprovalStatus
  pub requested_by : Option Uuid
  pub requested_by_kind : Kind
  pub decided_by : Option Uuid
  pub decided_at : Option Time
  pub expires_at : Time
  pub note : Option String
  pub idempotency_key : Option String

-- `event_type`, with the payload that goes with it
pub data EventType : Type 0 where
  approval_requested : (action : String) (reasons : List Reason) → EventType
  approval_approved approval_denied approval_escalated : (note : String) → EventType
  approval_expired : EventType

pub record ApprovalEvent : Type 0 where
  pub approval_id : Uuid
  pub tenant_id : TenantId
  pub event_type : EventType
  pub actor : Actor

pub record Store : Type 0 where
  pub approvals : List ApprovalRecord
  pub events : List ApprovalEvent

pub data Error : Type 0 where
  not_found : Error
  conflict : ApprovalStatus → Error
  not_escalatable : Error

abbrev pub is_pending : ApprovalStatus → Bool
is_pending pending = true
is_pending _ = false

abbrev pub owned_by : TenantContext → ApprovalRecord → Bool
owned_by tenant r = r.tenant_id == tenant.tenant_id

-- `tenant.user_id or "system"`
abbrev pub user_or_system : TenantContext → Actor
user_or_system tenant = elim tenant.user_id [ none ↦ system | some u ↦ user u ]

-- `tenant.user_id or tenant.agent_id or "system"`
abbrev pub acting : TenantContext → Actor
acting tenant = elim tenant.user_id [
  | none ↦ elim tenant.agent_id [ none ↦ system | some a ↦ agent a ]
  | some u ↦ user u
]

abbrev pub event : ApprovalRecord → EventType → Actor → ApprovalEvent
event r type actor = record {
  approval_id = r.id;
  tenant_id = r.tenant_id;
  event_type = type;
  actor = actor;
}

-- `db.add(ApprovalEvent(...))`
abbrev pub add_event : ApprovalRecord → EventType → Actor → Store → Store
add_event r type actor s = record s { events = s.events ++ event r type actor ∷ [] }

-- an assignment to the attributes of the loaded row
abbrev pub write : Uuid → (ApprovalRecord → ApprovalRecord) → Store → Store
write id f s = record s { approvals = update_where (λ r. r.id == id) f s.approvals }

pub to_approval : ApprovalRecord → ActionRequest → Approval
to_approval r request = record {
  approval_id = r.id;
  tenant_id = r.tenant_id;
  action = request;
  status = r.status;
  requested_by = elim r.requested_by [ none ↦ system | some u ↦ user u ];
  decided_by = r.decided_by;
  expires_at = r.expires_at;
  risk_score = r.risk_score;
  risk_factors = r.risk_factors;
  reasons = r.reasons;
}

-- the request that is rebuilt from a row
abbrev pub rebuilt : TenantContext → ApprovalRecord → ActionRequest
rebuilt tenant r = record {
  tenant = tenant;
  action = r.action;
  resource = r.resource;
  args = r.args;
  risk_context = end;
  idempotency_key = none;
}

pub get_record : TenantContext → Uuid → Store → Option ApprovalRecord
get_record tenant id s = find (λ r. r.id == id && owned_by tenant r) s.approvals

abbrev pub is_due : Time → ApprovalRecord → Bool
is_due now r = is_pending r.status && leb r.expires_at now

abbrev pub expire : ApprovalRecord → ApprovalRecord
expire r = record r { status = expired }

-- the row as the session holds it afterwards, and the store
pub expire_if_due : Time → ApprovalRecord → Store → ApprovalRecord × Store
expire_if_due now r s =
    if is_due now r
    then (expire r, add_event r approval_expired system (write r.id expire s))
    else (r, s)

-- `existing`: the pending approval of the tenant with this key. The empty text is no key.
abbrev pub has_key : Option String → String → Bool
has_key none key = false
has_key (some k) key = str_eq k key

abbrev pub same_request : TenantContext → String → ApprovalRecord → Bool
same_request tenant key r =
    owned_by tenant r && has_key r.idempotency_key key && is_pending r.status

pub existing : ActionRequest → Store → Option ApprovalRecord
existing request s = elim request.idempotency_key [
  | none ↦ none
  | some key ↦ if str_eq key "" then none else find (same_request request.tenant key) s.approvals
]

abbrev pub new_record :
    (ttl : ℕ) (now : Time) (id : Uuid)
    → PolicyDecision
    → ActionRequest
    → ℕ
    → List Factor
    → ApprovalRecord
new_record ttl now id decision request score factors = record {
  id = id;
  tenant_id = request.tenant.tenant_id;
  action = request.action;
  resource = request.resource;
  args = request.args;
  risk_score = score;
  risk_factors = factors;
  policy_id = decision.policy_id;
  reasons = decision.reasons;
  status = pending;
  requested_by = request.tenant.user_id;
  requested_by_kind = if is_some request.tenant.agent_id then agent_kind else user_kind;
  decided_by = none;
  decided_at = none;
  expires_at = now + ttl;
  note = none;
  idempotency_key = request.idempotency_key;
}

-- `request`; `ttl` is `settings.approval_ttl_seconds` in microseconds
pub request :
    (ttl : ℕ) (now : Time) (id : Uuid)
    → PolicyDecision
    → ActionRequest
    → ℕ
    → List Factor
    → Store
    → Approval × Store
unfolding existing to_approval
request ttl now id decision req score factors s = elim (existing req s) [
  | some r ↦ (to_approval r req, s)
  | none ↦
      let r = new_record ttl now id decision req score factors in
      (
        to_approval r req,
        add_event r (approval_requested req.action decision.reasons) (acting req.tenant)
            (record s { approvals = s.approvals ++ r ∷ [] }),
      )
]

abbrev pub settle : Bool → Option Uuid → Time → String → ApprovalRecord → ApprovalRecord
settle verdict by now text r = record r {
  status = if verdict then approved else denied;
  decided_by = by;
  decided_at = some now;
  note = some text;
}

-- the part of `decide` after the row was found
pub decide_row :
    (clock : ℕ → Time) → TenantContext → Bool → String → ApprovalRecord → Exec Store Error Approval
unfolding expire_if_due to_approval
decide_row clock tenant verdict note loaded s =
    let (r, s') = expire_if_due (clock 0) loaded s in
    if is_pending r.status
    then (let r' = settle verdict tenant.user_id (clock 1) note r in
        (
          ok (to_approval r' (rebuilt tenant r')),
          add_event r (if verdict then approval_approved note else approval_denied note)
              (user_or_system tenant)
              (write r.id (settle verdict tenant.user_id (clock 1) note) s'),
        ))
    else (err (conflict r.status), s')

pub decide : (clock : ℕ → Time) → TenantContext → Uuid → Bool → String → Exec Store Error Approval
unfolding get_record decide_row
decide clock tenant id verdict note s = elim (get_record tenant id s) [
  | none ↦ (err not_found, s)
  | some loaded ↦ decide_row clock tenant verdict note loaded s
]

-- `get`
pub get_approval : Time → TenantContext → Uuid → Store → Option Approval × Store
unfolding get_record expire_if_due to_approval
get_approval now tenant id s = elim (get_record tenant id s) [
  | none ↦ (none, s)
  | some loaded ↦
      let (r, s') = expire_if_due now loaded s in (some (to_approval r (rebuilt tenant r)), s')
]

-- the part of `escalate` after the row was found
pub escalate_row : Time → TenantContext → String → ApprovalRecord → Exec Store Error Approval
unfolding expire_if_due to_approval
escalate_row now tenant note loaded s =
    let (r, s') = expire_if_due now loaded s in
    if is_pending r.status
    then (
      ok (to_approval r (rebuilt tenant r)),
      add_event r (approval_escalated note) (user_or_system tenant) s',
    )
    else (err not_escalatable, s')

pub escalate : Time → TenantContext → Uuid → String → Exec Store Error Approval
unfolding get_record escalate_row
escalate now tenant id note s = elim (get_record tenant id s) [
  | none ↦ (err not_found, s)
  | some loaded ↦ escalate_row now tenant note loaded s
]

-- the `WHERE` of `sweep_expired`
abbrev pub in_scope : Option TenantContext → ApprovalRecord → Bool
in_scope none r = true
in_scope (some tenant) r = owned_by tenant r

abbrev pub swept : Option TenantContext → Time → ApprovalRecord → Bool
swept scope now r = is_due now r && in_scope scope r

abbrev pub expiry_event : ApprovalRecord → ApprovalEvent
expiry_event r = event r approval_expired system

pub sweep_expired : Time → Option TenantContext → Store → ℕ × Store
sweep_expired now scope s =
    let rows = select (swept scope now) s.approvals in
    (
      length rows,
      record {
        approvals = update_where (swept scope now) expire s.approvals;
        events = s.events ++ map expiry_event rows;
      },
    )

abbrev pub pending_of : TenantContext → ApprovalRecord → Bool
pending_of tenant r = owned_by tenant r && is_pending r.status

-- `list_pending`; the rows stand in the order of their creation
pub list_pending : Time → TenantContext → ℕ → ℕ → Store → (List Approval × ℕ) × Store
unfolding sweep_expired to_approval
list_pending now tenant limit offset s =
    let (_, s') = sweep_expired now (some tenant) s in
    let rows = select (pending_of tenant) s'.approvals in
    ((map (λ r. to_approval r (rebuilt tenant r)) (take limit (drop offset rows)), length rows), s')

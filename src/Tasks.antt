-- ===== src/Tasks.antt =====
-- backend/app/tasks/service.py: `class TaskService`, with the rows of backend/app/tasks/models.py
-- that it keeps. The policy engine is an interface of the service, and so a parameter. An operation
-- is one transaction; `Env` gives what it reads from outside: the clock and a generated uuid.
pub mod Graph
pub mod Service
pub mod Projects
pub mod Bulk
use azienda.Base.{
  ℕ, zero, suc, ◌+◌, String, Bool, true, false, ◌&&◌, ◌||◌, not, Option, none, some, List, [], ◌∷◌,
  ◌++◌, map, str_eq, str_append, ◌==◌, if◌then◌else◌, null, length, select, find, update_where,
  Exec, Result, ok, err, pure, raise, raise_if, or_raise, gets, modify, ◌>>=◌, ◌>>◌, or_else,
  is_some,
}
use azienda.Contracts.{
  TenantId, Uuid, Time, TenantContext, Actor, user, agent, system, Value, null as none_value, text,
  dict, items, Fields, end, field, ActionRequest, PolicyDecision, PolicyEffect, deny, Reason,
}
use azienda.Tasks.Graph.{Edges, creates_cycle}

pub data Status : Type 0 where
  pending planning waiting_approval executing blocked completed failed cancelled : Status

-- `to_status not in STATUSES`
pub status_of : String → Option Status
status_of s =
    if str_eq s "pending"
    then some pending
    else if str_eq s "planning"
    then some planning
    else if str_eq s "waiting_approval"
    then some waiting_approval
    else if str_eq s "executing"
    then some executing
    else if str_eq s "blocked"
    then some blocked
    else if str_eq s "completed"
    then some completed
    else if str_eq s "failed"
    then some failed
    else if str_eq s "cancelled"
    then some cancelled
    else none

abbrev code_of : Status → ℕ
code_of pending = 0
code_of planning = 1
code_of waiting_approval = 2
code_of executing = 3
code_of blocked = 4
code_of completed = 5
code_of failed = 6
code_of cancelled = 7

-- `==` of two states
pub same_status : Status → Status → Bool
same_status a b = code_of a == code_of b

-- `TERMINAL`
abbrev pub is_terminal : Status → Bool
is_terminal completed = true
is_terminal failed = true
is_terminal cancelled = true
is_terminal _ = false

-- `can_transition`, the table `_TRANSITIONS`
abbrev pub can_transition : Status → Status → Bool
can_transition pending planning = true
can_transition pending cancelled = true
can_transition planning waiting_approval = true
can_transition planning executing = true
can_transition planning failed = true
can_transition planning cancelled = true
can_transition waiting_approval executing = true
can_transition waiting_approval blocked = true
can_transition waiting_approval failed = true
can_transition waiting_approval cancelled = true
can_transition executing waiting_approval = true
can_transition executing blocked = true
can_transition executing completed = true
can_transition executing failed = true
can_transition executing cancelled = true
can_transition blocked executing = true
can_transition blocked waiting_approval = true
can_transition blocked failed = true
can_transition blocked cancelled = true
can_transition _ _ = false

pub record Task : Type 0 where
  pub id : Uuid
  pub tenant_id : TenantId
  pub project_id : Option Uuid
  pub parent_id : Option Uuid
  pub milestone_id : Option Uuid
  pub title : String
  pub description : Option String
  pub status : Status
  pub priority : String
  pub assignee_user_id : Option Uuid
  pub assignee_agent_id : Option String
  pub plan : Fields
  pub due_at : Option Time
  pub completed_at : Option Time
  pub idempotency_key : Option String
  pub is_archived : Bool

-- a project, or a milestone of one, with the columns that its `data` set
pub record Owned : Type 0 where
  pub id : Uuid
  pub tenant_id : TenantId
  pub project_id : Option Uuid
  pub columns : Fields

pub record TaskDependency : Type 0 where
  pub tenant_id : TenantId
  pub task_id : Uuid
  pub depends_on_id : Uuid

-- `from_status` is the empty text for the row that a creation writes
pub record TaskTransition : Type 0 where
  pub tenant_id : TenantId
  pub task_id : Uuid
  pub from_status : Option Status
  pub to_status : Status
  pub actor : Actor
  pub note : Option String

pub record TaskComment : Type 0 where
  pub tenant_id : TenantId
  pub task_id : Uuid
  pub body : String
  pub author_id : Option Uuid
  pub author_type : String

-- the topics that are published, with the aggregate
pub record Event : Type 0 where
  pub topic : String
  pub tenant_id : TenantId
  pub aggregate_id : Uuid

-- what `bulk` answers for an operation
pub record BulkItem : Type 0 where
  pub idempotency_key : String
  pub task_id : Option Uuid
  pub error : Option String
  pub replayed : Bool

pub record TaskBulkOpRecord : Type 0 where
  pub tenant_id : TenantId
  pub idempotency_key : String
  pub op : String
  pub result : BulkItem

pub record Db : Type 0 where
  pub projects : List Owned
  pub milestones : List Owned
  pub tasks : List Task
  pub dependencies : List TaskDependency
  pub transitions : List TaskTransition
  pub comments : List TaskComment
  pub events : List Event
  pub bulk_records : List TaskBulkOpRecord

pub data TaskError : Type 0 where
  not_found : (entity : String) → Uuid → TaskError
  validation : String → TaskError
  incomplete : List Uuid → TaskError
  illegal_transition : Status → Status → TaskError
  dependency_cycle : (task depends_on : Uuid) → TaskError
  policy_denied : (action : String) → List Reason → TaskError
  never_ends : TaskError

pub record Env : Type 0 where
  pub policy : ActionRequest → PolicyDecision
  pub uuid_text : Uuid → String
  pub isoformat : Time → String
  pub now : Time
  pub fresh : Uuid

abbrev pub M : Type 0 → Type 0
M A = Exec Db TaskError A

-- `_actor`
abbrev pub actor_of : TenantContext → Actor
actor_of t = elim t.user_id [
  | some u ↦ user u
  | none ↦ elim t.agent_id [ some a ↦ agent a | none ↦ system ]
]

abbrev pub is_deny : PolicyEffect → Bool
is_deny deny = true
is_deny _ = false

-- `_check_policy`
pub check_policy :
    Env → TenantContext → String → Option String → Fields → Option String → M (Unit {0})
check_policy env tenant action resource args key =
    let decision = env.policy (record {
      tenant = tenant;
      action = action;
      resource = resource;
      args = args;
      risk_context = end;
      idempotency_key = key;
    }) in
    raise_if (is_deny decision.effect) (policy_denied action decision.reasons)

abbrev pub mine : TenantContext → Uuid → Task → Bool
mine tenant id t = t.id == id && t.tenant_id == tenant.tenant_id

abbrev pub task_row : TenantContext → Uuid → Db → Option Task
task_row tenant id db = find (mine tenant id) db.tasks

-- `_get_task`
abbrev pub get_task : TenantContext → Uuid → M Task
get_task tenant id = gets (task_row tenant id) >>= λ o. or_raise o (not_found "task" id)

abbrev owned_row : TenantContext → Uuid → List Owned → Option Owned
owned_row tenant id = find (λ r. r.id == id && r.tenant_id == tenant.tenant_id)

-- `session.commit()` of a row that was changed
abbrev pub write_task : TenantContext → Uuid → (Task → Task) → M (Unit {0})
write_task tenant id f =
    modify (λ db. record db { tasks = update_where (mine tenant id) f db.tasks })

-- `_record_transition`
abbrev pub record_transition :
    TenantContext → Uuid → Option Status → Status → Option String → M (Unit {0})
record_transition tenant id before after note = modify (λ db. record db {
  transitions =
      db.transitions
      ++ record {
        tenant_id = tenant.tenant_id;
        task_id = id;
        from_status = before;
        to_status = after;
        actor = actor_of tenant;
        note = note;
      }
        ∷ [];
})

-- `_emit`
abbrev pub emit : String → TenantContext → Uuid → M (Unit {0})
emit topic tenant id = modify (λ db. record db {
  events =
      db.events ++ record { topic = topic; tenant_id = tenant.tenant_id; aggregate_id = id } ∷ [];
})

abbrev pub task_ref : Env → Uuid → Option String
task_ref env id = some (str_append "task:" (env.uuid_text id))

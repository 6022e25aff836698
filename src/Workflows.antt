-- ===== src/Workflows.antt =====
-- backend/app/workflows: the graph of dsl.py and the rows of models.py. A node id is a number. A
-- graph is what `DagSpec.model_validate` has parsed: a known type and 1 to 10 attempts for each node.
pub mod Dsl
pub mod Ports
pub mod Conditions
pub mod Runner
pub mod Service
use azienda.Base.{
  ℕ, ◌+◌, String, Bool, true, false, ◌&&◌, Option, none, some, List, [], ◌∷◌, ◌++◌, str_eq, ◌==◌,
  if◌then◌else◌, select, map,
}
use azienda.Contracts.{TenantId, Uuid, Time, Fields, end, field, Value}

abbrev pub NodeId : Type 0
NodeId = ℕ

pub data NodeType : Type 0 where
  trigger condition agent tool approval action notification : NodeType

-- `max_attempts` is that of the `RetrySpec`; its backoff is only slept
pub record Node : Type 0 where
  pub id : NodeId
  pub kind : NodeType
  pub config : Fields
  pub max_attempts : ℕ
  pub on_error : Option NodeId

pub record Edge : Type 0 where
  pub from_node : NodeId
  pub to : NodeId
  pub label : Option String

pub record Dag : Type 0 where
  pub nodes : List Node
  pub edges : List Edge

pub data ExecutionStatus : Type 0 where
  running waiting_approval paused succeeded failed cancelled : ExecutionStatus

-- `state["pending_approval"]`
pub record Pending : Type 0 where
  pub node_id : NodeId
  pub approval_id : Uuid
  pub next_node : Option NodeId
  pub denied_node : Option NodeId

pub record Gate : Type 0 where
  pub waiting : Option Pending
  pub approvals : List (NodeId × Uuid)

-- the resumable state of an execution
pub record State : Type 0 where
  pub current : Option NodeId
  pub context : Fields
  pub attempts : List (NodeId × ℕ)
  pub gate : Gate
  pub finished_nodes : List NodeId

pub record Version : Type 0 where
  pub id : Uuid
  pub tenant_id : TenantId
  pub definition_id : Uuid
  pub version : ℕ
  pub dag : Dag

pub record Execution : Type 0 where
  pub id : Uuid
  pub tenant_id : TenantId
  pub definition_id : Uuid
  pub version_id : Uuid
  pub status : ExecutionStatus
  pub input : Fields
  pub state : State
  pub cost_usd : ℕ
  pub error : Option String
  pub idempotency_key : Option String
  pub finished_at : Option Time

-- the types of the rows in execution_events, with the node where they have one
pub data EventType : Type 0 where
  execution_started execution_cancelled : EventType
  execution_finished : ExecutionStatus → EventType
  node_started node_retry node_failed node_completed notified policy_evaluated approval_requested :
      NodeId → EventType
  approval_decided : NodeId → Bool → EventType

pub record ExecutionEvent : Type 0 where
  pub tenant_id : TenantId
  pub execution_id : Uuid
  pub seq : ℕ
  pub event_type : EventType

pub record DomainEvent : Type 0 where
  pub topic : String
  pub tenant_id : TenantId
  pub aggregate_id : Uuid

-- `d[key] = v`
abbrev pub set_field : String → Value → Fields → Fields
set_field k v end = field k v end
set_field k v (field j w rest) =
    if str_eq j k then field j v rest else field j w (set_field k v rest)

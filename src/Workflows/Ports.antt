-- ===== src/Workflows/Ports.antt =====
-- backend/app/workflows: what the runner is given. `W` is the state of the packages behind the ports
-- (backend/app/workflows/ports.py and the protocols of backend/app/core/contracts.py): a call of a
-- port may change it. The evaluation of expressions and the built-in actions are interfaces too.
use azienda.Base.{ℕ, String, Bool, Option}
use azienda.Contracts.{
  TenantContext, Uuid, Time, Fields, Value, ActionRequest, PolicyDecision, Approval,
}
use azienda.Workflows.{NodeId}

-- `AgentTaskResult` and `ToolResult`: whether it is ok, the summary of an agent, the output, the
-- error and the cost
pub record PortResult : Type 0 where
  pub succeeded : Bool
  pub summary : String
  pub output : Value
  pub error : String
  pub cost : ℕ

-- `decide` gives None where the store raises
pub record ApprovalPort (W : Type 0) : Type 0 where
  pub request : PolicyDecision → ActionRequest → W → Approval × W
  pub decide : TenantContext → Uuid → Bool → String → W → Option Approval × W
  pub get_approval : TenantContext → Uuid → W → Option Approval × W

-- `evaluate` gives None for an ExpressionError, `run_action` for an ActionError
pub record Ports (W : Type 0) : Type 0 where
  pub policy : ActionRequest → W → PolicyDecision × W
  pub approval_store : Option (ApprovalPort W)
  pub agents : Option (
      TenantContext
      → (capability goal : String) → Fields
      → (autonomy_level : Value) → W
      → PortResult × W)
  pub tools : Option (
      TenantContext
      → (tool_name : String) → (arguments : Value) → (execution : Uuid) → NodeId
      → W
      → PortResult × W)
  pub get_lead : Option (TenantContext → (lead_id : String) → W → Option Value × W)
  pub notify : Option (TenantContext → (message : Value) → Fields → W → W)
  pub run_action :
      (name : String) → (params : Value) → Fields → TenantContext → W → Option Value × W
  pub evaluate : Value → Fields → Option Bool
  pub render : Value → Fields → Value
  pub str : Value → String
  pub node_text : NodeId → String
  pub uuid_text : Uuid → String
  pub reasons_text : PolicyDecision → String
  pub now : Time

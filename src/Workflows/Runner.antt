-- ===== src/Workflows/Runner.antt =====
-- backend/app/workflows/runner.py: `WorkflowRunner` up to the loop of `drive`.
pub mod Service
pub mod Ends
pub mod Rests
pub mod Validated
pub mod Tests
use azienda.Base.{
  ℕ, zero, suc, ◌+◌, ◌≡◌, String, Bool, true, false, ◌&&◌, ◌||◌, not, Option, none, some, List, [],
  ◌∷◌, ◌++◌, str_eq, str_append, ltb, leb, ◌==◌, if◌then◌else◌, select, map, any, null, find,
  or_else, Result, ok, err,
}
use azienda.Base.Int.{pos}
use azienda.Contracts.{
  TenantContext, Uuid, Time, Fields, end, field, Value, text, flag, num, dict, null as null_value,
  get, get_or, truthy, ActionRequest, PolicyDecision, PolicyEffect, allow, deny, require_approval,
  Approval, ApprovalStatus, pending, approved, denied, expired,
}
use azienda.Workflows.{
  NodeId, NodeType, trigger, condition, agent, tool, approval, action, notification, Node, Edge,
  Dag, ExecutionStatus, running, waiting_approval, succeeded, failed, cancelled, Pending, Gate,
  State, Version, Execution, EventType, execution_started, execution_cancelled, execution_finished,
  node_started, node_retry, node_failed, node_completed, notified, policy_evaluated,
  approval_requested, approval_decided, ExecutionEvent, DomainEvent, set_field,
}
use azienda.Workflows.Dsl.{outgoing, default_next, node_by_id, is_trigger}
use azienda.Workflows.Ports.{PortResult, ApprovalPort, Ports}

-- `NodeError`
pub record NodeError : Type 0 where
  pub message : String
  pub policy_denied : Bool

-- where a node leads: the unlabelled edge, the first edge of a label, or nowhere while it is parked
pub data Route : Type 0 where
  onward parked : Route
  along : String → Route

-- the result of a node, its route and its cost
pub record Ran : Type 0 where
  pub result : Value
  pub route : Route
  pub cost : ℕ

abbrev pub first_of : List NodeId → Option NodeId
first_of [] = none
first_of (i ∷ _) = some i

abbrev pub next_of : Dag → NodeId → Route → Option NodeId
next_of spec i onward = default_next spec i
next_of spec i (along label) = first_of (outgoing spec i (some label))
next_of spec i parked = none

-- what the loop of `drive` works on: the row, its events, those of the bus, and what is behind the ports
pub record Job (W : Type 0) : Type 0 where
  pub execution : Execution
  pub events : List ExecutionEvent
  pub bus : List DomainEvent
  pub world : W

-- `coalesce(max(seq), -1) + 1`
unfoldable pub next_seq : Uuid → List ExecutionEvent → ℕ
next_seq i [] = 0
next_seq i (e ∷ es) =
    let rest = next_seq i es in if e.execution_id == i && leb rest e.seq then suc e.seq else rest

module _ {W : Type 0} where
  -- `_record`
  abbrev pub record_event : TenantContext → EventType → Job W → Job W
  record_event tenant kind j =
      let row : ExecutionEvent = record {
        tenant_id = tenant.tenant_id;
        execution_id = j.execution.id;
        seq = next_seq j.execution.id j.events;
        event_type = kind;
      } in
      record j { events = j.events ++ row ∷ [] }

  -- `_emit`
  abbrev pub emit : TenantContext → String → Job W → Job W
  emit tenant topic j = record j {
    bus =
        j.bus
        ++ record { topic = topic; tenant_id = tenant.tenant_id; aggregate_id = j.execution.id }
          ∷ [];
  }

  abbrev pub save : State → Job W → Job W
  save s j = record j { execution = record (j.execution) { state = s } }

  -- `_fail`
  unfoldable pub fail : Time → TenantContext → State → String → Job W → Job W
  fail now tenant s reason j =
      let row = record (j.execution) {
        status = failed;
        error = some reason;
        finished_at = some now;
        state = s;
      } in
      emit tenant "workflow.finished"
        (record_event tenant (execution_finished failed) (record j { execution = row }))

module _ {W : Type 0} (ports : Ports W) (tenant : TenantContext) where
  -- what a node gives: its result or its error, the gate and the job
  abbrev pub NodeRun : Type 0
  NodeRun = Result NodeError Ran × Gate × Job W

  abbrev node_error : String → Result NodeError Ran
  node_error m = err (record { message = m; policy_denied = false })

  abbrev policy_error : PolicyDecision → Result NodeError Ran
  policy_error d = err (record { message = ports.reasons_text d; policy_denied = true })

  abbrev done : Value → Route → ℕ → Result NodeError Ran
  done v r c = ok (record { result = v; route = r; cost = c })

  abbrev ask : (action : String) → Option String → (args risk_context : Fields) → ActionRequest
  ask act resource args risk_context = record {
    tenant = tenant;
    action = act;
    resource = resource;
    args = args;
    risk_context = risk_context;
    idempotency_key = none;
  }

  abbrev node_arg : Node → Fields → Fields
  node_arg n rest = field "node" (text (ports.node_text n.id)) rest

  abbrev string_of : String → Node → String
  string_of key n = ports.str (get_or key n.config null_value)

  abbrev pub is_deny : PolicyEffect → Bool
  is_deny deny = true
  is_deny _ = false

  -- a call of the job's world
  abbrev calls : {A : Type 0} → (W → A × W) → Job W → A × Job W
  calls f j = let (a, w) = f j.world in (a, record j { world = w })

  -- `_policy_check`, before `run` where the action is not denied
  abbrev policy_check :
      (action : String) → (args : Fields) → (Gate → Job W → NodeRun) → Gate → Job W → NodeRun
  policy_check act args continue_with gate j =
      let (d, j') = calls (ports.policy (ask act none args end)) j in
      if is_deny d.effect then (policy_error d, gate, j') else continue_with gate j'

  -- the edge of a label, or an error without one
  abbrev branch : Dag → Node → String → Value → Result NodeError Ran → Result NodeError Ran
  branch spec n label v missing =
      if null (outgoing spec n.id (some label)) then missing else done v (along label) 0

  abbrev run_condition : Dag → Node → Fields → Result NodeError Ran
  run_condition spec n context =
      elim (ports.evaluate (get_or "expression" n.config null_value) context) [
        | none ↦ node_error "condition expression error"
        | some outcome ↦
            branch spec n (if outcome then "true" else "false")
              (dict (field "evaluated" (flag outcome) end)) (node_error "no edge for the outcome")
      ]

  abbrev port_outcome : Fields → PortResult → Result NodeError Ran
  port_outcome result r =
      if r.succeeded then done (dict result) onward r.cost else node_error r.error

  abbrev run_agent : Node → Fields → Gate → Job W → NodeRun
  run_agent n context gate j = elim ports.agents [
    | none ↦ (node_error "agent delegation is not configured", gate, j)
    | some delegate ↦
        let (r, j') =
          calls
            (delegate tenant (string_of "capability" n)
              (ports.str (get_or "goal" n.config (text "")))
              (set_field "execution_id" (text (ports.uuid_text j.execution.id)) context)
              (get_or "autonomy_level" n.config (num (pos 1))))
            j in
        (port_outcome (field "summary" (text r.summary) (field "output" r.output end)) r, gate, j')
  ]

  abbrev run_tool : Node → Fields → Gate → Job W → NodeRun
  run_tool n context gate j = elim ports.tools [
    | none ↦ (node_error "tool executor is not configured", gate, j)
    | some execute ↦
        let (r, j') =
          calls
            (execute tenant (string_of "tool_name" n)
              (ports.render (get_or "arguments" n.config (dict end)) context) j.execution.id n.id)
            j in
        (port_outcome (field "output" r.output end) r, gate, j')
  ]

  -- `ACTION_CATALOG`
  abbrev action_catalog : List String
  action_catalog =
      "crm.activity.log" ∷ "crm.lead.rescore" ∷ "crm.lead.set_status" ∷ "outreach.draft"
      ∷ "research_stub" ∷ "task.create" ∷ []

  abbrev run_builtin : Node → Fields → Gate → Job W → NodeRun
  run_builtin n context gate j =
      let (r, j') =
        calls
          (ports.run_action (string_of "action" n) (get_or "params" n.config (dict end)) context
            tenant)
          j in
      elim r [
        | none ↦ (node_error "action failed", gate, j')
        | some v ↦ (done v onward 0, gate, j')
      ]

  abbrev notified_by :
      Option (TenantContext → Value → Fields → W → W) → Value → Fields → Job W → Job W
  notified_by none message context j = j
  notified_by (some f) message context j = record j { world = f tenant message context j.world }

  abbrev run_notification : Node → Fields → Gate → Job W → NodeRun
  run_notification n context gate j =
      let message = ports.render (get_or "message" n.config (text "")) context in
      (
        done (dict (field "message" message end)) onward 0,
        gate,
        emit tenant "workflow.notification"
            (record_event tenant (notified n.id) (notified_by ports.notify message context j)),
      )

  -- `_execute_approval` where the policy asks for an approval and the store has one for the node
  abbrev resume : ApprovalPort W → Dag → Node → Pending → Gate → Job W → NodeRun
  resume store spec n p gate j =
      let (a, j') = calls (store.get_approval tenant p.approval_id) j in
      elim a [
        | none ↦ (node_error "approval vanished", gate, j')
        | some row ↦ elim row.status [
          | approved ↦ (
            done (dict (field "approved" (flag true) end)) onward 0,
            record { waiting = none; approvals = (n.id, row.approval_id) ∷ gate.approvals },
            j',
          )
          | denied ↦ (
            branch spec n "denied" (dict (field "denied" (flag true) end))
                (err (record { message = "approval denied"; policy_denied = true })),
            record gate { waiting = none },
            j',
          )
          | _ ↦ (done null_value parked 0, gate, j')
        ]
      ]

  -- and where it has none
  abbrev park :
      ApprovalPort W → Dag → Node → PolicyDecision → ActionRequest → Gate → Job W → NodeRun
  park store spec n d q gate j =
      let (a, j') = calls (store.request d q) j in
      let p : Pending = record {
        node_id = n.id;
        approval_id = a.approval_id;
        next_node = default_next spec n.id;
        denied_node = first_of (outgoing spec n.id (some "denied"));
      } in
      (
        done null_value parked 0,
        record gate { waiting = some p },
        emit tenant "workflow.waiting_approval" (record_event tenant (approval_requested n.id) j'),
      )

  abbrev waits_here : NodeId → Option Pending → Option Pending
  waits_here i none = none
  waits_here i (some p) = if p.node_id == i then some p else none

  abbrev by_approval : Dag → Node → PolicyDecision → ActionRequest → Gate → Job W → NodeRun
  by_approval spec n d q gate j = elim ports.approval_store [
    | none ↦ (node_error "approval store is not configured", gate, j)
    | some store ↦ elim (waits_here n.id gate.waiting) [
      | some p ↦ resume store spec n p gate j
      | none ↦ park store spec n d q gate j
    ]
  ]

  abbrev fields_of : Value → Fields
  fields_of (dict d) = d
  fields_of _ = end

  abbrev resource_of : Node → Option String
  resource_of n = elim (get_or "resource" n.config null_value) [
    | null_value ↦ none
    | v ↦ some (ports.str v)
  ]

  -- `_execute_approval`
  abbrev execute_approval : Dag → Node → Fields → Gate → Job W → NodeRun
  execute_approval spec n context gate j =
      let args = fields_of (ports.render (get_or "args" n.config (dict end)) context) in
      let q =
        ask (string_of "action" n) (resource_of n) (node_arg n args)
          (field "policy_ref" (get_or "policy_ref" n.config null_value) end) in
      let (d, j') = calls (ports.policy q) j in
      let j'' = record_event tenant (policy_evaluated n.id) j' in
      elim d.effect [
        | allow ↦ (done (dict (field "skipped" (flag true) end)) onward 0, gate, j'')
        | deny ↦ (
          branch spec n "denied" (dict (field "denied" (flag true) end)) (policy_error d),
          gate,
          j'',
        )
        | require_approval ↦ by_approval spec n d q gate j''
      ]

  -- `_execute_node`
  unfoldable pub execute_node : Dag → Node → Fields → Gate → Job W → NodeRun
  execute_node spec n context gate j = elim n.kind [
    | trigger ↦ (done (dict (field "input" (dict j.execution.input) end)) onward 0, gate, j)
    | condition ↦ (run_condition spec n context, gate, j)
    | agent ↦
        policy_check (str_append "workflow.agent." (string_of "capability" n))
          (node_arg n (field "goal" (get_or "goal" n.config null_value) end)) (run_agent n context)
          gate j
    | tool ↦
        policy_check (str_append "tool." (string_of "tool_name" n))
          (node_arg n (field "arguments" (get_or "arguments" n.config (dict end)) end))
          (run_tool n context) gate j
    | approval ↦ execute_approval spec n context gate j
    | action ↦
        if any (str_eq (string_of "action" n)) action_catalog
        then policy_check (str_append "workflow.action." (string_of "action" n))
            (node_arg n (field "params" (get_or "params" n.config (dict end)) end))
            (run_builtin n context) gate j
        else (node_error "unknown action", gate, j)
    | notification ↦ run_notification n context gate j
  ]

-- ===== src/Workflows/Runner/Service.antt =====
-- backend/app/workflows/runner.py: `drive`, `signal` and `cancel`.
use azienda.Base.{
  ℕ, zero, suc, ◌+◌, String, Bool, true, false, ◌&&◌, Option, none, some, List, [], ◌∷◌, ◌++◌,
  str_eq, ltb, ◌==◌, if◌then◌else◌, find, update_where, Result, ok, err,
}
use azienda.Contracts.{TenantContext, Uuid, Fields, text, dict, get_or, truthy, null as null_value}
use azienda.Workflows.{
  NodeId, Node, Dag, ExecutionStatus, running, waiting_approval, paused, succeeded, failed,
  cancelled, Pending, State, Version, Execution, execution_started, execution_cancelled,
  execution_finished, node_started, node_retry, node_failed, node_completed, approval_decided,
  ExecutionEvent, DomainEvent, set_field,
}
use azienda.Workflows.Dsl.{node_by_id, is_trigger}
use azienda.Workflows.Ports.{ApprovalPort, Ports}
use azienda.Workflows.Runner.{
  NodeError, parked, Ran, next_of, Job, record_event, emit, save, fail, execute_node,
}

pub data WorkflowError : Type 0 where
  execution_not_found version_not_found : Uuid → WorkflowError
  no_matching_approval no_approval_store no_trigger approval_not_decided : WorkflowError
  unknown_signal : String → WorkflowError
  already : ExecutionStatus → WorkflowError

-- `status in TERMINAL_STATUSES`
abbrev pub is_terminal : ExecutionStatus → Bool
is_terminal running = false
is_terminal waiting_approval = false
is_terminal paused = false
is_terminal _ = true

-- the rows, the bus and what is behind the ports
pub record Db (W : Type 0) : Type 0 where
  pub executions : List Execution
  pub versions : List Version
  pub events : List ExecutionEvent
  pub bus : List DomainEvent
  pub world : W

-- `attempts.get(i, 0)`
abbrev pub attempts_of : NodeId → List (NodeId × ℕ) → ℕ
attempts_of i [] = 0
attempts_of i ((j, n) ∷ rest) = if j == i then n else attempts_of i rest

-- one round of the loop of `drive`: it breaks with the job, or goes on with a job and a state
pub data Round (W : Type 0) : Type 0 where
  stops : Job W → Round W
  goes_on : Job W → State → Round W

module _ {W : Type 0} (ports : Ports W) (tenant : TenantContext) where
  -- a node that raised
  abbrev pub after_error : Node → NodeError → State → Job W → Round W
  after_error n e s j =
      let tries = attempts_of n.id s.attempts + 1 in
      let s' = record s { attempts = (n.id, tries) ∷ s.attempts } in
      let j' = record_event tenant (node_failed n.id) j in
      if ltb tries n.max_attempts
      then goes_on (save s' (record_event tenant (node_retry n.id) j)) s'
      else (elim n.on_error [
        | some t ↦
            goes_on (save (record s' { current = some t }) j') (record s' { current = some t })
        | none ↦ stops (fail ports.now tenant s' e.message j')
      ])

  abbrev pub finish : State → Job W → Job W
  finish s j =
      let row = record (j.execution) {
        status = succeeded;
        finished_at = some ports.now;
        state = s;
      } in
      emit tenant "workflow.finished"
        (record_event tenant (execution_finished succeeded) (record j { execution = row }))

  abbrev pub completed : Dag → Node → Ran → State → Job W → Round W
  completed spec n ran s j =
      let s' = record s {
        context = set_field (ports.node_text n.id) ran.result s.context;
        finished_nodes = s.finished_nodes ++ n.id ∷ [];
      } in
      let j' =
        emit tenant "workflow.node_completed" (record_event tenant (node_completed n.id) j) in
      elim (next_of spec n.id ran.route) [
        | none ↦ stops (finish s' j')
        | some k ↦
            goes_on (save (record s' { current = some k }) j') (record s' { current = some k })
      ]

  abbrev park_job : State → Job W → Job W
  park_job s j = record j {
    execution = record (j.execution) { status = waiting_approval; state = s };
  }

  abbrev pub charged : ℕ → Job W → Job W
  charged cost j = record j {
    execution = record (j.execution) { cost_usd = j.execution.cost_usd + cost };
  }

  -- a node that gave a result
  abbrev pub after_result : Dag → Node → Ran → State → Job W → Round W
  after_result spec n ran s j =
      let j' = charged ran.cost j in
      elim ran.route [ parked ↦ stops (park_job s j') | _ ↦ completed spec n ran s j' ]

  abbrev pub run_node : Dag → Node → State → Job W → Round W
  run_node spec n s j =
      let (r, gate, j') =
        execute_node ports tenant spec n s.context s.gate
          (record_event tenant (node_started n.id) j) in
      let s' = record s { gate = gate } in
      elim r [ err e ↦ after_error n e s' j' | ok ran ↦ after_result spec n ran s' j' ]

  abbrev pub current_node : Dag → State → Option Node
  current_node spec s = elim s.current [ none ↦ none | some i ↦ node_by_id i spec.nodes ]

  unfoldable pub round : Dag → State → Job W → Round W
  round spec s j = elim (current_node spec s) [
    | none ↦ stops (fail ports.now tenant s "unknown current node" j)
    | some n ↦ run_node spec n s j
  ]

  -- the loop of `drive`; `none` when the fuel has run out
  unfoldable pub drive_loop : ℕ → Dag → State → Job W → Option (Job W)
  drive_loop zero spec s j = none
  drive_loop (suc n) spec s j = elim (round spec s j) [
    | stops j' ↦ some j'
    | goes_on j' s' ↦ drive_loop n spec s' j'
  ]

  abbrev pub with_lead : Fields → Job W → State → State × Job W
  with_lead input j s = elim ports.get_lead [
    | none ↦ (s, j)
    | some f ↦
        let id = get_or "lead_id" input null_value in
        let (lead, w) = f tenant (ports.str id) j.world in
        if truthy id
        then (
          (elim lead [
            | none ↦ s
            | some v ↦ if truthy v then record s { context = set_field "lead" v s.context } else s
          ]),
          record j { world = w },
        )
        else (s, j)
  ]

  -- what `drive` does where the state has no current node
  abbrev pub begin_at : Node → State → Job W → State × Job W
  begin_at n s j =
      let s' = record s {
        current = some n.id;
        context =
            set_field "execution_id" (text (ports.uuid_text j.execution.id))
              (set_field "input" (dict j.execution.input) s.context);
      } in
      let (s'', j') = with_lead j.execution.input j s' in
      (s'', emit tenant "workflow.started" (record_event tenant execution_started j'))

  abbrev pub begin : Dag → State → Job W → Option (State × Job W)
  begin spec s j = elim s.current [
    | some i ↦ some (s, j)
    | none ↦ elim (find is_trigger spec.nodes) [ none ↦ none | some n ↦ some (begin_at n s j) ]
  ]

  abbrev is_execution : Uuid → Execution → Bool
  is_execution i e = e.id == i && e.tenant_id == tenant.tenant_id

  -- `_load_execution` and `_load_version`
  abbrev pub load_execution : Uuid → Db W → Option Execution
  load_execution i db = find (is_execution i) db.executions

  abbrev pub load_version : Uuid → Db W → Option Version
  load_version i db = find (λ v. v.id == i && v.tenant_id == tenant.tenant_id) db.versions

  abbrev pub job_of : Execution → Db W → Job W
  job_of e db = record { execution = e; events = db.events; bus = db.bus; world = db.world }

  abbrev pub store_job : Job W → Db W → Db W
  store_job j db = record db {
    executions = update_where (is_execution j.execution.id) (λ _. j.execution) db.executions;
    events = j.events;
    bus = j.bus;
    world = j.world;
  }

  abbrev pub run_loop : ℕ → Dag → Execution → Db W → Option (Result WorkflowError Execution × Db W)
  run_loop fuel spec e db = elim (begin spec e.state (job_of e db)) [
    | none ↦ some (err no_trigger, db)
    | some (s, j) ↦ elim (drive_loop fuel spec s j) [
      | none ↦ none
      | some j' ↦ some (ok j'.execution, store_job j' db)
    ]
  ]

  -- `drive`
  unfoldable pub drive : ℕ → Uuid → Db W → Option (Result WorkflowError Execution × Db W)
  drive fuel i db = elim (load_execution i db) [
    | none ↦ some (err (execution_not_found i), db)
    | some e ↦ if is_terminal e.status then some (ok e, db) else (elim e.status [
      | waiting_approval ↦ some (ok e, db)
      | _ ↦ elim (load_version e.version_id db) [
        | none ↦ some (err (version_not_found e.version_id), db)
        | some v ↦ run_loop fuel v.dag e db
      ]
    ])
  ]

  -- the pending approval that a signal names
  abbrev pub named_pending : Uuid → State → Option Pending
  named_pending a s = elim s.gate.waiting [
    | none ↦ none
    | some p ↦ if p.approval_id == a then some p else none
  ]

  -- the state and the job after an approval was decided, or the job that failed for good
  abbrev pub after_decision : Execution → Pending → Bool → Job W → Job W
  after_decision e p yes_said j =
      let j' = record_event tenant (approval_decided p.node_id yes_said) j in
      let gate = record (e.state.gate) { waiting = none } in
      let moved : State → Job W = λ s.
        let s' = record s { finished_nodes = s.finished_nodes ++ p.node_id ∷ [] } in
        let k =
          emit tenant "workflow.node_completed"
            (record_event tenant (node_completed p.node_id) j') in
        record k { execution = record (k.execution) { status = running; state = s' } } in
      if yes_said
      then moved (record (e.state) {
        gate = record gate { approvals = (p.node_id, p.approval_id) ∷ gate.approvals };
        current = p.next_node;
      })
      else (elim p.denied_node [
        | some k ↦ moved (record (e.state) { gate = gate; current = some k })
        | none ↦ fail ports.now tenant (record (e.state) { gate = gate }) "approval denied" j'
      ])

  abbrev decide_and_go :
      ℕ
      → ApprovalPort W
      → Execution
      → Pending
      → Bool
      → (note : String) → Db W
      → Option (Result WorkflowError Execution × Db W)
  decide_and_go fuel store e p yes_said note db =
      let (a, w) = store.decide tenant p.approval_id yes_said note db.world in
      elim a [
        | none ↦ some (err approval_not_decided, record db { world = w })
        | some row ↦
            let j = after_decision e p yes_said (record (job_of e db) { world = w }) in
            let db' = store_job j db in
            elim j.execution.status [
              | failed ↦ some (ok j.execution, db')
              | _ ↦ drive fuel e.id db'
            ]
      ]

  -- `signal`, with the fields of its payload
  unfoldable pub signal :
      ℕ
      → Uuid
      → (name : String) → (approval_id : Uuid) → (yes_said : Bool) → (note : String) → Db W
      → Option (Result WorkflowError Execution × Db W)
  signal fuel i name a yes_said note db = elim (load_execution i db) [
    | none ↦ some (err (execution_not_found i), db)
    | some e ↦
        if str_eq name "approval"
        then (elim (named_pending a e.state) [
          | none ↦ some (err no_matching_approval, db)
          | some p ↦ elim ports.approval_store [
            | none ↦ some (err no_approval_store, db)
            | some store ↦ decide_and_go fuel store e p yes_said note db
          ]
        ])
        else some (err (unknown_signal name), db)
  ]

  -- `cancel`
  unfoldable pub cancel : Uuid → (reason : String) → Db W → Result WorkflowError Execution × Db W
  cancel i reason db = elim (load_execution i db) [
    | none ↦ (err (execution_not_found i), db)
    | some e ↦
        if is_terminal e.status
        then (err (already e.status), db)
        else (let row = record e {
          status = cancelled;
          error = some reason;
          finished_at = some ports.now;
        } in
            let j = emit tenant "workflow.finished" (
              record_event tenant execution_cancelled (record (job_of e db) { execution = row })) in
            (ok row, store_job j db))
  ]

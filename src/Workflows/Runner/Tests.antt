-- ===== src/Workflows/Runner/Tests.antt =====
-- Small graphs that the runner drives. The world counts the approvals that were asked for.
use azienda.Base.{
  ℕ, suc, ◌≤◌, ◌≡◌, refl, arith, true, false, Option, none, some, [], ◌∷◌, length, select, Result,
  ◌==◌, ◌&&◌, if◌then◌else◌, find-All,
}
use azienda.Contracts.{
  TenantContext, Uuid, Fields, text, end, field, PolicyDecision, require_approval, Approval,
  approved, system,
}
use azienda.Workflows.{
  NodeId, NodeType, trigger, approval, tool, Node, Edge, Dag, ExecutionStatus, running,
  waiting_approval, cancelled, State, Version, Execution, execution_started, ExecutionEvent,
}
use azienda.Workflows.Dsl.{dag_errors, any_cycle, dfs, reach}
use azienda.Workflows.Ports.{Ports}
use azienda.Workflows.Runner.{execute_node, fail, next_seq}
use azienda.Workflows.Runner.Service.{
  WorkflowError, Db, round, drive_loop, drive, signal, cancel, load_execution, load_version,
}
use azienda.Workflows.Runner.Ends.{IsRanked}
use azienda.Workflows.Runner.Rests.{IsAtRest, drive-IsAtRest}
use azienda.Workflows.Runner.Validated.{IsPlain, valid-IsRanked, valid_drive-IsAtRest}

abbrev pub alice : TenantContext
alice = record { tenant_id = 7; user_id = some 41; agent_id = none; roles = [] }

abbrev asks : PolicyDecision
asks = record {
  effect = require_approval;
  policy_id = none;
  reasons = [];
  approval_id = none;
  obligations = end;
}

abbrev asked : Uuid → Approval
asked i = record {
  approval_id = i;
  tenant_id = 7;
  action = record {
    tenant = alice;
    action = "pay";
    resource = none;
    args = end;
    risk_context = end;
    idempotency_key = none;
  };
  status = approved;
  requested_by = system;
  decided_by = none;
  expires_at = 9;
  risk_score = 0;
  risk_factors = [];
  reasons = [];
}

abbrev pub ports : Ports ℕ
ports = record {
  policy = λ q w. (asks, w);
  approval_store = some (record {
    request = λ d q w. (asked w, suc w);
    decide = λ t i yes_said note w. (some (asked i), w);
    get_approval = λ t i w. (some (asked i), w);
  });
  agents = none;
  tools = none;
  get_lead = none;
  notify = none;
  run_action = λ name params context t w. (none, w);
  evaluate = λ v context. none;
  render = λ v context. v;
  str = λ v. elim v [ text s ↦ s | _ ↦ "" ];
  node_text = λ i. "node";
  uuid_text = λ i. "id";
  reasons_text = λ d. "";
  now = 5;
}

abbrev node : NodeId → NodeType → Fields → Option NodeId → Node
node i k c e = record { id = i; kind = k; config = c; max_attempts = 2; on_error = e }

abbrev edge : NodeId → NodeId → Edge
edge i k = record { from_node = i; to = k; label = none }

abbrev gate_config : Fields
gate_config = field "policy_ref" (text "p") (field "action" (text "pay") end)

-- a trigger and an approval, which comes last
abbrev pub approval_dag : Dag
approval_dag = record {
  nodes = node 1 trigger end none ∷ node 2 approval gate_config none ∷ [];
  edges = edge 1 2 ∷ [];
}

-- a tool without an executor, whose error target leads back to it
abbrev looping_dag : Dag
looping_dag = record {
  nodes = node 1 trigger end none ∷ node 2 tool (field "tool_name" (text "t") end) (some 2) ∷ [];
  edges = edge 1 2 ∷ [];
}

abbrev at_start : State
at_start = record {
  current = none;
  context = end;
  attempts = [];
  gate = record { waiting = none; approvals = [] };
  finished_nodes = [];
}

abbrev pub db_of : Dag → Db ℕ
db_of spec = record {
  executions =
      record {
        id = 3;
        tenant_id = 7;
        definition_id = 4;
        version_id = 6;
        status = running;
        input = end;
        state = at_start;
        cost_usd = 0;
        error = none;
        idempotency_key = none;
        finished_at = none;
      }
      ∷ [];
  versions = record { id = 6; tenant_id = 7; definition_id = 4; version = 1; dag = spec } ∷ [];
  events = [];
  bus = [];
  world = 100;
}

abbrev db_after : Option (Result WorkflowError Execution × Db ℕ) → Db ℕ
db_after none = db_of approval_dag
db_after (some (r, db)) = db

abbrev status_in : Db ℕ → Option ExecutionStatus
status_in db = elim (load_execution ports alice 3 db) [ none ↦ none | some e ↦ some e.status ]

-- how often the execution was started
abbrev starts : Db ℕ → ℕ
starts db = length (
    select (λ (e : ExecutionEvent). elim e.event_type [ execution_started ↦ true | _ ↦ false ])
      db.events)

abbrev parked_db : Db ℕ
parked_db = db_after (drive ports alice 40 3 (db_of approval_dag))

parks : (status_in parked_db ≡ some waiting_approval) × (starts parked_db ≡ 1)
unfolding drive drive_loop round execute_node fail next_seq
parks = (refl, refl)

abbrev signalled_db : Db ℕ
signalled_db = db_after (signal ports alice 40 3 "approval" 100 true "" parked_db)

-- an approval that is the last node starts the execution again when it is given, and asks again
restarts :
    (status_in signalled_db ≡ some waiting_approval)
    × (starts signalled_db ≡ 2)
    × (signalled_db.world ≡ 102)
unfolding signal drive drive_loop round execute_node fail next_seq
restarts = (refl, refl, refl)

abbrev cancelled_db : Db ℕ
cancelled_db = (cancel ports alice 3 "stop" parked_db).1

-- a cancelled execution goes on when the approval that it waited for is given
revives :
    (status_in cancelled_db ≡ some cancelled)
    × (status_in (db_after (signal ports alice 40 3 "approval" 100 true "" cancelled_db))
        ≡ some waiting_approval)
unfolding signal cancel drive drive_loop round execute_node fail next_seq
revives = (refl, refl)

-- a graph that is valid although it loops through its error target
loops_on_error : (dag_errors looping_dag ≡ []) × (drive ports alice 60 3 (db_of looping_dag) ≡ none)
unfolding dag_errors any_cycle dfs reach drive drive_loop round execute_node fail next_seq
loops_on_error = (refl, refl)

abbrev rank : NodeId → ℕ
rank i = if i == 1 then 1 else 0

rank_bound : (k : NodeId) → rank k ≤ 1
rank_bound k = ground arith

dag-IsRanked : IsRanked rank approval_dag
dag-IsRanked = record {
  edges_fall = (omega arith, tt);
  errors_fall = ((λ t e. cc), ((λ t e. cc), tt));
  few_attempts = (omega arith, (omega arith, tt));
}

found_dag :
    (e : Execution) (v : Version)
    → load_execution ports alice 3 (db_of approval_dag) ≡ some e
    → load_version ports alice e.version_id (db_of approval_dag) ≡ some v
    → IsRanked rank v.dag
found_dag e v found loaded =
    find-All (λ (v : Version). IsRanked rank v.dag) (λ v. v.id == e.version_id && v.tenant_id == 7)
      (db_of approval_dag).versions v (dag-IsRanked, tt) loaded

drive-IsAtRest_example :
    (out : Result WorkflowError Execution × Db ℕ) × (drive ports alice 40 3 (db_of approval_dag)
      ≡ some out)
    × IsAtRest out.0
drive-IsAtRest_example =
    drive-IsAtRest ports alice rank 1 rank_bound 40 3 (db_of approval_dag) found_dag (omega arith)

approval_dag_valid : dag_errors approval_dag ≡ []
unfolding dag_errors any_cycle dfs reach
approval_dag_valid = refl

approval_dag-IsPlain : IsPlain approval_dag
approval_dag-IsPlain = ((omega arith, refl), ((omega arith, refl), tt))

valid-IsRanked_example :
    (rank : NodeId → ℕ) × (top : ℕ) × ((k : NodeId) → rank k ≤ top) × IsRanked rank approval_dag
valid-IsRanked_example = valid-IsRanked approval_dag approval_dag_valid approval_dag-IsPlain

abbrev fresh_execution : Execution
fresh_execution = record {
  id = 3;
  tenant_id = 7;
  definition_id = 4;
  version_id = 6;
  status = running;
  input = end;
  state = at_start;
  cost_usd = 0;
  error = none;
  idempotency_key = none;
  finished_at = none;
}

abbrev approval_version : Version
approval_version = record {
  id = 6;
  tenant_id = 7;
  definition_id = 4;
  version = 1;
  dag = approval_dag;
}

valid_drive-IsAtRest_example :
    (enough : ℕ) × ((fuel : ℕ)
      → enough ≤ fuel
      → (out : Result WorkflowError Execution × Db ℕ) × (drive ports alice fuel 3
            (db_of approval_dag)
          ≡ some out)
        × IsAtRest out.0)
valid_drive-IsAtRest_example =
    valid_drive-IsAtRest ports alice 3 (db_of approval_dag) fresh_execution approval_version refl
      refl approval_dag_valid approval_dag-IsPlain

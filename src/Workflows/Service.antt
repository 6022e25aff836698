-- ===== src/Workflows/Service.antt =====
-- backend/app/workflows/service.py: definitions, versions and the start of executions. A draft is a
-- graph that the schema has parsed. An IntegrityError does not come up: an operation is one transaction.
pub mod Published
mod Tests
use azienda.Base.{
  ℕ, suc, ◌+◌, String, Bool, true, false, ◌&&◌, not, Option, none, some, List, [], ◌∷◌, ◌++◌,
  str_eq, leb, ◌==◌, if◌then◌else◌, find, select, update_where, or_else, is_some, sort_desc,
  sort_asc, any, Exec, Result, ok, err, pure, raise, raise_if, or_raise, gets, modify, ◌>>=◌, ◌>>◌,
}
use azienda.Contracts.{
  TenantContext, TenantId, Uuid, Fields, end, field, text, ActionRequest, PolicyDecision,
  PolicyEffect, allow, deny, require_approval,
}
use azienda.Workflows.{
  Dag, ExecutionStatus, running, State, Version, Execution, ExecutionEvent, DomainEvent,
}
use azienda.Workflows.Dsl.{dag_errors, DagError}
use azienda.Workflows.Ports.{Ports}
use azienda.Workflows.Runner.{is_deny}
use azienda.Workflows.Runner.Service.{WorkflowError, Db, drive, signal, cancel, load_execution}

pub record Definition : Type 0 where
  pub id : Uuid
  pub tenant_id : TenantId
  pub name : String
  pub description : Option String
  pub autonomy_level : ℕ
  pub is_active : Bool
  pub draft_dag : Dag

pub data ServiceError : Type 0 where
  not_found : (entity : String) → Uuid → ServiceError
  name_not_found name_taken : String → ServiceError
  invalid_dag : List DagError → ServiceError
  definition_required no_version : ServiceError
  policy_denied : PolicyDecision → ServiceError
  runner_failed : WorkflowError → ServiceError

pub record Sys (W : Type 0) : Type 0 where
  pub definitions : List Definition
  pub db : Db W

-- `coalesce(max(version), 0)`
unfoldable pub latest : Uuid → List Version → ℕ
latest i [] = 0
latest i (v ∷ vs) =
    let rest = latest i vs in if v.definition_id == i && leb rest v.version then v.version else rest

module _ {W : Type 0} (ports : Ports W) (tenant : TenantContext) where
  abbrev pub S : Type 0 → Type 0
  S A = Exec (Sys W) ServiceError A

  abbrev pub on_db : (Db W → Db W) → Sys W → Sys W
  on_db f s = record s { db = f s.db }

  abbrev pub emit : String → Uuid → S (Unit {0})
  emit topic i = modify (
      on_db (λ db. record db {
        bus =
            db.bus ++ record { topic = topic; tenant_id = tenant.tenant_id; aggregate_id = i } ∷ [];
      }))

  abbrev pub ask_policy : (action : String) → Fields → S PolicyDecision
  ask_policy action args s =
      let (d, w) =
        ports.policy
          (record {
            tenant = tenant;
            action = action;
            resource = none;
            args = args;
            risk_context = end;
            idempotency_key = none;
          })
          s.db.world in
      (ok d, on_db (λ db. record db { world = w }) s)

  -- `_check_policy`
  abbrev pub check_policy : (action : String) → Fields → S (Unit {0})
  check_policy action args =
      ask_policy action args >>= λ d. raise_if (is_deny ports tenant d.effect) (policy_denied d)

  abbrev pub no_errors : List DagError → Bool
  no_errors [] = true
  no_errors (_ ∷ _) = false

  -- `validate_dag` and the error that it is turned into
  abbrev pub validate : Dag → S (Unit {0})
  validate dag = raise_if (not (no_errors (dag_errors dag))) (invalid_dag (dag_errors dag))

  abbrev pub definition_row : Uuid → Sys W → Option Definition
  definition_row i s =
      find (λ (d : Definition). d.id == i && d.tenant_id == tenant.tenant_id) s.definitions

  abbrev named_row : String → Sys W → Option Definition
  named_row name s =
      find (λ (d : Definition). d.tenant_id == tenant.tenant_id && str_eq d.name name) s.definitions

  -- `get_definition`
  abbrev pub get_definition : Uuid → S Definition
  get_definition i = gets (definition_row i) >>= λ o. or_raise o (not_found "workflow_definition" i)

  abbrev pub id_arg : Uuid → Fields
  id_arg i = field "definition_id" (text (ports.uuid_text i)) end

  -- `create_definition`, with the id that the row gets
  pub create_definition :
      (fresh : Uuid) → (name : String) → Option String → (autonomy_level : ℕ) → Dag → S Definition
  create_definition fresh name description level dag =
      let d : Definition = record {
        id = fresh;
        tenant_id = tenant.tenant_id;
        name = name;
        description = description;
        autonomy_level = level;
        is_active = true;
        draft_dag = dag;
      } in
      check_policy "workflows.definition.create" (field "name" (text name) end)
      >> validate dag
      >> (gets (named_row name) >>= λ o. raise_if (is_some o) (name_taken name))
      >> modify (λ s. record s { definitions = s.definitions ++ d ∷ [] })
      >> emit "workflows.definition.created" fresh
      >> pure d

  abbrev put_definition : Definition → Sys W → Sys W
  put_definition d s = record s {
    definitions = update_where (λ (x : Definition). x.id == d.id) (λ _. d) s.definitions;
  }

  abbrev checked_draft : Option Dag → S (Unit {0})
  checked_draft none = pure tt
  checked_draft (some dag) = validate dag

  -- `update_definition`: a field that is not in the data stays
  pub update_definition :
      Uuid
      → (name : Option String) → (description : Option (Option String))
      → (autonomy_level : Option ℕ) → (is_active : Option Bool) → (dag : Option Dag) → S Definition
  update_definition i name description level active dag =
      check_policy "workflows.definition.update" (id_arg i)
      >> checked_draft dag
      >> (get_definition i >>= λ d.
          let d' = record d {
            name = or_else name d.name;
            description = or_else description d.description;
            autonomy_level = or_else level d.autonomy_level;
            is_active = or_else active d.is_active;
            draft_dag = or_else dag d.draft_dag;
          } in
          modify (put_definition d') >> pure d')

  abbrev pub add_version : Version → Sys W → Sys W
  add_version v = on_db (λ db. record db { versions = db.versions ++ v ∷ [] })

  abbrev pub new_version : (fresh : Uuid) → Definition → Sys W → Version
  new_version fresh d s = record {
    id = fresh;
    tenant_id = tenant.tenant_id;
    definition_id = d.id;
    version = latest d.id s.db.versions + 1;
    dag = d.draft_dag;
  }

  -- `publish_version`
  unfoldable pub publish_version : (fresh : Uuid) → Uuid → S Version
  publish_version fresh i =
      check_policy "workflows.version.publish" (id_arg i)
      >> (get_definition i >>= λ d.
          validate d.draft_dag
          >> (gets (new_version fresh d) >>= λ v.
              modify (add_version v) >> emit "workflows.version.published" v.id >> pure v))

  -- the versions of a definition that the tenant sees, the latest first
  abbrev of_definition : Uuid → Version → Bool
  of_definition i v = v.definition_id == i && v.tenant_id == tenant.tenant_id

  -- `list_versions`
  abbrev pub list_versions : Uuid → Sys W → List Version
  list_versions i s =
      sort_desc (λ (v : Version). v.version) (select (of_definition i) s.db.versions)

  abbrev version_row : Uuid → Option ℕ → Sys W → Option Version
  version_row i none s = find (λ v. true) (list_versions i s)
  version_row i (some n) s = find (λ v. of_definition i v && v.version == n) s.db.versions

  -- `get_version`
  pub get_version : Uuid → ℕ → S Version
  get_version i n =
      gets (version_row i (some n)) >>= λ o. or_raise o (not_found "workflow_version" i)

  -- the definition that an id or a name gives
  abbrev pub definition_of : Option Uuid → Option String → S Uuid
  definition_of (some i) name = pure i
  definition_of none none = raise definition_required
  definition_of none (some name) =
      if str_eq name ""
      then raise definition_required
      else (gets (named_row name) >>= λ o. elim o [
        | none ↦ raise (name_not_found name)
        | some d ↦ pure d.id
      ])

  -- `if idempotency_key`, then the execution of the tenant that has it
  abbrev pub execution_by_key : Option String → Sys W → Option Execution
  execution_by_key none s = none
  execution_by_key (some k) s =
      if str_eq k ""
      then none
      else find
          (λ (e : Execution).
            e.tenant_id == tenant.tenant_id
            && (elim e.idempotency_key [ none ↦ false | some j ↦ str_eq j k ]))
          s.db.executions

  abbrev empty_state : State
  empty_state = record {
    current = none;
    context = end;
    attempts = [];
    gate = record { waiting = none; approvals = [] };
    finished_nodes = [];
  }

  abbrev pub new_execution :
      (fresh : Uuid) → (definition_id : Uuid) → Version → Fields → Option String → Execution
  new_execution fresh i v input key = record {
    id = fresh;
    tenant_id = tenant.tenant_id;
    definition_id = i;
    version_id = v.id;
    status = running;
    input = input;
    state = empty_state;
    cost_usd = 0;
    error = none;
    idempotency_key = key;
    finished_at = none;
  }

  -- what a start leads to: the execution that had the key, or a new one to drive
  pub data Opened : Type 0 where
    replayed : Execution → Opened
    opened : Uuid → Opened

  -- `start_execution` up to the call of `drive`
  pub open_execution :
      (fresh : Uuid)
      → (definition_id : Option Uuid) → (definition_name : Option String) → (version : Option ℕ)
      → (input : Fields) → (key : Option String) → S Opened
  open_execution fresh i name version input key =
      check_policy "workflows.execution.start" (
        field "definition_id"
          (text (elim i [ none ↦ or_else name "None" | some j ↦ ports.uuid_text j ])) end)
      >> (definition_of i name >>= λ j. gets (execution_by_key key) >>= λ existing. elim existing [
        | some e ↦ pure (replayed e)
        | none ↦ (gets (version_row j version) >>= λ o. or_raise o no_version) >>= λ v.
            modify (
              on_db (λ db. record db {
                executions = db.executions ++ new_execution fresh j v input key ∷ [];
              }))
            >> pure (opened fresh)
      ])

  -- the errors of the runner come through
  abbrev lifted : Result WorkflowError Execution → Result ServiceError Execution
  lifted (ok e) = ok e
  lifted (err e) = err (runner_failed e)

  abbrev after_runner :
      Option (Result WorkflowError Execution × Db W)
      → Sys W
      → Option (Result ServiceError Execution × Sys W)
  after_runner none s = none
  after_runner (some (q, db)) s = some (lifted q, record s { db = db })

  -- `start_execution`; `none` when the fuel of `drive` has run out
  pub start_execution :
      ℕ
      → (fresh : Uuid) → (definition_id : Option Uuid) → (definition_name : Option String)
      → (version : Option ℕ) → (input : Fields) → (key : Option String) → Sys W
      → Option (Result ServiceError Execution × Sys W)
  start_execution fuel fresh i name version input key s =
      let (r, s') = open_execution fresh i name version input key s in
      elim r [
        | err e ↦ some (err e, s')
        | ok (replayed e) ↦ some (ok e, s')
        | ok (opened j) ↦ after_runner (drive ports tenant fuel j s'.db) s'
      ]

  -- `signal_execution`; `none` when the fuel of `drive` has run out
  pub signal_execution :
      ℕ
      → Uuid
      → (name : String) → (approval_id : Uuid) → (yes_said : Bool) → (note : String) → Sys W
      → Option (Result ServiceError Execution × Sys W)
  signal_execution fuel i name a yes_said note s =
      let (r, s') =
        check_policy "workflows.execution.signal"
          (field "execution_id" (text (ports.uuid_text i)) (field "signal" (text name) end)) s in
      elim r [
        | err e ↦ some (err e, s')
        | ok _ ↦ after_runner (signal ports tenant fuel i name a yes_said note s'.db) s'
      ]

  -- `cancel_execution`
  pub cancel_execution : Uuid → (reason : String) → S Execution
  cancel_execution i reason =
      check_policy "workflows.execution.cancel"
        (field "execution_id" (text (ports.uuid_text i)) end)
      >> (λ s. let (q, db) = cancel ports tenant i reason s.db in (lifted q, record s { db = db }))

  -- `get_execution`
  abbrev get_execution : Uuid → S Execution
  get_execution i = gets (λ s. load_execution ports tenant i s.db) >>= λ o.
      or_raise o (not_found "workflow_execution" i)

  -- the rows of `list_execution_events`
  pub list_execution_events : Uuid → S (List ExecutionEvent)
  list_execution_events i =
      get_execution i
      >> gets (λ s.
        sort_asc (λ (e : ExecutionEvent). e.seq)
          (select (λ (e : ExecutionEvent). e.execution_id == i && e.tenant_id == tenant.tenant_id)
            s.db.events))

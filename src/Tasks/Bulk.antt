-- ===== src/Tasks/Bulk.antt =====
-- backend/app/tasks/service.py: `bulk`, with `_bulk_replay` and `_bulk_record`.
use azienda.Base.{
  ℕ, String, Bool, true, false, ◌&&◌, Option, none, some, List, [], ◌∷◌, ◌++◌, str_eq, ◌==◌,
  if◌then◌else◌, find, Result, ok, err,
}
use azienda.Contracts.{Uuid, TenantContext, num, end, field}
use azienda.Base.Int.{pos}
use azienda.Base.{length, is_some}
use azienda.Tasks.{
  Task, Db, BulkItem, TaskBulkOpRecord, TaskError, validation, illegal_transition, policy_denied,
  Env, check_policy, emit,
}
use azienda.Tasks.Service.{Change, create_task, update_task, transition_task, assign_task}

-- `op["op"]` with what the branch reads of the operation
pub data Work : Type 0 where
  create : List Change → Work
  update : Uuid → List Change → Work
  transition : Uuid → (to : String) → (why : Option String) → Work
  assign : Uuid → Option Uuid → Option String → Work
  unknown : String → Work

pub record BulkOperation : Type 0 where
  pub idempotency_key : String
  pub work : Work

abbrev kind_of : Work → String
kind_of (create _) = "create"
kind_of (update _ _) = "update"
kind_of (transition _ _ _) = "transition"
kind_of (assign _ _ _) = "assign"
kind_of (unknown s) = s

-- the branch of the operation's kind
abbrev run : Env → TenantContext → String → Work → Db → Result TaskError Task × Db
run env tenant key (create changes) db = create_task env tenant changes (some key) none db
run env tenant key (update id changes) db = update_task env tenant id changes db
run env tenant key (transition id to why) db = transition_task env tenant id to why db
run env tenant key (assign id u a) db = assign_task env tenant id u a db
run env tenant key (unknown s) db = (err (validation "unknown bulk op"), db)

abbrev code_text : TaskError → String
code_text (illegal_transition _ _) = "illegal_transition"
code_text (policy_denied _ _) = "policy_denied"
code_text _ = "validation_error"

abbrev item_of : String → Result TaskError Task → BulkItem
item_of key (ok t) = record {
  idempotency_key = key;
  task_id = some t.id;
  error = none;
  replayed = false;
}
item_of key (err e) = record {
  idempotency_key = key;
  task_id = none;
  error = some (code_text e);
  replayed = false;
}

abbrev repeated : String → BulkItem
repeated key = record {
  idempotency_key = key;
  task_id = none;
  error = some "duplicate_idempotency_key";
  replayed = false;
}

-- `_bulk_replay`
pub bulk_replay : TenantContext → String → Db → Option TaskBulkOpRecord
bulk_replay tenant key db =
    find (λ r. r.tenant_id == tenant.tenant_id && str_eq r.idempotency_key key) db.bulk_records

-- `_bulk_record`; a key that has a record already keeps it
pub bulk_record : TenantContext → String → String → BulkItem → Db → Db
bulk_record tenant key op item db = if is_some (bulk_replay tenant key db) then db else record db {
  bulk_records =
      db.bulk_records
      ++ record { tenant_id = tenant.tenant_id; idempotency_key = key; op = op; result = item }
        ∷ [];
}

-- one operation, after the test of its key
pub bulk_one : Env → TenantContext → BulkOperation → Db → BulkItem × Db
bulk_one env tenant o db = elim (bulk_replay tenant o.idempotency_key db) [
  | some r ↦ (record r.result { replayed = true }, db)
  | none ↦
      let (result, db') = run env tenant o.idempotency_key o.work db in
      let item = item_of o.idempotency_key result in
      (item, bulk_record tenant o.idempotency_key (kind_of o.work) item db')
]

abbrev known_key : String → List String → Bool
known_key k [] = false
known_key k (j ∷ js) = if str_eq j k then true else known_key k js

-- the loop of `bulk`, with an environment for each operation
abbrev bulk_all :
    (ℕ → Env) → TenantContext → List BulkOperation → (seen : List String) → Db → List BulkItem × Db
bulk_all envs tenant [] seen db = ([], db)
bulk_all envs tenant (o ∷ os) seen db =
    let key = o.idempotency_key in
    let skip = if str_eq key "" then true else known_key key seen in
    let step : BulkItem × Db =
      if skip then (repeated key, db) else bulk_one (envs (length os)) tenant o db in
    let (items, db') = bulk_all envs tenant os (if skip then seen else key ∷ seen) step.1 in
    (step.0 ∷ items, db')

-- `bulk`
pub bulk :
    (ℕ → Env)
    → TenantContext
    → (batch : Uuid) → List BulkOperation
    → Db
    → Result TaskError (List BulkItem) × Db
bulk envs tenant batch os db =
    let env = envs (length os) in
    let (allowed, db') =
      check_policy env tenant "tasks.bulk" none (field "count" (num (pos (length os))) end) none
        db in
    elim allowed [
      | err e ↦ (err e, db')
      | ok _ ↦
          let (items, db'') = bulk_all envs tenant os [] db' in
          (ok items, (emit "tasks.bulk.completed" tenant batch db'').1)
    ]

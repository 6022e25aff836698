-- ===== src/Tasks/Service.antt =====
-- backend/app/tasks/service.py: the operations of `TaskService` that write, and the queries they use.
pub mod Lifecycle
pub mod Depend
mod Tests
use azienda.Base.{
  any, str_append, ℕ, zero, suc, ◌+◌, String, Bool, true, false, ◌&&◌, ◌||◌, not, Option, none,
  some, List, [], ◌∷◌, ◌++◌, map, str_eq, ◌==◌, if◌then◌else◌, null, length, take, drop, select,
  find, Exec, Result, ok, err, pure, raise, raise_if, or_raise, gets, modify, ◌>>=◌, ◌>>◌, is_some,
}
use azienda.Contracts.{
  Uuid, Time, TenantContext, Value, null as none_value, text, dict, Fields, end, field, truthy, get,
}
use azienda.Tasks.{
  Status, pending, planning, completed, status_of, is_terminal, can_transition, Task, Owned,
  TaskDependency, TaskComment, Db, TaskError, not_found, validation, incomplete, illegal_transition,
  dependency_cycle, never_ends, Env, M, check_policy, mine, task_row, get_task, owned_row,
  write_task, record_transition, emit, task_ref,
}
use azienda.Tasks.Graph.{Edges, creates_cycle}

-- an attribute of a task and its new value, of the `data` of a request
pub data Change : Type 0 where
  set_title set_priority : String → Change
  set_description : Option String → Change
  set_project set_milestone set_parent : Option Uuid → Change
  set_due : Option Time → Change
  set_status : Status → Change

-- `setattr(task, k, v)`
abbrev pub set_attr : Change → Task → Task
set_attr (set_title s) t = record t { title = s }
set_attr (set_priority s) t = record t { priority = s }
set_attr (set_description s) t = record t { description = s }
set_attr (set_project i) t = record t { project_id = i }
set_attr (set_milestone i) t = record t { milestone_id = i }
set_attr (set_parent i) t = record t { parent_id = i }
set_attr (set_due d) t = record t { due_at = d }
set_attr (set_status s) t = record t { status = s }

pub set_attrs : List Change → Task → Task
set_attrs [] t = t
set_attrs (c ∷ cs) t = set_attrs cs (set_attr c t)

-- a text that is not empty
abbrev given : Option String → Option String
given none = none
given (some s) = if str_eq s "" then none else some s

abbrev has_key : TenantContext → String → Task → Bool
has_key tenant k t =
    t.tenant_id == tenant.tenant_id
    && (elim t.idempotency_key [ none ↦ false | some j ↦ str_eq j k ])

-- the task that was created under a key
abbrev replayed : TenantContext → Option String → Db → Option Task
replayed tenant none db = none
replayed tenant (some k) db = find (has_key tenant k) db.tasks

-- `if payload.get(...): await self._get(...)`
abbrev known : String → Option Uuid → (Uuid → Db → Bool) → M (Unit {0})
known entity none there = pure tt
known entity (some i) there = gets (there i) >>= λ b. raise_if (not b) (not_found entity i)

-- `Task(tenant_id=..., idempotency_key=key, **payload)`, with the columns' defaults
abbrev pub blank_task : Env → TenantContext → Option String → Task
blank_task env tenant key = record {
  id = env.fresh;
  tenant_id = tenant.tenant_id;
  project_id = none;
  parent_id = none;
  milestone_id = none;
  title = "";
  description = none;
  status = pending;
  priority = "medium";
  assignee_user_id = none;
  assignee_agent_id = none;
  plan = end;
  due_at = none;
  completed_at = none;
  idempotency_key = key;
  is_archived = false;
}

-- `str(assignee_user_id) if assignee_user_id else None`
abbrev id_value : Env → Option Uuid → Value
id_value env none = none_value
id_value env (some u) = text (env.uuid_text u)

abbrev text_value : Option String → Value
text_value none = none_value
text_value (some s) = text s

-- `create_task`; `key` is `idempotency_key or data.get("idempotency_key")`
pub create_task :
    Env → TenantContext → List Change → (idempotency_key data_key : Option String) → M Task
create_task env tenant changes idempotency_key data_key =
    let task = set_attrs changes (blank_task env tenant none) in
    let key : Option String = elim (given idempotency_key) [ some k ↦ some k | none ↦ data_key ] in
    let row = set_attrs changes (blank_task env tenant key) in
    check_policy env tenant "tasks.task.create" none (field "title" (text task.title) end)
      idempotency_key
    >> (gets (λ db. replayed tenant (given key) db) >>= λ existing. elim existing [
      | some t ↦ pure t
      | none ↦
          known "project" task.project_id (λ i db. is_some (owned_row tenant i db.projects))
          >> known "task" task.parent_id (λ i db. is_some (task_row tenant i db))
          >> known "milestone" task.milestone_id
              (λ i db. is_some (owned_row tenant i db.milestones))
          >> modify (λ db. record db { tasks = db.tasks ++ row ∷ [] })
          >> record_transition tenant row.id none pending (some "created")
          >> emit "tasks.task.created" tenant row.id
          >> pure row
    ])

-- `update_task`
pub update_task : Env → TenantContext → Uuid → List Change → M Task
update_task env tenant id changes =
    check_policy env tenant "tasks.task.update" (task_ref env id) end none
    >> (get_task tenant id >>= λ task.
        raise_if (is_terminal task.status) (validation "cannot edit task in terminal state")
        >> write_task tenant id (set_attrs changes)
        >> emit "tasks.task.updated" tenant id
        >> pure (set_attrs changes task))

-- `_dependency_graph`
pub dependency_graph : TenantContext → List TaskDependency → Edges
dependency_graph tenant rows =
    map (λ d. (d.task_id, d.depends_on_id)) (select (λ d. d.tenant_id == tenant.tenant_id) rows)

abbrev pub is_completed : Status → Bool
is_completed completed = true
is_completed _ = false

abbrev pub done : TenantContext → Db → Uuid → Bool
done tenant db id = elim (task_row tenant id db) [ none ↦ false | some t ↦ is_completed t.status ]

-- `_incomplete_dependencies`
pub incomplete_dependencies : TenantContext → Uuid → Db → List Uuid
incomplete_dependencies tenant id db =
    select (λ i. not (done tenant db i))
      (map (λ d. d.depends_on_id)
        (select (λ d. d.tenant_id == tenant.tenant_id && d.task_id == id) db.dependencies))

abbrev pub moved : Env → Status → Task → Task
moved env to_status t = record t {
  status = to_status;
  completed_at = if is_completed to_status then some env.now else t.completed_at;
}

-- `transition_task`
pub transition_task : Env → TenantContext → Uuid → String → Option String → M Task
transition_task env tenant id to_status note =
    or_raise (status_of to_status) (validation "unknown status") >>= λ to.
    check_policy env tenant "tasks.task.transition" (task_ref env id)
      (field "to" (text to_status) end) none
    >> (get_task tenant id >>= λ task.
        raise_if (not (can_transition task.status to)) (illegal_transition task.status to)
        >> (gets (incomplete_dependencies tenant task.id) >>= λ open_ids.
            raise_if (is_completed to && not (null open_ids)) (incomplete open_ids)
            >> write_task tenant id (moved env to)
            >> record_transition tenant id (some task.status) to note
            >> emit "tasks.task.transitioned" tenant id
            >> pure (moved env to task)))

abbrev pub assigned : Option Uuid → Option String → Task → Task
assigned u a t = record t { assignee_user_id = u; assignee_agent_id = a }

-- `f"assigned user={assignee_user_id} agent={assignee_agent_id}"`
abbrev assign_note : Env → Option Uuid → Option String → String
assign_note env user_id agent_id = str_append "assigned user=" (
    str_append (elim user_id [ none ↦ "None" | some u ↦ env.uuid_text u ])
      (str_append " agent=" (elim agent_id [ none ↦ "None" | some a ↦ a ])))

-- `assign_task`
pub assign_task : Env → TenantContext → Uuid → Option Uuid → Option String → M Task
assign_task env tenant id user_id agent_id =
    check_policy env tenant "tasks.task.assign" (task_ref env id)
      (field "user" (id_value env user_id) (field "agent" (text_value agent_id) end)) none
    >> (get_task tenant id >>= λ task.
        write_task tenant id (assigned user_id agent_id)
        >> record_transition tenant id (some task.status) task.status
            (some (assign_note env user_id agent_id))
        >> emit "tasks.task.assigned" tenant id
        >> pure (assigned user_id agent_id task))

-- `archive_task`
pub archive_task : Env → TenantContext → Uuid → M Task
archive_task env tenant id =
    check_policy env tenant "tasks.task.archive" (task_ref env id) end none
    >> (get_task tenant id >>= λ task.
        write_task tenant id (λ t. record t { is_archived = true })
        >> emit "tasks.task.archived" tenant id
        >> pure (record task { is_archived = true }))

-- the columns of the unique constraint `uq_task_dep`, which makes a commit raise IntegrityError
abbrev pub same_dependency : TaskDependency → TaskDependency → Bool
same_dependency d x =
    x.tenant_id == d.tenant_id && x.task_id == d.task_id && x.depends_on_id == d.depends_on_id

-- `add_dependency`; `never_ends` is a search that does not end
pub add_dependency : Env → TenantContext → (task_id depends_on_id : Uuid) → M TaskDependency
add_dependency env tenant task_id depends_on_id =
    let dep : TaskDependency = record {
      tenant_id = tenant.tenant_id;
      task_id = task_id;
      depends_on_id = depends_on_id;
    } in
    raise_if (task_id == depends_on_id) (validation "a task cannot depend on itself")
    >> check_policy env tenant "tasks.dependency.create" (task_ref env task_id) end none
    >> get_task tenant task_id
    >> get_task tenant depends_on_id
    >> (gets (λ db. creates_cycle (dependency_graph tenant db.dependencies) task_id depends_on_id)
        >>= λ answer. or_raise answer never_ends >>= λ cycle.
            raise_if cycle (dependency_cycle task_id depends_on_id)
            >> gets (λ db. any (same_dependency dep) db.dependencies)
            >>= λ taken.
                raise_if taken (validation "dependency already exists")
                >> modify (λ db. record db { dependencies = db.dependencies ++ dep ∷ [] })
                >> emit "tasks.dependency.added" tenant task_id
                >> pure dep)

-- `add_comment`
pub add_comment : Env → TenantContext → Uuid → (body author_type : String) → M TaskComment
add_comment env tenant id body author_type =
    let comment : TaskComment = record {
      tenant_id = tenant.tenant_id;
      task_id = id;
      body = body;
      author_id = tenant.user_id;
      author_type = author_type;
    } in
    check_policy env tenant "tasks.comment.create" (task_ref env id) end none
    >> get_task tenant id
    >> modify (λ db. record db { comments = db.comments ++ comment ∷ [] })
    >> emit "tasks.comment.added" tenant id
    >> pure comment

-- ===== src/Tasks/Projects.antt =====
-- backend/app/tasks/service.py: projects, milestones, the queries of `TaskService` and delegation.
-- A row of a project or a milestone is kept with what its `data` has set.
use azienda.Base.{
  ℕ, String, Bool, true, false, ◌&&◌, not, Option, none, some, List, [], ◌∷◌, ◌++◌, str_eq, ◌==◌,
  if◌then◌else◌, opt_eq, str_append, length, take, drop, select, update_where, pure, raise_if,
  or_raise, gets, modify, ◌>>=◌, ◌>>◌,
}
use azienda.Contracts.{
  Uuid, TenantContext, Value, null as none_value, text, dict, Fields, end, field, Actor, user,
  agent, system, get, get_or,
}
use azienda.Tasks.{
  Status, pending, planning, can_transition, Task, Owned, TaskDependency, TaskTransition,
  TaskComment, Db, not_found, illegal_transition, Env, M, check_policy, get_task, owned_row,
  write_task, record_transition, emit, task_ref, actor_of, status_of, same_status,
}

abbrev owner : TenantContext → Uuid → Owned → Bool
owner tenant id r = r.id == id && r.tenant_id == tenant.tenant_id

-- `_get` of a project or a milestone
abbrev get_owned : String → TenantContext → Uuid → (Db → List Owned) → M Owned
get_owned entity tenant id rows =
    gets (λ db. owned_row tenant id (rows db)) >>= λ o. or_raise o (not_found entity id)

-- `setattr` of each item of `data`
abbrev put : String → Value → Fields → Fields
put k v end = field k v end
put k v (field j w rest) = if str_eq j k then field j v rest else field j w (put k v rest)

abbrev put_all : Fields → Fields → Fields
put_all end cols = cols
put_all (field k v rest) cols = put_all rest (put k v cols)

abbrev set_columns : Fields → Owned → Owned
set_columns columns r = record r { columns = put_all columns r.columns }

-- `create_project`
pub create_project : Env → TenantContext → Fields → M Owned
create_project env tenant columns =
    let row : Owned = record {
      id = env.fresh;
      tenant_id = tenant.tenant_id;
      project_id = none;
      columns = columns;
    } in
    check_policy env tenant "tasks.project.create" none
      (field "name" (get_or "name" columns none_value) end) none
    >> modify (λ db. record db { projects = db.projects ++ row ∷ [] })
    >> emit "tasks.project.created" tenant row.id
    >> pure row

-- `get_project`
pub get_project : TenantContext → Uuid → M Owned
get_project tenant id = get_owned "project" tenant id (λ db. db.projects)

abbrev has_text : String → String → Fields → Bool
has_text k s cols = elim (get k cols) [ some (text t) ↦ str_eq t s | _ ↦ false ]

-- `if status:`
abbrev wanted : Option String → (String → Bool) → Bool
wanted none test = true
wanted (some s) test = if str_eq s "" then true else test s

abbrev wanted_id : Option Uuid → (Uuid → Bool) → Bool
wanted_id none test = true
wanted_id (some i) test = test i

-- a page of the newest rows first, and how many there are
abbrev newest : {A : Type 0} → List A → List A
newest [] = []
newest (x ∷ xs) = newest xs ++ x ∷ []

abbrev page : {A : Type 0} → (limit offset : ℕ) → List A → List A × ℕ
page limit offset rows = (take limit (drop offset (newest rows)), length rows)

-- `list_projects`
pub list_projects : TenantContext → Option String → (limit offset : ℕ) → Db → List Owned × ℕ
list_projects tenant status limit offset db = page limit offset (
    select
      (λ r. r.tenant_id == tenant.tenant_id && wanted status (λ s. has_text "status" s r.columns))
      db.projects)

-- `update_project`
pub update_project : Env → TenantContext → Uuid → Fields → M Owned
update_project env tenant id columns =
    check_policy env tenant "tasks.project.update" (some (str_append "project:" (env.uuid_text id)))
      end none
    >> (get_owned "project" tenant id (λ db. db.projects) >>= λ row.
        modify (λ db. record db {
          projects = update_where (owner tenant id) (set_columns columns) db.projects;
        })
        >> emit "tasks.project.updated" tenant id
        >> pure (set_columns columns row))

-- `create_milestone`
pub create_milestone : Env → TenantContext → (project_id : Uuid) → Fields → M Owned
create_milestone env tenant project_id columns =
    let row : Owned = record {
      id = env.fresh;
      tenant_id = tenant.tenant_id;
      project_id = some project_id;
      columns = columns;
    } in
    check_policy env tenant "tasks.milestone.create" none
      (field "name" (get_or "name" columns none_value) end) none
    >> get_owned "project" tenant project_id (λ db. db.projects)
    >> modify (λ db. record db { milestones = db.milestones ++ row ∷ [] })
    >> emit "tasks.milestone.created" tenant row.id
    >> pure row

-- `update_milestone`
pub update_milestone : Env → TenantContext → Uuid → Fields → M Owned
update_milestone env tenant id columns =
    check_policy env tenant "tasks.milestone.update"
      (some (str_append "milestone:" (env.uuid_text id))) end none
    >> (get_owned "milestone" tenant id (λ db. db.milestones) >>= λ row.
        modify (λ db. record db {
          milestones = update_where (owner tenant id) (set_columns columns) db.milestones;
        })
        >> pure (set_columns columns row))

-- the filters of `list_tasks`
pub record TaskFilter : Type 0 where
  pub status : Option String
  pub assignee_user_id : Option Uuid
  pub project_id : Option Uuid
  pub priority : Option String
  pub parent_id : Option Uuid

abbrev is_status : Status → String → Bool
is_status s t = elim (status_of t) [ none ↦ false | some u ↦ same_status s u ]

-- `list_tasks`
pub list_tasks : TenantContext → TaskFilter → (limit offset : ℕ) → Db → List Task × ℕ
list_tasks tenant f limit offset db = page limit offset (
    select
      (λ t.
        t.tenant_id == tenant.tenant_id
        && not t.is_archived
        && wanted f.status (is_status t.status)
        && wanted_id f.assignee_user_id (opt_eq t.assignee_user_id)
        && wanted_id f.project_id (opt_eq t.project_id)
        && wanted f.priority (str_eq t.priority)
        && wanted_id f.parent_id (opt_eq t.parent_id))
      db.tasks)

-- `list_dependencies`
pub list_dependencies : TenantContext → Uuid → M (List TaskDependency)
list_dependencies tenant id =
    get_task tenant id
    >> gets (λ db. select (λ d. d.tenant_id == tenant.tenant_id && d.task_id == id) db.dependencies)

-- `list_comments`
pub list_comments : TenantContext → Uuid → (limit offset : ℕ) → M (List TaskComment × ℕ)
list_comments tenant id limit offset =
    get_task tenant id
    >> gets (λ db.
      let rows = select (λ c. c.tenant_id == tenant.tenant_id && c.task_id == id) db.comments in
      (take limit (drop offset rows), length rows))

-- `list_transitions`
pub list_transitions : TenantContext → Uuid → M (List TaskTransition)
list_transitions tenant id =
    get_task tenant id
    >> gets (λ db. select (λ r. r.tenant_id == tenant.tenant_id && r.task_id == id) db.transitions)

abbrev text_or_none : Option String → Value
text_or_none none = none_value
text_or_none (some s) = text s

abbrev actor_text : Env → Actor → String
actor_text env (user u) = env.uuid_text u
actor_text env (agent a) = env.uuid_text a
actor_text env system = "system"

-- the plan with the delegation, and `planning` in place of `pending`
abbrev delegated : Env → TenantContext → (agent_id capability goal : Option String) → Task → Task
delegated env tenant agent_id capability goal t = record t {
  plan =
      put "delegation"
        (dict (
          field "agent_id" (text_or_none agent_id) (
            field "capability" (text_or_none capability) (
              field "goal"
                (text (elim goal [ none ↦ t.title | some g ↦ if str_eq g "" then t.title else g ]))
                (field "requested_by" (text (actor_text env (actor_of tenant)))
                  (field "requested_at" (text (env.isoformat env.now)) end))))))
        t.plan;
  status = if same_status t.status pending then planning else t.status;
}

-- `delegate_task`
pub delegate_task : Env → TenantContext → Uuid → (agent_id capability goal : Option String) → M Task
delegate_task env tenant id agent_id capability goal =
    check_policy env tenant "tasks.delegate" (task_ref env id)
      (field "agent_id" (text_or_none agent_id) (field "capability" (text_or_none capability) end))
      none
    >> (get_task tenant id >>= λ task.
        raise_if
          (not (can_transition task.status planning) && not (same_status task.status planning))
          (illegal_transition task.status planning)
        >> write_task tenant id (delegated env tenant agent_id capability goal)
        >> (if same_status task.status pending
            then record_transition tenant id (some pending) planning
                (some "delegated to agent workforce")
            else pure tt)
        >> emit "tasks.task.delegated" tenant id
        >> pure (delegated env tenant agent_id capability goal task))

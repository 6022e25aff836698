-- ===== src/Tasks/Service/Tests.antt =====
-- Runs of the task service on a small tenant, and its theorems at concrete inputs.
use azienda.Base.{◌≡◌, ◌&&◌, not, refl, true, false, none, some, [], ◌∷◌, null, ok}
use azienda.Contracts.{Uuid, TenantContext, require_approval, end}
use azienda.Tasks.{
  Status, executing, completed, status_of, can_transition, Task, Db, Env, check_policy, task_row,
}
use azienda.Tasks.Service.{
  set_status, set_title, set_attrs, transition_task, update_task, add_dependency, dependency_graph,
  blank_task, moved, is_completed, incomplete_dependencies,
}
use azienda.Tasks.Graph.Acyclic.{IsAcyclic}
use azienda.Tasks.Service.Lifecycle.{is_error, transition_allowed, terminal_stays}
use azienda.Tasks.Service.Depend.{add_dependency-IsAcyclic}

abbrev alice : TenantContext
alice = record { tenant_id = 7; user_id = some 41; agent_id = none; roles = [] }

abbrev env : Env
env = record {
  policy = λ r. record {
    effect = require_approval;
    policy_id = none;
    reasons = [];
    approval_id = none;
    obligations = end;
  };
  uuid_text = λ n. "t";
  isoformat = λ t. "now";
  now = 50;
  fresh = 9;
}

abbrev task : Uuid → Status → Task
task id s = record (blank_task env alice none) { id = id; status = s }

abbrev two_tasks : Db
two_tasks = record {
  projects = [];
  milestones = [];
  tasks = task 1 executing ∷ task 2 completed ∷ [];
  dependencies = record { tenant_id = 7; task_id = 1; depends_on_id = 2 } ∷ [];
  transitions = [];
  comments = [];
  events = [];
  bulk_records = [];
}

-- an update whose data has a status is not held to the table
update_skips_table :
    (update_task env alice 1 (set_status completed ∷ []) two_tasks).0 ≡ ok (task 1 completed)
unfolding update_task check_policy set_attrs
update_skips_table = refl

no_edges : IsAcyclic []
no_edges a b (e, r) = cc e

abbrev apart : Db
apart = record two_tasks { dependencies = [] }

apart-IsAcyclic : IsAcyclic (dependency_graph alice apart.dependencies)
unfolding dependency_graph
apart-IsAcyclic = no_edges

add_dependency-IsAcyclic_example :
    IsAcyclic (dependency_graph alice (add_dependency env alice 1 2 apart).1.dependencies)
add_dependency-IsAcyclic_example = add_dependency-IsAcyclic env alice 1 2 apart apart-IsAcyclic

finished :
    (transition_task env alice 1 "completed" none two_tasks).0
    ≡ ok (moved env completed (task 1 executing))
unfolding transition_task check_policy incomplete_dependencies status_of
finished = refl

transition_allowed_example :
    (old : Task) × (to : Status) × (status_of "completed" ≡ some to)
    × (task_row alice 1 two_tasks ≡ some old)
    × (can_transition old.status to ≡ true)
    × ((is_completed to && not (null (incomplete_dependencies alice old.id two_tasks))) ≡ false)
    × (moved env completed (task 1 executing) ≡ moved env to old)
    × (task_row alice 1 (transition_task env alice 1 "completed" none two_tasks).1
        ≡ some (moved env completed (task 1 executing)))
transition_allowed_example = transition_allowed env alice 1 "completed" none two_tasks finished

terminal_stays_example :
    ((transition_task env alice 2 "executing" none two_tasks).1 ≡ two_tasks)
    × ((update_task env alice 2 (set_title "x" ∷ []) two_tasks).1 ≡ two_tasks)
    × (is_error (transition_task env alice 2 "executing" none two_tasks).0 ≡ true)
    × (is_error (update_task env alice 2 (set_title "x" ∷ []) two_tasks).0 ≡ true)
terminal_stays_example =
    terminal_stays env alice 2 "executing" none (set_title "x" ∷ []) two_tasks
      {t = task 2 completed} refl refl

-- ===== src/Tasks/Service/Lifecycle.antt =====
-- What the operations do to the state of a task.
use azienda.Base.{
  ◌≡◌, refl, ap, ◌∙◌, sym, String, Bool, true, false, ◌&&◌, not, Option, none, some, List, [], ◌∷◌,
  arith, inl, inr, Bool-cases, Option-cases, find, update_where, ok, err, Result, null,
}
use azienda.Contracts.{Uuid, TenantContext, field, text, end, Fields}
use azienda.Tasks.{
  Status, TaskError, status_of, is_terminal, can_transition, Task, Db, Env, mine, task_row,
  check_policy, is_deny, task_ref,
}
use azienda.Tasks.Service.{
  Change, moved, transition_task, update_task, incomplete_dependencies, is_completed,
}

abbrev pub is_error : {A : Type 0} → Result TaskError A → Bool
is_error (ok a) = false
is_error (err e) = true

-- what `_check_policy` refuses
abbrev pub refuses : Env → TenantContext → String → Option String → Fields → Option String → Bool
refuses env tenant action resource args key =
    is_deny
      (env.policy (record {
        tenant = tenant;
        action = action;
        resource = resource;
        args = args;
        risk_context = end;
        idempotency_key = key;
      })).effect

abbrev pub id_tenant : Task → Uuid × Uuid
id_tenant t = (t.id, t.tenant_id)

-- a row that is written is the row that is read back
find_written :
    (tenant : TenantContext) (id : Uuid) (f : Task → Task) (rows : List Task) (t : Task)
    → ((t : Task) → id_tenant (f t) ≡ id_tenant t)
    → find (mine tenant id) rows ≡ some t
    → find (mine tenant id) (update_where (mine tenant id) f rows) ≡ some (f t)
find_written tenant id f [] t keeps e = cc
find_written tenant id f (x ∷ rows) t keeps e =
    ground (arith, keeps x, find_written tenant id f rows t keeps)

module _ (env : Env) (tenant : TenantContext) (id : Uuid) (to_status : String) (why : Option String)
    (db : Db) where
  -- the checks that a transition passes, one after the other
  record Passes (old : Task) (to : Status) : Type 0 where
    known : status_of to_status ≡ some to
    passed :
        refuses env tenant "tasks.task.transition"
          (task_ref env id)
          (field "to" (text to_status) end)
          none
        ≡ false
    found : task_row tenant id db ≡ some old
    allowed : can_transition old.status to ≡ true
    free : (is_completed to && not (null (incomplete_dependencies tenant old.id db))) ≡ false

  transition_returns :
      (old : Task) (to : Status)
      → Passes old to
      → (transition_task env tenant id to_status why db).0 ≡ ok (moved env to old)
  unfolding transition_task check_policy
  transition_returns old to p =
      rw (p.known, p.passed, p.found, p.allowed, p.free, transition_task, check_policy) refl

  transition_writes :
      (old : Task) (to : Status)
      → Passes old to
      → (transition_task env tenant id to_status why db).1.tasks
        ≡ update_where (mine tenant id) (moved env to) db.tasks
  unfolding transition_task check_policy
  transition_writes old to p =
      rw (p.known, p.passed, p.found, p.allowed, p.free, transition_task, check_policy) refl

  passes :
      {t : Task}
      → (transition_task env tenant id to_status why db).0 ≡ ok t
      → (old : Task) × (to : Status) × Passes old to
  unfolding transition_task check_policy
  passes e = elim (Option-cases (status_of to_status)) [
    | inl unknown ↦ cc (rw (unknown, transition_task) at e)
    | inr (to, known) ↦
        elim (Bool-cases (
          refuses env tenant "tasks.task.transition" (task_ref env id)
            (field "to" (text to_status) end) none)) [
              | inl denied ↦ cc (rw (known, denied, transition_task, check_policy) at e)
              | inr passed ↦ elim (Option-cases (task_row tenant id db)) [
                | inl missing ↦ cc (rw (known, passed, missing, transition_task, check_policy) at e)
                | inr (old, found) ↦ elim (Bool-cases (can_transition old.status to)) [
                  | inr barred ↦
                      cc (rw (known, passed, found, barred, transition_task, check_policy) at e)
                  | inl allowed ↦
                      elim (Bool-cases (
                        is_completed to && not (null (incomplete_dependencies tenant old.id db)))) [
                          | inl waits ↦ cc (
                              rw
                                (
                                  known, passed, found, allowed, waits, transition_task,
                                  check_policy,
                                )
                                at e)
                          | inr free ↦ (
                            old,
                            to,
                            record {
                              known = known;
                              passed = passed;
                              found = found;
                              allowed = allowed;
                              free = free;
                            },
                          )
                        ]
                ]
              ]
            ]
  ]

-- A transition that returns a task found it in the tenant, in a state from which the table allows
-- the new one, and completes it only where none of its dependencies is open. The task that is read
-- afterwards is the one returned, in the new state.
pub transition_allowed :
    (env : Env) (tenant : TenantContext) (id : Uuid) (to_status : String) (why : Option String)
    (db : Db) {t : Task}
    → (transition_task env tenant id to_status why db).0 ≡ ok t
    → (old : Task) × (to : Status) × (status_of to_status ≡ some to)
      × (task_row tenant id db ≡ some old)
      × (can_transition old.status to ≡ true)
      × ((is_completed to && not (null (incomplete_dependencies tenant old.id db))) ≡ false)
      × (t ≡ moved env to old)
      × (task_row tenant id (transition_task env tenant id to_status why db).1 ≡ some t)
transition_allowed env tenant id to_status why db {t} e =
    let (old, to, p) = passes env tenant id to_status why db e in
    let same : t ≡ moved env to old =
      cc (e, transition_returns env tenant id to_status why db old to p) in
    (
      old,
      to,
      p.known,
      p.found,
      p.allowed,
      p.free,
      same,
      ap (find (mine tenant id)) (transition_writes env tenant id to_status why db old to p)
          ∙ find_written tenant id (moved env to) db.tasks old (λ t. refl) p.found
          ∙ ap some (sym same),
    )

no_way_out : (s to : Status) → is_terminal s ≡ true → can_transition s to ≡ false
no_way_out s to h = ground arith

-- A task that is completed, failed or cancelled stays as it is: a call of `transition_task` or of
-- `update_task` for it answers with an error and writes nothing, whatever is asked for.
pub terminal_stays :
    (env : Env) (tenant : TenantContext) (id : Uuid) (to_status : String) (why : Option String)
    (changes : List Change) (db : Db) {t : Task}
    → task_row tenant id db ≡ some t
    → is_terminal t.status ≡ true
    → ((transition_task env tenant id to_status why db).1 ≡ db)
      × ((update_task env tenant id changes db).1 ≡ db)
      × (is_error (transition_task env tenant id to_status why db).0 ≡ true)
      × (is_error (update_task env tenant id changes db).0 ≡ true)
unfolding transition_task update_task check_policy
terminal_stays env tenant id to_status why changes db {t} found over =
    let (a, b) = transition_refused in let (c, d) = update_refused in (a, c, b, d)
  where
    update_refused :
        ((update_task env tenant id changes db).1 ≡ db)
        × (is_error (update_task env tenant id changes db).0 ≡ true)
    update_refused =
        elim (Bool-cases (refuses env tenant "tasks.task.update" (task_ref env id) end none)) [
          | inl denied ↦ rw (denied, update_task, check_policy) (refl, refl)
          | inr passed ↦ rw (passed, found, over, update_task, check_policy) (refl, refl)
        ]

    transition_refused :
        ((transition_task env tenant id to_status why db).1 ≡ db)
        × (is_error (transition_task env tenant id to_status why db).0 ≡ true)
    transition_refused = elim (Option-cases (status_of to_status)) [
      | inl unknown ↦ rw (unknown, transition_task) (refl, refl)
      | inr (to, known) ↦
          elim (Bool-cases (
            refuses env tenant "tasks.task.transition" (task_ref env id)
              (field "to" (text to_status) end) none)) [
                | inl denied ↦ rw (known, denied, transition_task, check_policy) (refl, refl)
                | inr passed ↦
                    rw
                      (
                        known,
                        passed,
                        found,
                        no_way_out t.status to over,
                        transition_task,
                        check_policy,
                      )
                      (refl, refl)
              ]
    ]

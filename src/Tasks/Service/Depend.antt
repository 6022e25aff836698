-- ===== src/Tasks/Service/Depend.antt =====
-- Adding a dependency.
use azienda.Base.{
  ◌≡◌, refl, ap, sym, subst, ◌∙◌, none, some, List, [], ◌∷◌, ◌++◌, map, ◌==◌, inl, inr, Bool-cases,
  Option-cases, any, select, select_last, ==_refl,
}
use azienda.Contracts.{Uuid, TenantContext, end}
use azienda.Tasks.{TaskDependency, Db, Env, task_row, check_policy, task_ref}
use azienda.Tasks.Service.{add_dependency, dependency_graph, same_dependency}
use azienda.Tasks.Service.Lifecycle.{refuses}
use azienda.Tasks.Graph.Search.{creates_cycle_iff}
use azienda.Tasks.Graph.Acyclic.{IsAcyclic, IsAcyclic-stays}

map_last :
    (f : TaskDependency → Uuid × Uuid) (ds : List TaskDependency) (d : TaskDependency)
    → map f (ds ++ d ∷ []) ≡ map f ds ++ f d ∷ []
map_last f [] d = refl
map_last f (x ∷ ds) d = ap (λ es. f x ∷ es) (map_last f ds d)

abbrev edge_row : TenantContext → Uuid → Uuid → TaskDependency
edge_row tenant a b = record { tenant_id = tenant.tenant_id; task_id = a; depends_on_id = b }

graph_last :
    (tenant : TenantContext) (ds : List TaskDependency) (a b : Uuid)
    → dependency_graph tenant
        (ds ++ record { tenant_id = tenant.tenant_id; task_id = a; depends_on_id = b } ∷ [])
      ≡ dependency_graph tenant ds ++ (a, b) ∷ []
unfolding dependency_graph
graph_last tenant ds a b =
    let d : TaskDependency = record {
      tenant_id = tenant.tenant_id;
      task_id = a;
      depends_on_id = b;
    } in
    let edge : TaskDependency → Uuid × Uuid = λ d. (d.task_id, d.depends_on_id) in
    ap (map edge)
      (select_last (λ d. d.tenant_id == tenant.tenant_id) ds d (==_refl tenant.tenant_id))
    ∙ map_last edge (select (λ d. d.tenant_id == tenant.tenant_id) ds) d

-- Where a tenant's dependencies have no cycle they have none after a call of `add_dependency`,
-- whether it adds the dependency or answers with an error.
pub add_dependency-IsAcyclic :
    (env : Env) (tenant : TenantContext) (task_id depends_on_id : Uuid) (db : Db)
    → IsAcyclic (dependency_graph tenant db.dependencies)
    → IsAcyclic (
        dependency_graph tenant (add_dependency env tenant task_id depends_on_id db).1.dependencies)
unfolding add_dependency check_policy
add_dependency-IsAcyclic env tenant a b db clear = elim (Bool-cases (a == b)) [
  | inl self ↦ rw (self, add_dependency) clear
  | inr two ↦
      elim (Bool-cases (refuses env tenant "tasks.dependency.create" (task_ref env a) end none)) [
        | inl denied ↦ rw (two, denied, add_dependency, check_policy) clear
        | inr passed ↦ elim (Option-cases (task_row tenant a db)) [
          | inl missing ↦ rw (two, passed, missing, add_dependency, check_policy) clear
          | inr (t, found) ↦ elim (Option-cases (task_row tenant b db)) [
            | inl missing ↦ rw (two, passed, found, missing, add_dependency, check_policy) clear
            | inr (u, there) ↦
                let es = dependency_graph tenant db.dependencies in
                let (answer, said, iff) = creates_cycle_iff es a b in
                elim (Bool-cases answer) [
                  | inl cycle ↦
                      rw (two, passed, found, there, said, cycle, add_dependency, check_policy)
                        clear
                  | inr free ↦
                      elim (Bool-cases
                        (any (same_dependency (edge_row tenant a b)) db.dependencies)) [
                          | inl taken ↦
                              rw
                                (
                                  two, passed, found, there, said, free, taken, add_dependency,
                                  check_policy,
                                )
                                clear
                          | inr new ↦
                              rw
                                (
                                  two, passed, found, there, said, free, new, add_dependency,
                                  check_policy,
                                )
                                (subst IsAcyclic (sym (graph_last tenant db.dependencies a b))
                                  (IsAcyclic-stays es a b clear (said ∙ ap some free)))
                        ]
                ]
          ]
        ]
      ]
]

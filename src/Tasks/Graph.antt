-- ===== src/Tasks/Graph.antt =====
-- backend/app/tasks/service.py: `_dependency_graph` and `_creates_cycle`. The graph is the rows of a
-- tenant, an edge from a task to one that it depends on. A Python set has no order of its own: its
-- members go on the stack in the order of their rows.
pub mod Search
pub mod Acyclic
mod Tests
use azienda.Base.{
  ℕ, zero, suc, ◌+◌, Bool, true, false, Option, none, some, List, [], ◌∷◌, ◌++◌, ◌==◌,
  if◌then◌else◌, length,
}
use azienda.Contracts.{Uuid}

abbrev pub Edges : Type 0
Edges = List (Uuid × Uuid)

abbrev pub mem : Uuid → List Uuid → Bool
mem x [] = false
mem x (y ∷ ys) = if y == x then true else mem x ys

-- `set.add`
abbrev pub add_to_set : Uuid → List Uuid → List Uuid
add_to_set x ys = if mem x ys then ys else x ∷ ys

-- `graph.get(node, ())`
abbrev pub successors : Edges → Uuid → List Uuid
successors [] n = []
successors ((a, b) ∷ es) n =
    let rest = successors es n in if a == n then add_to_set b rest else rest

-- the loop of `_creates_cycle`: `none` is a loop that has not ended yet
pub dfs : ℕ → Edges → (task : Uuid) → (stack seen : List Uuid) → Option Bool
dfs zero es task stack seen = none
dfs (suc n) es task [] seen = some false
dfs (suc n) es task (x ∷ stack) seen =
    let (stack', seen') =
      if mem x seen then (stack, seen) else (successors es x ++ stack, x ∷ seen) in
    let rest = dfs n es task stack' seen' in if x == task then some true else rest

-- `_creates_cycle`, with more rounds than there are pushes
pub creates_cycle : Edges → (task depends_on : Uuid) → Option Bool
unfolding dfs
creates_cycle es task depends_on = dfs (length es + 2) es task (depends_on ∷ []) []

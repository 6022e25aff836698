-- ===== src/Workflows/Dsl.antt =====
-- backend/app/workflows/dsl.py: `validate_dag` after the schema, `outgoing` and `default_next`.
pub mod Colors
pub mod Acyclic
use azienda.Base.{
  ℕ, zero, suc, ◌+◌, String, Bool, true, false, ◌&&◌, ◌||◌, not, Option, none, some, List, [], ◌∷◌,
  ◌++◌, str_eq, ◌==◌, if◌then◌else◌, select, map, any, null, length, is_some,
}
use azienda.Contracts.{Fields, get, get_or, truthy, null as null_value}
use azienda.Workflows.{NodeId, trigger, condition, agent, tool, approval, action, Node, Edge, Dag}

-- the edges that an optional label selects
abbrev pub has_label : Option String → Option String → Bool
has_label none l = true
has_label (some a) none = false
has_label (some a) (some b) = str_eq b a

-- `outgoing`
abbrev pub outgoing : Dag → NodeId → Option String → List NodeId
outgoing spec i label =
    map (λ (e : Edge). e.to) (select (λ e. e.from_node == i && has_label label e.label) spec.edges)

abbrev pub only : List NodeId → Option NodeId
only (i ∷ []) = some i
only _ = none

-- `default_next`
abbrev pub default_next : Dag → NodeId → Option NodeId
default_next spec i =
    only (
      map (λ (e : Edge). e.to) (select (λ e. e.from_node == i && not (is_some e.label)) spec.edges))

-- `by_id.get(i)`: the last node of an id is in the dict
abbrev pub node_by_id : NodeId → List Node → Option Node
node_by_id i [] = none
node_by_id i (n ∷ ns) = elim (node_by_id i ns) [
  | some m ↦ some m
  | none ↦ if n.id == i then some n else none
]

pub data DagError : Type 0 where
  duplicate_ids has_cycle : DagError
  trigger_count : ℕ → DagError
  requires : (node : NodeId) (key : String) → DagError
  on_error_unknown edge_from_unknown edge_to_unknown : NodeId → DagError
  unreachable : List NodeId → DagError

abbrev pub is_trigger : Node → Bool
is_trigger n = elim n.kind [ trigger ↦ true | _ ↦ false ]

abbrev pub is_member : NodeId → List NodeId → Bool
is_member i ids = any (λ j. j == i) ids

abbrev pub has_duplicates : List NodeId → Bool
has_duplicates [] = false
has_duplicates (i ∷ ids) = is_member i ids || has_duplicates ids

abbrev pub unless : Bool → DagError → List DagError
unless c e = if c then [] else e ∷ []

abbrev pub set_to : String → Fields → Bool
set_to key config = truthy (get_or key config null_value)

-- what each type requires of its config
abbrev pub config_errors : Node → List DagError
config_errors n = elim n.kind [
  | approval ↦
      unless (set_to "policy_ref" n.config) (requires n.id "policy_ref")
      ++ unless (set_to "action" n.config) (requires n.id "action")
  | condition ↦ unless (is_some (get "expression" n.config)) (requires n.id "expression")
  | tool ↦ unless (set_to "tool_name" n.config) (requires n.id "tool_name")
  | agent ↦ unless (set_to "capability" n.config) (requires n.id "capability")
  | action ↦ unless (set_to "action" n.config) (requires n.id "action")
  | _ ↦ []
]

abbrev pub on_error_errors : List NodeId → Node → List DagError
on_error_errors ids n = elim n.on_error [
  | none ↦ []
  | some j ↦ unless (is_member j ids) (on_error_unknown j)
]

abbrev pub node_errors : List NodeId → List Node → List DagError
node_errors ids [] = []
node_errors ids (n ∷ ns) = config_errors n ++ (on_error_errors ids n ++ node_errors ids ns)

abbrev pub edge_errors : List NodeId → List Edge → List DagError
edge_errors ids [] = []
edge_errors ids (e ∷ es) =
    unless (is_member e.from_node ids) (edge_from_unknown e.from_node)
    ++ (unless (is_member e.to ids) (edge_to_unknown e.to) ++ edge_errors ids es)

-- the adjacency of the reachability check: the edges, then the error target
abbrev error_target : NodeId → List NodeId → List Node → List NodeId
error_target i ids [] = []
error_target i ids (n ∷ ns) =
    (if n.id == i
      then (elim n.on_error [ none ↦ [] | some j ↦ if is_member j ids then j ∷ [] else [] ])
      else [])
    ++ error_target i ids ns

abbrev neighbours : Dag → List NodeId → NodeId → List NodeId
neighbours spec ids i =
    if is_member i ids then outgoing spec i none ++ error_target i ids spec.nodes else []

abbrev reverse_onto : List NodeId → List NodeId → List NodeId
reverse_onto [] ys = ys
reverse_onto (x ∷ xs) ys = reverse_onto xs (x ∷ ys)

-- the search from the trigger; the last of a list is popped first
unfoldable pub reach : ℕ → Dag → List NodeId → (stack seen : List NodeId) → List NodeId
reach zero spec ids stack seen = seen
reach (suc n) spec ids [] seen = seen
reach (suc n) spec ids (i ∷ stack) seen =
    let fresh = reach n spec ids (reverse_onto (neighbours spec ids i) stack) (i ∷ seen) in
    let again = reach n spec ids stack seen in if is_member i seen then again else fresh

-- each node is expanded once, and pushes its edges and its error target
abbrev reach_fuel : Dag → ℕ
reach_fuel spec = length spec.edges + length spec.nodes + 2

abbrev pub reach_errors : Dag → List NodeId → List Node → List DagError
reach_errors spec ids [] = []
reach_errors spec ids (t ∷ _) =
    let seen = reach (reach_fuel spec) spec ids (t.id ∷ []) [] in
    let lost = select (λ i. not (is_member i seen)) ids in unless (null lost) (unreachable lost)

pub data Color : Type 0 where
  white gray black : Color

abbrev pub Colors : Type 0
Colors = List (NodeId × Color)

-- `color[i]`: white where it was not set
abbrev pub color_of : NodeId → Colors → Color
color_of i [] = white
color_of i ((j, c) ∷ rest) = if j == i then c else color_of i rest

-- `adjacency[i]` of the cycle check: the edges between known nodes
abbrev pub adjacent : Dag → List NodeId → NodeId → List NodeId
adjacent spec ids i = select (λ j. is_member j ids) (outgoing spec i none)

-- the loop of `dfs` over the neighbours, `go` being its own call
abbrev pub visit_all : (NodeId → Colors → Bool × Colors) → List NodeId → Colors → Bool × Colors
visit_all go [] colors = (false, colors)
visit_all go (v ∷ vs) colors =
    let skipped = visit_all go vs colors in
    let (hit, colors') = go v colors in
    let later = visit_all go vs colors' in
    elim (color_of v colors) [
      | gray ↦ (true, colors)
      | white ↦ if hit then (true, colors') else later
      | black ↦ skipped
    ]

-- `dfs`; the gray nodes are distinct, so it is never deeper than there are nodes
unfoldable pub dfs : ℕ → Dag → List NodeId → NodeId → Colors → Bool × Colors
dfs zero spec ids u colors = (true, colors)
dfs (suc n) spec ids u colors =
    let (hit, colors') = visit_all (dfs n spec ids) (adjacent spec ids u) ((u, gray) ∷ colors) in
    if hit then (true, colors') else (false, (u, black) ∷ colors')

-- `any(color[nid] == WHITE and dfs(nid) for nid in node_ids)`
unfoldable pub any_cycle : ℕ → Dag → List NodeId → (rest : List NodeId) → Colors → Bool
any_cycle n spec ids [] colors = false
any_cycle n spec ids (u ∷ us) colors =
    let (hit, colors') = dfs n spec ids u colors in
    let after = any_cycle n spec ids us colors' in
    let skipped = any_cycle n spec ids us colors in
    elim (color_of u colors) [ white ↦ if hit then true else after | _ ↦ skipped ]

-- `validate_dag`: all the errors, in the order of the source; the graph is valid with none
unfoldable pub dag_errors : Dag → List DagError
dag_errors spec =
    let ids = map (λ (n : Node). n.id) spec.nodes in
    let triggers = select is_trigger spec.nodes in
    unless (not (has_duplicates ids)) duplicate_ids
    ++ (unless (length triggers == 1) (trigger_count (length triggers))
        ++ (node_errors ids spec.nodes
            ++ (edge_errors ids spec.edges
                ++ (reach_errors spec ids triggers
                    ++ unless (not (any_cycle (suc (length ids)) spec ids ids [])) has_cycle))))

-- ===== src/Workflows/Runner/Validated.antt =====
-- A graph that `validate_dag` accepts can be driven to its end, unless it has error targets.
use azienda.Base.{
  ℕ, suc, ◌+◌, ◌*◌, ◌≤◌, ◌<◌, ◌≡◌, refl, sym, ap, subst, ◌∙◌, Bool, true, false, not, none, some,
  List, [], ◌∷◌, ◌++◌, arith, map, select, length, All, Result,
}
use mathlib.Core.Option.{some-injective}
use azienda.Contracts.{TenantContext, Uuid}
use azienda.Workflows.{NodeId, Node, Edge, Dag, Version, Execution}
use azienda.Workflows.Dsl.{
  dag_errors, DagError, duplicate_ids, has_cycle, trigger_count, edge_from_unknown, edge_to_unknown,
  unless, edge_errors, node_errors, reach_errors, has_duplicates, is_trigger, is_member, any_cycle,
}
use azienda.Workflows.Dsl.Acyclic.{rank_in, rank_in_bound, edges_fall}
use azienda.Workflows.Ports.{Ports}
use azienda.Workflows.Runner.Service.{WorkflowError, Db, drive, load_execution, load_version}
use azienda.Workflows.Runner.Ends.{IsRanked}
use azienda.Workflows.Runner.Rests.{IsAtRest, drive-IsAtRest}

append_nil : {A : Type 0} (xs ys : List A) → xs ++ ys ≡ [] → (xs ≡ []) × (ys ≡ [])
append_nil [] ys h = (refl, h)
append_nil (x ∷ xs) ys h = cc

unless_nil : (c : Bool) (e : DagError) → unless c e ≡ [] → c ≡ true
unless_nil true e h = refl
unless_nil false e h = cc

known_edges :
    (ids : List NodeId) (es : List Edge)
    → edge_errors ids es ≡ []
    → All (λ (e : Edge). (is_member e.from_node ids ≡ true) × (is_member e.to ids ≡ true)) es
known_edges ids [] h = tt
known_edges ids (e ∷ es) h =
    let (from, h') =
      append_nil (unless (is_member e.from_node ids) (edge_from_unknown e.from_node)) _ h in
    let (to, rest) =
      append_nil (unless (is_member e.to ids) (edge_to_unknown e.to)) (edge_errors ids es) h' in
    ((unless_nil _ _ from, unless_nil _ _ to), known_edges ids es rest)

-- what the schema demands of each node, and that it has no error target
abbrev pub IsPlain : Dag → Type 0
IsPlain spec = All (λ (n : Node). (n.max_attempts ≤ 10) × (n.on_error ≡ none)) spec.nodes

not-true : (b : Bool) → not b ≡ true → b ≡ false
not-true b h = ground arith

-- a valid graph has known edges and no cycle
valid_edges :
    (spec : Dag)
    → dag_errors spec ≡ []
    → let ids = map (λ (n : Node). n.id) spec.nodes in
      (any_cycle (suc (length ids)) spec ids ids [] ≡ false)
      × All
          (λ (e : Edge). (is_member e.from_node ids ≡ true) × (is_member e.to ids ≡ true))
          spec.edges
unfolding dag_errors
valid_edges spec h =
    let ids = map (λ (n : Node). n.id) spec.nodes in
    let (_, h₁) = append_nil (unless (not (has_duplicates ids)) duplicate_ids) _ h in
    let (_, h₂) =
      append_nil (unless _ (trigger_count (length (select is_trigger spec.nodes)))) _ h₁ in
    let (_, h₃) = append_nil (node_errors ids spec.nodes) _ h₂ in
    let (edges, h₄) = append_nil (edge_errors ids spec.edges) _ h₃ in
    let (_, h₅) = append_nil (reach_errors spec ids (select is_trigger spec.nodes)) _ h₄ in
    (not-true _ (unless_nil _ has_cycle h₅), known_edges ids spec.edges edges)

few_of :
    (ns : List Node)
    → All (λ (n : Node). (n.max_attempts ≤ 10) × (n.on_error ≡ none)) ns
    → All (λ (n : Node). n.max_attempts ≤ 10) ns
few_of [] h = tt
few_of (n ∷ ns) ((few, _), h) = (few, few_of ns h)

no_targets :
    (rank : NodeId → ℕ) (ns : List Node)
    → All (λ (n : Node). (n.max_attempts ≤ 10) × (n.on_error ≡ none)) ns
    → All (λ (n : Node). (t : NodeId) → n.on_error ≡ some t → rank t < rank n.id) ns
no_targets rank [] h = tt
no_targets rank (n ∷ ns) ((_, nowhere), h) = ((λ t e. cc), no_targets rank ns h)

-- A graph that validation accepts, whose nodes have at most ten attempts, as the schema demands, and
-- no error target, has a rank that is bounded and falls along every edge.
pub valid-IsRanked :
    (spec : Dag)
    → dag_errors spec ≡ []
    → IsPlain spec
    → (rank : NodeId → ℕ) × (top : ℕ) × ((k : NodeId) → rank k ≤ top) × IsRanked rank spec
valid-IsRanked spec valid plain =
    let ids = map (λ (n : Node). n.id) spec.nodes in
    let (no_cycle, known) = valid_edges spec valid in
    let (c, falls) = edges_fall spec ids (suc (length ids)) no_cycle known in
    (
      rank_in c,
      length c,
      rank_in_bound c,
      record {
        edges_fall = falls;
        errors_fall = no_targets (rank_in c) spec.nodes plain;
        few_attempts = few_of spec.nodes plain;
      },
    )

module _ {W : Type 0} (ports : Ports W) (tenant : TenantContext) where
  -- The ranks that a version gives to the execution that is found are those of its own graph.
  IsRanked-version :
      (i : Uuid) (db : Db W) (e : Execution) (v : Version) (rank : NodeId → ℕ)
      → load_execution ports tenant i db ≡ some e
      → load_version ports tenant e.version_id db ≡ some v
      → IsRanked rank v.dag
      → (e' : Execution) (v' : Version) → load_execution ports tenant i db ≡ some e'
      → load_version ports tenant e'.version_id db ≡ some v'
      → IsRanked rank v'.dag
  IsRanked-version i db e v rank found loaded ranked e' v' found' loaded' =
      let same : e ≡ e' = some-injective e e' (sym found ∙ found') in
      let same' : v ≡ v' = some-injective v v' (
        sym loaded
        ∙ (ap (λ (x : Execution). load_version ports tenant x.version_id db) same ∙ loaded')) in
      subst (λ (x : Version). IsRanked rank x.dag) same' ranked

  -- An execution whose version has a graph that validation accepts, with at most ten attempts for
  -- each node and no error targets, is driven to an end: from some fuel on, drive answers an error, or the execution
  -- with a status that is neither running nor paused.
  pub valid_drive-IsAtRest :
      (i : Uuid) (db : Db W) (e : Execution) (v : Version)
      → load_execution ports tenant i db ≡ some e
      → load_version ports tenant e.version_id db ≡ some v
      → dag_errors v.dag ≡ []
      → IsPlain v.dag
      → (enough : ℕ) × ((fuel : ℕ)
          → enough ≤ fuel
          → (out : Result WorkflowError Execution × Db W) × (drive ports tenant fuel i db
              ≡ some out)
            × IsAtRest out.0)
  valid_drive-IsAtRest i db e v found loaded valid plain =
      let (rank, top, bound, ranked) = valid-IsRanked v.dag valid plain in
      (
        11 * top + 11,
        λ fuel enough.
            drive-IsAtRest ports tenant rank top bound fuel i db
              (IsRanked-version i db e v rank found loaded ranked) enough,
      )

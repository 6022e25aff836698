-- ===== src/Workflows/Runner/Ends.antt =====
-- The loop of `drive` ends where neither edges nor error targets lead back.
use azienda.Base.{
  ℕ, zero, suc, ◌+◌, ◌-◌, ◌*◌, ◌≤◌, ◌<◌, ◌≡◌, ◌⊎◌, refl, sym, ap, subst, ◌∙◌, Bool, true, ◌&&◌, not,
  none, some, List, [], ◌∷◌, arith, ltb, ◌==◌, inl, inr, Bool-cases, Option-cases, ==_refl,
  eq_of_==, is_some, select, map, All, Result, ok, err,
}
use mathlib.Core.Option.{some-injective}
use azienda.Contracts.{TenantContext, Value}
use azienda.Workflows.{NodeId, Node, Edge, Dag, node_started, State}
use azienda.Workflows.Dsl.{node_by_id, outgoing, only, has_label}
use azienda.Workflows.Ports.{Ports}
use azienda.Workflows.Runner.{
  NodeError, Route, onward, along, parked, Ran, next_of, Job, record_event, execute_node, first_of,
}
use azienda.Workflows.Runner.Service.{
  attempts_of, Round, stops, goes_on, after_error, after_result, completed, charged, round,
  drive_loop,
}

-- a rank that falls along every edge and to every error target, with at most ten attempts for each node
pub record IsRanked (rank : NodeId → ℕ) (spec : Dag) : Type 0 where
  pub edges_fall : All (λ (e : Edge). rank e.to < rank e.from_node) spec.edges
  pub errors_fall :
      All (λ (n : Node). (t : NodeId) → n.on_error ≡ some t → rank t < rank n.id) spec.nodes
  pub few_attempts : All (λ (n : Node). n.max_attempts ≤ 10) spec.nodes

module _ (rank : NodeId → ℕ) (spec : Dag) (ranked : IsRanked rank spec) where
  targets_fall :
      (i : NodeId) (q : Edge → Bool) (es : List Edge)
      → All (λ (e : Edge). rank e.to < rank e.from_node) es
      → All
          (λ t. rank t < rank i)
          (map (λ (e : Edge). e.to) (select (λ e. e.from_node == i && q e) es))
  targets_fall i q [] h = tt
  targets_fall i q (e ∷ es) (h, hs) = elim (Bool-cases (e.from_node == i && q e)) [
    | inr miss ↦ rw miss (targets_fall i q es hs)
    | inl hit ↦
        rw hit
          (subst (λ k. rank e.to < rank k) (from e.from_node (q e) hit) h, targets_fall i q es hs)
  ]
    where
      from : (k : NodeId) (b : Bool) → (k == i && b) ≡ true → k ≡ i
      from k b h = ground arith

  only_falls :
      (i : NodeId) (xs : List NodeId) (k : NodeId)
      → All (λ t. rank t < rank i) xs
      → only xs ≡ some k
      → rank k < rank i
  only_falls i [] k h e = cc
  only_falls i (x ∷ []) k (h, hs) e = subst (λ t. rank t < rank i) (some-injective x k e) h
  only_falls i (x ∷ y ∷ xs) k h e = cc

  first_falls :
      (i : NodeId) (xs : List NodeId) (k : NodeId)
      → All (λ t. rank t < rank i) xs
      → first_of xs ≡ some k
      → rank k < rank i
  first_falls i [] k h e = cc
  first_falls i (x ∷ xs) k (h, hs) e = subst (λ t. rank t < rank i) (some-injective x k e) h

  next_of_falls :
      (i : NodeId) (r : Route) (k : NodeId) → next_of spec i r ≡ some k → rank k < rank i
  next_of_falls i onward k e =
      only_falls i
        (map (λ (e : Edge). e.to)
          (select (λ e. e.from_node == i && not (is_some e.label)) spec.edges))
        k (targets_fall i (λ e. not (is_some e.label)) spec.edges ranked.edges_fall) e
  next_of_falls i (along l) k e =
      first_falls i (outgoing spec i (some l)) k
        (targets_fall i (λ e. has_label (some l) e.label) spec.edges ranked.edges_fall) e
  next_of_falls i parked k e = cc

  node_by_id_holds :
      (P : Node → Type 0) (i : NodeId) (ns : List Node) (n : Node)
      → All P ns
      → node_by_id i ns ≡ some n
      → (n.id ≡ i) × P n
  node_by_id_holds P i [] n h e = cc
  node_by_id_holds P i (m ∷ ms) n (h, hs) e = elim (Option-cases (node_by_id i ms)) [
    | inr (x, later) ↦ node_by_id_holds P i ms n hs (later ∙ (rw later at e))
    | inl no_later ↦ elim (Bool-cases (m.id == i)) [
      | inl hit ↦
          let same = some-injective m n (rw (no_later, hit) at e) in
          subst (λ (x : Node). (x.id ≡ i) × P x) same (eq_of_== m.id i hit, h)
      | inr miss ↦ cc (rw (no_later, miss) at e)
    ]
  ]

module _ (rank : NodeId → ℕ) where
  -- how much the loop may still do
  abbrev pub left_to_do : State → ℕ
  left_to_do s = elim s.current [
    | none ↦ 0
    | some i ↦ rank i * 11 + (10 - attempts_of i s.attempts)
  ]

  left_at :
      (s : State) (i : NodeId)
      → s.current ≡ some i
      → left_to_do s ≡ rank i * 11 + (10 - attempts_of i s.attempts)
  left_at s i e = rw e refl

  -- at a node of lower rank there is less to do
  left_lower :
      (s s' : State) (i k : NodeId)
      → s.current ≡ some i
      → s'.current ≡ some k
      → rank k < rank i
      → left_to_do s' < left_to_do s
  left_lower s s' i k e e' lower = omega (arith, left_at s i e, left_at s' k e')

  -- a rank that is bounded bounds what is left to do
  pub left_bounded :
      (top : ℕ) → ((k : NodeId) → rank k ≤ top) → (s : State) → left_to_do s ≤ 11 * top + 10
  left_bounded top bound s = elim (Option-cases s.current) [
    | inl nowhere ↦ rw nowhere (omega arith)
    | inr (i, here) ↦ omega (arith, left_at s i here, bound i)
  ]

module _ {W : Type 0} where
  abbrev state_of : State → Round W → State
  state_of s (stops j) = s
  state_of s (goes_on j s') = s'

  same_state : {s s' : State} {j j' : Job W} → goes_on j s ≡ goes_on j' s' → s ≡ s'
  same_state {s} e = ap (state_of s) e

  pub Round-cases :
      (r : Round W)
      → ((j : Job W) × (r ≡ stops j)) ⊎ ((j : Job W) × (s : State) × (r ≡ goes_on j s))
  Round-cases (stops j) = inl (j, refl)
  Round-cases (goes_on j s) = inr (j, s, refl)

module _ {W : Type 0} (ports : Ports W) (tenant : TenantContext) (rank : NodeId → ℕ) (spec : Dag)
    (ranked : IsRanked rank spec) where
  after_error_falls :
      (n : Node) (e : NodeError) (s s' : State) (j j' : Job W)
      → s.current ≡ some n.id
      → n.max_attempts ≤ 10
      → ((t : NodeId) → n.on_error ≡ some t → rank t < rank n.id)
      → after_error ports tenant n e s j ≡ goes_on j' s'
      → left_to_do rank s' < left_to_do rank s
  after_error_falls n e s s' j j' here few lower went =
      elim (Bool-cases (ltb (attempts_of n.id s.attempts + 1) n.max_attempts)) [
        | inl again ↦
            let same = same_state (rw again at went) in
            let stays : s'.current ≡ some n.id = ap (λ (x : State). x.current) (sym same) ∙ here in
            let counted : attempts_of n.id s'.attempts ≡ attempts_of n.id s.attempts + 1 =
              ap (λ (x : State). attempts_of n.id x.attempts) (sym same)
              ∙ (rw (==_refl n.id) refl) in
            let below : attempts_of n.id s.attempts + 1 < n.max_attempts = ground arith in
            omega (arith, left_at rank s n.id here, left_at rank s' n.id stays)
        | inr spent ↦ elim (Option-cases n.on_error) [
          | inl nowhere ↦ cc (rw (spent, nowhere) at went)
          | inr (t, target) ↦
              let same = same_state (rw (spent, target) at went) in
              left_lower rank s s' n.id t here (ap (λ (x : State). x.current) (sym same))
                (lower t target)
        ]
      ]

  completed_falls :
      (n : Node) (r : Ran) (s s' : State) (j j' : Job W)
      → s.current ≡ some n.id
      → completed ports tenant spec n r s j ≡ goes_on j' s'
      → left_to_do rank s' < left_to_do rank s
  completed_falls n r s s' j j' here went = elim (Option-cases (next_of spec n.id r.route)) [
    | inl last ↦ cc (rw (last, completed) at went)
    | inr (k, target) ↦
        let same = same_state (rw (target, completed) at went) in
        left_lower rank s s' n.id k here (ap (λ (x : State). x.current) (sym same))
          (next_of_falls rank spec ranked n.id r.route k target)
  ]

  after_result_falls :
      (n : Node) (v : Value) (route : Route) (c : ℕ) (s s' : State) (j j' : Job W)
      → s.current ≡ some n.id
      → after_result ports tenant spec n (record { result = v; route = route; cost = c }) s j
        ≡ goes_on j' s'
      → left_to_do rank s' < left_to_do rank s
  after_result_falls n v parked c s s' j j' here went = cc
  after_result_falls n v onward c s s' j j' here went =
      completed_falls n (record { result = v; route = onward; cost = c }) s s'
        (charged ports tenant c j) j' here went
  after_result_falls n v (along l) c s s' j j' here went =
      completed_falls n (record { result = v; route = along l; cost = c }) s s'
        (charged ports tenant c j) j' here went

  -- after a node ran, whatever it gave
  outcome_falls :
      (n : Node) (r : Result NodeError Ran) (s s' : State) (j j' : Job W)
      → s.current ≡ some n.id
      → n.max_attempts ≤ 10
      → ((t : NodeId) → n.on_error ≡ some t → rank t < rank n.id)
      → (elim r [
        | err e ↦ after_error ports tenant n e s j
        | ok ran ↦ after_result ports tenant spec n ran s j
      ])
        ≡ goes_on j' s'
      → left_to_do rank s' < left_to_do rank s
  outcome_falls n (err e) s s' j j' here few lower went =
      after_error_falls n e s s' j j' here few lower went
  outcome_falls n (ok ran) s s' j j' here few lower went =
      after_result_falls n ran.result ran.route ran.cost s s' j j' here went

  round_falls :
      (s s' : State) (j j' : Job W)
      → round ports tenant spec s j ≡ goes_on j' s'
      → left_to_do rank s' < left_to_do rank s
  unfolding round
  round_falls s s' j j' went = elim (Option-cases s.current) [
    | inl nowhere ↦ cc (rw (nowhere, round) at went)
    | inr (i, here) ↦ elim (Option-cases (node_by_id i spec.nodes)) [
      | inl unknown ↦ cc (rw (here, unknown, round) at went)
      | inr (n, found) ↦
          let (same_id, lower) =
            node_by_id_holds rank spec ranked
              (λ (n : Node). (t : NodeId) → n.on_error ≡ some t → rank t < rank n.id) i spec.nodes n
              ranked.errors_fall found in
          let (_, few) =
            node_by_id_holds rank spec ranked (λ (n : Node). n.max_attempts ≤ 10) i spec.nodes n
              ranked.few_attempts found in
          let x =
            execute_node ports tenant spec n s.context s.gate
              (record_event tenant (node_started n.id) j) in
          outcome_falls n x.0 (record s { gate = x.1 }) s' x.2 j' (here ∙ ap some (sym same_id)) few
            lower (rw (here, found, round) at went)
    ]
  ]

  -- enough fuel ends the loop
  pub loop_ends :
      (fuel : ℕ) (s : State) (j : Job W)
      → left_to_do rank s < fuel
      → (j' : Job W) × (drive_loop ports tenant fuel spec s j ≡ some j')
  unfolding drive_loop
  loop_ends zero s j enough = let never : suc zero ≡ zero = omega (arith, enough) in cc
  loop_ends (suc n) s j enough = elim (Round-cases (round ports tenant spec s j)) [
    | inl (j', stopped) ↦ (j', rw (stopped, drive_loop) refl)
    | inr (j', s', went) ↦
        let falls = round_falls s s' j j' went in
        let (j'', ended) = loop_ends n s' j' (omega arith) in (j'', rw (went, drive_loop) ended)
  ]

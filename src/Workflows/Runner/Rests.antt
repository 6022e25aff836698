-- ===== src/Workflows/Runner/Rests.antt =====
-- What `drive` leaves: an execution that is finished or waits.
use azienda.Base.{
  ℕ, zero, suc, ◌+◌, ◌*◌, ◌≤◌, ◌≡◌, ◌⊎◌, refl, ap, subst, ◌∙◌, Bool, true, false, String, some,
  arith, ltb, if◌then◌else◌, inl, inr, Bool-cases, Option-cases, Result, ok, err,
}
use mathlib.Core.Option.{some-injective}
use azienda.Contracts.{TenantContext, Uuid, Time, Value}
use azienda.Workflows.{
  NodeId, Node, Dag, State, Version, Execution, ExecutionStatus, running, waiting_approval, paused,
  succeeded, failed, cancelled, node_started,
}
use azienda.Workflows.Ports.{Ports}
use azienda.Workflows.Runner.{
  NodeError, Route, onward, along, parked, Ran, next_of, Job, record_event, execute_node, fail,
}
use azienda.Workflows.Runner.Service.{
  WorkflowError, execution_not_found, version_not_found, no_trigger, store_job, is_terminal, Db,
  attempts_of, Round, stops, goes_on, after_error, after_result, completed, charged, current_node,
  round, drive_loop, drive, load_execution, load_version, run_loop, begin, job_of,
}
use azienda.Workflows.Runner.Ends.{IsRanked, left_bounded, loop_ends, Round-cases}

-- finished, or parked until a signal: neither running nor paused
abbrev pub is_at_rest : ExecutionStatus → Bool
is_at_rest running = false
is_at_rest paused = false
is_at_rest _ = true

module _ {W : Type 0} where
  abbrev job_in : Job W → Round W → Job W
  job_in j (stops k) = k
  job_in j (goes_on k s) = j

  -- a job that was stopped with the status of another
  rests :
      {k j' : Job W}
      → is_at_rest k.execution.status ≡ true
      → Path (Round W) (stops k) (stops j')
      → is_at_rest j'.execution.status ≡ true
  rests {k} h e = subst (λ (x : Job W). is_at_rest x.execution.status ≡ true) (ap (job_in k) e) h

  fail_rests :
      (now : Time) (tenant : TenantContext) (s : State) (why : String) (j : Job W)
      → is_at_rest (fail now tenant s why j).execution.status ≡ true
  unfolding fail
  fail_rests now tenant s why j = refl

module _ {W : Type 0} (ports : Ports W) (tenant : TenantContext) (spec : Dag) where
  after_error_rests :
      (n : Node) (e : NodeError) (s : State) (j j' : Job W)
      → after_error ports tenant n e s j ≡ stops j'
      → is_at_rest j'.execution.status ≡ true
  after_error_rests n e s j j' stopped =
      elim (Bool-cases (ltb (attempts_of n.id s.attempts + 1) n.max_attempts)) [
        | inl again ↦ cc (rw again at stopped)
        | inr spent ↦ elim (Option-cases n.on_error) [
          | inr (t, target) ↦ cc (rw (spent, target) at stopped)
          | inl nowhere ↦
              rests (fail_rests ports.now tenant _ e.message _) (rw (spent, nowhere) at stopped)
        ]
      ]

  completed_rests :
      (n : Node) (r : Ran) (s : State) (j j' : Job W)
      → completed ports tenant spec n r s j ≡ stops j'
      → is_at_rest j'.execution.status ≡ true
  completed_rests n r s j j' stopped = elim (Option-cases (next_of spec n.id r.route)) [
    | inl last ↦ rests refl (rw (last, completed) at stopped)
    | inr (k, target) ↦ cc (rw (target, completed) at stopped)
  ]

  after_result_rests :
      (n : Node) (v : Value) (route : Route) (c : ℕ) (s : State) (j j' : Job W)
      → after_result ports tenant spec n (record { result = v; route = route; cost = c }) s j
        ≡ stops j'
      → is_at_rest j'.execution.status ≡ true
  after_result_rests n v parked c s j j' stopped = rests refl stopped
  after_result_rests n v onward c s j j' stopped =
      completed_rests n (record { result = v; route = onward; cost = c }) s
        (charged ports tenant c j) j' stopped
  after_result_rests n v (along l) c s j j' stopped =
      completed_rests n (record { result = v; route = along l; cost = c }) s
        (charged ports tenant c j) j' stopped

  outcome_rests :
      (n : Node) (r : Result NodeError Ran) (s : State) (j j' : Job W)
      → (elim r [
        | err e ↦ after_error ports tenant n e s j
        | ok ran ↦ after_result ports tenant spec n ran s j
      ])
        ≡ stops j'
      → is_at_rest j'.execution.status ≡ true
  outcome_rests n (err e) s j j' stopped = after_error_rests n e s j j' stopped
  outcome_rests n (ok ran) s j j' stopped =
      after_result_rests n ran.result ran.route ran.cost s j j' stopped

  round_rests :
      (s : State) (j j' : Job W)
      → round ports tenant spec s j ≡ stops j'
      → is_at_rest j'.execution.status ≡ true
  unfolding round
  round_rests s j j' stopped = elim (Option-cases (current_node ports tenant spec s)) [
    | inl unknown ↦
        rests (fail_rests ports.now tenant s "unknown current node" j)
          (rw (unknown, round) at stopped)
    | inr (n, found) ↦
        let x =
          execute_node ports tenant spec n s.context s.gate
            (record_event tenant (node_started n.id) j) in
        outcome_rests n x.0 (record s { gate = x.1 }) x.2 j' (rw (found, round) at stopped)
  ]

  loop_rests :
      (fuel : ℕ) (s : State) (j j' : Job W)
      → drive_loop ports tenant fuel spec s j ≡ some j'
      → is_at_rest j'.execution.status ≡ true
  unfolding drive_loop
  loop_rests zero s j j' e = cc
  loop_rests (suc n) s j j' e = elim (Round-cases (round ports tenant spec s j)) [
    | inl (k, stopped) ↦
        subst (λ (x : Job W). is_at_rest x.execution.status ≡ true)
          (some-injective k j' (rw (stopped, drive_loop) at e)) (round_rests s j k stopped)
    | inr (k, s', went) ↦ loop_rests n s' k j' (rw (went, drive_loop) at e)
  ]

-- an answer is an error, or an execution at rest
abbrev pub IsAtRest : Result WorkflowError Execution → Type 0
IsAtRest (ok e) = is_at_rest e.status ≡ true
IsAtRest (err _) = Unit

status-cases :
    (s : ExecutionStatus)
    → ((is_terminal s ≡ true) × (is_at_rest s ≡ true))
      ⊎ ((s ≡ waiting_approval) ⊎ (is_at_rest s ≡ false))
status-cases running = inr (inr refl)
status-cases paused = inr (inr refl)
status-cases waiting_approval = inr (inl refl)
status-cases succeeded = inl (refl, refl)
status-cases failed = inl (refl, refl)
status-cases cancelled = inl (refl, refl)

-- the early returns of `drive`
dispatch_waiting :
    {A : Type 0} (s : ExecutionStatus) (a b : A)
    → s ≡ waiting_approval
    → (if is_terminal s then a else (elim s [ waiting_approval ↦ a | _ ↦ b ])) ≡ a
dispatch_waiting s a b e = rw e refl

dispatch_running :
    {A : Type 0} (s : ExecutionStatus) (a b : A)
    → is_at_rest s ≡ false
    → (if is_terminal s then a else (elim s [ waiting_approval ↦ a | _ ↦ b ])) ≡ b
dispatch_running running a b e = refl
dispatch_running paused a b e = refl
dispatch_running waiting_approval a b e = cc
dispatch_running succeeded a b e = cc
dispatch_running failed a b e = cc
dispatch_running cancelled a b e = cc

module _ {W : Type 0} (ports : Ports W) (tenant : TenantContext) (rank : NodeId → ℕ) (top : ℕ)
    (bound : (k : NodeId) → rank k ≤ top) where
  run_loop_rests :
      (fuel : ℕ) (spec : Dag) (e : Execution) (db : Db W)
      → IsRanked rank spec
      → 11 * top + 11 ≤ fuel
      → (out : Result WorkflowError Execution × Db W) × (run_loop ports tenant fuel spec e db
          ≡ some out)
        × IsAtRest out.0
  run_loop_rests fuel spec e db ranked enough =
      elim (Option-cases (begin ports tenant spec e.state (job_of ports tenant e db))) [
        | inl none_to_begin ↦ ((err no_trigger, db), rw (none_to_begin, run_loop) refl, tt)
        | inr ((s, j), begun) ↦
            let (j', ended) =
              loop_ends ports tenant rank spec ranked fuel s j
                (omega (arith, left_bounded rank top bound s)) in
            (
              (ok j'.execution, store_job ports tenant j' db),
              rw (begun, ended, run_loop) refl,
              loop_rests ports tenant spec fuel s j j' ended,
            )
      ]

  -- `drive` gives an answer with eleven rounds of fuel for each rank, the lowest included, where the
  -- version of the execution, if it is found, has a graph whose edges and error targets fall along a
  -- rank that is at most `top` and whose nodes have at most ten attempts: an error, or the execution with a status that is neither running nor paused.
  pub drive-IsAtRest :
      (fuel : ℕ) (i : Uuid) (db : Db W)
      → ((e : Execution) (v : Version)
          → load_execution ports tenant i db ≡ some e
          → load_version ports tenant e.version_id db ≡ some v
          → IsRanked rank v.dag)
      → 11 * top + 11 ≤ fuel
      → (out : Result WorkflowError Execution × Db W) × (drive ports tenant fuel i db ≡ some out)
        × IsAtRest out.0
  unfolding drive
  drive-IsAtRest fuel i db ranked enough = elim (Option-cases (load_execution ports tenant i db)) [
    | inl missing ↦ ((err (execution_not_found i), db), rw (missing, drive) refl, tt)
    | inr (e, found) ↦ elim (status-cases e.status) [
      | inl (over, resting) ↦ ((ok e, db), rw (found, over, drive) refl, resting)
      | inr (inl waits) ↦
          ((ok e, db), rw (found, drive) (dispatch_waiting e.status _ _ waits), rw waits refl)
      | inr (inr runs) ↦ elim (Option-cases (load_version ports tenant e.version_id db)) [
        | inl lost ↦ (
          (err (version_not_found e.version_id), db),
          rw (found, drive) (dispatch_running e.status _ _ runs ∙ (rw lost refl)),
          tt,
        )
        | inr (v, loaded) ↦
            let (out, ended, resting) =
              run_loop_rests fuel v.dag e db (ranked e v found loaded) enough in
            (
              out,
              rw (found, drive) (dispatch_running e.status _ _ runs ∙ (rw loaded ended)),
              resting,
            )
      ]
    ]
  ]

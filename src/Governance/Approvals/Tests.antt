-- ===== src/Governance/Approvals/Tests.antt =====
-- Runs of the approval store, and its theorems at concrete inputs.
use azienda.Base.{◌≤◌, ◌<◌, ◌≡◌, ◌↔◌, refl, true, false, none, some, List, [], ◌++◌, arith}
use azienda.Contracts.{
  TenantContext, ActionRequest, PolicyDecision, require_approval, end, pending, approved,
}
use azienda.Governance.Approvals.{
  ApprovalRecord, ApprovalEvent, Store, new_record, get_record, request, decide, sweep_expired,
}
use azienda.Governance.Approvals.Sweep.{Sweeps}
use azienda.Governance.Approvals.Rows.{verdicts, rows_of, closed_rows}
use azienda.Governance.Approvals.Trail.{
  IsConsistent, Reach, here, next, requested, decided, empty, one_verdict, Reach-IsConsistent,
}
use azienda.Governance.Approvals.Decisions.{
  is_ok, decide_iff, sweep_complete, row, decided_stays, request_replay,
}

abbrev alice : TenantContext
alice = record { tenant_id = 7; user_id = some 41; agent_id = none; roles = [] }

abbrev refund : ActionRequest
refund = record {
  tenant = alice;
  action = "tool.payments.refund";
  resource = none;
  args = end;
  risk_context = end;
  idempotency_key = some "k1";
}

abbrev gate : PolicyDecision
gate = record {
  effect = require_approval;
  policy_id = none;
  reasons = [];
  approval_id = none;
  obligations = end;
}

abbrev asked : Store
asked = (request 900 100 1 gate refund 60 [] empty).1

abbrev granted : Store
granted = (decide (λ n. 200) alice 1 true "fine" asked).1

asked-Reach : Reach empty asked
asked-Reach = next here (requested 900 100 1 gate refund 60 [] empty refl)

granted-Reach : Reach empty granted
granted-Reach = next asked-Reach (decided (λ n. 200) alice 1 true "fine" asked)

late_is_refused : is_ok (decide (λ n. 1000) alice 1 true "late" asked).0 ≡ false
unfolding request decide
late_is_refused = refl

one_verdict_example :
    (rows_of 1 granted.approvals ≤ 1)
    × (verdicts 1 granted.events ≡ closed_rows 1 granted.approvals)
    × (verdicts 1 granted.events ≤ 1)
one_verdict_example = one_verdict granted-Reach 1

decide_iff_example : (is_ok (decide (λ n. 200) alice 1 true "fine" asked).0 ≡ true) ↔ (
    (r : ApprovalRecord) × (get_record alice 1 asked ≡ some r)
    × (r.status ≡ pending)
    × (200 < r.expires_at))
decide_iff_example = decide_iff (λ n. 200) alice 1 true "fine" asked

sweep_complete_example :
    let (n, s') = sweep_expired 1000 none asked in
    (new : List ApprovalEvent) × (s'.events ≡ asked.events ++ new)
    × Sweeps 1000 none asked.approvals s'.approvals new n
sweep_complete_example = sweep_complete 1000 none asked

abbrev granted_row : ApprovalRecord
granted_row = record (new_record 900 100 1 gate refund 60 []) {
  status = approved;
  decided_by = some 41;
  decided_at = some 200;
  note = some "fine";
}

empty-IsConsistent : IsConsistent empty
empty-IsConsistent = record { one_row = λ _. omega arith; trail = λ _. refl }

granted-IsConsistent : IsConsistent granted
granted-IsConsistent = Reach-IsConsistent granted-Reach empty-IsConsistent

granted-row : row 1 granted ≡ some granted_row
unfolding request decide
granted-row = refl

decided_stays_example : row 1 (decide (λ n. 300) alice 1 false "no" granted).1 ≡ some granted_row
decided_stays_example =
    decided_stays 1 granted_row (next here (decided (λ n. 300) alice 1 false "no" granted))
      granted-IsConsistent granted-row refl

request_replay_example :
    let (a, s) = request 900 100 1 gate refund 60 [] empty in
    request 900 150 2 gate refund 70 [] s ≡ (a, s)
request_replay_example =
    request_replay 900 900 100 150 1 2 gate gate refund 60 70 [] [] "k1" empty refl refl

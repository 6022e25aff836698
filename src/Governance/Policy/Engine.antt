-- ===== src/Governance/Policy/Engine.antt =====
-- backend/app/governance/policy/engine.py: `class RulePolicyEngine`.
pub mod Order
pub mod Gates
mod Tests
use mathlib.Core.Option
use azienda.Base.{
  ℕ, ◌*◌, ◌≡◌, String, Bool, true, false, ◌&&◌, ◌||◌, not, Option, none, some, List, [], ◌∷◌, ◌++◌,
  str_eq, leb, ◌==◌, if◌then◌else◌, map, select,
}
use azienda.Base.Int.{ℤ, pos, ltb_ℤ, leb_ℤ, nonneg}
use azienda.Contracts.{
  TenantId, Uuid, Time, TenantContext, Value, null, text, Items, to_list, Fields, end, field, get,
  get_or, truthy, ActionRequest, PolicyEffect, allow, deny, require_approval, PolicyDecision,
  Reason, malformed, cross_tenant, cost, matched_rule, note, risk, default_band, eval_error, Factor,
  Band, low, medium, high, Python, refused, overflows, converted, Real, nan, finite,
}
use azienda.Governance.Approvals
use azienda.Governance.Policy.Risk.{Settings, RiskScoreRecord, risk_band, score}
use azienda.Governance.Policy.Rules.{CompiledRule, validate_request, compile_rule, rule_matches}

-- a row of the `policies` table
pub record Policy : Type 0 where
  pub id : Uuid
  pub tenant_id : TenantId
  pub rules : Items
  pub is_active : Bool
  pub priority : ℤ

-- the tables that an evaluation reads and writes
pub record Db : Type 0 where
  pub policies : List Policy
  pub risk_scores : List RiskScoreRecord
  pub approvals : Approvals.Store

-- a stable sort by falling priority
module _ {A : Type 0} (priority : A → ℤ) where
  abbrev pub insert : A → List A → List A
  insert a [] = a ∷ []
  insert a (x ∷ xs) = if leb_ℤ (priority x) (priority a) then a ∷ x ∷ xs else x ∷ insert a xs

  pub sort_desc : List A → List A
  sort_desc [] = []
  sort_desc (x ∷ xs) = insert x (sort_desc xs)

-- the rules of a policy that compile; a malformed one is skipped, and another exception is raised
abbrev pub compiled : Python → Uuid → List Value → Option (List CompiledRule)
compiled py id [] = some []
compiled py id (raw ∷ rest) =
    let more = compiled py id rest in
    elim (compile_rule py id raw) [
      | refused ↦ more
      | overflows ↦ none
      | converted r ↦ Option.map (λ rs. r ∷ rs) more
    ]

abbrev pub all_compiled : Python → List Policy → Option (List CompiledRule)
all_compiled py [] = some []
all_compiled py (p ∷ ps) =
    let more = all_compiled py ps in
    elim (compiled py p.id (to_list p.rules)) [
      | none ↦ none
      | some rs ↦ Option.map (λ qs. rs ++ qs) more
    ]

-- the rules of the tenant's active policies, policy by policy
abbrev pub unsorted_rules : Python → TenantContext → List Policy → Option (List CompiledRule)
unsorted_rules py tenant policies = all_compiled py (
    sort_desc (λ (p : Policy). p.priority)
      (select (λ p. p.tenant_id == tenant.tenant_id && p.is_active) policies))

-- `_load_rules`; `none` where it raises
pub load_rules : Python → TenantContext → List Policy → Option (List CompiledRule)
unfolding sort_desc
load_rules py tenant policies =
    Option.map (sort_desc (λ (r : CompiledRule). r.priority)) (unsorted_rules py tenant policies)

-- `max(0.0, x)`, which is 0.0 for NaN
abbrev pub at_least_zero : Real → ℤ
at_least_zero nan = pos 0
at_least_zero (finite x) = nonneg x

-- `_cost_estimate`: the first of the three keys whose value is a number; `none` where `float`
-- raises an exception other than TypeError and ValueError, which is OverflowError
abbrev pub cost_from : Python → ActionRequest → List String → Option ℤ
cost_from py request [] = some (pos 0)
cost_from py request (key ∷ rest) =
    let more = cost_from py request rest in
    elim (get_or key request.risk_context (get_or key request.args null)) [
      | null ↦ more
      | v ↦ elim (py.float v) [
        | refused ↦ more
        | overflows ↦ none
        | converted x ↦ some (at_least_zero x)
      ]
    ]

pub cost_estimate : Python → ActionRequest → Option ℤ
cost_estimate py request =
    cost_from py request ("estimated_cost_usd" ∷ "cost_estimate_usd" ∷ "estimated_cost" ∷ [])

-- guardrail 1: an argument that names another tenant
abbrev pub smuggles : Python → ActionRequest → String → Bool
smuggles py request key = elim (get key request.args) [
  | none ↦ false
  | some v ↦ truthy v && not (str_eq (py.str v) (py.uuid_text request.tenant.tenant_id))
]

pub smuggled : Python → ActionRequest → Option Reason
smuggled py request =
    if smuggles py request "tenant_id"
    then some (cross_tenant "tenant_id" (get_or "tenant_id" request.args null))
    else if smuggles py request "tenant"
    then some (cross_tenant "tenant" (get_or "tenant" request.args null))
    else none

abbrev pub decision_of : PolicyEffect → Option Uuid → List Reason → Fields → PolicyDecision
decision_of effect policy_id reasons obligations = record {
  effect = effect;
  policy_id = policy_id;
  reasons = reasons;
  approval_id = none;
  obligations = obligations;
}

-- what an evaluation is given besides the request: the settings, the clock and the uuid that a new
-- approval gets
pub record Env : Type 0 where
  pub py : Python
  pub settings : Settings
  pub now : Time
  pub fresh : Uuid

-- the loop over the rules: the first that matches, none of them, or an exception of the loading or
-- of a condition
pub data Match : Type 0 where
  raised unmatched : Match
  hit : CompiledRule → Match

module _ (env : Env) where
  -- `_require_approval`
  pub ask :
      ActionRequest
      → Option Uuid
      → ℕ
      → List Factor
      → List Reason
      → Fields
      → Bool
      → Db
      → PolicyDecision × Db
  ask request policy_id score factors reasons obligations dry_run db =
      let d = decision_of require_approval policy_id reasons obligations in
      if dry_run
      then (d, db)
      else (let (a, store) =
            Approvals.request (env.settings.approval_ttl_seconds * 1000000) env.now env.fresh d
              request score factors db.approvals in
          (record d { approval_id = some a.approval_id }, record db { approvals = store }))

  -- `_apply_rule`
  pub apply_rule : ActionRequest → CompiledRule → ℕ → List Factor → Bool → Db → PolicyDecision × Db
  unfolding ask
  apply_rule request rule score factors dry_run db =
      let reasons =
        matched_rule rule.name rule.priority
        ∷ ((if str_eq rule.reason "" then [] else note rule.reason ∷ []) ++ map risk factors) in
      elim rule.effect [
        | require_approval ↦
            ask request rule.policy_id score factors reasons rule.obligations dry_run db
        | effect ↦ (decision_of effect rule.policy_id reasons rule.obligations, db)
      ]

  -- `_default_decision`
  pub default_decision : ActionRequest → Band → ℕ → List Factor → Bool → Db → PolicyDecision × Db
  unfolding ask
  default_decision request low score factors dry_run db =
      (decision_of allow none (default_band low score ∷ map risk factors) end, db)
  default_decision request medium score factors dry_run db =
      let reasons = default_band medium score ∷ map risk factors in
      if not env.settings.approval_medium_require
      then (decision_of allow none reasons (field "audit_level" (text "elevated") end), db)
      else ask request none score factors reasons end dry_run db
  default_decision request high score factors dry_run db =
      ask request none score factors (default_band high score ∷ map risk factors) end dry_run db

  pub first_match : ActionRequest → ℕ → List CompiledRule → Match
  first_match request score [] = unmatched
  first_match request score (rule ∷ rest) =
      let more = first_match request score rest in
      elim (rule_matches env.py rule request score) [
        | none ↦ raised
        | some true ↦ hit rule
        | some false ↦ more
      ]

  -- what the tenant's rules say of a request with a score
  abbrev pub verdict : ActionRequest → ℕ → Db → Match
  verdict request score db = elim (load_rules env.py request.tenant db.policies) [
    | none ↦ raised
    | some rules ↦ first_match request score rules
  ]

  abbrev pub denied : Reason → PolicyDecision
  denied reason = decision_of deny none (reason ∷ []) end

  -- the tenant's rules, and the decision of the risk band where none matches
  pub by_rules : ActionRequest → ℕ → List Factor → Match → Bool → Db → PolicyDecision × Db
  unfolding apply_rule default_decision
  by_rules request score factors raised dry_run db = (denied eval_error, db)
  by_rules request score factors unmatched dry_run db =
      default_decision request (risk_band score env.settings) score factors dry_run db
  by_rules request score factors (hit rule) dry_run db =
      apply_rule request rule score factors dry_run db

  -- what follows the score: the two guardrails, then the rules
  pub guarded : ActionRequest → ℕ → List Factor → Bool → Db → PolicyDecision × Db
  unfolding by_rules ask
  guarded request score factors dry_run db = elim (smuggled env.py request) [
    | some reason ↦ (denied reason, db)
    | none ↦ elim (cost_estimate env.py request) [
      | none ↦ (denied eval_error, db)
      | some estimate ↦
          if ltb_ℤ env.settings.cost_approval_threshold estimate
          then ask request none score factors
              (cost estimate env.settings.cost_approval_threshold ∷ []) end dry_run db
          else by_rules request score factors (verdict request score db) dry_run db
    ]
  ]

  -- `_evaluate`
  pub evaluate_as : Bool → ActionRequest → Db → PolicyDecision × Db
  unfolding guarded
  evaluate_as dry_run request db = elim (validate_request env.py request) [
    | some why ↦ (denied (malformed why), db)
    | none ↦ elim (score env.py request) [
      | none ↦ (denied eval_error, db)
      | some (r, written) ↦
          guarded request r.score r.factors dry_run
            (record db { risk_scores = db.risk_scores ++ written ∷ [] })
    ]
  ]

  abbrev pub evaluate : ActionRequest → Db → PolicyDecision × Db
  evaluate = evaluate_as false

  abbrev pub evaluate_dry_run : ActionRequest → Db → PolicyDecision × Db
  evaluate_dry_run = evaluate_as true

-- ===== src/Governance/Policy/Engine/Gates.antt =====
-- What an allowed action has passed, and what no rule of a tenant can override.
use azienda.Base.{
  ℕ, ◌≡◌, ◌↔◌, refl, ◌⊎◌, inl, inr, Bool, true, false, Option, none, some, List, [], ◌∷◌, ◌++◌,
  arith, Bool-cases, Option-cases, subst, sym, ap, ◌∙◌,
}
use mathlib.Core.Option.{some-injective}
use azienda.Base.Int.{ℤ, ltb_ℤ, ◌≤ℤ◌}
use azienda.Contracts.{
  Fields, end, cost, Uuid, Factor, Reason, Band, low, medium, high, ActionRequest, allow,
  require_approval, PolicyDecision, RiskScore,
}
use azienda.Governance.Policy.Risk.{score, risk_band, RiskScoreRecord}
use azienda.Governance.Policy.Rules.{CompiledRule, validate_request}
use azienda.Governance.Policy.Engine.{
  Db, Env, Match, raised, unmatched, hit, ask, apply_rule, default_decision, by_rules, guarded,
  evaluate_as, evaluate, evaluate_dry_run, smuggled, cost_estimate, verdict,
}

-- the rules, or the risk band where none matches, allow the action
abbrev pub Permits : Env → Band → Match → Type 0
Permits env band raised = ⊥
Permits env band (hit r) = r.effect ≡ allow
Permits env band unmatched =
    (band ≡ low) ⊎ ((band ≡ medium) × (env.settings.approval_medium_require ≡ false))

module _ (env : Env) where
  ask_effect :
      (req : ActionRequest) (p : Option Uuid) (n : ℕ) (fs : List Factor) (rs : List Reason)
      (o : Fields) (dry : Bool) (db : Db)
      → (ask env req p n fs rs o dry db).0.effect ≡ require_approval
  unfolding ask
  ask_effect req p n fs rs o true db = refl
  ask_effect req p n fs rs o false db = refl

  rule_effect :
      (req : ActionRequest) (r : CompiledRule) (n : ℕ) (fs : List Factor) (dry : Bool) (db : Db)
      → (apply_rule env req r n fs dry db).0.effect ≡ r.effect
  unfolding apply_rule
  rule_effect req r n fs true db = ground arith
  rule_effect req r n fs false db = ground arith

  default-Permits :
      (req : ActionRequest) (b : Band) (n : ℕ) (fs : List Factor) (dry : Bool) (db : Db)
      → ((default_decision env req b n fs dry db).0.effect ≡ allow) ↔ Permits env b unmatched
  unfolding default_decision
  default-Permits req low n fs dry db = (λ _. inl refl, λ _. refl)
  default-Permits req medium n fs true db = (λ h. ground arith, λ h. ground arith)
  default-Permits req medium n fs false db = (λ h. ground arith, λ h. ground arith)
  default-Permits req high n fs true db = (λ h. ground arith, λ h. ground arith)
  default-Permits req high n fs false db = (λ h. ground arith, λ h. ground arith)

  by_rules-Permits :
      (req : ActionRequest) (n : ℕ) (fs : List Factor) (m : Match) (dry : Bool) (db : Db)
      → ((by_rules env req n fs m dry db).0.effect ≡ allow)
        ↔ Permits env (risk_band n env.settings) m
  unfolding by_rules
  by_rules-Permits req n fs raised dry db = (λ h. cc, λ h. absurd h)
  by_rules-Permits req n fs unmatched dry db =
      default-Permits req (risk_band n env.settings) n fs dry db
  by_rules-Permits req n fs (hit r) dry db =
      (λ h. cc (rule_effect req r n fs dry db), λ h. cc (rule_effect req r n fs dry db))

  -- what an action with a score has still to pass
  abbrev Passes : ActionRequest → Db → RiskScore × RiskScoreRecord → Type 0
  Passes req db r =
      (smuggled env.py req ≡ none)
      × (c : ℤ) × (cost_estimate env.py req ≡ some c)
      × (c ≤ℤ env.settings.cost_approval_threshold)
      × Permits env (risk_band r.0.score env.settings) (verdict env req r.0.score db)

  guarded-Permits :
      (req : ActionRequest) (n : ℕ) (fs : List Factor) (dry : Bool) (db : Db)
      → ((guarded env req n fs dry db).0.effect ≡ allow) ↔ (
          (smuggled env.py req ≡ none)
          × (c : ℤ) × (cost_estimate env.py req ≡ some c)
          × (c ≤ℤ env.settings.cost_approval_threshold)
          × Permits env (risk_band n env.settings) (verdict env req n db))
  unfolding guarded
  guarded-Permits req n fs dry db = elim (Option-cases (smuggled env.py req)) [
    | inr (why, bad) ↦ (λ h. cc (rw (bad, guarded) at h), λ h. cc (bad, h.0))
    | inl own ↦ elim (Option-cases (cost_estimate env.py req)) [
      | inl broken ↦
          (λ h. cc (rw (own, broken, guarded) at h), λ (_, c, found, _, _). cc (broken, found))
      | inr (c, found) ↦ elim (Bool-cases (ltb_ℤ env.settings.cost_approval_threshold c)) [
        | inl dear ↦ (
          λ h. cc (
            rw (own, found, dear, guarded) at h,
            ask_effect req none n fs (cost c env.settings.cost_approval_threshold ∷ []) end dry db,
          ),
          λ (_, c', found', within, _).
              let same : c' ≡ c = some-injective c' c (sym found' ∙ found) in
              absurd (
                above_threshold c
                  (subst (λ x. x ≤ℤ env.settings.cost_approval_threshold) same within) dear),
        )
        | inr cheap ↦
            let rules = by_rules-Permits req n fs (verdict env req n db) dry db in
            (
              λ h. (own, c, found, ground arith, rules.0 (rw (own, found, cheap, guarded) at h)),
              λ (_, _, _, _, permits). rw (own, found, cheap, guarded) (rules.1 permits),
            )
      ]
    ]
  ]
    where
      above_threshold :
          (c : ℤ)
          → c ≤ℤ env.settings.cost_approval_threshold
          → ltb_ℤ env.settings.cost_approval_threshold c ≡ true
          → ⊥
      above_threshold c h k = ground arith

  -- An action is allowed exactly if the request is well formed, its score is computed without an
  -- exception, no argument names another tenant, its cost is estimated without an exception and is
  -- within the threshold, and the tenant's rules are loaded and tried without an exception and the
  -- first that matches allows it, or none matches and the risk band is low, or medium where the
  -- settings require no approval for it. This holds of a dry run too.
  pub allow_iff :
      (dry : Bool) (req : ActionRequest) (db : Db)
      → ((evaluate_as env dry req db).0.effect ≡ allow) ↔ (
          (validate_request env.py req ≡ none)
          × (r : RiskScore × RiskScoreRecord) × (score env.py req ≡ some r)
          × (smuggled env.py req ≡ none)
          × (c : ℤ) × (cost_estimate env.py req ≡ some c)
          × (c ≤ℤ env.settings.cost_approval_threshold)
          × Permits env (risk_band r.0.score env.settings) (verdict env req r.0.score db))
  unfolding evaluate_as guarded
  allow_iff dry req db = elim (Option-cases (validate_request env.py req)) [
    | inr (why, bad) ↦ (λ h. cc (rw (bad, evaluate_as) at h), λ h. cc (bad, h.0))
    | inl formed ↦ elim (Option-cases (score env.py req)) [
      | inl broken ↦ (
        λ h. cc (rw (formed, broken, evaluate_as) at h),
        λ (_, r, found, _, _, _, _, _). cc (broken, found),
      )
      | inr (r, found) ↦
          let db' = record db { risk_scores = db.risk_scores ++ r.1 ∷ [] } in
          let later = guarded-Permits req r.0.score r.0.factors dry db' in
          (
            λ h.
                let (own, c, estimated, within, permits) =
                  later.0 (rw (formed, found, evaluate_as) at h) in
                (formed, r, found, own, c, estimated, within, permits),
            λ (_, r', found', own, c, estimated, within, permits).
                rw (formed, found, evaluate_as)
                  (later.1 (
                    subst (Passes req db) (some-injective r' r (sym found' ∙ found))
                      (own, c, estimated, within, permits))),
          )
    ]
  ]

-- what two decisions on one request have in common: all but the approval
abbrev pub Agrees : PolicyDecision → PolicyDecision → Type 0
Agrees a b =
    (a.effect ≡ b.effect)
    × (a.policy_id ≡ b.policy_id)
    × (a.reasons ≡ b.reasons)
    × (a.obligations ≡ b.obligations)

module _ (env : Env) (req : ActionRequest) where
  ask-Agrees :
      (p : Option Uuid) (n : ℕ) (fs : List Factor) (rs : List Reason) (o : Fields) (db : Db)
      → Agrees (ask env req p n fs rs o true db).0 (ask env req p n fs rs o false db).0
        × ((ask env req p n fs rs o true db).1 ≡ db)
  unfolding ask
  ask-Agrees p n fs rs o db = ((refl, refl, refl, refl), refl)

  by_rules-Agrees :
      (n : ℕ) (fs : List Factor) (m : Match) (db : Db)
      → Agrees (by_rules env req n fs m true db).0 (by_rules env req n fs m false db).0
        × ((by_rules env req n fs m true db).1 ≡ db)
  unfolding by_rules
  by_rules-Agrees n fs raised db = ground arith
  by_rules-Agrees n fs unmatched db = ground arith
  by_rules-Agrees n fs (hit r) db = ground arith

  guarded-Agrees :
      (n : ℕ) (fs : List Factor) (db : Db)
      → Agrees (guarded env req n fs true db).0 (guarded env req n fs false db).0
        × ((guarded env req n fs true db).1 ≡ db)
  unfolding guarded
  guarded-Agrees n fs db = ground (arith, by_rules-Agrees n fs (verdict env req n db) db)

  -- A dry run gives the effect, the policy, the reasons and the obligations of the run, and writes
  -- no approval and no policy.
  pub dry_run-Agrees :
      (db : Db)
      → Agrees (evaluate_dry_run env req db).0 (evaluate env req db).0
        × ((evaluate_dry_run env req db).1.approvals ≡ db.approvals)
        × ((evaluate_dry_run env req db).1.policies ≡ db.policies)
  unfolding evaluate_as
  dry_run-Agrees db = elim (Option-cases (validate_request env.py req)) [
    | inr (why, bad) ↦ rw (bad, evaluate_as) ((refl, refl, refl, refl), refl, refl)
    | inl formed ↦ elim (Option-cases (score env.py req)) [
      | inl broken ↦ rw (formed, broken, evaluate_as) ((refl, refl, refl, refl), refl, refl)
      | inr (r, found) ↦
          let (same, idle) =
            guarded-Agrees r.0.score r.0.factors
              (record db { risk_scores = db.risk_scores ++ r.1 ∷ [] }) in
          rw (formed, found, evaluate_as)
            (same, ap (λ d. d.approvals) idle, ap (λ d. d.policies) idle)
    ]
  ]

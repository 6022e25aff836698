-- ===== src/Governance/Policy/Engine/Tests.antt =====
-- The policy engine on a small tenant, and its theorems at concrete inputs.
use Prim.Native.Nat.{min, ◌^◌}
use azienda.Base.{
  ℕ, ◌≡◌, ◌↔◌, refl, String, true, false, ◌||◌, Option, none, some, ◌+◌, ◌*◌, [], ◌∷◌, str_eq,
  if◌then◌else◌,
}
use azienda.Base.Int.{ℤ, pos, negsuc, leb_ℤ, ◌≤ℤ◌}
use azienda.Contracts.{
  Value, num, text, dict, cons, nil, Fields, end, field, ActionRequest, allow, deny, Python,
  RiskScore, Conversion, refused, overflows, converted, Real, nan, finite,
}
use azienda.Governance.Policy.Risk.{score, risk_band, amount_of, RiskScoreRecord}
use azienda.Governance.Policy.Risk.Explained.{total, score-explained}
use azienda.Governance.Policy.Rules.{CompiledRule, validate_request, compile_rule, rule_matches}
use azienda.Governance.Policy.Engine.{
  Db, Env, evaluate, evaluate_dry_run, evaluate_as, smuggled, cost_estimate, load_rules,
  first_match, verdict,
}
use azienda.Governance.Policy.Engine.Gates.{Permits, Agrees, allow_iff, dry_run-Agrees}

abbrev spelled : Value → String
spelled (text s) = s
spelled _ = ""

-- in units of 1/10000
abbrev in_units : ℤ → ℤ
in_units (pos n) = pos (n * 10000)
in_units (negsuc n) = negsuc (n * 10000 + 9999)

-- `float` overflows from 2 ^ 1024 on; of the texts these know "nan" alone
abbrev to_float : Value → Conversion Real
to_float (num n) = if leb_ℤ (pos (2 ^ 1024)) n then overflows else converted (finite (in_units n))
to_float (text s) = if str_eq s "nan" then converted nan else refused
to_float _ = refused

abbrev to_decimal : Value → Option Real
to_decimal (num n) = some (finite (in_units n))
to_decimal (text s) = if str_eq s "nan" then some nan else none
to_decimal _ = none

abbrev to_int : Value → Conversion ℤ
to_int (num n) = converted n
to_int _ = refused

-- patterns here are plain names or the star alone
abbrev python : Python
python = record {
  fnmatch = λ name pattern. str_eq pattern "*" || str_eq name pattern;
  str = spelled;
  strip = λ s. s;
  lower = λ s. s;
  float = to_float;
  decimal = to_decimal;
  int = to_int;
  to_dict = λ v. none;
  equal = λ a b. str_eq (spelled a) (spelled b);
  json_len = λ d. some 2;
  uuid_text = λ n. "t";
}

abbrev env : Env
env = record {
  py = python;
  settings = record {
    risk_low_max = 30;
    risk_high_min = 70;
    approval_ttl_seconds = 900;
    approval_medium_require = true;
    cost_approval_threshold = pos 50000;
  };
  now = 100;
  fresh = 9;
}

abbrev rule : String → ℕ → String → Value
rule effect priority pattern = dict (
    field "name" (text pattern) (
      field "effect" (text effect) (
        field "priority" (num (pos priority))
          (field "condition" (dict (field "action" (text pattern) end)) end))))

abbrev db : Db
db = record {
  policies =
      record {
        id = 3;
        tenant_id = 7;
        rules = cons (rule "allow" 10 "*") (cons (rule "deny" 20 "crm.wipe") nil);
        is_active = true;
        priority = pos 100;
      }
      ∷ [];
  risk_scores = [];
  approvals = record { approvals = []; events = [] };
}

abbrev call : String → Fields → ActionRequest
call action args = record {
  tenant = record { tenant_id = 7; user_id = some 41; agent_id = none; roles = [] };
  action = action;
  resource = none;
  args = args;
  risk_context = end;
  idempotency_key = none;
}

allows_a_read : (evaluate env (call "crm.read" end) db).0.effect ≡ allow
unfolding evaluate_as load_rules first_match score risk_band validate_request compile_rule
    rule_matches smuggled cost_estimate
allows_a_read = refl

denies_a_wipe : (evaluate env (call "crm.wipe" end) db).0.effect ≡ deny
unfolding evaluate_as load_rules first_match score risk_band validate_request compile_rule
    rule_matches smuggled cost_estimate
denies_a_wipe = refl

denies_another_tenant :
    (evaluate env (call "crm.read" (field "tenant_id" (text "u") end)) db).0.effect ≡ deny
unfolding evaluate_as load_rules first_match score risk_band validate_request compile_rule
    rule_matches smuggled cost_estimate
denies_another_tenant = refl

-- the comparison of an amount that is NaN raises, and so does the conversion of a large estimate
denies_not_a_number :
    (evaluate env (call "crm.read" (field "amount" (text "nan") end)) db).0.effect ≡ deny
unfolding evaluate_as load_rules first_match score risk_band validate_request compile_rule
    rule_matches smuggled cost_estimate
denies_not_a_number = refl

denies_an_overflow :
    (evaluate env (call "crm.read" (field "estimated_cost" (num (pos (2 ^ 1024))) end)) db).0.effect
    ≡ deny
unfolding evaluate_as load_rules first_match score risk_band validate_request compile_rule
    rule_matches smuggled cost_estimate
denies_an_overflow = refl

no_amount : amount_of python end ≡ finite (pos 0)
unfolding amount_of
no_amount = refl

score-explained_example :
    (risk : RiskScore) × (written : RiskScoreRecord) × (score python (call "crm.delete" end)
      ≡ some (risk, written))
    × (risk.score ≡ min 100 (total risk.factors))
    × (written.score ≡ risk.score)
    × (written.factors ≡ risk.factors)
score-explained_example = score-explained python (call "crm.delete" end) (pos 0) no_amount

allow_iff_example :
    let req = call "crm.read" end in
    ((evaluate_as env false req db).0.effect ≡ allow) ↔ (
      (validate_request python req ≡ none)
      × (r : RiskScore × RiskScoreRecord) × (score python req ≡ some r)
      × (smuggled python req ≡ none)
      × (c : ℤ) × (cost_estimate python req ≡ some c)
      × (c ≤ℤ pos 50000)
      × Permits env (risk_band r.0.score env.settings) (verdict env req r.0.score db))
allow_iff_example = allow_iff env false (call "crm.read" end) db

dry_run-Agrees_example :
    let req = call "crm.delete" end in
    Agrees (evaluate_dry_run env req db).0 (evaluate env req db).0
    × ((evaluate_dry_run env req db).1.approvals ≡ db.approvals)
    × ((evaluate_dry_run env req db).1.policies ≡ db.policies)
dry_run-Agrees_example = dry_run-Agrees env (call "crm.delete" end) db

abbrev wipe_rule : CompiledRule
wipe_rule = record {
  name = "crm.wipe";
  effect = deny;
  priority = pos 20;
  condition = field "action" (text "crm.wipe") end;
  obligations = end;
  reason = "";
  policy_id = some 3;
}

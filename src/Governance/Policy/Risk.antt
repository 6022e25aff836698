-- ===== src/Governance/Policy/Risk.antt =====
-- backend/app/governance/policy/risk.py. All points are whole, so the score is a number; a Decimal
-- amount and a float count in units of 1/10000.
pub mod Explained
use Prim.Native.Char.{code}
use Prim.Native.String
use Prim.Native.Nat.{min}
use mathlib.Core.Option
use azienda.Base.{
  ℕ, ◌+◌, ◌≤◌, ◌≡◌, refl, String, Bool, true, false, ◌&&◌, ◌||◌, not, Option, none, some, List, [],
  ◌∷◌, ◌++◌, arith, str_eq, leb, ◌==◌, if◌then◌else◌, any, or_else, select, all,
}
use azienda.Base.Int.{ℤ, pos, leb_ℤ, ltb_ℤ}
use azienda.Contracts.{
  TenantId, Value, flag, num, real, text, Fields, get, get_or, null, Factor, Band, low, medium,
  high, ActionRequest, RiskScore, Python, Real, nan, finite,
}

-- the fields of `Settings` that governance reads; thresholds in whole points
pub record Settings : Type 0 where
  pub risk_low_max : ℕ
  pub risk_high_min : ℕ
  pub approval_ttl_seconds : ℕ
  pub approval_medium_require : Bool
  pub cost_approval_threshold : ℤ

pub record Keyword : Type 0 where
  pub word : String
  pub points : ℕ
  pub factor : String
  pub reversible : Bool

abbrev kw : String → ℕ → String → Bool → Keyword
kw w p f r = record { word = w; points = p; factor = f; reversible = r }

abbrev pub destructive : List Keyword
destructive =
    kw "delete" 35 "destructive:delete" false
    ∷ kw "destroy" 35 "destructive:destroy" false
    ∷ kw "drop" 35 "destructive:drop" false
    ∷ kw "terminate" 30 "destructive:terminate" false
    ∷ kw "revoke" 25 "destructive:revoke" false
    ∷ []

abbrev pub bulk : List Keyword
bulk =
    kw "bulk" 20 "bulk-operation" true
    ∷ kw "mass" 20 "bulk-operation" true
    ∷ kw "all_" 15 "broad-scope" true
    ∷ []

abbrev pub external : List Keyword
external =
    kw "send" 15 "externally-visible:send" true
    ∷ kw "publish" 15 "externally-visible:publish" true
    ∷ kw "post" 10 "externally-visible:post" true
    ∷ kw "email" 12 "externally-visible:email" true
    ∷ kw "sms" 12 "externally-visible:sms" true
    ∷ []

abbrev pub financial : List Keyword
financial =
    kw "pay" 25 "financial" true
    ∷ kw "refund" 30 "financial:refund" false
    ∷ kw "invoice" 20 "financial:invoice" true
    ∷ kw "transfer" 30 "financial:transfer" false
    ∷ kw "payout" 30 "financial:payout" false
    ∷ kw "charge" 25 "financial:charge" true
    ∷ kw "billing" 15 "financial:billing" true
    ∷ []

abbrev pub data_access : List Keyword
data_access =
    kw "export" 15 "data:export" true
    ∷ kw "pii" 15 "data:pii" true
    ∷ kw "permission" 40 "security:permission-change" false
    ∷ kw "role" 25 "security:role-change" true
    ∷ kw "secret" 30 "security:secret-access" true
    ∷ []

unfoldable pub risk_band : ℕ → Settings → Band
risk_band score settings =
    if leb settings.risk_high_min score
    then high
    else if leb settings.risk_low_max score
    then medium
    else low

-- `_Accumulator`
pub record Accumulator : Type 0 where
  pub score : ℕ
  pub factors : List Factor
  pub reversible : Bool
  pub financial_impact : ℤ

pub add : ℕ → Factor → Bool → Accumulator → Accumulator
add points factor reversible acc = record acc {
  score = acc.score + points;
  factors = acc.factors ++ factor ∷ [];
  reversible = if reversible then acc.reversible else false;
}

abbrev pub starts_with : String → String → Bool
starts_with s String.[] = true
starts_with String.[] (String.◌∷◌ d w) = false
starts_with (String.◌∷◌ c s) (String.◌∷◌ d w) = code c == code d && starts_with s w

-- `keyword in hay`
abbrev pub occurs : String → String → Bool
occurs word String.[] = starts_with String.[] word
occurs word (String.◌∷◌ c rest) = starts_with (String.◌∷◌ c rest) word || occurs word rest

abbrev pub plain : String → Factor
plain s = record { label = s; detail = none }

abbrev pub valued : String → Value → Factor
valued s v = record { label = s; detail = some v }

pub score_keywords : String → List Keyword → Accumulator → Accumulator
unfolding add
score_keywords hay [] acc = acc
score_keywords hay (k ∷ ks) acc =
    score_keywords hay ks
      (if occurs k.word hay then add k.points (plain k.factor) k.reversible acc else acc)

abbrev pub tables : List (List Keyword)
tables = destructive ∷ bulk ∷ external ∷ financial ∷ data_access ∷ []

pub score_tables : String → List (List Keyword) → Accumulator → Accumulator
unfolding score_keywords
score_tables hay [] acc = acc
score_tables hay (t ∷ ts) acc = score_tables hay ts (score_keywords hay t acc)

abbrev pub haystack : Python → String → Option String → String
haystack py action resource = py.lower (String.◌++◌ action (String.◌++◌ " " (or_else resource "")))

pub score_action_text : Python → String → Option String → Accumulator → Accumulator
unfolding score_tables
score_action_text py action resource = score_tables (haystack py action resource) tables

-- the amount in the arguments, or zero where there is none or it is no decimal
unfoldable pub amount_of : Python → Fields → Real
amount_of py args = elim (get_or "amount_usd" args (get_or "amount" args null)) [
  | null ↦ finite (pos 0)
  | v ↦ or_else (py.decimal v) (finite (pos 0))
]

abbrev impact : ℤ → Accumulator → Accumulator
impact amt acc =
    if leb_ℤ (pos 10000000) amt
    then add 20 (valued "financial-impact:>=1000usd" (real amt)) false acc
    else if leb_ℤ (pos 1000000) amt
    then add 10 (valued "financial-impact:>=100usd" (real amt)) true acc
    else acc

-- `_score_financials`; `none` where `amt > 0` raises InvalidOperation, since the amount is NaN
pub score_financials : Python → ActionRequest → Accumulator → Option Accumulator
unfolding add amount_of
score_financials py request acc = elim (amount_of py request.args) [
  | nan ↦ none
  | finite amt ↦
      some (if ltb_ℤ (pos 0) amt then impact amt (record acc { financial_impact = amt }) else acc)
]

-- `in ("pii", "phi", "financial", "secret")`
abbrev sensitive : Value → Bool
sensitive (text s) = str_eq s "pii" || str_eq s "phi" || str_eq s "financial" || str_eq s "secret"
sensitive _ = false

abbrev score_sensitivity : Fields → Accumulator → Accumulator
score_sensitivity ctx acc =
    let v = get_or "data_sensitivity" ctx null in
    if sensitive v then add 15 (valued "data-sensitivity" v) true acc else acc

-- `isinstance(autonomy, int) and autonomy >= 4`; a `bool` is an `int` below 2
abbrev autonomy_points : Value → Accumulator → Accumulator
autonomy_points (num n) acc =
    if leb_ℤ (pos 4) n then add 10 (valued "high-autonomy" (num n)) true acc else acc
autonomy_points _ acc = acc

-- `ctx.get("reversible") is False`
abbrev irreversible_points : Value → Accumulator → Accumulator
irreversible_points (flag false) acc =
    add 10 (plain "explicitly-irreversible") true (record acc { reversible = false })
irreversible_points _ acc = acc

pub score_context : ActionRequest → Accumulator → Accumulator
unfolding add
score_context request acc =
    let ctx = request.risk_context in
    irreversible_points (get_or "reversible" ctx null)
      (autonomy_points (get_or "autonomy_level" ctx null) (score_sensitivity ctx acc))

pub record RiskScoreRecord : Type 0 where
  pub tenant_id : TenantId
  pub action : String
  pub resource : Option String
  pub score : ℕ
  pub factors : List Factor
  pub reversible : Bool
  pub financial_impact : ℤ

abbrev pub fresh_accumulator : Accumulator
fresh_accumulator = record { score = 0; factors = []; reversible = true; financial_impact = pos 0 }

-- the accumulator after the three passes
pub accumulate : Python → ActionRequest → Option Accumulator
unfolding score_action_text score_financials score_context
accumulate py request = Option.map (score_context request) (
    score_financials py request
      (score_action_text py request.action request.resource fresh_accumulator))

-- the score of an accumulator, and the row that is written for it
abbrev pub scored : ActionRequest → Accumulator → RiskScore × RiskScoreRecord
scored request acc =
    let final = min 100 acc.score in
    (
      record {
        score = final;
        factors = acc.factors;
        reversible = acc.reversible;
        financial_impact = acc.financial_impact;
      },
      record {
        tenant_id = request.tenant.tenant_id;
        action = request.action;
        resource = request.resource;
        score = final;
        factors = acc.factors;
        reversible = acc.reversible;
        financial_impact = acc.financial_impact;
      },
    )

-- `RiskScorerImpl.score`; `none` where it raises, and then no row is written
unfoldable pub score : Python → ActionRequest → Option (RiskScore × RiskScoreRecord)
unfolding accumulate
score py request = Option.map (scored request) (accumulate py request)

-- ===== src/Contracts.antt =====
-- backend/app/core/contracts.py: the types that the packages exchange. A uuid is only compared,
-- so it is a number; a datetime is a count of microseconds; a JSON value is `Value`.
use azienda.Base.{
  ℕ, zero, suc, String, Bool, true, false, not, Option, none, some, List, [], ◌∷◌, str_eq,
  if◌then◌else◌,
}
use azienda.Base.Int.{ℤ, pos}

abbrev pub TenantId : Type 0
TenantId = ℕ

abbrev pub Uuid : Type 0
Uuid = ℕ

abbrev pub Time : Type 0
Time = ℕ

pub record TenantContext : Type 0 where
  pub tenant_id : TenantId
  pub user_id : Option Uuid
  pub agent_id : Option Uuid
  pub roles : List String

-- `tenant.user_id or tenant.agent_id or "system"`
pub data Actor : Type 0 where
  user agent : Uuid → Actor
  system : Actor

-- `num` is an int, `real` another number in units of 1/10000
mutual
  pub data Value : Type 0 where
    null : Value
    flag : Bool → Value
    num : ℤ → Value
    real : ℤ → Value
    text : String → Value
    items : Items → Value
    dict : Fields → Value

  pub data Items : Type 0 where
    nil : Items
    cons : Value → Items → Items

  pub data Fields : Type 0 where
    end : Fields
    field : String → Value → Fields → Fields

-- `d.get(key)`
abbrev pub get : String → Fields → Option Value
get k end = none
get k (field j v rest) = if str_eq j k then some v else get k rest

pub data PolicyEffect : Type 0 where
  allow deny require_approval : PolicyEffect

-- a label of the risk score, with the value that the source formats into it
pub record Factor : Type 0 where
  pub label : String
  pub detail : Option Value

pub data Band : Type 0 where
  low medium high : Band

-- a message of a decision, one constructor for each format string
pub data Reason : Type 0 where
  malformed : String → Reason
  cross_tenant : (key : String) (smuggled : Value) → Reason
  cost : (estimate threshold : ℤ) → Reason
  matched_rule : (name : String) (priority : ℤ) → Reason
  note : String → Reason
  risk : Factor → Reason
  default_band : Band → ℕ → Reason
  eval_error : Reason

pub record ActionRequest : Type 0 where
  pub tenant : TenantContext
  pub action : String
  pub resource : Option String
  pub args : Fields
  pub risk_context : Fields
  pub idempotency_key : Option String

pub record PolicyDecision : Type 0 where
  pub effect : PolicyEffect
  pub policy_id : Option Uuid
  pub reasons : List Reason
  pub approval_id : Option Uuid
  pub obligations : Fields

pub record RiskScore : Type 0 where
  pub score : ℕ
  pub factors : List Factor
  pub reversible : Bool
  pub financial_impact : ℤ

pub data ApprovalStatus : Type 0 where
  pending approved denied expired : ApprovalStatus

pub record Approval : Type 0 where
  pub approval_id : Uuid
  pub tenant_id : TenantId
  pub action : ActionRequest
  pub status : ApprovalStatus
  pub requested_by : Actor
  pub decided_by : Option Uuid
  pub expires_at : Time
  pub risk_score : ℕ
  pub risk_factors : List Factor
  pub reasons : List Reason

-- `bool(v)`
abbrev pub truthy : Value → Bool
truthy null = false
truthy (flag b) = b
truthy (num (pos zero)) = false
truthy (real (pos zero)) = false
truthy (text s) = not (str_eq s "")
truthy (items nil) = false
truthy (dict end) = false
truthy _ = true

abbrev pub to_list : Items → List Value
to_list nil = []
to_list (cons v rest) = v ∷ to_list rest

-- `list(d)`: the keys, and `len(d)`
abbrev pub keys : Fields → List Value
keys end = []
keys (field k _ rest) = text k ∷ keys rest

abbrev pub size : Fields → ℕ
size end = 0
size (field _ _ rest) = suc (size rest)

-- `d.get(key, fallback)`
abbrev pub get_or : String → Fields → Value → Value
get_or key d fallback = elim (get key d) [ none ↦ fallback | some v ↦ v ]

-- What a conversion gives: it raises TypeError or ValueError, another exception, or gives a number.
pub data Conversion (A : Type 0) : Type 0 where
  refused overflows : Conversion A
  converted : A → Conversion A

-- A `float` or a `Decimal`: NaN, or a number in units of 1/10000.
pub data Real : Type 0 where
  nan : Real
  finite : ℤ → Real

-- What the code takes from Python: `fnmatch(name, pattern)`, `str(v)`, `str.strip`, `str.lower`,
-- `float(v)`, `Decimal(str(v))` (`none` where it raises) and `int(v)`, `dict(v)` (`none` where it
-- raises), `==`, the length of `json.dumps`, and the text of a uuid. An infinity is a number beyond
-- those that it is compared with.
pub record Python : Type 0 where
  pub fnmatch : String → String → Bool
  pub str : Value → String
  pub strip : String → String
  pub lower : String → String
  pub float : Value → Conversion Real
  pub decimal : Value → Option Real
  pub int : Value → Conversion ℤ
  pub to_dict : Value → Option Fields
  pub equal : Value → Value → Bool
  pub json_len : Fields → Option ℕ
  pub uuid_text : Uuid → String

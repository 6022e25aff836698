-- ===== src/Finance/Policy.antt =====
-- backend/app/finance/service.py: the errors of FinanceService, `_enforce_policy` and `_emit`. The
-- policy engine and the NEXORA seam are interfaces of the service, and so parameters.
use azienda.Base.{
  ℕ, String, Bool, Option, none, some, List, [], ◌∷◌, ◌++◌, if◌then◌else◌, Exec, raise, pure,
  modify, gets, or_raise, ◌>>=◌,
}
use azienda.Contracts.{
  Uuid, Time, TenantContext, Fields, ActionRequest, PolicyDecision, allow, deny, require_approval,
  Reason, note,
}
use azienda.Finance.{
  InvoiceStatus, Invoice, Payment, Customer, Expense, Repo, invoice_row, customer_row, expense_row,
}

pub data FinanceError : Type 0 where
  not_found : (entity : String) → Uuid → FinanceError
  invoice_state : InvoiceStatus → FinanceError
  immutable : InvoiceStatus → FinanceError
  overpayment : (amount balance : ℕ) → FinanceError
  synced_already : FinanceError
  denied : List Reason → FinanceError

-- `engine` is None where there is no policy engine; a call of it that raises answers None.
-- `push_invoice` and `push_payment` give the reference where NEXORA has acknowledged.
pub record Env : Type 0 where
  pub engine : Option (ActionRequest → Option PolicyDecision)
  pub push_invoice : Invoice → Option String
  pub push_payment : Payment → Option String
  pub amount_text : ℕ → String
  pub uuid_text : Uuid → String
  pub upper : String → String
  pub lower : String → String
  pub strip : String → String
  pub has_bus : Bool
  pub now : Time
  pub year : ℕ
  pub fresh : Uuid

abbrev pub M : Type 0 → Type 0
M A = Exec Repo FinanceError A

abbrev refusal : PolicyDecision → Option (List Reason)
refusal d = elim d.effect [
  | allow ↦ none
  | deny ↦ some d.reasons
  | require_approval ↦ some (note "human approval required for this financial action" ∷ [])
]

-- why a financial action is refused: `none` lets it through
unfoldable pub refused : Env → ActionRequest → Option (List Reason)
refused env request = elim env.engine [
  | none ↦ some (note "no policy engine configured — refusing financial mutation" ∷ [])
  | some evaluate ↦ elim (evaluate request) [
    | none ↦ some (note "policy evaluation failed" ∷ [])
    | some d ↦ refusal d
  ]
]

-- `_enforce_policy`
abbrev pub enforce_policy : Env → ActionRequest → M (Unit {0})
enforce_policy env request = elim (refused env request) [
  | none ↦ pure tt
  | some reasons ↦ raise (denied reasons)
]

abbrev pub request :
    TenantContext
    → (action : String) → (resource : String) → (args risk_context : Fields) → ActionRequest
request tenant action resource args risk_context = record {
  tenant = tenant;
  action = action;
  resource = some resource;
  args = args;
  risk_context = risk_context;
  idempotency_key = none;
}

-- `_emit`
abbrev pub emit : Env → TenantContext → String → Uuid → M (Unit {0})
emit env tenant topic id = modify (λ r.
    if env.has_bus
    then record r {
      events =
          r.events
          ++ record { topic = topic; tenant_id = tenant.tenant_id; aggregate_id = id } ∷ [];
    }
    else r)

-- `get_invoice`, `get_customer` and `get_expense`
abbrev pub get_invoice : TenantContext → Uuid → M Invoice
get_invoice tenant id =
    gets (invoice_row tenant.tenant_id id) >>= λ o. or_raise o (not_found "invoice" id)

abbrev pub get_customer : TenantContext → Uuid → M Customer
get_customer tenant id =
    gets (customer_row tenant.tenant_id id) >>= λ o. or_raise o (not_found "customer" id)

abbrev pub get_expense : TenantContext → Uuid → M Expense
get_expense tenant id =
    gets (expense_row tenant.tenant_id id) >>= λ o. or_raise o (not_found "expense" id)

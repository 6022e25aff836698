-- ===== src/Finance.antt =====
-- backend/app/finance: the rows of schemas.py and `class InMemoryFinanceRepository` of repository.py.
-- A Decimal is exact and, as its schema demands, not negative: a quantity and a price count in units
-- of 1/10000, all other amounts in units of their product, 10^-8. A dict is the list of its rows in
-- the order of their insertion. Fields that nothing reads (created_at, org_id, receipt_ref) are left out.
pub mod Policy
pub mod Invoices
pub mod Books
pub mod Records
pub mod Service
pub mod Reports
pub mod Anomalies
use azienda.Base.{
  ℕ, suc, ◌+◌, String, Bool, true, false, ◌&&◌, Option, none, some, List, [], ◌∷◌, ◌++◌, str_eq,
  ◌==◌, if◌then◌else◌, select, find, any, update_where,
}
use azienda.Contracts.{TenantId, Uuid, Time}

pub data InvoiceStatus : Type 0 where
  draft issued paid overdue voided cancelled : InvoiceStatus

pub record Customer : Type 0 where
  pub id : Uuid
  pub tenant_id : TenantId
  pub name : String
  pub email : Option String

pub record InvoiceLine : Type 0 where
  pub description : String
  pub quantity : ℕ
  pub unit_price : ℕ

-- `number` is the year and the sequence number that "INV-{year}-{seq:04d}" spells
pub record Invoice : Type 0 where
  pub id : Uuid
  pub tenant_id : TenantId
  pub number : ℕ × ℕ
  pub customer_id : Uuid
  pub lines : List InvoiceLine
  pub amount : ℕ
  pub currency : String
  pub status : InvoiceStatus
  pub issued_at : Option Time
  pub due_at : Option Time
  pub paid_at : Option Time
  pub balance_due : ℕ
  pub nexora_ref : Option String
  pub void_reason : Option String
  pub created_by : Option Uuid
  pub updated_at : Time

pub record Payment : Type 0 where
  pub id : Uuid
  pub tenant_id : TenantId
  pub invoice_id : Uuid
  pub amount : ℕ
  pub method : String
  pub received_at : Time
  pub nexora_ref : Option String

pub record Expense : Type 0 where
  pub id : Uuid
  pub tenant_id : TenantId
  pub category : String
  pub amount : ℕ
  pub currency : String
  pub vendor : Option String
  pub description : Option String
  pub incurred_at : Time
  pub nexora_ref : Option String

pub data AccountType : Type 0 where
  asset liability equity revenue expense : AccountType

pub record Account : Type 0 where
  pub id : Uuid
  pub tenant_id : TenantId
  pub code : String
  pub name : String
  pub kind : AccountType

pub data Direction : Type 0 where
  debit credit : Direction

pub record Transaction : Type 0 where
  pub id : Uuid
  pub tenant_id : TenantId
  pub account_id : Uuid
  pub amount : ℕ
  pub kind : Direction
  pub reverses_id : Option Uuid
  pub posted_at : Time

-- `approval_pending` is the only status that a reminder is made with
pub record CollectionReminder : Type 0 where
  pub id : Uuid
  pub tenant_id : TenantId
  pub invoice_id : Uuid
  pub created_by : Option Uuid

pub record Event : Type 0 where
  pub topic : String
  pub tenant_id : TenantId
  pub aggregate_id : Uuid

-- a key of `_payment_idem` with its payment, and a key of `_invoice_seq` with its number
pub record PaymentKey : Type 0 where
  pub tenant_id : TenantId
  pub key : String
  pub payment_id : Uuid

pub record YearSeq : Type 0 where
  pub tenant_id : TenantId
  pub year : ℕ
  pub seq : ℕ

pub record Repo : Type 0 where
  pub customers : List Customer
  pub invoices : List Invoice
  pub payments : List Payment
  pub payment_idem : List PaymentKey
  pub expenses : List Expense
  pub accounts : List Account
  pub transactions : List Transaction
  pub reminders : List CollectionReminder
  pub invoice_seq : List YearSeq
  pub events : List Event

-- `d[key] = row`: rows with the key are replaced in place, or the row comes last
abbrev pub put : {A : Type 0} → (same : A → Bool) → A → List A → List A
put same row rows = if any same rows then update_where same (λ _. row) rows else rows ++ row ∷ []

-- the key `(tenant_id, id)`
abbrev pub keyed : TenantId → Uuid → TenantId → Uuid → Bool
keyed t i t' i' = t' == t && i' == i

abbrev pub is_customer : TenantId → Uuid → Customer → Bool
is_customer t i c = keyed t i c.tenant_id c.id

abbrev pub is_invoice : TenantId → Uuid → Invoice → Bool
is_invoice t i v = keyed t i v.tenant_id v.id

abbrev pub is_payment : TenantId → Uuid → Payment → Bool
is_payment t i p = keyed t i p.tenant_id p.id

abbrev pub is_expense : TenantId → Uuid → Expense → Bool
is_expense t i e = keyed t i e.tenant_id e.id

abbrev pub is_account : TenantId → Uuid → Account → Bool
is_account t i a = keyed t i a.tenant_id a.id

abbrev pub put_customer : Customer → Repo → Repo
put_customer c r = record r { customers = put (is_customer c.tenant_id c.id) c r.customers }

-- `add_invoice` and `update_invoice`
abbrev pub put_invoice : Invoice → Repo → Repo
put_invoice v r = record r { invoices = put (is_invoice v.tenant_id v.id) v r.invoices }

abbrev pub put_payment : Payment → Repo → Repo
put_payment p r = record r { payments = put (is_payment p.tenant_id p.id) p r.payments }

-- `add_expense` and `update_expense`
abbrev pub put_expense : Expense → Repo → Repo
put_expense e r = record r { expenses = put (is_expense e.tenant_id e.id) e r.expenses }

abbrev pub put_account : Account → Repo → Repo
put_account a r = record r { accounts = put (is_account a.tenant_id a.id) a r.accounts }

abbrev pub put_transaction : Transaction → Repo → Repo
put_transaction t r = record r {
  transactions = put (λ x. keyed t.tenant_id t.id x.tenant_id x.id) t r.transactions;
}

-- `add_reminder` and `update_reminder`
abbrev pub put_reminder : CollectionReminder → Repo → Repo
put_reminder m r = record r {
  reminders = put (λ x. keyed m.tenant_id m.id x.tenant_id x.id) m r.reminders;
}

-- `next_invoice_number`
abbrev is_year : TenantId → ℕ → YearSeq → Bool
is_year t year s = s.tenant_id == t && s.year == year

abbrev last_seq : Option YearSeq → ℕ
last_seq none = 0
last_seq (some s) = s.seq

unfoldable pub next_invoice_number : TenantId → ℕ → Repo → (ℕ × ℕ) × Repo
next_invoice_number t year r =
    let seq = last_seq (find (is_year t year) r.invoice_seq) + 1 in
    let row : YearSeq = record { tenant_id = t; year = year; seq = seq } in
    ((year, seq), record r { invoice_seq = put (is_year t year) row r.invoice_seq })

-- `get_payment_by_idempotency` and `register_payment_idempotency`
abbrev pub is_key : TenantId → String → PaymentKey → Bool
is_key t k x = x.tenant_id == t && str_eq x.key k

abbrev pub payment_by_key : TenantId → String → Repo → Option Payment
payment_by_key t k r = elim (find (is_key t k) r.payment_idem) [
  | none ↦ none
  | some x ↦ find (is_payment t x.payment_id) r.payments
]

abbrev pub register_key : TenantId → String → Uuid → Repo → Repo
register_key t k p r = record r {
  payment_idem =
      put (is_key t k) (record { tenant_id = t; key = k; payment_id = p }) r.payment_idem;
}

abbrev pub customer_row : TenantId → Uuid → Repo → Option Customer
customer_row t i r = find (is_customer t i) r.customers

abbrev pub invoice_row : TenantId → Uuid → Repo → Option Invoice
invoice_row t i r = find (is_invoice t i) r.invoices

abbrev pub expense_row : TenantId → Uuid → Repo → Option Expense
expense_row t i r = find (is_expense t i) r.expenses

-- `list_customers`, `list_invoices`, `list_payments`, `list_expenses`, `list_transactions`: a filter
-- that is None lets every row through
abbrev pub if_given : Option Uuid → Uuid → Bool
if_given none x = true
if_given (some i) x = x == i

abbrev status_text : InvoiceStatus → String
status_text draft = "draft"
status_text issued = "issued"
status_text paid = "paid"
status_text overdue = "overdue"
status_text voided = "voided"
status_text cancelled = "cancelled"

abbrev has_status : Option String → InvoiceStatus → Bool
has_status none s = true
has_status (some f) s = str_eq (status_text s) f

pub list_customers : TenantId → Repo → List Customer
list_customers t r = select (λ c. c.tenant_id == t) r.customers

unfoldable pub list_invoices : TenantId → Option String → Option Uuid → Repo → List Invoice
list_invoices t status customer r =
    select (λ v. v.tenant_id == t && has_status status v.status && if_given customer v.customer_id)
      r.invoices

pub list_payments : TenantId → Option Uuid → Repo → List Payment
list_payments t invoice r =
    select (λ p. p.tenant_id == t && if_given invoice p.invoice_id) r.payments

pub list_expenses : TenantId → Repo → List Expense
list_expenses t r = select (λ e. e.tenant_id == t) r.expenses

pub list_transactions : TenantId → Option Uuid → Repo → List Transaction
list_transactions t account r =
    select (λ x. x.tenant_id == t && if_given account x.account_id) r.transactions

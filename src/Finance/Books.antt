-- ===== src/Finance/Books.antt =====
-- backend/app/finance/service.py, as its own comment describes it: the lifecycle of an invoice and
-- what may happen to the invoices and the payments, without the order of the code's steps, its
-- events, keys and sequence numbers.
pub mod Balance
pub mod Distinct
pub mod Frozen
use azienda.Base.{
  String, if◌then◌else◌, ℕ, ◌+◌, ◌≤◌, ◌≡◌, ◌⊎◌, Bool, true, false, ◌&&◌, Option, none, some, List,
  [], ◌∷◌, ◌==◌, ltb, find, any,
}
use azienda.Contracts.{TenantId, Uuid}
use azienda.Finance.{
  InvoiceStatus, draft, issued, paid, overdue, voided, cancelled, InvoiceLine, Invoice, Payment,
  Repo, put, keyed, is_invoice, is_payment,
}
use azienda.Finance.Invoices.{invoice_amount, is_open}

pub record Books : Type 0 where
  pub invoices : List Invoice
  pub payments : List Payment

-- the abstraction: what of a repository the books keep
abbrev pub books : Repo → Books
books r = record { invoices = r.invoices; payments = r.payments }

-- what an issued invoice says
pub record Terms : Type 0 where
  pub id : Uuid
  pub tenant_id : TenantId
  pub number : ℕ × ℕ
  pub customer_id : Uuid
  pub lines : List InvoiceLine
  pub amount : ℕ
  pub currency : String

abbrev pub terms : Invoice → Terms
terms v = record {
  id = v.id;
  tenant_id = v.tenant_id;
  number = v.number;
  customer_id = v.customer_id;
  lines = v.lines;
  amount = v.amount;
  currency = v.currency;
}

abbrev pub IsDraftFor : Invoice → Type 0
IsDraftFor v = (v.status ≡ draft) × (v.balance_due ≡ v.amount) × (v.amount ≡ invoice_amount v.lines)

-- the arrows of the lifecycle, and the changes that leave the status as it is
pub data Moves (v v' : Invoice) : Type 0 where
  edits : v.status ≡ draft → IsDraftFor v' → v'.tenant_id ≡ v.tenant_id → v'.id ≡ v.id → Moves v v'
  keeps : v'.status ≡ v.status → terms v' ≡ terms v → v'.balance_due ≡ v.balance_due → Moves v v'
  issues :
      v.status ≡ draft
      → v'.status ≡ issued
      → terms v' ≡ terms v
      → v'.balance_due ≡ v.balance_due
      → Moves v v'
  cancels :
      v.status ≡ draft
      → v'.status ≡ cancelled
      → terms v' ≡ terms v
      → v'.balance_due ≡ v.balance_due
      → Moves v v'
  lapses :
      v.status ≡ issued
      → v'.status ≡ overdue
      → terms v' ≡ terms v
      → v'.balance_due ≡ v.balance_due
      → Moves v v'
  voids :
      is_open v.status ≡ true
      → v'.status ≡ voided
      → terms v' ≡ terms v
      → v'.balance_due ≡ 0
      → Moves v v'

-- the status after a payment
abbrev pub after_payment : InvoiceStatus → (balance : ℕ) → InvoiceStatus
after_payment s balance = if ltb 0 balance then s else paid

-- an invoice after a payment of `amount`
pub record Receives (amount : ℕ) (v v' : Invoice) : Type 0 where
  pub was_open : is_open v.status ≡ true
  pub same_terms : terms v' ≡ terms v
  pub settles : v'.balance_due + amount ≡ v.balance_due
  pub closes : v'.status ≡ after_payment v.status v'.balance_due

abbrev pub put_row : Invoice → Books → Books
put_row v b = record b { invoices = put (is_invoice v.tenant_id v.id) v b.invoices }

abbrev pub add_payment : Payment → Books → Books
add_payment p b = record b { payments = put (is_payment p.tenant_id p.id) p b.payments }

abbrev pub row : Invoice → Books → Option Invoice
row v b = find (is_invoice v.tenant_id v.id) b.invoices

-- no payment has this id, and none is for this invoice
abbrev pub IsNewPayment : TenantId → Uuid → List Payment → Type 0
IsNewPayment t i ps = any (is_payment t i) ps ≡ false

abbrev pub IsUnpaid : TenantId → Uuid → List Payment → Type 0
IsUnpaid t i ps = any (λ p. keyed t i p.tenant_id p.invoice_id) ps ≡ false

pub data Change (b : Books) : Books → Type 0 where
  opens :
      (v : Invoice)
      → any (is_invoice v.tenant_id v.id) b.invoices ≡ false
      → IsUnpaid v.tenant_id v.id b.payments
      → IsDraftFor v
      → Change b (put_row v b)
  moves : (v v' : Invoice) → row v b ≡ some v → Moves v v' → Change b (put_row v' b)
  receives :
      (v v' : Invoice) (p : Payment)
      → row v b ≡ some v
      → IsNewPayment p.tenant_id p.id b.payments
      → p.tenant_id ≡ v.tenant_id
      → p.invoice_id ≡ v.id
      → Receives p.amount v v'
      → Change b (put_row v' (add_payment p b))

pub data Changes (b : Books) : Books → Type 0 where
  here : Changes b b
  next : {c d : Books} → Changes b c → Change c d → Changes b d

pub Changes-trans : {b c d : Books} → Changes b c → Changes c d → Changes b d
Changes-trans before here = before
Changes-trans before (next after change) = next (Changes-trans before after) change

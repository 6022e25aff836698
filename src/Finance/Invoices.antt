-- ===== src/Finance/Invoices.antt =====
-- backend/app/finance/service.py: invoices and payments of `FinanceService`.
pub mod Refines
pub mod Sweep
pub mod Receipts
use azienda.Base.{
  ℕ, ◌+◌, ◌-◌, ◌*◌, String, Bool, true, false, ◌&&◌, ◌||◌, not, Option, none, some, List, [], ◌∷◌,
  ◌++◌, str_eq, str_append, ltb, leb, ◌==◌, if◌then◌else◌, length, select, Exec, Result, ok, err,
  pure, raise, raise_if, or_raise, gets, modify, ◌>>=◌, ◌>>◌, or_else,
}
use azienda.Contracts.{
  TenantId, Uuid, Time, TenantContext, ActionRequest, Value, null, flag, text, Fields, end, field,
}
use azienda.Finance.{
  InvoiceStatus, draft, issued, paid, overdue, voided, cancelled, InvoiceLine, Invoice, Payment,
  Repo, Event, put_invoice, put_payment, next_invoice_number, payment_by_key, register_key,
  list_invoices, customer_row,
}
use azienda.Finance.Policy.{
  FinanceError, not_found, invoice_state, immutable, overpayment, Env, M, enforce_policy, request,
  emit, get_invoice, get_customer,
}

-- `_invoice_amount`
unfoldable pub invoice_amount : List InvoiceLine → ℕ
invoice_amount [] = 0
invoice_amount (l ∷ ls) = l.quantity * l.unit_price + invoice_amount ls

abbrev pub is_draft : InvoiceStatus → Bool
is_draft draft = true
is_draft _ = false

-- `status in (ISSUED, OVERDUE)`
abbrev pub is_open : InvoiceStatus → Bool
is_open issued = true
is_open overdue = true
is_open _ = false

abbrev pub is_issued : InvoiceStatus → Bool
is_issued issued = true
is_issued _ = false

abbrev pub new_invoice :
    Env → TenantContext → Uuid → List InvoiceLine → String → Option Time → ℕ × ℕ → Invoice
new_invoice env tenant customer_id lines currency due_at number = record {
  id = env.fresh;
  tenant_id = tenant.tenant_id;
  number = number;
  customer_id = customer_id;
  lines = lines;
  amount = invoice_amount lines;
  currency = env.upper currency;
  status = draft;
  issued_at = none;
  due_at = due_at;
  paid_at = none;
  balance_due = invoice_amount lines;
  nexora_ref = none;
  void_reason = none;
  created_by = tenant.user_id;
  updated_at = env.now;
}

abbrev next_number : Env → TenantContext → M (ℕ × ℕ)
next_number env tenant r =
    let (n, r') = next_invoice_number tenant.tenant_id env.year r in (ok n, r')

-- `create_invoice`
unfoldable pub create_invoice :
    Env → TenantContext → Uuid → List InvoiceLine → String → Option Time → M Invoice
create_invoice env tenant customer_id lines currency due_at =
    get_customer tenant customer_id
    >> (next_number env tenant >>= λ number.
        let v = new_invoice env tenant customer_id lines currency due_at number in
        modify (put_invoice v) >> emit env tenant "finance.invoice.created" v.id >> pure v)

abbrev pub edited : Env → Option (List InvoiceLine) → Option Time → Invoice → Invoice
edited env lines due_at v =
    let v' : Invoice = elim lines [
      | none ↦ v
      | some ls ↦ record v {
        lines = ls;
        amount = invoice_amount ls;
        balance_due = invoice_amount ls;
      }
    ] in
    record v' { due_at = elim due_at [ none ↦ v.due_at | some d ↦ some d ]; updated_at = env.now }

-- `update_invoice`
pub update_invoice :
    Env → TenantContext → Uuid → Option (List InvoiceLine) → Option Time → M Invoice
update_invoice env tenant id lines due_at = get_invoice tenant id >>= λ v.
    raise_if (not (is_draft v.status)) (immutable v.status)
    >> modify (put_invoice (edited env lines due_at v))
    >> pure (edited env lines due_at v)

abbrev pub invoice_ref : Env → Uuid → String
invoice_ref env id = str_append "invoice:" (env.uuid_text id)

abbrev pub id_arg : Env → Uuid → Fields → Fields
id_arg env id rest = field "invoice_id" (text (env.uuid_text id)) rest

abbrev pub amount_arg : Env → ℕ → Fields → Fields
amount_arg env a rest = field "amount" (text (env.amount_text a)) rest

-- what each operation asks the policy engine
abbrev pub issue_request : Env → TenantContext → Invoice → ActionRequest
issue_request env tenant v =
    request tenant "finance.invoice.issue" (invoice_ref env v.id)
      (id_arg env v.id (amount_arg env v.amount end))
      (field "financial" (flag true) (field "reversible" (flag false) end))

abbrev pub cancel_request : Env → TenantContext → Invoice → ActionRequest
cancel_request env tenant v =
    request tenant "finance.invoice.cancel" (invoice_ref env v.id) (id_arg env v.id end)
      (field "reversible" (flag false) end)

abbrev pub void_request : Env → TenantContext → String → Invoice → ActionRequest
void_request env tenant reason v =
    request tenant "finance.invoice.void" (invoice_ref env v.id)
      (id_arg env v.id (field "reason" (text reason) end))
      (field "financial" (flag true)
        (field "reversible" (flag false) (field "destructive" (flag true) end)))

abbrev pub payment_request :
    Env → TenantContext → Invoice → (amount : ℕ) (method : String) → ActionRequest
payment_request env tenant v amount method =
    request tenant "finance.payment.record" (invoice_ref env v.id)
      (id_arg env v.id (amount_arg env amount (field "method" (text method) end)))
      (field "financial" (flag true) (field "reversible" (flag false) end))

-- the reference that NEXORA has acknowledged
abbrev pub acknowledged : Option String → Invoice → Invoice
acknowledged none v = v
acknowledged (some ref) v = record v { nexora_ref = some ref }

abbrev pub issue : Env → Invoice → Invoice
issue env v = record v { status = issued; issued_at = some env.now; updated_at = env.now }

-- `issue_invoice`
unfoldable pub issue_invoice : Env → TenantContext → Uuid → M Invoice
issue_invoice env tenant id = get_invoice tenant id >>= λ v.
    let v' = issue env v in
    let v'' = acknowledged (env.push_invoice v') v' in
    raise_if (not (is_draft v.status)) (invoice_state v.status)
    >> enforce_policy env (issue_request env tenant v)
    >> modify (put_invoice v')
    >> modify (put_invoice v'')
    >> emit env tenant "finance.invoice.issued" v.id
    >> pure v''

abbrev pub cancel : Env → Invoice → Invoice
cancel env v = record v { status = cancelled; updated_at = env.now }

-- `cancel_invoice`
unfoldable pub cancel_invoice : Env → TenantContext → Uuid → M Invoice
cancel_invoice env tenant id = get_invoice tenant id >>= λ v.
    raise_if (not (is_draft v.status)) (invoice_state v.status)
    >> enforce_policy env (cancel_request env tenant v)
    >> modify (put_invoice (cancel env v))
    >> emit env tenant "finance.invoice.cancelled" v.id
    >> pure (cancel env v)

abbrev pub void : Env → String → Invoice → Invoice
void env reason v = record v {
  status = voided;
  void_reason = some reason;
  balance_due = 0;
  updated_at = env.now;
}

-- `void_invoice`; the answer of `nexora.void_invoice` is not read
unfoldable pub void_invoice : Env → TenantContext → Uuid → (reason : String) → M Invoice
void_invoice env tenant id reason = get_invoice tenant id >>= λ v.
    raise_if (not (is_open v.status)) (invoice_state v.status)
    >> enforce_policy env (void_request env tenant reason v)
    >> modify (put_invoice (void env reason v))
    >> emit env tenant "finance.invoice.voided" v.id
    >> pure (void env reason v)

abbrev pub is_past_due : Time → Invoice → Bool
is_past_due now v =
    is_issued v.status
    && (elim v.due_at [ none ↦ false | some d ↦ ltb d now ])
    && ltb 0 v.balance_due

abbrev pub lapse : Env → Invoice → Invoice
lapse env v = record v { status = overdue; updated_at = env.now }

-- the loop of `mark_overdue`, over the invoices that were listed
unfoldable pub mark_all : Env → TenantContext → Time → List Invoice → Repo → Repo
mark_all env tenant now [] r = r
mark_all env tenant now (v ∷ vs) r = mark_all env tenant now vs (
    if is_past_due now v
    then (emit env tenant "finance.invoice.overdue" v.id (put_invoice (lapse env v) r)).1
    else r)

-- `mark_overdue`
unfoldable pub mark_overdue : Env → TenantContext → Option Time → Repo → ℕ × Repo
mark_overdue env tenant now r =
    let at = or_else now env.now in
    let listed = list_invoices tenant.tenant_id none none r in
    (length (select (is_past_due at) listed), mark_all env tenant at listed r)

pub record PaymentCreate : Type 0 where
  pub amount : ℕ
  pub method : String
  pub received_at : Option Time
  pub idempotency_key : Option String

abbrev pub new_payment : Env → TenantContext → Uuid → PaymentCreate → Payment
new_payment env tenant invoice_id d = record {
  id = env.fresh;
  tenant_id = tenant.tenant_id;
  invoice_id = invoice_id;
  amount = d.amount;
  method = d.method;
  received_at = or_else d.received_at env.now;
  nexora_ref = none;
}

-- `if data.idempotency_key`
abbrev pub with_key : Option String → (String → Repo → Repo) → Repo → Repo
with_key none f r = r
with_key (some k) f r = if str_eq k "" then r else f k r

abbrev pub replay : TenantContext → Option String → Repo → Option Payment
replay tenant none r = none
replay tenant (some k) r = if str_eq k "" then none else payment_by_key tenant.tenant_id k r

-- what a payment leaves of an invoice; `data.amount` is not above the balance here
abbrev pub settled : Env → ℕ → Invoice → Invoice
settled env amount v =
    let balance = v.balance_due - amount in
    if leb balance 0
    then record v {
      balance_due = balance;
      updated_at = env.now;
      status = paid;
      paid_at = some env.now;
    }
    else record v { balance_due = balance; updated_at = env.now }

abbrev pub acknowledged_payment : Option String → Payment → Payment
acknowledged_payment none p = p
acknowledged_payment (some ref) p = record p { nexora_ref = some ref }

-- `record_payment` after the invoice was found in a state that takes payments
unfoldable pub take_payment : Env → TenantContext → Invoice → PaymentCreate → M Payment
take_payment env tenant v d =
    let p = new_payment env tenant v.id d in
    raise_if (ltb v.balance_due d.amount) (overpayment d.amount v.balance_due)
    >> enforce_policy env (payment_request env tenant v d.amount d.method)
    >> modify (put_payment p)
    >> modify (with_key d.idempotency_key (λ k. register_key tenant.tenant_id k p.id))
    >> modify (put_invoice (settled env d.amount v))
    >> emit env tenant "finance.payment.recorded" p.id
    >> pure (acknowledged_payment (env.push_payment p) p)

-- `record_payment`
unfoldable pub record_payment : Env → TenantContext → Uuid → PaymentCreate → M Payment
record_payment env tenant invoice_id d = get_invoice tenant invoice_id >>= λ v.
    raise_if (not (is_open v.status)) (invoice_state v.status)
    >> (gets (replay tenant d.idempotency_key) >>= λ existing. elim existing [
      | some p ↦ pure p
      | none ↦ take_payment env tenant v d
    ])

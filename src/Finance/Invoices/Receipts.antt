-- ===== src/Finance/Invoices/Receipts.antt =====
-- `create_invoice` opens an invoice, `record_payment` receives a payment on one.
use azienda.Base.{
  ℕ, ◌-◌, ◌≡◌, refl, sym, ap, subst, ◌∙◌, String, true, false, Option, none, some, List, arith, ltb,
  leb, inl, inr, Bool-cases, Option-cases, any, find_holds,
}
use azienda.Contracts.{TenantId, Uuid, Time, TenantContext}
use azienda.Finance.{
  InvoiceLine, Invoice, Repo, is_invoice, invoice_row, customer_row, next_invoice_number,
  put_invoice, put_payment, register_key,
}
use azienda.Finance.Policy.{Env, refused, enforce_policy}
use azienda.Finance.Invoices.{
  is_open, settled, new_invoice, create_invoice, PaymentCreate, new_payment, take_payment,
  record_payment, payment_request, with_key, replay,
}
use azienda.Finance.Invoices.Refines.{key_same_own, books-emit, invoice_row_own}
use azienda.Finance.Books.{
  Books, books, Receives, put_row, IsNewPayment, IsUnpaid, opens, receives, Changes, here, next,
  terms,
}

-- the id that `_new_id` gives is new
pub record Fresh (env : Env) (tenant : TenantContext) (b : Books) : Type 0 where
  pub invoice : any (is_invoice tenant.tenant_id env.fresh) b.invoices ≡ false
  pub payment : IsNewPayment tenant.tenant_id env.fresh b.payments
  pub unpaid : IsUnpaid tenant.tenant_id env.fresh b.payments

Receives-settled :
    (env : Env) (n : ℕ) (v : Invoice)
    → is_open v.status ≡ true
    → ltb v.balance_due n ≡ false
    → Receives n v (settled env n v)
Receives-settled env n v o enough = elim (Bool-cases (leb (v.balance_due - n) 0)) [
  | inl all_paid ↦
      rw all_paid
        (record { was_open = o; same_terms = refl; settles = ground arith; closes = ground arith })
  | inr more ↦
      rw more
        (record { was_open = o; same_terms = refl; settles = ground arith; closes = ground arith })
]

settled_key : (env : Env) (n : ℕ) (v : Invoice) → terms (settled env n v) ≡ terms v
settled_key env n v = elim (Bool-cases (leb (v.balance_due - n) 0)) [
  | inl e ↦ rw e refl
  | inr e ↦ rw e refl
]

books-with_key :
    (k : Option String) (t : TenantId) (i : Uuid) (r : Repo)
    → books (with_key k (λ k. register_key t k i) r) ≡ books r
books-with_key none t i r = refl
books-with_key (some k) t i r = ground arith

pub take_payment-Changes :
    (env : Env) (tenant : TenantContext) (id : Uuid) (v : Invoice) (d : PaymentCreate) (r : Repo)
    → Fresh env tenant (books r)
    → invoice_row tenant.tenant_id id r ≡ some v
    → v.tenant_id ≡ tenant.tenant_id
    → is_open v.status ≡ true
    → Changes (books r) (books (take_payment env tenant v d r).1)
unfolding take_payment
take_payment-Changes env tenant id v d r fresh found own o =
    elim (Bool-cases (ltb v.balance_due d.amount)) [
      | inl over ↦ rw (over, take_payment) here
      | inr enough ↦
          elim (Option-cases (refused env (payment_request env tenant v d.amount d.method))) [
            | inr (why, shut) ↦ rw (enough, enforce_policy, shut, take_payment) here
            | inl clear ↦
                let p = new_payment env tenant v.id d in
                let w = settled env d.amount v in
                let r' =
                  with_key d.idempotency_key (λ k. register_key tenant.tenant_id k p.id)
                    (put_payment p r) in
                let same =
                  books-emit env tenant "finance.payment.recorded" p.id (put_invoice w r')
                  ∙ ap (λ (b : Books). put_row w b)
                      (books-with_key d.idempotency_key tenant.tenant_id p.id (put_payment p r)) in
                rw (enough, enforce_policy, clear, take_payment)
                  (subst (λ c. Changes (books r) c) (sym same)
                    (next here (
                      receives v w p (invoice_row_own tenant.tenant_id id r v found) fresh.payment
                        (sym own) refl (Receives-settled env d.amount v o enough))))
          ]
    ]

pub record_payment-Changes :
    (env : Env) (tenant : TenantContext) (id : Uuid) (d : PaymentCreate) (r : Repo)
    → Fresh env tenant (books r)
    → Changes (books r) (books (record_payment env tenant id d r).1)
unfolding record_payment
record_payment-Changes env tenant id d r fresh =
    elim (Option-cases (invoice_row tenant.tenant_id id r)) [
      | inl missing ↦ rw (missing, record_payment) here
      | inr (v, found) ↦ elim (Bool-cases (is_open v.status)) [
        | inr closed ↦ rw (found, closed, record_payment) here
        | inl o ↦ elim (Option-cases (replay tenant d.idempotency_key r)) [
          | inr (p, again) ↦ rw (found, o, again, record_payment) here
          | inl once ↦
              rw (found, o, once, record_payment)
                (take_payment-Changes env tenant id v d r fresh found
                  (key_same_own tenant.tenant_id id v
                    (find_holds (is_invoice tenant.tenant_id id) r.invoices v found)).0
                  o)
        ]
      ]
    ]

pub create_invoice-Changes :
    (env : Env) (tenant : TenantContext) (customer : Uuid) (lines : List InvoiceLine)
    (currency : String) (due_at : Option Time) (r : Repo)
    → Fresh env tenant (books r)
    → Changes (books r) (books (create_invoice env tenant customer lines currency due_at r).1)
unfolding create_invoice next_invoice_number
create_invoice-Changes env tenant customer lines currency due_at r fresh =
    elim (Option-cases (customer_row tenant.tenant_id customer r)) [
      | inl missing ↦ rw (missing, create_invoice) here
      | inr (c, found) ↦
          rw (found, create_invoice)
            (subst (λ c. Changes (books r) c)
              (sym (books-emit env tenant "finance.invoice.created" env.fresh _))
              (next here (
                opens (new_invoice env tenant customer lines currency due_at _) fresh.invoice
                  fresh.unpaid (refl, refl, refl))))
    ]

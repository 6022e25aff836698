-- ===== src/Finance/Service/Closed.antt =====
-- Where the policy engine is absent, fails or refuses, a consequential call writes nothing.
use azienda.Base.{
  String, ◌≡◌, refl, Bool, true, false, some, List, inl, inr, Bool-cases, Option-cases, find, ltb,
}
use azienda.Contracts.{TenantContext, ActionRequest, Reason, Uuid}
use azienda.Finance.{Repo, Invoice, invoice_row, expense_row, customer_row, is_account}
use azienda.Finance.Policy.{Env, refused, enforce_policy}
use azienda.Finance.Invoices.{
  is_draft, is_open, issue_request, cancel_request, void_request, payment_request, issue_invoice,
  cancel_invoice, void_invoice, PaymentCreate, take_payment, record_payment, replay,
}
use azienda.Finance.Records.{
  is_text, delete_request, delete_expense, TransactionCreate, transaction_request,
  record_transaction, is_collectable, reminder_request, generate_collection_reminder,
}
use azienda.Finance.Service.{
  Call, create_customer_call, create_invoice_call, update_invoice_call, issue_invoice_call,
  cancel_invoice_call, void_invoice_call, mark_overdue_call, record_payment_call,
  record_expense_call, update_expense_call, delete_expense_call, create_account_call,
  record_transaction_call, reminder_call, run,
}

-- every action is refused
abbrev pub Shut : Env → Type 0
Shut env = (q : ActionRequest) → (why : List Reason) × (refused env q ≡ some why)

-- the calls that pass the policy engine
abbrev pub is_consequential : Call → Bool
is_consequential (issue_invoice_call _) = true
is_consequential (cancel_invoice_call _) = true
is_consequential (void_invoice_call _ _) = true
is_consequential (record_payment_call _ _) = true
is_consequential (delete_expense_call _) = true
is_consequential (record_transaction_call _) = true
is_consequential (reminder_call _) = true
is_consequential _ = false

module _ (env : Env) (tenant : TenantContext) (shut : Shut env) where
  issue_idle : (id : Uuid) (r : Repo) → (issue_invoice env tenant id r).1 ≡ r
  unfolding issue_invoice
  issue_idle id r = elim (Option-cases (invoice_row tenant.tenant_id id r)) [
    | inl missing ↦ rw (missing, issue_invoice) refl
    | inr (v, found) ↦ elim (Bool-cases (is_draft v.status)) [
      | inr later ↦ rw (found, later, issue_invoice) refl
      | inl d ↦
          rw (found, d, enforce_policy, (shut (issue_request env tenant v)).1, issue_invoice) refl
    ]
  ]

  cancel_idle : (id : Uuid) (r : Repo) → (cancel_invoice env tenant id r).1 ≡ r
  unfolding cancel_invoice
  cancel_idle id r = elim (Option-cases (invoice_row tenant.tenant_id id r)) [
    | inl missing ↦ rw (missing, cancel_invoice) refl
    | inr (v, found) ↦ elim (Bool-cases (is_draft v.status)) [
      | inr later ↦ rw (found, later, cancel_invoice) refl
      | inl d ↦
          rw (found, d, enforce_policy, (shut (cancel_request env tenant v)).1, cancel_invoice) refl
    ]
  ]

  void_idle : (id : Uuid) (reason : String) (r : Repo) → (void_invoice env tenant id reason r).1 ≡ r
  unfolding void_invoice
  void_idle id reason r = elim (Option-cases (invoice_row tenant.tenant_id id r)) [
    | inl missing ↦ rw (missing, void_invoice) refl
    | inr (v, found) ↦ elim (Bool-cases (is_open v.status)) [
      | inr closed ↦ rw (found, closed, void_invoice) refl
      | inl o ↦
          rw (found, o, enforce_policy, (shut (void_request env tenant reason v)).1, void_invoice)
            refl
    ]
  ]

  take_idle : (v : Invoice) (d : PaymentCreate) (r : Repo) → (take_payment env tenant v d r).1 ≡ r
  unfolding take_payment
  take_idle v d r = elim (Bool-cases (ltb v.balance_due d.amount)) [
    | inl over ↦ rw (over, take_payment) refl
    | inr enough ↦
        rw
          (
            enough,
            enforce_policy,
            (shut (payment_request env tenant v d.amount d.method)).1,
            take_payment,
          )
          refl
  ]

  payment_idle :
      (id : Uuid) (d : PaymentCreate) (r : Repo) → (record_payment env tenant id d r).1 ≡ r
  unfolding record_payment
  payment_idle id d r = elim (Option-cases (invoice_row tenant.tenant_id id r)) [
    | inl missing ↦ rw (missing, record_payment) refl
    | inr (v, found) ↦ elim (Bool-cases (is_open v.status)) [
      | inr closed ↦ rw (found, closed, record_payment) refl
      | inl o ↦ elim (Option-cases (replay tenant d.idempotency_key r)) [
        | inr (p, again) ↦ rw (found, o, again, record_payment) refl
        | inl once ↦ rw (found, o, once, record_payment) (take_idle v d r)
      ]
    ]
  ]

  delete_idle : (id : Uuid) (r : Repo) → (delete_expense env tenant id r).1 ≡ r
  unfolding delete_expense
  delete_idle id r = elim (Option-cases (expense_row tenant.tenant_id id r)) [
    | inl missing ↦ rw (missing, delete_expense) refl
    | inr (e, found) ↦ elim (Bool-cases (is_text e.nexora_ref)) [
      | inl synced ↦ rw (found, synced, delete_expense) refl
      | inr local ↦
          rw (found, local, enforce_policy, (shut (delete_request env tenant id)).1, delete_expense)
            refl
    ]
  ]

  transaction_idle : (d : TransactionCreate) (r : Repo) → (record_transaction env tenant d r).1 ≡ r
  unfolding record_transaction
  transaction_idle d r =
      elim (Option-cases (find (is_account tenant.tenant_id d.account_id) r.accounts)) [
        | inl missing ↦ rw (missing, record_transaction) refl
        | inr (a, found) ↦
            rw
              (
                found,
                enforce_policy,
                (shut (transaction_request env tenant d)).1,
                record_transaction,
              )
              refl
      ]

  reminder_idle : (id : Uuid) (r : Repo) → (generate_collection_reminder env tenant id r).1 ≡ r
  unfolding generate_collection_reminder
  reminder_idle id r = elim (Option-cases (invoice_row tenant.tenant_id id r)) [
    | inl missing ↦ rw (missing, generate_collection_reminder) refl
    | inr (v, found) ↦ elim (Bool-cases (is_collectable v)) [
      | inr closed ↦ rw (found, closed, generate_collection_reminder) refl
      | inl due ↦ elim (Option-cases (customer_row tenant.tenant_id v.customer_id r)) [
        | inl nobody ↦ rw (found, due, nobody, generate_collection_reminder) refl
        | inr (c, who) ↦
            rw
              (
                found,
                due,
                who,
                enforce_policy,
                (shut (reminder_request env tenant v)).1,
                generate_collection_reminder,
              )
              refl
      ]
    ]
  ]

  -- Where every action is refused, because there is no policy engine, because its evaluation
  -- raises or because it does not allow, a call that passes the engine leaves the whole repository as it was:
  -- issuing, cancelling, voiding, payments, deleting an expense, transactions and reminders. No
  -- reminder is parked then, against the docstring of `generate_collection_reminder`.
  pub shut_idle : (c : Call) (r : Repo) → is_consequential c ≡ true → run env tenant c r ≡ r
  unfolding run
  shut_idle (issue_invoice_call id) r h = issue_idle id r
  shut_idle (cancel_invoice_call id) r h = cancel_idle id r
  shut_idle (void_invoice_call id reason) r h = void_idle id reason r
  shut_idle (record_payment_call id d) r h = payment_idle id d r
  shut_idle (delete_expense_call id) r h = delete_idle id r
  shut_idle (record_transaction_call d) r h = transaction_idle d r
  shut_idle (reminder_call id) r h = reminder_idle id r
  shut_idle (create_customer_call _ _) r h = cc
  shut_idle (create_invoice_call _ _ _ _) r h = cc
  shut_idle (update_invoice_call _ _ _) r h = cc
  shut_idle (mark_overdue_call _) r h = cc
  shut_idle (record_expense_call _) r h = cc
  shut_idle (update_expense_call _ _) r h = cc
  shut_idle (create_account_call _ _ _) r h = cc

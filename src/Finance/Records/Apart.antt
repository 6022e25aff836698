-- ===== src/Finance/Records/Apart.antt =====
-- The operations of Records.antt leave invoices and payments alone.
use azienda.Base.{◌≡◌, refl, String, Option, inl, inr, Bool-cases, Option-cases, find}
use azienda.Contracts.{Uuid, TenantContext}
use azienda.Finance.{
  Repo, expense_row, invoice_row, customer_row, is_account, AccountType, put_expense,
  put_transaction, put_reminder,
}
use azienda.Finance.Policy.{Env, refused, enforce_policy}
use azienda.Finance.Invoices.Refines.{books-emit}
use azienda.Finance.Books.{books}
use azienda.Finance.Records.{
  create_customer, ExpenseCreate, new_expense, record_expense, ExpenseUpdate, update_expense,
  is_text, delete_request, delete_expense, create_account, TransactionCreate, transaction_request,
  new_transaction, record_transaction, is_collectable, reminder_request, new_reminder,
  generate_collection_reminder, remove_expense,
}

pub books-create_customer :
    (env : Env) (tenant : TenantContext) (name : String) (email : Option String) (r : Repo)
    → books (create_customer env tenant name email r).1 ≡ books r
unfolding create_customer
books-create_customer env tenant name email r = refl

pub books-create_account :
    (env : Env) (tenant : TenantContext) (code name : String) (kind : AccountType) (r : Repo)
    → books (create_account env tenant code name kind r).1 ≡ books r
unfolding create_account
books-create_account env tenant code name kind r = refl

pub books-record_expense :
    (env : Env) (tenant : TenantContext) (d : ExpenseCreate) (r : Repo)
    → books (record_expense env tenant d r).1 ≡ books r
unfolding record_expense
books-record_expense env tenant d r =
    books-emit env tenant "finance.expense.recorded" env.fresh
      (put_expense (new_expense env tenant d) r)

pub books-update_expense :
    (tenant : TenantContext) (id : Uuid) (d : ExpenseUpdate) (r : Repo)
    → books (update_expense tenant id d r).1 ≡ books r
unfolding update_expense
books-update_expense tenant id d r = elim (Option-cases (expense_row tenant.tenant_id id r)) [
  | inl missing ↦ rw (missing, update_expense) refl
  | inr (e, found) ↦ rw (found, update_expense) refl
]

pub books-delete_expense :
    (env : Env) (tenant : TenantContext) (id : Uuid) (r : Repo)
    → books (delete_expense env tenant id r).1 ≡ books r
unfolding delete_expense
books-delete_expense env tenant id r = elim (Option-cases (expense_row tenant.tenant_id id r)) [
  | inl missing ↦ rw (missing, delete_expense) refl
  | inr (e, found) ↦ elim (Bool-cases (is_text e.nexora_ref)) [
    | inl synced ↦ rw (found, synced, delete_expense) refl
    | inr local ↦ elim (Option-cases (refused env (delete_request env tenant id))) [
      | inr (why, shut) ↦ rw (found, local, enforce_policy, shut, delete_expense) refl
      | inl clear ↦
          rw (found, local, enforce_policy, clear, delete_expense)
            (books-emit env tenant "finance.expense.deleted" id
              (remove_expense tenant.tenant_id id r))
    ]
  ]
]

pub books-record_transaction :
    (env : Env) (tenant : TenantContext) (d : TransactionCreate) (r : Repo)
    → books (record_transaction env tenant d r).1 ≡ books r
unfolding record_transaction
books-record_transaction env tenant d r =
    elim (Option-cases (find (is_account tenant.tenant_id d.account_id) r.accounts)) [
      | inl missing ↦ rw (missing, record_transaction) refl
      | inr (a, found) ↦ elim (Option-cases (refused env (transaction_request env tenant d))) [
        | inr (why, shut) ↦ rw (found, enforce_policy, shut, record_transaction) refl
        | inl clear ↦
            rw (found, enforce_policy, clear, record_transaction)
              (books-emit env tenant "finance.transaction.recorded" env.fresh
                (put_transaction (new_transaction env tenant d) r))
      ]
    ]

pub books-generate_collection_reminder :
    (env : Env) (tenant : TenantContext) (id : Uuid) (r : Repo)
    → books (generate_collection_reminder env tenant id r).1 ≡ books r
unfolding generate_collection_reminder
books-generate_collection_reminder env tenant id r =
    elim (Option-cases (invoice_row tenant.tenant_id id r)) [
      | inl missing ↦ rw (missing, generate_collection_reminder) refl
      | inr (v, found) ↦ elim (Bool-cases (is_collectable v)) [
        | inr closed ↦ rw (found, closed, generate_collection_reminder) refl
        | inl due ↦ elim (Option-cases (customer_row tenant.tenant_id v.customer_id r)) [
          | inl nobody ↦ rw (found, due, nobody, generate_collection_reminder) refl
          | inr (c, who) ↦ elim (Option-cases (refused env (reminder_request env tenant v))) [
            | inr (why, shut) ↦
                rw (found, due, who, enforce_policy, shut, generate_collection_reminder) refl
            | inl clear ↦
                rw (found, due, who, enforce_policy, clear, generate_collection_reminder)
                  (books-emit env tenant "finance.collections.reminder.prepared" env.fresh
                    (put_reminder (new_reminder env tenant id) r))
          ]
        ]
      ]
    ]

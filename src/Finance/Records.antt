-- ===== src/Finance/Records.antt =====
-- backend/app/finance/service.py: customers, expenses, accounts, transactions, collection reminders
-- and the sync status of `FinanceService`.
pub mod Apart
use azienda.Base.{
  ℕ, String, Bool, true, false, ◌||◌, ◌&&◌, not, Option, none, some, List, [], ◌∷◌, ◌++◌, str_eq,
  str_append, ltb, ◌==◌, if◌then◌else◌, find, select, or_else, is_some, Exec, Result, ok, err, pure,
  raise, raise_if, or_raise, gets, modify, ◌>>=◌, ◌>>◌,
}
use azienda.Contracts.{
  TenantId, Uuid, Time, TenantContext, ActionRequest, Value, flag, text, Fields, end, field,
}
use azienda.Governance.Policy.Risk.{occurs}
use azienda.Finance.{
  InvoiceStatus, overdue, Customer, Invoice, Expense, AccountType, Account, Direction, debit,
  credit, Transaction, CollectionReminder, Repo, put_customer, put_expense, put_account,
  put_transaction, put_reminder, is_expense, is_account,
}
use azienda.Finance.Policy.{
  FinanceError, not_found, invoice_state, synced_already, Env, M, enforce_policy, request, emit,
  get_invoice, get_customer, get_expense,
}
use azienda.Finance.Invoices.{amount_arg, id_arg, invoice_ref}

-- `create_customer`
unfoldable pub create_customer :
    Env → TenantContext → (name : String) (email : Option String) → M Customer
create_customer env tenant name email =
    let c : Customer = record {
      id = env.fresh;
      tenant_id = tenant.tenant_id;
      name = name;
      email = email;
    } in
    modify (put_customer c) >> pure c

pub record ExpenseCreate : Type 0 where
  pub category : String
  pub amount : ℕ
  pub currency : String
  pub vendor : Option String
  pub description : Option String
  pub incurred_at : Option Time

abbrev pub new_expense : Env → TenantContext → ExpenseCreate → Expense
new_expense env tenant d = record {
  id = env.fresh;
  tenant_id = tenant.tenant_id;
  category = d.category;
  amount = d.amount;
  currency = env.upper d.currency;
  vendor = d.vendor;
  description = d.description;
  incurred_at = or_else d.incurred_at env.now;
  nexora_ref = none;
}

-- `record_expense`; the answer of `push_expense` is not read
pub record_expense : Env → TenantContext → ExpenseCreate → M Expense
record_expense env tenant d =
    let e = new_expense env tenant d in
    modify (put_expense e) >> emit env tenant "finance.expense.recorded" e.id >> pure e

pub record ExpenseUpdate : Type 0 where
  pub category : Option String
  pub amount : Option ℕ
  pub vendor : Option String
  pub description : Option String
  pub incurred_at : Option Time

abbrev or_kept : {A : Type 0} → Option A → Option A → Option A
or_kept none old = old
or_kept (some a) old = some a

abbrev pub patched_expense : ExpenseUpdate → Expense → Expense
patched_expense d e = record e {
  category = or_else d.category e.category;
  amount = or_else d.amount e.amount;
  vendor = or_kept d.vendor e.vendor;
  description = or_kept d.description e.description;
  incurred_at = or_else d.incurred_at e.incurred_at;
}

-- `update_expense`
pub update_expense : TenantContext → Uuid → ExpenseUpdate → M Expense
update_expense tenant id d = get_expense tenant id >>= λ e.
    modify (put_expense (patched_expense d e)) >> pure (patched_expense d e)

-- `if expense.nexora_ref`
abbrev pub is_text : Option String → Bool
is_text none = false
is_text (some s) = not (str_eq s "")

abbrev pub remove_expense : TenantId → Uuid → Repo → Repo
remove_expense t i r = record r { expenses = select (λ e. not (is_expense t i e)) r.expenses }

abbrev pub delete_request : Env → TenantContext → Uuid → ActionRequest
delete_request env tenant id =
    request tenant "finance.expense.delete" (str_append "expense:" (env.uuid_text id))
      (field "expense_id" (text (env.uuid_text id)) end)
      (field "financial" (flag true) (field "reversible" (flag false) end))

-- `delete_expense`
unfoldable pub delete_expense : Env → TenantContext → Uuid → M (Unit {0})
delete_expense env tenant id = get_expense tenant id >>= λ e.
    raise_if (is_text e.nexora_ref) synced_already
    >> enforce_policy env (delete_request env tenant id)
    >> modify (remove_expense tenant.tenant_id id)
    >> emit env tenant "finance.expense.deleted" id

-- `_CATEGORY_KEYWORDS`
abbrev category_keywords : List (String × List String)
category_keywords =
    ("travel", "airline" ∷ "flight" ∷ "hotel" ∷ "uber" ∷ "lyft" ∷ "taxi" ∷ "airbnb" ∷ [])
    ∷ ("meals", "restaurant" ∷ "coffee" ∷ "lunch" ∷ "dinner" ∷ "catering" ∷ "doordash" ∷ [])
    ∷ ("software", "saas" ∷ "subscription" ∷ "license" ∷ "github" ∷ "aws" ∷ "openai" ∷ [])
    ∷ ("office", "supplies" ∷ "furniture" ∷ "printer" ∷ "paper" ∷ "desk" ∷ [])
    ∷ ("utilities", "electric" ∷ "water" ∷ "internet" ∷ "phone" ∷ "gas" ∷ [])
    ∷ []

-- a category and the keyword that matched: the confidence is medium with one and low without
pub record CategorySuggestion : Type 0 where
  pub suggested_category : String
  pub matched_keyword : Option String

pub suggest_in : String → List (String × List String) → CategorySuggestion
suggest_in hay [] = record { suggested_category = "other"; matched_keyword = none }
suggest_in hay ((category, words) ∷ rest) =
    let later = suggest_in hay rest in
    elim (find (λ w. occurs w hay) words) [
      | none ↦ later
      | some w ↦ record { suggested_category = category; matched_keyword = some w }
    ]

-- `suggest_category`
pub suggest_category : Env → (vendor description : Option String) → CategorySuggestion
suggest_category env vendor description =
    suggest_in
      (env.lower (str_append (or_else vendor "") (str_append " " (or_else description ""))))
      category_keywords

-- `create_account` and `list_accounts`
pub create_account : Env → TenantContext → (code name : String) → AccountType → M Account
create_account env tenant code name kind =
    let a : Account = record {
      id = env.fresh;
      tenant_id = tenant.tenant_id;
      code = code;
      name = name;
      kind = kind;
    } in
    modify (put_account a) >> pure a

pub list_accounts : TenantId → Repo → List Account
list_accounts t r = select (λ a. a.tenant_id == t) r.accounts

pub record TransactionCreate : Type 0 where
  pub account_id : Uuid
  pub amount : ℕ
  pub kind : Direction
  pub reverses_id : Option Uuid

abbrev direction_text : Direction → String
direction_text debit = "debit"
direction_text credit = "credit"

abbrev pub transaction_request : Env → TenantContext → TransactionCreate → ActionRequest
transaction_request env tenant d =
    request tenant "finance.transaction.record" (str_append "account:" (env.uuid_text d.account_id))
      (field "account_id" (text (env.uuid_text d.account_id))
        (amount_arg env d.amount (field "kind" (text (direction_text d.kind)) end)))
      (field "financial" (flag true) (field "reversible" (flag false) end))

abbrev pub new_transaction : Env → TenantContext → TransactionCreate → Transaction
new_transaction env tenant d = record {
  id = env.fresh;
  tenant_id = tenant.tenant_id;
  account_id = d.account_id;
  amount = d.amount;
  kind = d.kind;
  reverses_id = d.reverses_id;
  posted_at = env.now;
}

-- `record_transaction`
unfoldable pub record_transaction : Env → TenantContext → TransactionCreate → M Transaction
record_transaction env tenant d =
    let t = new_transaction env tenant d in
    (gets (λ r. find (is_account tenant.tenant_id d.account_id) r.accounts) >>= λ o.
    or_raise o (not_found "account" d.account_id))
    >> enforce_policy env (transaction_request env tenant d)
    >> modify (put_transaction t)
    >> emit env tenant "finance.transaction.recorded" t.id
    >> pure t

abbrev is_overdue : InvoiceStatus → Bool
is_overdue overdue = true
is_overdue _ = false

-- an overdue invoice with something left to pay
abbrev pub is_collectable : Invoice → Bool
is_collectable v = is_overdue v.status && ltb 0 v.balance_due

abbrev pub reminder_request : Env → TenantContext → Invoice → ActionRequest
reminder_request env tenant v =
    request tenant "finance.collections.reminder.generate" (invoice_ref env v.id)
      (id_arg env v.id (amount_arg env v.balance_due end))
      (field "financial" (flag true)
        (field "externally_visible" (flag true) (field "reversible" (flag false) end)))

abbrev pub new_reminder : Env → TenantContext → Uuid → CollectionReminder
new_reminder env tenant invoice_id = record {
  id = env.fresh;
  tenant_id = tenant.tenant_id;
  invoice_id = invoice_id;
  created_by = tenant.user_id;
}

-- `generate_collection_reminder`, without the text of its body
unfoldable pub generate_collection_reminder : Env → TenantContext → Uuid → M CollectionReminder
generate_collection_reminder env tenant invoice_id = get_invoice tenant invoice_id >>= λ v.
    let m = new_reminder env tenant invoice_id in
    raise_if (not (is_collectable v)) (invoice_state v.status)
    >> get_customer tenant v.customer_id
    >> enforce_policy env (reminder_request env tenant v)
    >> modify (put_reminder m)
    >> emit env tenant "finance.collections.reminder.prepared" m.id
    >> pure m

-- `nexora_status`: whether the record was acknowledged, and its reference
pub nexora_status : TenantContext → (record_type : String) → Uuid → M (Bool × Option String)
nexora_status tenant record_type id =
    if str_eq record_type "invoice"
    then (get_invoice tenant id >>= λ v. pure (is_text v.nexora_ref, v.nexora_ref))
    else if str_eq record_type "expense"
    then (get_expense tenant id >>= λ e. pure (is_text e.nexora_ref, e.nexora_ref))
    else raise (not_found record_type id)

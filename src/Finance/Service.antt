-- ===== src/Finance/Service.antt =====
-- backend/app/finance/service.py: the calls that write, and the repositories that sequences of them reach.
pub mod Closed
pub mod Retry
mod Tests
use azienda.Base.{
  ℕ, ◌≡◌, refl, sym, ap, subst, ◌∙◌, String, Bool, true, false, Option, none, some, List, [], ◌∷◌,
  find,
}
use azienda.Contracts.{TenantId, Uuid, Time, TenantContext}
use azienda.Finance.{InvoiceLine, Invoice, AccountType, Repo, is_invoice}
use azienda.Finance.Policy.{Env}
use azienda.Finance.Invoices.{
  is_draft, create_invoice, update_invoice, issue_invoice, cancel_invoice, void_invoice,
  mark_overdue, PaymentCreate, record_payment,
}
use azienda.Finance.Invoices.Refines.{
  update_invoice-Changes, issue_invoice-Changes, cancel_invoice-Changes, void_invoice-Changes,
}
use azienda.Finance.Invoices.Sweep.{mark_overdue-Changes}
use azienda.Finance.Invoices.Receipts.{Fresh, create_invoice-Changes, record_payment-Changes}
use azienda.Finance.Books.{Books, books, Changes, here, next, Changes-trans}
use azienda.Finance.Books.Balance.{IsBalanced, Changes-IsBalanced}
use azienda.Finance.Books.Distinct.{Distinct, Changes-Distinct}
use azienda.Finance.Books.Frozen.{Keeps, Holds-Changes}
use azienda.Finance.Records.{
  create_customer, ExpenseCreate, record_expense, ExpenseUpdate, update_expense, delete_expense,
  create_account, TransactionCreate, record_transaction, generate_collection_reminder,
}
use azienda.Finance.Records.Apart.{
  books-create_customer, books-create_account, books-record_expense, books-update_expense,
  books-delete_expense, books-record_transaction, books-generate_collection_reminder,
}

pub data Call : Type 0 where
  create_customer_call : (name : String) (email : Option String) → Call
  create_invoice_call :
      (customer_id : Uuid) → List InvoiceLine → (currency : String) → Option Time → Call
  update_invoice_call : Uuid → Option (List InvoiceLine) → Option Time → Call
  issue_invoice_call : Uuid → Call
  cancel_invoice_call : Uuid → Call
  void_invoice_call : Uuid → (reason : String) → Call
  mark_overdue_call : Option Time → Call
  record_payment_call : Uuid → PaymentCreate → Call
  record_expense_call : ExpenseCreate → Call
  update_expense_call : Uuid → ExpenseUpdate → Call
  delete_expense_call : Uuid → Call
  create_account_call : (code name : String) → AccountType → Call
  record_transaction_call : TransactionCreate → Call
  reminder_call : Uuid → Call

-- the repository after a call, whether it raised or not
pub run : Env → TenantContext → Call → Repo → Repo
run env tenant (create_customer_call name email) r = (create_customer env tenant name email r).1
run env tenant (create_invoice_call c ls cur due) r = (create_invoice env tenant c ls cur due r).1
run env tenant (update_invoice_call id ls due) r = (update_invoice env tenant id ls due r).1
run env tenant (issue_invoice_call id) r = (issue_invoice env tenant id r).1
run env tenant (cancel_invoice_call id) r = (cancel_invoice env tenant id r).1
run env tenant (void_invoice_call id reason) r = (void_invoice env tenant id reason r).1
run env tenant (mark_overdue_call now) r = (mark_overdue env tenant now r).1
run env tenant (record_payment_call id d) r = (record_payment env tenant id d r).1
run env tenant (record_expense_call d) r = (record_expense env tenant d r).1
run env tenant (update_expense_call id d) r = (update_expense tenant id d r).1
run env tenant (delete_expense_call id) r = (delete_expense env tenant id r).1
run env tenant (create_account_call code name kind) r =
    (create_account env tenant code name kind r).1
run env tenant (record_transaction_call d) r = (record_transaction env tenant d r).1
run env tenant (reminder_call id) r = (generate_collection_reminder env tenant id r).1

-- a call that leaves the books as they are
idle : {b c : Books} → c ≡ b → Changes b c
idle {b} e = subst (λ c. Changes b c) (sym e) here

run-Changes :
    (env : Env) (tenant : TenantContext) (call : Call) (r : Repo)
    → Distinct r.invoices
    → Fresh env tenant (books r)
    → Changes (books r) (books (run env tenant call r))
unfolding run
run-Changes env tenant (create_customer_call name email) r d f =
    idle (books-create_customer env tenant name email r)
run-Changes env tenant (create_invoice_call c ls cur due) r d f =
    create_invoice-Changes env tenant c ls cur due r f
run-Changes env tenant (update_invoice_call id ls due) r d f =
    update_invoice-Changes env tenant id ls due r
run-Changes env tenant (issue_invoice_call id) r d f = issue_invoice-Changes env tenant id r
run-Changes env tenant (cancel_invoice_call id) r d f = cancel_invoice-Changes env tenant id r
run-Changes env tenant (void_invoice_call id reason) r d f =
    void_invoice-Changes env tenant id reason r
run-Changes env tenant (mark_overdue_call now) r d f = mark_overdue-Changes env tenant now r d
run-Changes env tenant (record_payment_call id p) r d f = record_payment-Changes env tenant id p r f
run-Changes env tenant (record_expense_call e) r d f = idle (books-record_expense env tenant e r)
run-Changes env tenant (update_expense_call id e) r d f = idle (books-update_expense tenant id e r)
run-Changes env tenant (delete_expense_call id) r d f = idle (books-delete_expense env tenant id r)
run-Changes env tenant (create_account_call code name kind) r d f =
    idle (books-create_account env tenant code name kind r)
run-Changes env tenant (record_transaction_call t) r d f =
    idle (books-record_transaction env tenant t r)
run-Changes env tenant (reminder_call id) r d f =
    idle (books-generate_collection_reminder env tenant id r)

-- what calls reach from `s`, each with its own environment and a new id
pub data Reach (s : Repo) : Repo → Type 0 where
  start : Reach s s
  call :
      {r : Repo}
      → Reach s r
      → (env : Env) (tenant : TenantContext) (c : Call) → Fresh env tenant (books r)
      → Reach s (run env tenant c r)

abbrev pub empty : Repo
empty = record {
  customers = [];
  invoices = [];
  payments = [];
  payment_idem = [];
  expenses = [];
  accounts = [];
  transactions = [];
  reminders = [];
  invoice_seq = [];
  events = [];
}

reached : {s r : Repo} → Distinct s.invoices → Reach s r → Changes (books s) (books r)
reached d start = here
reached d (call {r} before env tenant c fresh) =
    let changes = reached d before in
    Changes-trans changes (run-Changes env tenant c r (Changes-Distinct changes d) fresh)

-- Whatever sequence of calls reaches a repository from an empty one, each with a new id: the
-- changes of the books on the way, the arrows of the lifecycle and payments of at most the
-- balance, lead from empty books to its books.
pub Reach-Changes : {r : Repo} → Reach empty r → Changes (books empty) (books r)
Reach-Changes h = reached tt h

-- In a repository that calls reach from an empty one, each with a new id, every invoice adds up: a draft or a cancelled
-- one has no payments and its whole amount as balance, an issued or overdue one a balance that
-- makes its amount with the sum of its payments, a paid one no balance and payments of its amount, and a voided one no
-- balance and payments of at most its amount.
pub Reach-IsBalanced : {r : Repo} → Reach empty r → IsBalanced (books r)
Reach-IsBalanced h = Changes-IsBalanced (Reach-Changes h) tt

-- An invoice that is no draft, in a repository that calls reach from an empty one, is still found
-- after any further calls, is no draft, and says what it said: number, customer, lines, amount and currency; where
-- it was paid, voided or cancelled, its status and its balance are as they were.
pub Reach-Keeps :
    {r s : Repo} (t : TenantId) (i : Uuid) (v : Invoice)
    → Reach empty r
    → find (is_invoice t i) r.invoices ≡ some v
    → is_draft v.status ≡ false
    → Reach r s
    → (v' : Invoice) × (find (is_invoice t i) s.invoices ≡ some v') × Keeps v v'
Reach-Keeps t i v before found no_draft after =
    Holds-Changes t i v (reached (Changes-Distinct (reached tt before) tt) after) no_draft found

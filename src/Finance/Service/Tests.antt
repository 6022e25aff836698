-- ===== src/Finance/Service/Tests.antt =====
-- An invoice of two lines that is issued, paid in two payments and sent again, in an empty repository.
use azienda.Base.{
  ℕ, ◌*◌, ◌≡◌, refl, true, Option, none, some, List, [], ◌∷◌, select, length, find, ◌-◌, ok, err,
}
use azienda.Contracts.{TenantContext, PolicyEffect, end, PolicyDecision, allow, deny, Uuid}
use azienda.Finance.{
  Repo, Invoice, InvoiceLine, InvoiceStatus, overdue, paid, invoice_row, Payment, is_invoice,
  next_invoice_number, list_invoices,
}
use azienda.Finance.Policy.{Env, refused, invoice_state}
use azienda.Finance.Invoices.{
  PaymentCreate, record_payment, create_invoice, issue_invoice, take_payment, invoice_amount,
  mark_overdue, mark_all, is_open, issue, new_invoice, new_payment, settled,
}
use azienda.Finance.Records.{create_customer}
use azienda.Finance.Books.{books, Changes}
use azienda.Finance.Books.Balance.{IsBalanced}
use azienda.Finance.Books.Frozen.{Keeps}
use azienda.Finance.Reports.{tenant_aging, is_unpaid, sum_by}
use azienda.Finance.Reports.Totals.{balance, count_of, tenant_aging_lem}
use azienda.Finance.Service.{
  create_customer_call, create_invoice_call, issue_invoice_call, record_payment_call,
  mark_overdue_call, run, Reach, start, call, empty, Reach-Changes, Reach-IsBalanced, Reach-Keeps,
}
use azienda.Finance.Service.Closed.{Shut, shut_idle}
use azienda.Finance.Service.Retry.{retry_replays}

abbrev alice : TenantContext
alice = record { tenant_id = 1; user_id = some 10; agent_id = none; roles = [] }

abbrev decision : PolicyEffect → PolicyDecision
decision e = record {
  effect = e;
  policy_id = none;
  reasons = [];
  approval_id = none;
  obligations = end;
}

abbrev env : Uuid → Env
env i = record {
  engine = some (λ q. some (decision allow));
  push_invoice = λ v. some "ref";
  push_payment = λ p. none;
  amount_text = λ n. "amount";
  uuid_text = λ n. "id";
  upper = λ s. s;
  lower = λ s. s;
  strip = λ s. s;
  has_bus = true;
  now = 100 * i;
  year = 2026;
  fresh = i;
}

abbrev lines : List InvoiceLine
lines =
    record { description = "hours"; quantity = 20000; unit_price = 300000 }
    ∷ record { description = "fee"; quantity = 10000; unit_price = 10000 }
    ∷ []

abbrev payment : ℕ → PaymentCreate
payment n = record { amount = n; method = "card"; received_at = none; idempotency_key = some "k" }

abbrev r1 : Repo
r1 = run (env 1) alice (create_customer_call "Ada" none) empty

abbrev r2 : Repo
r2 = run (env 2) alice (create_invoice_call 1 lines "usd" (some 150)) r1

abbrev r3 : Repo
r3 = run (env 3) alice (issue_invoice_call 2) r2

abbrev r4 : Repo
r4 = run (env 4) alice (record_payment_call 2 (payment 100000000)) r3

abbrev r5 : Repo
r5 = run (env 5) alice (mark_overdue_call none) r4

issued_Reach : Reach empty r3
unfolding run create_customer create_invoice issue_invoice record_payment mark_overdue mark_all
    next_invoice_number refused take_payment list_invoices invoice_amount
issued_Reach =
    call
      (call
        (call start (env 1) alice (create_customer_call "Ada" none)
          (record { invoice = refl; payment = refl; unpaid = refl }))
        (env 2) alice (create_invoice_call 1 lines "usd" (some 150))
        (record { invoice = refl; payment = refl; unpaid = refl }))
      (env 3) alice (issue_invoice_call 2)
      (record { invoice = refl; payment = refl; unpaid = refl })

later_Reach : Reach r3 r5
unfolding run create_customer create_invoice issue_invoice record_payment mark_overdue mark_all
    next_invoice_number refused take_payment list_invoices invoice_amount
later_Reach =
    call
      (call start (env 4) alice (record_payment_call 2 (payment 100000000))
        (record { invoice = refl; payment = refl; unpaid = refl }))
      (env 5) alice (mark_overdue_call none)
      (record { invoice = refl; payment = refl; unpaid = refl })

all_Reach : Reach empty r5
unfolding run create_customer create_invoice issue_invoice record_payment mark_overdue mark_all
    next_invoice_number refused take_payment list_invoices invoice_amount
all_Reach =
    call
      (call issued_Reach (env 4) alice (record_payment_call 2 (payment 100000000))
        (record { invoice = refl; payment = refl; unpaid = refl }))
      (env 5) alice (mark_overdue_call none)
      (record { invoice = refl; payment = refl; unpaid = refl })

-- 61 dollars, of which 1 was paid
row_after : (r : Repo) → Option (InvoiceStatus × ℕ)
row_after r = elim (invoice_row 1 2 r) [ none ↦ none | some v ↦ some (v.status, v.balance_due) ]

t5 : row_after r5 ≡ some (overdue, 6100000000 - 100000000)
unfolding row_after run create_customer create_invoice issue_invoice record_payment mark_overdue
    mark_all next_invoice_number refused take_payment list_invoices invoice_amount
t5 = refl

Reach-Changes_example : Changes (books empty) (books r5)
Reach-Changes_example = Reach-Changes all_Reach

Reach-IsBalanced_example : IsBalanced (books r5)
Reach-IsBalanced_example = Reach-IsBalanced all_Reach

abbrev invoice : Invoice
invoice = record (issue (env 3) (new_invoice (env 2) alice 1 lines "usd" (some 150) (2026, 1))) {
  nexora_ref = some "ref";
}

found_r3 : find (is_invoice 1 2) r3.invoices ≡ some invoice
unfolding run create_customer create_invoice issue_invoice record_payment mark_overdue mark_all
    next_invoice_number refused take_payment list_invoices invoice_amount
found_r3 = refl

Reach-Keeps_example :
    (v' : Invoice) × (find (is_invoice 1 2) r5.invoices ≡ some v') × Keeps invoice v'
Reach-Keeps_example = Reach-Keeps 1 2 invoice issued_Reach found_r3 refl later_Reach

abbrev closed_env : Env
closed_env = record (env 6) { engine = some (λ q. some (decision deny)) }

denied_always : Shut closed_env
unfolding refused
denied_always q = ([], refl)

shut_idle_example : run closed_env alice (record_payment_call 2 (payment 5)) r3 ≡ r3
shut_idle_example =
    shut_idle closed_env alice denied_always (record_payment_call 2 (payment 5)) r3 refl

abbrev first_payment : Payment
first_payment = new_payment (env 4) alice 2 (payment 100000000)

accepted : record_payment (env 4) alice 2 (payment 100000000) r3 ≡ (ok first_payment, r4)
unfolding run create_customer create_invoice issue_invoice record_payment mark_overdue mark_all
    next_invoice_number refused take_payment list_invoices invoice_amount
accepted = refl

abbrev part_paid : Invoice
part_paid = settled (env 4) 100000000 invoice

found_r4 : invoice_row 1 2 r4 ≡ some part_paid
unfolding run create_customer create_invoice issue_invoice record_payment mark_overdue mark_all
    next_invoice_number refused take_payment list_invoices invoice_amount
found_r4 = refl

open_r4 : is_open part_paid.status ≡ true
unfolding invoice_amount
open_r4 = refl

retry_replays_example :
    (q : Payment) × (record_payment (env 6) alice 2 (payment 7) r4 ≡ (ok q, r4))
    × (q.id ≡ first_payment.id)
    × (q.amount ≡ first_payment.amount)
retry_replays_example =
    retry_replays (env 4) (env 6) alice 2 2 (payment 100000000) (payment 7) "k" r3 r4 first_payment
      part_paid refl refl refl accepted found_r4 open_r4

-- a payment that pays the invoice in full is refused when it is sent again
sent_again :
    (record_payment
      (env 8)
      alice
      2
      (payment 6100000000)
      (run (env 7) alice (record_payment_call 2 (payment 6100000000)) r3)).0
    ≡ err (invoice_state paid)
unfolding run create_customer create_invoice issue_invoice record_payment mark_overdue mark_all
    next_invoice_number refused take_payment list_invoices invoice_amount
sent_again = refl

-- the aging report of the last repository: one invoice, of the first band
tenant_aging_example :
    let unpaid = select is_unpaid (list_invoices 1 none none r5) in
    let (buckets, total) = tenant_aging 1 900 r5 in
    (total ≡ sum_by balance unpaid) × (count_of buckets ≡ length unpaid)
tenant_aging_example = tenant_aging_lem 1 900 r5

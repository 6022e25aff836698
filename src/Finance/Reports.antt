-- ===== src/Finance/Reports.antt =====
-- backend/app/finance/reports.py, and `collection_candidates` of service.py.
pub mod Totals
use azienda.Base.{
  ℕ, suc, ◌+◌, ◌-◌, ◌*◌, ◌/◌, String, Bool, true, false, ◌&&◌, not, Option, none, some, List, [],
  ◌∷◌, leb, ltb, ◌==◌, if◌then◌else◌, find, select, map, or_else, length,
}
use azienda.Base.Int.{ℤ, pos, negsuc, sub_ℕ, leb_ℤ}
use azienda.Contracts.{TenantId, Uuid, Time}
use azienda.Finance.{
  InvoiceStatus, overdue, Customer, Invoice, Payment, Expense, Repo, list_invoices, list_customers,
  list_payments, list_expenses,
}
use azienda.Finance.Invoices.{is_open}
use azienda.Finance.Records.{is_collectable}

-- a day in microseconds, and `(a - b).days`, which rounds down
abbrev day : ℕ
day = 86400000000

abbrev pub days_between : Time → Time → ℤ
days_between a b = if leb b a then pos ((a - b) / day) else negsuc ((b - a - 1) / day)

pub data AgeBand : Type 0 where
  current to_30 to_60 to_90 over_90 : AgeBand

abbrev pub band_of : ℤ → AgeBand
band_of days =
    if leb_ℤ days (pos 0)
    then current
    else if leb_ℤ days (pos 30)
    then to_30
    else if leb_ℤ days (pos 60)
    then to_60
    else if leb_ℤ days (pos 90)
    then to_90
    else over_90

-- the count and the total of each band
pub record Bucket : Type 0 where
  pub invoice_count : ℕ
  pub total_due : ℕ

pub record Aging : Type 0 where
  pub b_current : Bucket
  pub b_30 : Bucket
  pub b_60 : Bucket
  pub b_90 : Bucket
  pub b_over : Bucket

abbrev no_invoice : Bucket
no_invoice = record { invoice_count = 0; total_due = 0 }

abbrev pub no_aging : Aging
no_aging = record {
  b_current = no_invoice;
  b_30 = no_invoice;
  b_60 = no_invoice;
  b_90 = no_invoice;
  b_over = no_invoice;
}

abbrev add_to : ℕ → Bucket → Bucket
add_to n b = record { invoice_count = b.invoice_count + 1; total_due = b.total_due + n }

abbrev pub add_aged : AgeBand → ℕ → Aging → Aging
add_aged current n a = record a { b_current = add_to n a.b_current }
add_aged to_30 n a = record a { b_30 = add_to n a.b_30 }
add_aged to_60 n a = record a { b_60 = add_to n a.b_60 }
add_aged to_90 n a = record a { b_90 = add_to n a.b_90 }
add_aged over_90 n a = record a { b_over = add_to n a.b_over }

-- `status in _UNPAID` with something left to pay
abbrev pub is_unpaid : Invoice → Bool
is_unpaid v = is_open v.status && ltb 0 v.balance_due

abbrev pub age_band : Time → Invoice → AgeBand
age_band as_of v = band_of (days_between as_of (or_else v.due_at (or_else v.issued_at as_of)))

-- the loop of `ar_aging`
pub age_all : Time → List Invoice → Aging → Aging
age_all as_of [] a = a
age_all as_of (v ∷ vs) a =
    age_all as_of vs (if is_unpaid v then add_aged (age_band as_of v) v.balance_due a else a)

abbrev pub total_of : Aging → ℕ
total_of a =
    a.b_current.total_due + a.b_30.total_due + a.b_60.total_due + a.b_90.total_due
    + a.b_over.total_due

-- `ar_aging`: the buckets and their total
pub ar_aging : List Invoice → Time → Aging × ℕ
ar_aging invoices as_of = let a = age_all as_of invoices no_aging in (a, total_of a)

abbrev pub within : Time → Time → Time → Bool
within a b t = leb a t && leb t b

abbrev pub sum_by : {A : Type 0} → (A → ℕ) → List A → ℕ
sum_by f [] = 0
sum_by f (x ∷ xs) = f x + sum_by f xs

pub record CashflowSummary : Type 0 where
  pub inflow : ℕ
  pub outflow : ℕ
  pub net : ℤ

-- `cashflow_summary`
pub cashflow_summary :
    List Payment → List Expense → (period_start period_end : Time) → CashflowSummary
cashflow_summary payments expenses a b =
    let inflow =
      sum_by (λ (p : Payment). p.amount) (select (λ p. within a b p.received_at) payments) in
    let outflow =
      sum_by (λ (e : Expense). e.amount) (select (λ e. within a b e.incurred_at) expenses) in
    record { inflow = inflow; outflow = outflow; net = sub_ℕ inflow outflow }

-- `ar_aging` and `cashflow` of the service
pub tenant_aging : TenantId → Time → Repo → Aging × ℕ
tenant_aging t as_of r = ar_aging (list_invoices t none none r) as_of

pub tenant_cashflow : TenantId → (period_start period_end : Time) → Repo → CashflowSummary
tenant_cashflow t a b r = cashflow_summary (list_payments t none r) (list_expenses t r) a b

pub record CollectionCandidate : Type 0 where
  pub invoice_id : Uuid
  pub customer_id : Uuid
  pub customer_name : Option String
  pub balance_due : ℕ
  pub days_overdue : ℤ

abbrev days_late : Time → Invoice → ℤ
days_late now v = days_between now (or_else v.due_at now)

-- the dict by id keeps the last customer of an id; ids of a tenant are distinct
abbrev name_of : Option Customer → Option String
name_of none = none
name_of (some c) = some c.name

abbrev candidate : Time → List Customer → Invoice → CollectionCandidate
candidate now customers v = record {
  invoice_id = v.id;
  customer_id = v.customer_id;
  customer_name = name_of (find (λ c. c.id == v.customer_id) customers);
  balance_due = v.balance_due;
  days_overdue = days_late now v;
}

-- a stable insertion before the first candidate that is not later, and the sort with the latest first
abbrev insert_late : CollectionCandidate → List CollectionCandidate → List CollectionCandidate
insert_late c [] = c ∷ []
insert_late c (x ∷ xs) =
    if leb_ℤ x.days_overdue c.days_overdue then c ∷ x ∷ xs else x ∷ insert_late c xs

abbrev pub latest_first : List CollectionCandidate → List CollectionCandidate
latest_first [] = []
latest_first (c ∷ cs) = insert_late c (latest_first cs)

-- `collection_candidates`
pub collection_candidates :
    TenantId → (min_days_overdue : ℤ) → Time → Repo → List CollectionCandidate
collection_candidates t least now r = latest_first (
    map (candidate now (list_customers t r)) (
      select (λ v. is_collectable v && leb_ℤ least (days_late now v))
        (list_invoices t none none r)))

-- ===== src/Finance/Reports/Totals.antt =====
-- What the aging report adds up to.
use azienda.Base.{ℕ, ◌+◌, ◌≡◌, List, [], ◌∷◌, none, arith, inl, inr, Bool-cases, select, length}
use azienda.Contracts.{TenantId, Time}
use azienda.Finance.{Invoice, Repo, list_invoices}
use azienda.Finance.Reports.{
  AgeBand, current, to_30, to_60, to_90, over_90, Aging, no_aging, add_aged, is_unpaid, age_band,
  age_all, total_of, ar_aging, tenant_aging, sum_by,
}

abbrev pub count_of : Aging → ℕ
count_of a =
    a.b_current.invoice_count + a.b_30.invoice_count + a.b_60.invoice_count + a.b_90.invoice_count
    + a.b_over.invoice_count

total_of-add_aged :
    (b : AgeBand) (n : ℕ) (a : Aging)
    → (total_of (add_aged b n a) ≡ total_of a + n) × (count_of (add_aged b n a) ≡ count_of a + 1)
total_of-add_aged current n a = (omega arith, omega arith)
total_of-add_aged to_30 n a = (omega arith, omega arith)
total_of-add_aged to_60 n a = (omega arith, omega arith)
total_of-add_aged to_90 n a = (omega arith, omega arith)
total_of-add_aged over_90 n a = (omega arith, omega arith)

abbrev pub balance : Invoice → ℕ
balance v = v.balance_due

total_of-age_all :
    (as_of : Time) (vs : List Invoice) (a : Aging)
    → (total_of (age_all as_of vs a) ≡ total_of a + sum_by balance (select is_unpaid vs))
      × (count_of (age_all as_of vs a) ≡ count_of a + length (select is_unpaid vs))
unfolding age_all
total_of-age_all as_of [] a = (omega arith, omega arith)
total_of-age_all as_of (v ∷ vs) a = elim (Bool-cases (is_unpaid v)) [
  | inr skip ↦ rw (skip, age_all) (total_of-age_all as_of vs a)
  | inl hit ↦
      let (due, number) = total_of-age_all as_of vs (add_aged (age_band as_of v) v.balance_due a) in
      let (due', number') = total_of-add_aged (age_band as_of v) v.balance_due a in
      rw (hit, age_all) (omega arith, omega arith)
]

-- The aging report of a tenant, at any time: its total is the sum of what is left to pay of the tenant's issued and
-- overdue invoices that have something left, and its five buckets count each of them once.
pub tenant_aging_lem :
    (t : TenantId) (as_of : Time) (r : Repo)
    → let unpaid = select is_unpaid (list_invoices t none none r) in
      let (buckets, total) = tenant_aging t as_of r in
      (total ≡ sum_by balance unpaid) × (count_of buckets ≡ length unpaid)
unfolding tenant_aging ar_aging
tenant_aging_lem t as_of r =
    let (due, number) = total_of-age_all as_of (list_invoices t none none r) no_aging in
    (omega (arith, due), omega (arith, number))

-- ===== src/Finance/Anomalies.antt =====
-- backend/app/finance/anomalies.py, without the texts of the flags.
use azienda.Base.{
  ℕ, ◌+◌, ◌-◌, ◌*◌, ◌/◌, ◌%◌, String, Bool, false, ◌&&◌, not, Option, none, some, List, [], ◌∷◌,
  ◌++◌, str_eq, leb, ltb, ◌==◌, if◌then◌else◌, find, select, map, length, sort_asc, drop,
}
use azienda.Contracts.{Uuid, Time, TenantId}
use azienda.Finance.{Payment, Expense, Repo, list_expenses, list_payments}
use azienda.Finance.Policy.{Env}
use azienda.Finance.Records.{is_text}

abbrev day : ℕ
day = 86400000000

pub data AnomalyKind : Type 0 where
  expense_outlier duplicate_expense round_amount_payment : AnomalyKind

-- a round amount is of severity info, the others are warnings
pub record AnomalyFlag : Type 0 where
  pub kind : AnomalyKind
  pub entity_id : Uuid

-- `median`, twice: the middle of a sorted list, or the sum of the middle two
abbrev first_of : List ℕ → ℕ
first_of [] = 0
first_of (a ∷ _) = a

abbrev first_two : List ℕ → ℕ
first_two [] = 0
first_two (a ∷ rest) = a + first_of rest

pub twice_median : List ℕ → ℕ
twice_median xs =
    let sorted = sort_asc (λ a. a) xs in
    let n = length xs in
    if n % 2 == 1 then 2 * first_of (drop (n / 2) sorted) else first_two (drop (n / 2 - 1) sorted)

-- the amounts of the category in the last 90 days that are not the amount itself
abbrev pub baseline : Time → List Expense → Expense → List ℕ
baseline cutoff expenses e =
    select (λ a. not (a == e.amount))
      (map (λ (x : Expense). x.amount)
        (select (λ x. leb cutoff x.incurred_at && str_eq x.category e.category) expenses))

-- `med > 0 and e.amount > 3 * med`, on three amounts or more
abbrev pub is_outlier : Time → List Expense → Expense → Bool
is_outlier cutoff expenses e =
    let amounts = baseline cutoff expenses e in
    let med2 = twice_median amounts in
    leb 3 (length amounts) && (ltb 0 med2 && ltb (3 * med2) (2 * e.amount))

abbrev outlier_flag : Expense → AnomalyFlag
outlier_flag e = record { kind = expense_outlier; entity_id = e.id }

-- `_expense_outliers`
pub expense_outliers : List Expense → Time → List AnomalyFlag
expense_outliers expenses now =
    map outlier_flag (select (is_outlier (now - 90 * day) expenses) expenses)

-- `(vendor.strip().lower(), amount)`
pub record VendorAmount : Type 0 where
  pub vendor : String
  pub amount : ℕ
  pub at : Time

abbrev vendor_key : Env → Expense → Option String → VendorAmount
vendor_key env e none = record { vendor = ""; amount = e.amount; at = e.incurred_at }
vendor_key env e (some v) = record {
  vendor = env.lower (env.strip v);
  amount = e.amount;
  at = e.incurred_at;
}

abbrev same_key : VendorAmount → VendorAmount → Bool
same_key a b = str_eq b.vendor a.vendor && b.amount == a.amount

-- the expenses come in order of their times
abbrev is_near : VendorAmount → Option VendorAmount → Bool
is_near a none = false
is_near a (some prior) = leb ((a.at - prior.at) / day) 7

-- the loop of `_duplicate_expenses`; the newest entry of a key comes first in `seen`
pub duplicates_in : Env → (seen : List VendorAmount) → List Expense → List AnomalyFlag
duplicates_in env seen [] = []
duplicates_in env seen (e ∷ es) =
    let k = vendor_key env e e.vendor in
    let skipped = duplicates_in env seen es in
    let entered = duplicates_in env (k ∷ seen) es in
    if not (is_text e.vendor)
    then skipped
    else if is_near k (find (same_key k) seen)
    then record { kind = duplicate_expense; entity_id = e.id } ∷ skipped
    else entered

-- `_duplicate_expenses`
pub duplicate_expenses : Env → List Expense → List AnomalyFlag
duplicate_expenses env expenses =
    duplicates_in env [] (sort_asc (λ (e : Expense). e.incurred_at) expenses)

-- 100 dollars, in units of 10^-8
abbrev hundred : ℕ
hundred = 10000000000

abbrev pub is_round : Payment → Bool
is_round p = leb (10 * hundred) p.amount && p.amount % hundred == 0

-- `_round_payments`
pub round_payments : List Payment → List AnomalyFlag
round_payments payments =
    map (λ (p : Payment). record { kind = round_amount_payment; entity_id = p.id })
      (select is_round payments)

-- `scan_anomalies`, and the service's
pub scan_anomalies : Env → List Expense → List Payment → Time → List AnomalyFlag
scan_anomalies env expenses payments now =
    expense_outliers expenses now ++ (duplicate_expenses env expenses ++ round_payments payments)

pub tenant_anomalies : Env → TenantId → Time → Repo → List AnomalyFlag
tenant_anomalies env t now r = scan_anomalies env (list_expenses t r) (list_payments t none r) now

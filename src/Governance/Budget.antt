-- ===== src/Governance/Budget.antt =====
-- backend/app/governance/budgets/enforcer.py: `class BudgetEnforcerImpl`. A credit amount counts in
-- units of 1/10000, as its column does; what is used and what is held is never negative. The
-- calendar of `datetime` is a parameter; `Ids` gives the generated uuids.
pub mod Committed
pub mod Reserve
pub mod Settle
pub mod Calendar
mod Tests
use Prim.Native.String
use azienda.Base.{
  ℕ, zero, suc, ◌+◌, ◌-◌, ◌*◌, ◌/◌, ◌%◌, String, Bool, true, false, ◌&&◌, ◌||◌, Option, none, some,
  List, [], ◌∷◌, ◌++◌, str_eq, leb, ◌==◌, if◌then◌else◌, is_some, null, length, select, find,
  update_where,
}
use azienda.Base.Int.{ℤ, pos, pos_part, ◌-ℤ◌, ltb_ℤ, leb_ℤ, nonneg}
use azienda.Contracts.{TenantId, Uuid, Time, TenantContext}

pub data Period : Type 0 where
  daily weekly monthly : Period

-- `period not in ("daily", "weekly", "monthly")`
abbrev pub period_of : String → Option Period
period_of s =
    if str_eq s "daily"
    then some daily
    else if str_eq s "weekly"
    then some weekly
    else if str_eq s "monthly"
    then some monthly
    else none

abbrev pub day : ℕ
day = 86400000000

-- the start of the day; and days since Monday, the epoch being a Thursday
abbrev pub midnight : Time → Time
midnight t = t - t % day

abbrev pub weekday : Time → ℕ
weekday t = (t / day + 3) % 7

-- what the code takes of the calendar of `datetime`, in UTC: the year and the month of a time, and
-- the first midnight of a month
pub record Months : Type 0 where
  pub year_of : Time → ℕ
  pub month_of : Time → ℕ
  pub first_of : (year month : ℕ) → Time

-- the branch of the month in `period_bounds`
abbrev pub month_bounds : Months → Time → Time × Time
month_bounds month now =
    let y = month.year_of now in
    let m = month.month_of now in
    (month.first_of y m, if m == 12 then month.first_of (y + 1) 1 else month.first_of y (m + 1))

-- `period_bounds`
pub period_bounds : (month : Months) → Period → Time → Time × Time
period_bounds month daily now = (midnight now, midnight now + day)
period_bounds month weekly now =
    let start = midnight (now - weekday now * day) in (start, start + 7 * day)
period_bounds month monthly now = month_bounds month now

pub data Scope : Type 0 where
  tenant_scope other_scope : Scope

pub record Tenant : Type 0 where
  pub id : TenantId
  pub spend_frozen : Bool
  pub spend_frozen_at : Option Time
  pub spend_frozen_reason : Option String

pub record Budget : Type 0 where
  pub id : Uuid
  pub tenant_id : TenantId
  pub name : String
  pub scope : Scope
  pub scope_ref : Option String
  pub credit_limit : ℤ
  pub period : Period
  pub alert_thresholds : List ℕ
  pub is_active : Bool

pub record BudgetPeriod : Type 0 where
  pub id : Uuid
  pub budget_id : Uuid
  pub tenant_id : TenantId
  pub starts_at : Time
  pub ends_at : Time
  pub credits_used : ℕ

pub data Status : Type 0 where
  held settled released : Status

pub record Reservation : Type 0 where
  pub id : Uuid
  pub tenant_id : TenantId
  pub budget_id : Uuid
  pub period_id : Uuid
  pub credits_reserved : ℕ
  pub purpose : String
  pub status : Status
  pub expires_at : Time

pub record SpendAlert : Type 0 where
  pub tenant_id : TenantId
  pub budget_id : Uuid
  pub threshold : ℕ
  pub fired_at : Time
  pub acknowledged_at : Option Time

pub record Db : Type 0 where
  pub tenants : List Tenant
  pub budgets : List Budget
  pub periods : List BudgetPeriod
  pub reservations : List Reservation
  pub alerts : List SpendAlert

pub data Why : Type 0 where
  negative_estimate unknown_tenant frozen unmetered reserved assertion_failed : Why
  exhausted : (name : String) (used : ℕ) (estimated : ℤ) (limit : ℤ) → Why

pub record BudgetDecision : Type 0 where
  pub allowed : Bool
  pub reason : Why
  pub remaining_credits : ℤ
  pub reservation_id : Option Uuid

-- the uuid of a period that is added for a budget, and that of a reservation
pub record Ids : Type 0 where
  pub period : Uuid → Uuid
  pub reservation : Uuid

abbrev pub is_held : Status → Bool
is_held held = true
is_held _ = false

abbrev pub tenant_row : TenantId → Db → Option Tenant
tenant_row id db = find (λ t. t.id == id) db.tenants

-- the budgets that a reservation is checked against
abbrev is_tenant_scope : Scope → Bool
is_tenant_scope tenant_scope = true
is_tenant_scope other_scope = false

abbrev pub applies : TenantId → Budget → Bool
applies tenant b = b.tenant_id == tenant && b.is_active && is_tenant_scope b.scope

abbrev sum_reserved : List Reservation → ℕ
sum_reserved [] = 0
sum_reserved (r ∷ rest) = r.credits_reserved + sum_reserved rest

abbrev pub held_by : Uuid → Uuid → Reservation → Bool
held_by budget_id period_id r =
    r.budget_id == budget_id && r.period_id == period_id && is_held r.status

-- `_held_credits`
pub held_credits : Uuid → Uuid → Db → ℕ
held_credits budget_id period_id db =
    sum_reserved (select (held_by budget_id period_id) db.reservations)

-- `text[:n]`
pub cut : ℕ → String → String
cut zero s = ""
cut (suc n) String.[] = ""
cut (suc n) (String.◌∷◌ c s) = String.◌∷◌ c (cut n s)

module _ (month : Months) (ids : Ids) where
  abbrev pub new_period : Budget → Time → BudgetPeriod
  new_period b now = record {
    id = ids.period b.id;
    budget_id = b.id;
    tenant_id = b.tenant_id;
    starts_at = (period_bounds month b.period now).0;
    ends_at = (period_bounds month b.period now).1;
    credits_used = 0;
  }

  -- `_current_period`
  pub current_period : Budget → Time → Db → BudgetPeriod × Db
  current_period b now db =
      elim (find (λ p. p.budget_id == b.id && p.starts_at == (period_bounds month b.period now).0)
        db.periods) [
          | some p ↦ (p, db)
          | none ↦ (new_period b now, record db { periods = db.periods ++ new_period b now ∷ [] })
        ]

abbrev pub same_alert : Uuid → ℕ → SpendAlert → Bool
same_alert budget_id t a =
    a.budget_id == budget_id
    && a.threshold == t
    && (elim a.acknowledged_at [ none ↦ true | some _ ↦ false ])

abbrev pub new_alert : Budget → ℕ → Time → SpendAlert
new_alert b t now = record {
  tenant_id = b.tenant_id;
  budget_id = b.id;
  threshold = t;
  fired_at = now;
  acknowledged_at = none;
}

-- one round of the loop over the thresholds; `limit` is positive
abbrev pub fire_one : Budget → (used limit : ℕ) → Time → ℕ → List SpendAlert → List SpendAlert
fire_one b used limit now t alerts =
    if leb (t * limit) (used * 10000)
    then (elim (find (same_alert b.id t) alerts) [
      | some _ ↦ alerts
      | none ↦ alerts ++ new_alert b t now ∷ []
    ])
    else alerts

pub fire_alerts : Budget → (used limit : ℕ) → Time → List ℕ → List SpendAlert → List SpendAlert
fire_alerts b used limit now [] alerts = alerts
fire_alerts b used limit now (t ∷ ts) alerts =
    fire_alerts b used limit now ts (fire_one b used limit now t alerts)

-- `_maybe_fire_alert`
pub maybe_fire_alert : Budget → ℕ → Time → Db → Db
unfolding fire_alerts
maybe_fire_alert b used now db = if leb_ℤ b.credit_limit (pos 0) then db else record db {
  alerts = fire_alerts b used (pos_part b.credit_limit) now b.alert_thresholds db.alerts;
}

-- `worst_remaining is None or remaining < worst_remaining`
abbrev lower_of : Option ℤ → ℤ → ℤ
lower_of none r = r
lower_of (some w) r = if ltb_ℤ r w then r else w

-- the loop of `reserve` ends in a refusal, or with the least remaining credits and the first budget
pub data Checked : Type 0 where
  refused : BudgetDecision → Checked
  passed : Option ℤ → Option (Budget × BudgetPeriod) → Checked

abbrev first_of_two :
    Option (Budget × BudgetPeriod) → Budget × BudgetPeriod → Option (Budget × BudgetPeriod)
first_of_two none bp = some bp
first_of_two (some c) bp = some c

module _ (month : Months) (ids : Ids) where
  pub check_budgets :
      ℤ → Time → List Budget → Option ℤ → Option (Budget × BudgetPeriod) → Db → Checked × Db
  unfolding current_period held_credits maybe_fire_alert ◌-ℤ◌
  check_budgets estimated now [] worst chosen db = (passed worst chosen, db)
  check_budgets estimated now (b ∷ bs) worst chosen db =
      let (period, db') = current_period month ids b now db in
      let used = period.credits_used + held_credits b.id period.id db' in
      let remaining = b.credit_limit -ℤ pos used in
      let rest =
        check_budgets estimated now bs (some (lower_of worst remaining))
          (first_of_two chosen (b, period)) db' in
      if ltb_ℤ b.credit_limit (pos (used + pos_part estimated))
      then (
        refused (record {
          allowed = false;
          reason = exhausted b.name used estimated b.credit_limit;
          remaining_credits = nonneg remaining;
          reservation_id = none;
        }),
        maybe_fire_alert b used now db',
      )
      else rest

  abbrev pub new_reservation : TenantId → ℤ → String → Time → Budget → BudgetPeriod → Reservation
  new_reservation tenant estimated purpose now b period = record {
    id = ids.reservation;
    tenant_id = tenant;
    budget_id = b.id;
    period_id = period.id;
    credits_reserved = pos_part estimated;
    purpose = cut 512 purpose;
    status = held;
    expires_at = now + day;
  }

  abbrev pub refuse : Why → BudgetDecision
  refuse why = record {
    allowed = false;
    reason = why;
    remaining_credits = pos 0;
    reservation_id = none;
  }

  -- what follows the loop; a loop over a budget or more has chosen one
  pub hold : TenantId → ℤ → String → Time → Checked → Db → BudgetDecision × Db
  unfolding maybe_fire_alert ◌-ℤ◌
  hold tenant estimated purpose now (refused d) db = (d, db)
  hold tenant estimated purpose now (passed worst none) db = (refuse assertion_failed, db)
  hold tenant estimated purpose now (passed worst (some (b, period))) db = (
    record {
      allowed = true;
      reason = reserved;
      remaining_credits = nonneg ((elim worst [ none ↦ pos 0 | some w ↦ w ]) -ℤ estimated);
      reservation_id = some ids.reservation;
    },
    maybe_fire_alert b period.credits_used now (record db {
      reservations = db.reservations ++ new_reservation tenant estimated purpose now b period ∷ [];
    }),
  )

  -- `reserve`
  pub reserve : TenantContext → ℤ → String → Time → Db → BudgetDecision × Db
  unfolding check_budgets hold
  reserve tenant estimated purpose now db =
      if ltb_ℤ estimated (pos 0)
      then (refuse negative_estimate, db)
      else elim (tenant_row tenant.tenant_id db) [
        | none ↦ (refuse unknown_tenant, db)
        | some row ↦
            if row.spend_frozen
            then (refuse frozen, db)
            else (let budgets = select (applies tenant.tenant_id) db.budgets in
                if null budgets
                then (
                  record {
                    allowed = true;
                    reason = unmetered;
                    remaining_credits = pos 0;
                    reservation_id = none;
                  },
                  db,
                )
                else (let (checked, db') = check_budgets estimated now budgets none none db in
                    hold tenant.tenant_id estimated purpose now checked db'))
      ]

abbrev pub is_reservation : TenantContext → Uuid → Reservation → Bool
is_reservation tenant id r = r.id == id && r.tenant_id == tenant.tenant_id

abbrev pub spend : ℤ → BudgetPeriod → BudgetPeriod
spend actual p = record p { credits_used = p.credits_used + pos_part (nonneg actual) }

abbrev pub close : Status → Reservation → Reservation
close status r = record r { status = status }

-- `settle`
pub settle : TenantContext → Uuid → ℤ → Db → Db
settle tenant id actual db = elim (find (is_reservation tenant id) db.reservations) [
  | none ↦ db
  | some r ↦
      if is_held r.status
      then record db {
        periods = update_where (λ p. p.id == r.period_id) (spend actual) db.periods;
        reservations = update_where (λ x. x.id == r.id) (close settled) db.reservations;
      }
      else db
]

abbrev freeze : Bool → Option Time → Option String → Tenant → Tenant
freeze b at why t = record t { spend_frozen = b; spend_frozen_at = at; spend_frozen_reason = why }

-- `kill_switch` and `release_kill_switch`; an unknown tenant has no row to write
pub kill_switch : TenantContext → String → Time → Db → Db
kill_switch tenant reason now db = record db {
  tenants =
      update_where (λ t. t.id == tenant.tenant_id) (freeze true (some now) (some (cut 1024 reason)))
        db.tenants;
}

pub release_kill_switch : TenantContext → Db → Db
release_kill_switch tenant db = record db {
  tenants = update_where (λ t. t.id == tenant.tenant_id) (freeze false none none) db.tenants;
}

pub is_frozen : TenantContext → Db → Bool
is_frozen tenant db = elim (tenant_row tenant.tenant_id db) [
  | none ↦ false
  | some t ↦ t.spend_frozen
]

-- `create_budget`; `none` is the ValueError. `thresholds` are the settings'.
pub create_budget :
    (thresholds : List ℕ) (id : Uuid)
    → TenantContext
    → String
    → ℤ
    → String
    → Scope
    → Option String
    → Db
    → Option (Budget × Db)
create_budget thresholds id tenant name limit period scope scope_ref db = elim (period_of period) [
  | none ↦ none
  | some p ↦
      let b : Budget = record {
        id = id;
        tenant_id = tenant.tenant_id;
        name = name;
        scope = scope;
        scope_ref = scope_ref;
        credit_limit = limit;
        period = p;
        alert_thresholds = thresholds;
        is_active = true;
      } in
      some (b, record db { budgets = db.budgets ++ b ∷ [] })
]

abbrev pub is_stale : Time → Reservation → Bool
is_stale now r = is_held r.status && leb r.expires_at now

-- `sweep_expired_reservations`
pub sweep_expired_reservations : Time → Db → ℕ × Db
sweep_expired_reservations now db = (
  length (select (is_stale now) db.reservations),
  record db { reservations = update_where (is_stale now) (close released) db.reservations },
)

-- ===== src/Governance/Budget/Tests.antt =====
-- Runs of the budget enforcer, and its theorems at concrete inputs.
use azienda.Base.{
  Bool-cases, ltb, inl, inr, ◌/◌, ◌%◌, ◌-◌, ◌↔◌, ◌<◌, ◌*◌, ℕ, ◌+◌, ◌≤◌, ◌≡◌, refl, true, false,
  none, some, [], ◌∷◌, arith,
}
use azienda.Base.Int.{pos, negsuc}
use azienda.Contracts.{Uuid, Time, TenantContext}
use azienda.Governance.Budget.Calendar.{IsUpTo, IsCalendar, period_bounds_contain, month_contains}
use azienda.Governance.Budget.{
  Months, monthly, weekly, day, weekday, Tenant, Budget, Db, Ids, daily, tenant_scope, reserve,
  settle, kill_switch, maybe_fire_alert, period_bounds, sweep_expired_reservations,
}
use azienda.Governance.Budget.Reserve.{kill_switch_stops}
use azienda.Governance.Budget.Settle.{
  Freed, open_alerts, settle_once, maybe_fire_alert_once, sweep_releases,
}

abbrev alice : TenantContext
alice = record { tenant_id = 7; user_id = some 41; agent_id = none; roles = [] }

-- twelve months of thirty days
abbrev thirty_days : ℕ
thirty_days = 2592000000000

abbrev month : Months
month = record {
  year_of = λ t. t / thirty_days / 12;
  month_of = λ t. t / thirty_days % 12 + 1;
  first_of = λ y m. (y * 12 + (m - 1)) * thirty_days;
}

abbrev ids : Ids
ids = record { period = λ b. b + 1000; reservation = 5 }

abbrev acme : Tenant
acme = record { id = 7; spend_frozen = false; spend_frozen_at = none; spend_frozen_reason = none }

abbrev compute : Budget
compute = record {
  id = 3;
  tenant_id = 7;
  name = "compute";
  scope = tenant_scope;
  scope_ref = none;
  credit_limit = pos 100;
  period = daily;
  alert_thresholds = 8000 ∷ 10000 ∷ [];
  is_active = true;
}

abbrev start : Db
start = record {
  tenants = acme ∷ [];
  budgets = compute ∷ [];
  periods = [];
  reservations = [];
  alerts = [];
}

abbrev later : Db
later = (reserve month ids alice (pos 60) "model run" 86400000001 start).1

-- the second call would exceed the limit
second_refused : (reserve month ids alice (pos 60) "again" 86400000002 later).0.allowed ≡ false
unfolding reserve period_bounds
second_refused = refl

kill_switch_stops_example :
    let killed = kill_switch alice "incident" 90000000000 start in
    let (d, db) = reserve month ids alice (pos 1) "run" 90000000001 killed in
    (d.allowed ≡ false) × (d.reservation_id ≡ none) × (db ≡ killed)
kill_switch_stops_example =
    kill_switch_stops month ids 90000000001 alice "incident" 90000000000 (pos 1) "run" start
      {row = acme} refl

settle_once_example :
    settle alice 5 (negsuc 3) (settle alice 5 (pos 40) later) ≡ settle alice 5 (pos 40) later
settle_once_example = settle_once alice 5 (pos 40) (negsuc 3) later

no_alerts : (i : Uuid) (t : ℕ) → open_alerts i t start.alerts ≤ 1
no_alerts i t = omega arith

maybe_fire_alert_once_example :
    open_alerts 3 8000 (maybe_fire_alert compute 90 90000000000 start).alerts ≤ 1
maybe_fire_alert_once_example = maybe_fire_alert_once compute 90 90000000000 start no_alerts 3 8000

alert_fired : open_alerts 3 8000 (maybe_fire_alert compute 90 90000000000 start).alerts ≡ 1
unfolding maybe_fire_alert
alert_fired = refl

sweep_releases_example :
    let (n, db') = sweep_expired_reservations 300000000000 later in
    Freed 300000000000 later.reservations db'.reservations n
    × (db' ≡ record later { reservations = db'.reservations })
sweep_releases_example = sweep_releases 300000000000 later

period_bounds_contain_example :
    let (d, d') = period_bounds month daily 1758000000000000 in
    let (w, w') = period_bounds month weekly 1758000000000000 in
    (d ≤ 1758000000000000)
    × (1758000000000000 < d')
    × (d' ≡ d + day)
    × (w ≤ 1758000000000000)
    × (1758000000000000 < w')
    × (w' ≡ w + 7 * day)
    × (weekday w ≡ 0)
period_bounds_contain_example = period_bounds_contain month 1758000000000000 (omega arith)

thirty-begun :
    (t : Time) (y m : ℕ)
    → 1 ≤ m
    → m ≤ 12
    → ((y * 12 + (m - 1)) * thirty_days ≤ t)
      ↔ IsUpTo y m (t / thirty_days / 12) (t / thirty_days % 12 + 1)
thirty-begun t y m h k = (λ a. up a, λ b. down b)
  where
    up :
        (y * 12 + (m - 1)) * thirty_days ≤ t
        → IsUpTo y m (t / thirty_days / 12) (t / thirty_days % 12 + 1)
    up a = elim (Bool-cases (ltb y (t / thirty_days / 12))) [
      | inl earlier ↦ inl (ground arith)
      | inr other ↦
          let reached : t / thirty_days / 12 ≤ y = ground arith in
          inr (omega (arith, a, h, k, reached), omega (arith, a, h, k, reached))
    ]

    down :
        IsUpTo y m (t / thirty_days / 12) (t / thirty_days % 12 + 1)
        → (y * 12 + (m - 1)) * thirty_days ≤ t
    down (inl b) = omega (arith, b, h, k)
    down (inr (e, b)) = omega (arith, e, b, h, k)

thirty-IsCalendar : IsCalendar month
thirty-IsCalendar = record {
  first = λ t. omega arith;
  last = λ t. omega arith;
  begun = thirty-begun;
}

month_contains_example :
    let (start, end) = period_bounds month monthly 31104000000000 in
    (start ≤ 31104000000000)
    × (31104000000000 < end)
    × (((start ≤ 33000000000000) × (33000000000000 < end))
        ↔ (period_bounds month monthly 33000000000000 ≡ (start, end)))
month_contains_example = month_contains month thirty-IsCalendar 31104000000000 33000000000000

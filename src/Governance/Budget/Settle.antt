-- ===== src/Governance/Budget/Settle.antt =====
-- What settling and sweeping do to a reservation, and alerts that are not fired twice.
use azienda.Base.{
  ℕ, suc, ◌≤◌, ◌≡◌, refl, Bool, true, false, none, some, List, [], ◌∷◌, arith, ◌==◌, inl, inr,
  Bool-cases, Option-cases, select, find, count_if, update_where, count_if-append, length,
}
use azienda.Base.Int.{ℤ, pos_part}
use azienda.Contracts.{Time, Uuid, TenantContext}
use azienda.Governance.Budget.{
  Budget, Reservation, SpendAlert, spend, Db, Status, held, settled, released, is_held,
  is_reservation, close, settle, is_stale, sweep_expired_reservations, same_alert, new_alert,
  fire_one, fire_alerts, maybe_fire_alert,
}

-- a row that was found by its id and tenant is found again after rows with its id were closed
find-close :
    (tenant : TenantContext) (id j : Uuid) (s : Status) (rows : List Reservation) (r : Reservation)
    → find (is_reservation tenant id) rows ≡ some r
    → r.id ≡ j
    → find (is_reservation tenant id) (update_where (λ x. x.id == j) (close s) rows)
      ≡ some (close s r)
find-close tenant id j s [] r e ej = cc
find-close tenant id j s (x ∷ rows) r e ej = ground (arith, find-close tenant id j s rows r)

settle_idle :
    (tenant : TenantContext) (id : Uuid) (actual : ℤ) (db : Db)
    → find (is_reservation tenant id) db.reservations ≡ none
    → settle tenant id actual db ≡ db
unfolding settle
settle_idle tenant id actual db e = rw (e, settle)

settle_closed :
    (tenant : TenantContext) (id : Uuid) (actual : ℤ) (db : Db) (r : Reservation)
    → find (is_reservation tenant id) db.reservations ≡ some r
    → is_held r.status ≡ false
    → settle tenant id actual db ≡ db
unfolding settle
settle_closed tenant id actual db r e c = rw (e, c, settle)

-- what a settlement that takes effect writes
settle_held :
    (tenant : TenantContext) (id : Uuid) (actual : ℤ) (db : Db) (r : Reservation)
    → find (is_reservation tenant id) db.reservations ≡ some r
    → is_held r.status ≡ true
    → settle tenant id actual db ≡ record db {
      periods = update_where (λ p. p.id == r.period_id) (spend actual) db.periods;
      reservations = update_where (λ x. x.id == r.id) (close settled) db.reservations;
    }
unfolding settle
settle_held tenant id actual db r e c = rw (e, c, settle)

-- Settling a reservation again, with whatever amount, changes nothing.
pub settle_once :
    (tenant : TenantContext) (id : Uuid) (actual again : ℤ) (db : Db)
    → settle tenant id again (settle tenant id actual db) ≡ settle tenant id actual db
settle_once tenant id actual again db =
    elim (Option-cases (find (is_reservation tenant id) db.reservations)) [
      | inl missing ↦
          rw (settle_idle tenant id actual db missing) (settle_idle tenant id again db missing)
      | inr (r, found) ↦ elim (Bool-cases (is_held r.status)) [
        | inl open_still ↦ rw (settle_held tenant id actual db r found open_still) (
            settle_closed tenant id again _ (close settled r)
              (find-close tenant id r.id settled db.reservations r found refl) refl)
        | inr closed ↦
            rw (settle_closed tenant id actual db r found closed)
              (settle_closed tenant id again db r found closed)
      ]
    ]

-- how many unacknowledged alerts there are of a budget at a threshold
abbrev pub open_alerts : Uuid → ℕ → List SpendAlert → ℕ
open_alerts b t = count_if (same_alert b t)

find-none_count :
    (p : SpendAlert → Bool) (xs : List SpendAlert) → find p xs ≡ none → count_if p xs ≡ 0
find-none_count p [] e = refl
find-none_count p (x ∷ xs) e = ground (arith, find-none_count p xs)

fire_one_once :
    (b : Budget) (used limit : ℕ) (now : Time) (x : ℕ) (alerts : List SpendAlert)
    → ((i : Uuid) (t : ℕ) → open_alerts i t alerts ≤ 1)
    → (i : Uuid) (t : ℕ) → open_alerts i t (fire_one b used limit now x alerts) ≤ 1
fire_one_once b used limit now x alerts h i t = ground (
  arith,
  h i t,
  count_if-append (same_alert i t) alerts (new_alert b x now ∷ []),
  find-none_count (same_alert b.id x) alerts,
)

fire_alerts_once :
    (b : Budget) (used limit : ℕ) (now : Time) (ts : List ℕ) (alerts : List SpendAlert)
    → ((i : Uuid) (t : ℕ) → open_alerts i t alerts ≤ 1)
    → (i : Uuid) (t : ℕ) → open_alerts i t (fire_alerts b used limit now ts alerts) ≤ 1
unfolding fire_alerts
fire_alerts_once b used limit now [] alerts h = h
fire_alerts_once b used limit now (x ∷ ts) alerts h =
    fire_alerts_once b used limit now ts (fire_one b used limit now x alerts)
      (fire_one_once b used limit now x alerts h)

-- Firing alerts leaves at most one unacknowledged alert for each budget and threshold.
pub maybe_fire_alert_once :
    (b : Budget) (used : ℕ) (now : Time) (db : Db)
    → ((i : Uuid) (t : ℕ) → open_alerts i t db.alerts ≤ 1)
    → (i : Uuid) (t : ℕ) → open_alerts i t (maybe_fire_alert b used now db).alerts ≤ 1
unfolding maybe_fire_alert
maybe_fire_alert_once b used now db h i t = ground (
  arith,
  h i t,
  fire_alerts_once b used (pos_part b.credit_limit) now b.alert_thresholds db.alerts h i t,
)

-- a reservation that is still held when its time has come
abbrev pub Expired : Time → Reservation → Type 0
Expired now r = (r.status ≡ held) × (r.expires_at ≤ now)

-- the reservations before a sweep and after it, and how many it released
pub data Freed (now : Time) : List Reservation → List Reservation → ℕ → Type 0 where
  nothing : Freed now [] [] 0
  releases :
      (r : Reservation) {rows rows' : List Reservation} {n : ℕ}
      → Expired now r
      → Freed now rows rows' n
      → Freed now (r ∷ rows) (record r { status = released } ∷ rows') (suc n)
  stays :
      (r : Reservation) {rows rows' : List Reservation} {n : ℕ}
      → (Expired now r → ⊥)
      → Freed now rows rows' n
      → Freed now (r ∷ rows) (r ∷ rows') n

stale-Expired : (now : Time) (r : Reservation) → is_stale now r ≡ true → Expired now r
stale-Expired now r h = ground arith

Expired-stale : (now : Time) (r : Reservation) → Expired now r → is_stale now r ≡ true
Expired-stale now r h = ground arith

rows-Freed :
    (now : Time) (rows : List Reservation)
    → Freed now rows
        (update_where (is_stale now) (close released) rows)
        (length (select (is_stale now) rows))
rows-Freed now [] = nothing
rows-Freed now (r ∷ rows) = elim (Bool-cases (is_stale now r)) [
  | inl stale ↦ rw stale (releases r (stale-Expired now r stale) (rows-Freed now rows))
  | inr other ↦ rw other (stays r (λ h. cc (other, Expired-stale now r h)) (rows-Freed now rows))
]

-- A sweep releases every reservation that is held and has expired, leaves every other one as it
-- was, returns how many it released, and writes nothing else.
pub sweep_releases :
    (now : Time) (db : Db)
    → let (n, db') = sweep_expired_reservations now db in
      Freed now db.reservations db'.reservations n
      × (db' ≡ record db { reservations = db'.reservations })
unfolding sweep_expired_reservations
sweep_releases now db = (rows-Freed now db.reservations, refl)

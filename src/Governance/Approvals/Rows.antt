-- ===== src/Governance/Approvals/Rows.antt =====
-- How the rows and the events of the approval store are counted, under each kind of update.
use azienda.Base.{
  ℕ, ◌+◌, ◌≤◌, ◌≡◌, refl, Bool, true, false, ◌&&◌, not, Option, some, List, [], ◌∷◌, ◌++◌, arith,
  ◌==◌, if◌then◌else◌, map, select, find, count_if, update_where, count_if-append,
}
use azienda.Contracts.{Uuid, Time, TenantContext}
use azienda.Governance.Approvals.{
  ApprovalRecord, ApprovalEvent, EventType, approval_approved, approval_denied, approval_expired,
  is_pending, expire, swept, expiry_event,
}

-- the event types that close an approval
abbrev pub is_verdict : EventType → Bool
is_verdict (approval_approved _) = true
is_verdict (approval_denied _) = true
is_verdict approval_expired = true
is_verdict _ = false

-- how many events closed the approval `id`
abbrev pub verdicts : Uuid → List ApprovalEvent → ℕ
verdicts id = count_if (λ e. e.approval_id == id && is_verdict e.event_type)

pub verdicts-append :
    (id : Uuid) (xs ys : List ApprovalEvent)
    → verdicts id (xs ++ ys) ≡ verdicts id xs + verdicts id ys
verdicts-append id = count_if-append (λ e. e.approval_id == id && is_verdict e.event_type)

abbrev pub rows_of : Uuid → List ApprovalRecord → ℕ
rows_of id = count_if (λ r. r.id == id)

pub rows_of-append :
    (id : Uuid) (xs ys : List ApprovalRecord)
    → rows_of id (xs ++ ys) ≡ rows_of id xs + rows_of id ys
rows_of-append id = count_if-append (λ r. r.id == id)

-- how many rows of the approval `id` are not pending
abbrev pub closed_rows : Uuid → List ApprovalRecord → ℕ
closed_rows id = count_if (λ r. r.id == id && not (is_pending r.status))

pub closed_rows-append :
    (id : Uuid) (xs ys : List ApprovalRecord)
    → closed_rows id (xs ++ ys) ≡ closed_rows id xs + closed_rows id ys
closed_rows-append id = count_if-append (λ r. r.id == id && not (is_pending r.status))

pub closed-le-rows :
    (id : Uuid) (rows : List ApprovalRecord) → closed_rows id rows ≤ rows_of id rows
closed-le-rows id [] = omega arith
closed-le-rows id (r ∷ rows) = ground (arith, closed-le-rows id rows)

-- a row that a query by id and something more finds is pending, and the only one: none is closed
pub closed_rows_pending :
    (p : ApprovalRecord → Bool) (id : Uuid) (loaded : ApprovalRecord) (rows : List ApprovalRecord)
    → rows_of id rows ≤ 1
    → find (λ r. r.id == id && p r) rows ≡ some loaded
    → is_pending loaded.status ≡ true
    → (closed_rows id rows ≡ 0) × (rows_of id rows ≡ 1) × (loaded.id ≡ id)
closed_rows_pending p id loaded [] u f h = cc
closed_rows_pending p id loaded (r ∷ rows) u f h =
    ground (arith, closed-le-rows id rows, closed_rows_pending p id loaded rows)

module _ (id : Uuid) (f : ApprovalRecord → ApprovalRecord)
    (keeps : (r : ApprovalRecord) → (f r).id ≡ r.id) where
  pub rows_of-update :
      (p : ApprovalRecord → Bool) (rows : List ApprovalRecord)
      → rows_of id (update_where p f rows) ≡ rows_of id rows
  rows_of-update p [] = refl
  rows_of-update p (r ∷ rows) = ground (arith, keeps r, rows_of-update p rows)

  -- closing every row of an id
  pub closed_rows-update :
      (closes : (r : ApprovalRecord) → is_pending (f r).status ≡ false) (j : Uuid)
      (rows : List ApprovalRecord)
      → closed_rows id (update_where (λ r. r.id == j) f rows)
        ≡ (if j == id then rows_of id rows else closed_rows id rows)
  closed_rows-update closes j [] = ground arith
  closed_rows-update closes j (r ∷ rows) =
      ground (arith, keeps r, closes r, closed_rows-update closes j rows)

-- a sweep closes as many rows as it writes events
pub closed_rows-sweep :
    (id : Uuid) (scope : Option TenantContext) (now : Time) (rows : List ApprovalRecord)
    → closed_rows id (update_where (swept scope now) expire rows)
      ≡ closed_rows id rows + verdicts id (map expiry_event (select (swept scope now) rows))
closed_rows-sweep id scope now [] = omega arith
closed_rows-sweep id scope now (r ∷ rows) = ground (arith, closed_rows-sweep id scope now rows)

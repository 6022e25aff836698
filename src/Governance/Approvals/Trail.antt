-- ===== src/Governance/Approvals/Trail.antt =====
-- The trail of approval events against the rows, over any sequence of the store's operations.
use azienda.Base.{
  ℕ, ◌≤◌, ◌≡◌, refl, String, Bool, true, false, Option, some, List, [], ◌∷◌, arith, ◌==◌,
  if◌then◌else◌, inl, inr, Bool-cases, Option-cases, map, select,
}
use azienda.Contracts.{
  Factor, Actor, system, Uuid, Time, TenantContext, ActionRequest, PolicyDecision,
}
use azienda.Governance.Approvals.{
  ApprovalRecord, EventType, approval_approved, approval_denied, approval_expired,
  approval_escalated, approval_requested, acting, user_or_system, Store, add_event, event, write,
  is_pending, is_due, owned_by, expire, settle, swept, expiry_event, expire_if_due, get_record,
  new_record, existing, request, decide_row, decide, get_approval, escalate_row, escalate,
  sweep_expired, list_pending,
}
use azienda.Governance.Approvals.Rows.{
  closed-le-rows, is_verdict, verdicts, rows_of, closed_rows, closed_rows_pending, rows_of-update,
  closed_rows-update, closed_rows-sweep, verdicts-append, rows_of-append, closed_rows-append,
}

-- One row for an id, and for each row that is not pending one event that closed it.
pub record IsConsistent (s : Store) : Type 0 where
  pub one_row : (id : Uuid) → rows_of id s.approvals ≤ 1
  pub trail : (id : Uuid) → verdicts id s.events ≡ closed_rows id s.approvals

-- What happens to one row in `expire_if_due`, `decide` and `escalate`: nothing, or it is closed by
-- `f` and one event that closes is written.
module _ (tenant : TenantContext) (id : Uuid) (s : Store) (r : ApprovalRecord) (h : IsConsistent s)
    (found : get_record tenant id s ≡ some r) where
  close-IsConsistent :
      (f : ApprovalRecord → ApprovalRecord) (type : EventType) (actor : Actor)
      → ((x : ApprovalRecord) → (f x).id ≡ x.id)
      → ((x : ApprovalRecord) → is_pending (f x).status ≡ false)
      → is_verdict type ≡ true
      → is_pending r.status ≡ true
      → IsConsistent (add_event r type actor (write r.id f s))
  unfolding get_record
  close-IsConsistent f type actor keeps closes verdict waiting = record {
    one_row =
        λ j. ground (arith, rows_of-update j f keeps (λ x. x.id == r.id) s.approvals, h.one_row j);
    trail = λ j. ground (
      arith,
      closed_rows_pending (owned_by tenant) id r s.approvals (h.one_row id) found waiting,
      closed_rows-update j f keeps closes r.id s.approvals,
      verdicts-append j s.events (event r type actor ∷ []),
      h.trail j,
    );
  }

  -- an event that closes nothing
  note-IsConsistent :
      (type : EventType) (actor : Actor)
      → is_verdict type ≡ false
      → IsConsistent (add_event r type actor s)
  note-IsConsistent type actor open_still = record {
    one_row = h.one_row;
    trail = λ j. ground (arith, verdicts-append j s.events (event r type actor ∷ []), h.trail j);
  }

  expired-IsConsistent :
      (now : Time)
      → is_due now r ≡ true
      → IsConsistent (add_event r approval_expired system (write r.id expire s))
  expired-IsConsistent now due =
      close-IsConsistent expire approval_expired system (λ _. refl) (λ _. refl) refl (ground arith)

  expire_if_due-IsConsistent : (now : Time) → IsConsistent (expire_if_due now r s).1
  unfolding expire_if_due
  expire_if_due-IsConsistent now = elim (Bool-cases (is_due now r)) [
    | inl due ↦ rw due (expired-IsConsistent now due)
    | inr early ↦ rw early h
  ]

  decide_row-IsConsistent :
      (clock : ℕ → Time) (verdict : Bool) (note : String)
      → IsConsistent (decide_row clock tenant verdict note r s).1
  unfolding decide_row
  decide_row-IsConsistent clock verdict note = elim (Bool-cases (is_due (clock 0) r)) [
    | inl due ↦ rw due (expired-IsConsistent (clock 0) due)
    | inr early ↦ elim (Bool-cases (is_pending r.status)) [
      | inl waiting ↦
          rw (early, waiting)
            (close-IsConsistent (settle verdict tenant.user_id (clock 1) note)
              (if verdict then approval_approved note else approval_denied note)
              (user_or_system tenant) (λ _. refl) (λ _. ground arith) (ground arith) waiting)
      | inr closed ↦ rw (early, closed) h
    ]
  ]

  escalate_row-IsConsistent :
      (now : Time) (note : String) → IsConsistent (escalate_row now tenant note r s).1
  unfolding escalate_row
  escalate_row-IsConsistent now note = elim (Bool-cases (is_due now r)) [
    | inl due ↦ rw due (expired-IsConsistent now due)
    | inr early ↦ elim (Bool-cases (is_pending r.status)) [
      | inl waiting ↦
          rw (early, waiting)
            (note-IsConsistent (approval_escalated note) (user_or_system tenant) refl)
      | inr closed ↦ rw (early, closed) h
    ]
  ]

module _ (s : Store) (h : IsConsistent s) where
  decide-IsConsistent :
      (clock : ℕ → Time) (tenant : TenantContext) (id : Uuid) (verdict : Bool) (note : String)
      → IsConsistent (decide clock tenant id verdict note s).1
  unfolding decide
  decide-IsConsistent clock tenant id verdict note = elim (Option-cases (get_record tenant id s)) [
    | inl missing ↦ rw (missing, decide) h
    | inr (r, found) ↦
        rw (found, decide) (decide_row-IsConsistent tenant id s r h found clock verdict note)
  ]

  escalate-IsConsistent :
      (now : Time) (tenant : TenantContext) (id : Uuid) (note : String)
      → IsConsistent (escalate now tenant id note s).1
  unfolding escalate
  escalate-IsConsistent now tenant id note = elim (Option-cases (get_record tenant id s)) [
    | inl missing ↦ rw (missing, escalate) h
    | inr (r, found) ↦
        rw (found, escalate) (escalate_row-IsConsistent tenant id s r h found now note)
  ]

  get_approval-IsConsistent :
      (now : Time) (tenant : TenantContext) (id : Uuid)
      → IsConsistent (get_approval now tenant id s).1
  unfolding get_approval
  get_approval-IsConsistent now tenant id = elim (Option-cases (get_record tenant id s)) [
    | inl missing ↦ rw (missing, get_approval) h
    | inr (r, found) ↦
        rw (found, get_approval) (expire_if_due-IsConsistent tenant id s r h found now)
  ]

  sweep_expired-IsConsistent :
      (now : Time) (scope : Option TenantContext) → IsConsistent (sweep_expired now scope s).1
  unfolding sweep_expired
  sweep_expired-IsConsistent now scope = record {
    one_row = λ j.
        ground
          (arith, rows_of-update j expire (λ _. refl) (swept scope now) s.approvals, h.one_row j);
    trail = λ j. ground (
      arith,
      closed_rows-sweep j scope now s.approvals,
      verdicts-append j s.events (map expiry_event (select (swept scope now) s.approvals)),
      h.trail j,
    );
  }

  list_pending-IsConsistent :
      (now : Time) (tenant : TenantContext) (limit offset : ℕ)
      → IsConsistent (list_pending now tenant limit offset s).1
  unfolding list_pending
  list_pending-IsConsistent now tenant limit offset = sweep_expired-IsConsistent now (some tenant)

  -- the generated uuid is a new one
  request-IsConsistent :
      (ttl : ℕ) (now : Time) (id : Uuid) (decision : PolicyDecision) (req : ActionRequest)
      (score : ℕ) (factors : List Factor)
      → rows_of id s.approvals ≡ 0
      → IsConsistent (request ttl now id decision req score factors s).1
  unfolding request
  request-IsConsistent ttl now id decision req score factors unused =
      elim (Option-cases (existing req s)) [
        | inl new ↦
            rw (new, request)
              (record {
                one_row = λ j. ground (
                  arith,
                  rows_of-append j s.approvals
                      (new_record ttl now id decision req score factors ∷ []),
                  h.one_row j,
                );
                trail = λ j. ground (
                  arith,
                  closed_rows-append j s.approvals
                      (new_record ttl now id decision req score factors ∷ []),
                  verdicts-append j s.events (
                      event (new_record ttl now id decision req score factors)
                        (approval_requested req.action decision.reasons) (acting req.tenant)
                      ∷ []),
                  h.trail j,
                );
              })
        | inr (r, found) ↦ rw (found, request) h
      ]

-- The calls of the store, each with what it reads of the clock and of the generator of uuids. A
-- generated uuid is not the id of a row.
pub data Step : Store → Store → Type 0 where
  requested :
      (ttl : ℕ) (now : Time) (id : Uuid) (decision : PolicyDecision) (req : ActionRequest)
      (score : ℕ) (factors : List Factor) (s : Store)
      → rows_of id s.approvals ≡ 0
      → Step s (request ttl now id decision req score factors s).1
  decided :
      (clock : ℕ → Time) (tenant : TenantContext) (id : Uuid) (verdict : Bool) (note : String)
      (s : Store)
      → Step s (decide clock tenant id verdict note s).1
  got :
      (now : Time) (tenant : TenantContext) (id : Uuid) (s : Store)
      → Step s (get_approval now tenant id s).1
  escalated :
      (now : Time) (tenant : TenantContext) (id : Uuid) (note : String) (s : Store)
      → Step s (escalate now tenant id note s).1
  swept_out :
      (now : Time) (scope : Option TenantContext) (s : Store) → Step s (sweep_expired now scope s).1
  listed :
      (now : Time) (tenant : TenantContext) (limit offset : ℕ) (s : Store)
      → Step s (list_pending now tenant limit offset s).1

pub data Reach (s : Store) : Store → Type 0 where
  here : Reach s s
  next : {t u : Store} → Reach s t → Step t u → Reach s u

pub Step-IsConsistent : {s t : Store} → Step s t → IsConsistent s → IsConsistent t
Step-IsConsistent (requested ttl now id decision req score factors s unused) h =
    request-IsConsistent s h ttl now id decision req score factors unused
Step-IsConsistent (decided clock tenant id verdict note s) h =
    decide-IsConsistent s h clock tenant id verdict note
Step-IsConsistent (got now tenant id s) h = get_approval-IsConsistent s h now tenant id
Step-IsConsistent (escalated now tenant id note s) h = escalate-IsConsistent s h now tenant id note
Step-IsConsistent (swept_out now scope s) h = sweep_expired-IsConsistent s h now scope
Step-IsConsistent (listed now tenant limit offset s) h =
    list_pending-IsConsistent s h now tenant limit offset

pub Reach-IsConsistent : {s t : Store} → Reach s t → IsConsistent s → IsConsistent t
Reach-IsConsistent here h = h
Reach-IsConsistent (next r st) h = Step-IsConsistent st (Reach-IsConsistent r h)

abbrev pub empty : Store
empty = record { approvals = []; events = [] }

-- Whatever calls are made on an empty store, in whatever order, by whatever tenants and at whatever
-- times, an approval has one row, and its row is closed (approved, denied or expired) exactly if
-- one event that closes it was written; so it is never decided or expired twice.
pub one_verdict :
    {s : Store}
    → Reach empty s
    → (id : Uuid)
    → (rows_of id s.approvals ≤ 1)
      × (verdicts id s.events ≡ closed_rows id s.approvals)
      × (verdicts id s.events ≤ 1)
one_verdict {s} reached id =
    let h = Reach-IsConsistent reached (record { one_row = λ _. omega arith; trail = λ _. refl }) in
    (
      h.one_row id,
      h.trail id,
      omega (arith, h.one_row id, h.trail id, closed-le-rows id s.approvals),
    )

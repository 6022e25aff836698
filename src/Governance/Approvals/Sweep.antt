-- ===== src/Governance/Approvals/Sweep.antt =====
-- The rows and the events of a sweep of backend/app/governance/approvals/store.py, row by row.
use azienda.Base.{
  ℕ, suc, ◌≤◌, ◌≡◌, true, Option, none, some, List, [], ◌∷◌, inl, inr, arith, Bool-cases, select,
  length, map, update_where,
}
use azienda.Contracts.{Time, TenantContext, pending, expired, system}
use azienda.Governance.Approvals.{
  ApprovalRecord, ApprovalEvent, approval_expired, expire, swept, expiry_event,
}

abbrev pub InScope : Option TenantContext → ApprovalRecord → Type 0
InScope none r = Unit
InScope (some tenant) r = r.tenant_id ≡ tenant.tenant_id

-- a pending approval of the scope whose time has come
abbrev pub Overdue : Time → Option TenantContext → ApprovalRecord → Type 0
Overdue now scope r = (r.status ≡ pending) × (r.expires_at ≤ now) × InScope scope r

-- the rows before, the rows after, the events for them, and how many expired
pub data Sweeps (now : Time) (scope : Option TenantContext)
    : List ApprovalRecord → List ApprovalRecord → List ApprovalEvent → ℕ → Type 0 where
  nothing : Sweeps now scope [] [] [] 0
  expires :
      (r : ApprovalRecord) {rows rows' : List ApprovalRecord} {es : List ApprovalEvent} {n : ℕ}
      → Overdue now scope r
      → Sweeps now scope rows rows' es n
      → Sweeps now scope
          (r ∷ rows)
          (record r { status = expired } ∷ rows')
          (record {
            approval_id = r.id;
            tenant_id = r.tenant_id;
            event_type = approval_expired;
            actor = system;
          }
            ∷ es)
          (suc n)
  stays :
      (r : ApprovalRecord) {rows rows' : List ApprovalRecord} {es : List ApprovalEvent} {n : ℕ}
      → (Overdue now scope r → ⊥)
      → Sweeps now scope rows rows' es n
      → Sweeps now scope (r ∷ rows) (r ∷ rows') es n

swept-Overdue :
    (now : Time) (scope : Option TenantContext) (r : ApprovalRecord)
    → swept scope now r ≡ true
    → Overdue now scope r
swept-Overdue now none r h = ground arith
swept-Overdue now (some tenant) r h = ground arith

Overdue-swept :
    (now : Time) (scope : Option TenantContext) (r : ApprovalRecord)
    → Overdue now scope r
    → swept scope now r ≡ true
Overdue-swept now none r h = ground arith
Overdue-swept now (some tenant) r h = ground arith

pub rows-Sweeps :
    (now : Time) (scope : Option TenantContext) (rows : List ApprovalRecord)
    → Sweeps now scope rows
        (update_where (swept scope now) expire rows)
        (map expiry_event (select (swept scope now) rows))
        (length (select (swept scope now) rows))
rows-Sweeps now scope [] = nothing
rows-Sweeps now scope (r ∷ rows) = elim (Bool-cases (swept scope now r)) [
  | inl due ↦ rw due (expires r (swept-Overdue now scope r due) (rows-Sweeps now scope rows))
  | inr other ↦
      rw other (stays r (λ h. cc (other, Overdue-swept now scope r h)) (rows-Sweeps now scope rows))
]

-- ===== src/Finance/Invoices/Refines.antt =====
-- Every operation on invoices and payments does to the books what Books.antt allows.
use azienda.Base.{
  ◌≡◌, refl, sym, subst, String, true, Option, none, some, List, arith, ==_refl, inl, inr,
  Bool-cases, Option-cases, find, find_holds,
}
use azienda.Contracts.{TenantId, Uuid, Time, TenantContext}
use azienda.Finance.{
  InvoiceStatus, draft, InvoiceLine, Invoice, Repo, is_invoice, invoice_row, put_invoice,
}
use azienda.Finance.Policy.{Env, refused, enforce_policy, emit}
use azienda.Finance.Invoices.{
  is_draft, is_open, edited, acknowledged, issue, cancel, void, update_invoice, issue_invoice,
  cancel_invoice, void_invoice, issue_request, cancel_request, void_request,
}
use azienda.Finance.Books.{
  Books, books, Moves, edits, keeps, issues, cancels, voids, put_row, row, moves, Changes, here,
  next,
}
use azienda.Finance.Books.Frozen.{find-put_hit}

-- events are not in the books
pub books-emit :
    (env : Env) (tenant : TenantContext) (topic : String) (i : Uuid) (r : Repo)
    → books (emit env tenant topic i r).1 ≡ books r
books-emit env tenant topic i r = ground arith

pub key_same_own :
    (t : TenantId) (i : Uuid) (v : Invoice)
    → is_invoice t i v ≡ true
    → (v.tenant_id ≡ t) × (v.id ≡ i)
key_same_own t i v h = (ground arith, ground arith)

-- a found invoice is the row of its own key
pub invoice_row_own :
    (t : TenantId) (i : Uuid) (r : Repo) (v : Invoice)
    → invoice_row t i r ≡ some v
    → row v (books r) ≡ some v
invoice_row_own t i r v found =
    let hit = find_holds (is_invoice t i) r.invoices v found in
    let (t', i') = key_same_own t i v hit in
    subst (λ t. find (is_invoice t v.id) r.invoices ≡ some v) (sym t')
      (subst (λ i. find (is_invoice t i) r.invoices ≡ some v) (sym i') found)

pub draft_of : (s : InvoiceStatus) → is_draft s ≡ true → s ≡ draft
draft_of s h = ground arith

pub row-put : (v : Invoice) (b : Books) → row v (put_row v b) ≡ some v
row-put v b =
    find-put_hit (is_invoice v.tenant_id v.id) (is_invoice v.tenant_id v.id) v b.invoices
      (λ x. refl) (rw (==_refl v.tenant_id, ==_refl v.id) refl)

-- one change of an invoice that was found
pub moved :
    (t : TenantId) (i : Uuid) (r : Repo) (v v' : Invoice) {c : Books}
    → invoice_row t i r ≡ some v
    → Moves v v'
    → c ≡ put_row v' (books r)
    → Changes (books r) c
moved t i r v v' found m e =
    subst (λ c. Changes (books r) c) (sym e)
      (next here (moves v v' (invoice_row_own t i r v found) m))

pub cancel_invoice-Changes :
    (env : Env) (tenant : TenantContext) (id : Uuid) (r : Repo)
    → Changes (books r) (books (cancel_invoice env tenant id r).1)
unfolding cancel_invoice
cancel_invoice-Changes env tenant id r = elim (Option-cases (invoice_row tenant.tenant_id id r)) [
  | inl missing ↦ rw (missing, cancel_invoice) here
  | inr (v, found) ↦ elim (Bool-cases (is_draft v.status)) [
    | inr later ↦ rw (found, later, cancel_invoice) here
    | inl d ↦ elim (Option-cases (refused env (cancel_request env tenant v))) [
      | inr (why, shut) ↦ rw (found, d, enforce_policy, shut, cancel_invoice) here
      | inl clear ↦
          rw (found, d, enforce_policy, clear, cancel_invoice)
            (moved tenant.tenant_id id r v (cancel env v) found
              (cancels (draft_of v.status d) refl refl refl)
              (books-emit env tenant "finance.invoice.cancelled" v.id
                (put_invoice (cancel env v) r)))
    ]
  ]
]

pub void_invoice-Changes :
    (env : Env) (tenant : TenantContext) (id : Uuid) (reason : String) (r : Repo)
    → Changes (books r) (books (void_invoice env tenant id reason r).1)
unfolding void_invoice
void_invoice-Changes env tenant id reason r =
    elim (Option-cases (invoice_row tenant.tenant_id id r)) [
      | inl missing ↦ rw (missing, void_invoice) here
      | inr (v, found) ↦ elim (Bool-cases (is_open v.status)) [
        | inr closed ↦ rw (found, closed, void_invoice) here
        | inl o ↦ elim (Option-cases (refused env (void_request env tenant reason v))) [
          | inr (why, shut) ↦ rw (found, o, enforce_policy, shut, void_invoice) here
          | inl clear ↦
              rw (found, o, enforce_policy, clear, void_invoice)
                (moved tenant.tenant_id id r v (void env reason v) found (voids o refl refl refl) (
                  books-emit env tenant "finance.invoice.voided" v.id
                    (put_invoice (void env reason v) r)))
        ]
      ]
    ]

Moves-edited :
    (env : Env) (lines : Option (List InvoiceLine)) (due_at : Option Time) (v : Invoice)
    → v.status ≡ draft
    → Moves v (edited env lines due_at v)
Moves-edited env none due_at v d = keeps refl refl refl
Moves-edited env (some ls) due_at v d = edits d (d, refl, refl) refl refl

pub update_invoice-Changes :
    (env : Env) (tenant : TenantContext) (id : Uuid) (lines : Option (List InvoiceLine))
    (due_at : Option Time) (r : Repo)
    → Changes (books r) (books (update_invoice env tenant id lines due_at r).1)
unfolding update_invoice
update_invoice-Changes env tenant id lines due_at r =
    elim (Option-cases (invoice_row tenant.tenant_id id r)) [
      | inl missing ↦ rw (missing, update_invoice) here
      | inr (v, found) ↦ elim (Bool-cases (is_draft v.status)) [
        | inr later ↦ rw (found, later, update_invoice) here
        | inl d ↦
            rw (found, d, update_invoice)
              (moved tenant.tenant_id id r v (edited env lines due_at v) found
                (Moves-edited env lines due_at v (draft_of v.status d)) refl)
      ]
    ]

Moves-acknowledged : (o : Option String) (v : Invoice) → Moves v (acknowledged o v)
Moves-acknowledged none v = keeps refl refl refl
Moves-acknowledged (some x) v = keeps refl refl refl

pub issue_invoice-Changes :
    (env : Env) (tenant : TenantContext) (id : Uuid) (r : Repo)
    → Changes (books r) (books (issue_invoice env tenant id r).1)
unfolding issue_invoice
issue_invoice-Changes env tenant id r = elim (Option-cases (invoice_row tenant.tenant_id id r)) [
  | inl missing ↦ rw (missing, issue_invoice) here
  | inr (v, found) ↦ elim (Bool-cases (is_draft v.status)) [
    | inr later ↦ rw (found, later, issue_invoice) here
    | inl d ↦ elim (Option-cases (refused env (issue_request env tenant v))) [
      | inr (why, shut) ↦ rw (found, d, enforce_policy, shut, issue_invoice) here
      | inl clear ↦
          let v' = issue env v in
          let v'' = acknowledged (env.push_invoice v') v' in
          let first =
            moved tenant.tenant_id id r v v' found (issues (draft_of v.status d) refl refl refl)
              refl in
          rw (found, d, enforce_policy, clear, issue_invoice)
            (subst (λ c. Changes (books r) c)
              (sym (
                books-emit env tenant "finance.invoice.issued" v.id
                  (put_invoice v'' (put_invoice v' r))))
              (next first (
                moves v' v'' (row-put v' (books r)) (Moves-acknowledged (env.push_invoice v') v'))))
    ]
  ]
]

-- ===== src/Finance/Invoices/Sweep.antt =====
-- `mark_overdue` lapses one listed invoice after the other.
use azienda.Base.{
  ◌≡◌, refl, sym, subst, ◌∙◌, true, false, Option, none, List, [], ◌∷◌, arith, or_else, inl, inr,
  Bool-cases, any, All,
}
use azienda.Contracts.{Time, TenantContext}
use azienda.Finance.{
  InvoiceStatus, issued, Invoice, Repo, put, is_invoice, put_invoice, list_invoices,
}
use azienda.Finance.Policy.{Env, emit}
use azienda.Finance.Invoices.{is_issued, is_past_due, lapse, mark_all, mark_overdue}
use azienda.Finance.Invoices.Refines.{books-emit}
use azienda.Finance.Books.{Books, books, Moves, lapses, moves, Changes, here, next, Changes-trans}
use azienda.Finance.Books.Frozen.{find-put_miss}
use azienda.Finance.Books.Distinct.{
  Distinct, IsFoundIn, Distinct-IsFoundIn, select-Distinct, select-All, key_sym,
}

Moves-lapse :
    (env : Env) (now : Time) (v : Invoice) → is_past_due now v ≡ true → Moves v (lapse env v)
Moves-lapse env now v h = elim (Bool-cases (is_issued v.status)) [
  | inl e ↦ lapses (issued_of v.status e) refl refl refl
  | inr e ↦ cc (rw e at h)
]
  where
    issued_of : (s : InvoiceStatus) → is_issued s ≡ true → s ≡ issued
    issued_of s e = ground arith

-- the rows of other invoices stay where they were
others_found :
    (v v' : Invoice) (vs rows : List Invoice)
    → v'.tenant_id ≡ v.tenant_id
    → v'.id ≡ v.id
    → any (is_invoice v.tenant_id v.id) vs ≡ false
    → All (IsFoundIn rows) vs
    → All (IsFoundIn (put (is_invoice v'.tenant_id v'.id) v' rows)) vs
others_found v v' [] rows et ei e h = tt
others_found v v' (w ∷ ws) rows et ei e (found, h) =
    elim (Bool-cases (is_invoice v.tenant_id v.id w)) [
      | inl hit ↦ cc (rw hit at e)
      | inr miss ↦ (
        find-put_miss (is_invoice w.tenant_id w.id) (is_invoice v'.tenant_id v'.id) v' rows
              (λ x hit. apart w v' x (rw (et, ei) miss) hit) (key_sym v' w (rw (et, ei) miss))
            ∙ found,
        others_found v v' ws rows et ei (rw miss at e) h,
      )
    ]
  where
    apart :
        (w v x : Invoice)
        → is_invoice v.tenant_id v.id w ≡ false
        → is_invoice v.tenant_id v.id x ≡ true
        → is_invoice w.tenant_id w.id x ≡ false
    apart w v x a b = ground arith

mark_all-Changes :
    (env : Env) (tenant : TenantContext) (now : Time) (vs : List Invoice) (r : Repo)
    → Distinct vs
    → All (IsFoundIn r.invoices) vs
    → Changes (books r) (books (mark_all env tenant now vs r))
unfolding mark_all
mark_all-Changes env tenant now [] r d h = here
mark_all-Changes env tenant now (v ∷ vs) r (fresh, d) (found, h) =
    elim (Bool-cases (is_past_due now v)) [
      | inr miss ↦ rw (miss, mark_all) (mark_all-Changes env tenant now vs r d h)
      | inl late ↦
          let r' =
            (emit env tenant "finance.invoice.overdue" v.id (put_invoice (lapse env v) r)).1 in
          let same =
            books-emit env tenant "finance.invoice.overdue" v.id (put_invoice (lapse env v) r) in
          let rest = mark_all-Changes env tenant now vs r' d (
            subst (λ (b : Books). All (IsFoundIn b.invoices) vs) (sym same)
              (others_found v (lapse env v) vs r.invoices refl refl fresh h)) in
          rw (late, mark_all)
            (Changes-trans
              (subst (λ b. Changes (books r) b) (sym same)
                (next here (moves v (lapse env v) found (Moves-lapse env now v late))))
              rest)
    ]

pub mark_overdue-Changes :
    (env : Env) (tenant : TenantContext) (now : Option Time) (r : Repo)
    → Distinct r.invoices
    → Changes (books r) (books (mark_overdue env tenant now r).1)
unfolding mark_overdue list_invoices
mark_overdue-Changes env tenant now r d =
    mark_all-Changes env tenant (or_else now env.now) (list_invoices tenant.tenant_id none none r) r
      (select-Distinct _ r.invoices d)
      (select-All (IsFoundIn r.invoices) _ r.invoices (Distinct-IsFoundIn r.invoices d))

-- ===== src/Finance/Books/Frozen.antt =====
-- What no change of the books touches: the terms of an issued invoice, and a closed one altogether.
use azienda.Base.{
  ℕ, ◌≡◌, refl, sym, ap, subst, ◌∙◌, Bool, true, false, some, List, [], ◌∷◌, ◌++◌, arith, inl, inr,
  Bool-cases, find, any, update_where,
}
use mathlib.Core.Path.{ap₂}
use mathlib.Core.Option.{some-injective}
use azienda.Contracts.{TenantId, Uuid}
use azienda.Finance.{InvoiceStatus, draft, Invoice, put, is_invoice, keyed}
use azienda.Finance.Invoices.{is_open, is_draft}
use azienda.Finance.Books.Balance.{terms_key, Moves-key}
use azienda.Finance.Books.{
  Books, terms, Moves, edits, keeps, issues, cancels, lapses, voids, after_payment, Receives,
  put_row, add_payment, row, Change, opens, moves, receives, Changes, here, next,
}

-- a row that is put is found by its own key
pub find-put_hit :
    {A : Type 0} (p same : A → Bool) (a : A) (xs : List A)
    → ((x : A) → same x ≡ p x)
    → p a ≡ true
    → find p (put same a xs) ≡ some a
find-put_hit {A} p same a xs agree hit = elim (Bool-cases (any same xs)) [
  | inl there ↦ rw there (replaced xs there)
  | inr new ↦ rw new (added xs new)
]
  where
    replaced : (ys : List A) → any same ys ≡ true → find p (update_where same (λ _. a) ys) ≡ some a
    replaced [] e = cc
    replaced (y ∷ ys) e = ground (arith, agree y, hit, replaced ys)

    added : (ys : List A) → any same ys ≡ false → find p (ys ++ a ∷ []) ≡ some a
    added [] e = ground (arith, hit)
    added (y ∷ ys) e = ground (arith, agree y, hit, added ys)

-- and does not hide the rows of other keys
pub find-put_miss :
    {A : Type 0} (p same : A → Bool) (a : A) (xs : List A)
    → ((x : A) → same x ≡ true → p x ≡ false)
    → p a ≡ false
    → find p (put same a xs) ≡ find p xs
find-put_miss {A} p same a xs apart miss = elim (Bool-cases (any same xs)) [
  | inl there ↦ rw there (replaced xs)
  | inr new ↦ rw new (added xs)
]
  where
    replaced : (ys : List A) → find p (update_where same (λ _. a) ys) ≡ find p ys
    replaced [] = refl
    replaced (y ∷ ys) = ground (arith, apart y, miss, replaced ys)

    added : (ys : List A) → find p (ys ++ a ∷ []) ≡ find p ys
    added [] = ground (arith, miss)
    added (y ∷ ys) = ground (arith, miss, added ys)

find_before :
    {A : Type 0} (p : A → Bool) (a : A) (xs : List A) (x : A)
    → find p xs ≡ some x
    → find p (xs ++ a ∷ []) ≡ some x
find_before p a [] x e = cc
find_before p a (y ∷ ys) x e = ground (arith, find_before p a ys x)

-- `v'` says what `v` says, and is no draft; where `v` is closed, so is `v'`, with its balance
pub record Keeps (v v' : Invoice) : Type 0 where
  pub same_terms : terms v' ≡ terms v
  pub no_draft : is_draft v'.status ≡ false
  pub stays_closed :
      is_open v.status ≡ false → (v'.status ≡ v.status) × (v'.balance_due ≡ v.balance_due)

Keeps-refl : (v : Invoice) → is_draft v.status ≡ false → Keeps v v
Keeps-refl v h = record { same_terms = refl; no_draft = h; stays_closed = λ _. (refl, refl) }

Keeps-trans : {u v w : Invoice} → Keeps u v → Keeps v w → Keeps u w
Keeps-trans {u} {v} {w} a b = record {
  same_terms = b.same_terms ∙ a.same_terms;
  no_draft = b.no_draft;
  stays_closed = λ closed.
      let (s, d) = a.stays_closed closed in
      let (s', d') = b.stays_closed (ap is_open s ∙ closed) in (s' ∙ s, d' ∙ d);
}

no_draft_of : {A : Type 0} (s : InvoiceStatus) → s ≡ draft → is_draft s ≡ false → A
no_draft_of s e h = cc (rw e at h)

Keeps-Moves : (v v' : Invoice) → is_draft v.status ≡ false → Moves v v' → Keeps v v'
Keeps-Moves v v' h (edits d _ _ _) = no_draft_of v.status d h
Keeps-Moves v v' h (issues d _ _ _) = no_draft_of v.status d h
Keeps-Moves v v' h (cancels d _ _ _) = no_draft_of v.status d h
Keeps-Moves v v' h (keeps s t b) = record {
  same_terms = t;
  no_draft = ap is_draft s ∙ h;
  stays_closed = λ _. (s, b);
}
Keeps-Moves v v' h (lapses o s t b) = record {
  same_terms = t;
  no_draft = ap is_draft s;
  stays_closed = λ c. cc (rw o at c);
}
Keeps-Moves v v' h (voids o s t b) = record {
  same_terms = t;
  no_draft = ap is_draft s;
  stays_closed = λ c. cc;
}

after_payment-no_draft :
    (s : InvoiceStatus) (n : ℕ) → is_draft s ≡ false → is_draft (after_payment s n) ≡ false
after_payment-no_draft s n h = ground arith

Keeps-Receives : (n : ℕ) (v v' : Invoice) → is_draft v.status ≡ false → Receives n v v' → Keeps v v'
Keeps-Receives n v v' h r =
    let was_open = r.was_open in
    record {
      same_terms = r.same_terms;
      no_draft = ap is_draft r.closes ∙ after_payment-no_draft v.status v'.balance_due h;
      stays_closed = λ c. cc;
    }

keyed_same :
    (t : TenantId) (i : Uuid) (t' : TenantId) (i' : Uuid)
    → keyed t i t' i' ≡ true
    → (t' ≡ t) × (i' ≡ i)
keyed_same t i t' i' h = (ground arith, ground arith)

pub keyed_apart :
    (t : TenantId) (i : Uuid) (t' : TenantId) (i' : Uuid) (u : TenantId) (j : Uuid)
    → keyed t i t' i' ≡ false
    → keyed t' i' u j ≡ true
    → keyed t i u j ≡ false
keyed_apart t i t' i' u j apart hit = ground arith

module _ (t : TenantId) (i : Uuid) where
  abbrev pub Holds : Invoice → Books → Type 0
  Holds v b = (v' : Invoice) × (find (is_invoice t i) b.invoices ≡ some v') × Keeps v v'

  -- writing a row that keeps what the row of its key said
  Holds-put :
      (v w w' : Invoice) (b : Books)
      → find (is_invoice t i) b.invoices ≡ some v
      → row w b ≡ some w
      → (w'.tenant_id ≡ w.tenant_id) × (w'.id ≡ w.id)
      → is_draft v.status ≡ false
      → (is_draft w.status ≡ false → Keeps w w')
      → Holds v (put_row w' b)
  Holds-put v w w' b found found' (et, ei) no_draft keep =
      elim (Bool-cases (keyed t i w.tenant_id w.id)) [
        | inl mine ↦
            let (t', i') = keyed_same t i w.tenant_id w.id mine in
            let same : w ≡ v =
              some-injective w v
                (sym found' ∙ (ap₂ (λ t i. find (is_invoice t i) b.invoices) t' i' ∙ found)) in
            let kept = keep (ap (λ (x : Invoice). is_draft x.status) same ∙ no_draft) in
            (
              w',
              find-put_hit (is_invoice t i) (is_invoice w'.tenant_id w'.id) w' b.invoices
                  (λ x. ap₂ (λ t i. is_invoice t i x) (et ∙ t') (ei ∙ i')) (rw (et, ei) mine),
              subst (λ x. Keeps x w') same kept,
            )
        | inr other ↦ (
          v,
          find-put_miss (is_invoice t i) (is_invoice w'.tenant_id w'.id) w' b.invoices
                (λ x hit.
                  keyed_apart t i w'.tenant_id w'.id x.tenant_id x.id (rw (et, ei) other) hit)
                (rw (et, ei) other)
              ∙ found,
          Keeps-refl v no_draft,
        )
      ]

  pub Holds-Change :
      {b c : Books} (v : Invoice)
      → Change b c
      → is_draft v.status ≡ false
      → find (is_invoice t i) b.invoices ≡ some v
      → Holds v c
  Holds-Change {b} v (opens w new _ _) h found =
      (v, rw new (find_before (is_invoice t i) w b.invoices v found), Keeps-refl v h)
  Holds-Change {b} v (moves w w' found' m) h found =
      Holds-put v w w' b found found' (Moves-key w w' m) h (λ k. Keeps-Moves w w' k m)
  Holds-Change {b} v (receives w w' p found' _ _ _ r) h found =
      Holds-put v w w' (add_payment p b) found found' (terms_key r.same_terms) h
        (λ k. Keeps-Receives p.amount w w' k r)

  pub Holds-Changes :
      {b c : Books} (v : Invoice)
      → Changes b c
      → is_draft v.status ≡ false
      → find (is_invoice t i) b.invoices ≡ some v
      → Holds v c
  Holds-Changes v here h found = (v, found, Keeps-refl v h)
  Holds-Changes v (next before change) h found =
      let (w, found', keeps_v) = Holds-Changes v before h found in
      let (x, found'', keeps_w) = Holds-Change w change keeps_v.no_draft found' in
      (x, found'', Keeps-trans keeps_v keeps_w)

-- ===== src/Finance/Books/Balance.antt =====
-- What the changes of Books.antt keep: one row for each invoice, and balances that agree with payments.
use azienda.Base.{
  ℕ, ◌+◌, ◌≤◌, ◌≡◌, refl, sym, ap, subst, ◌∙◌, Bool, true, false, List, [], ◌∷◌, ◌++◌, arith, ltb,
  if◌then◌else◌, inl, inr, Bool-cases, ==_refl, any, update_where, All, All-append, find-All,
}
use azienda.Contracts.{TenantId, Uuid}
use azienda.Finance.{
  InvoiceStatus, draft, issued, paid, overdue, voided, cancelled, Invoice, Payment, put, is_invoice,
  is_payment, keyed,
}
use azienda.Finance.Invoices.{is_open}
use azienda.Finance.Books.{
  Books, Terms, Moves, edits, keeps, issues, cancels, lapses, voids, Receives, IsNewPayment,
  IsUnpaid, Change, opens, moves, receives, Changes, here, next,
}

-- what was paid on an invoice
abbrev pub paid_on : TenantId → Uuid → List Payment → ℕ
paid_on t i [] = 0
paid_on t i (p ∷ ps) = (if keyed t i p.tenant_id p.invoice_id then p.amount else 0) + paid_on t i ps

-- balance, amount and what was paid, by status
abbrev pub Adds : InvoiceStatus → (balance amount paid : ℕ) → Type 0
Adds draft b a p = (b ≡ a) × (p ≡ 0)
Adds cancelled b a p = (b ≡ a) × (p ≡ 0)
Adds issued b a p = b + p ≡ a
Adds overdue b a p = b + p ≡ a
Adds paid b a p = (b ≡ 0) × (p ≡ a)
Adds voided b a p = (b ≡ 0) × (p ≤ a)

abbrev pub Balanced : List Payment → Invoice → Type 0
Balanced ps v = Adds v.status v.balance_due v.amount (paid_on v.tenant_id v.id ps)

abbrev pub IsBalanced : Books → Type 0
IsBalanced b = All (Balanced b.payments) b.invoices

-- a row that is put has the predicate, and so have the others
put-All :
    {A : Type 0} (P Q : A → Type 0) (same : A → Bool) (a : A) (xs : List A)
    → ((x : A) → same x ≡ false → P x → Q x)
    → Q a
    → All P xs
    → All Q (put same a xs)
put-All {A} P Q same a xs keep q h = elim (Bool-cases (any same xs)) [
  | inl there ↦ rw there (replaced xs h)
  | inr new ↦ rw new (All-append Q xs (a ∷ []) (kept xs new h) (q, tt))
]
  where
    replaced : (ys : List A) → All P ys → All Q (update_where same (λ _. a) ys)
    replaced [] h = tt
    replaced (y ∷ ys) h = (
      elim (Bool-cases (same y)) [ inl e ↦ rw e q | inr e ↦ rw e (keep y e h.0) ],
      replaced ys h.1,
    )

    kept : (ys : List A) → any same ys ≡ false → All P ys → All Q ys
    kept [] e h = tt
    kept (y ∷ ys) e h = elim (Bool-cases (same y)) [
      | inl hit ↦ cc (rw hit at e)
      | inr miss ↦ (keep y miss h.0, kept ys (rw miss at e) h.1)
    ]

paid_on-put :
    (t : TenantId) (i : Uuid) (p : Payment) (ps : List Payment)
    → IsNewPayment p.tenant_id p.id ps
    → paid_on t i (put (is_payment p.tenant_id p.id) p ps)
      ≡ paid_on t i ps + (if keyed t i p.tenant_id p.invoice_id then p.amount else 0)
paid_on-put t i p ps new = rw new (last ps)
  where
    last :
        (qs : List Payment)
        → paid_on t i (qs ++ p ∷ [])
          ≡ paid_on t i qs + (if keyed t i p.tenant_id p.invoice_id then p.amount else 0)
    last [] = ground arith
    last (q ∷ qs) = ground (arith, last qs)

IsUnpaid-paid_on :
    (t : TenantId) (i : Uuid) (ps : List Payment) → IsUnpaid t i ps → paid_on t i ps ≡ 0
IsUnpaid-paid_on t i [] h = refl
IsUnpaid-paid_on t i (p ∷ ps) h = elim (Bool-cases (keyed t i p.tenant_id p.invoice_id)) [
  | inl hit ↦ cc (rw hit at h)
  | inr miss ↦ rw miss (omega (arith, IsUnpaid-paid_on t i ps (rw miss at h)))
]

-- equal statuses, balances and amounts add up alike
Adds-cast :
    {s s' : InvoiceStatus} {b b' a a' : ℕ} (p : ℕ)
    → s' ≡ s
    → b' ≡ b
    → a' ≡ a
    → Adds s b a p
    → Adds s' b' a' p
Adds-cast {s} {s'} {b} {b'} {a} {a'} p e f g h =
    subst (λ s. Adds s b' a' p) (sym e)
      (subst (λ b. Adds s b a' p) (sym f) (subst (λ a. Adds s b a p) (sym g) h))

Adds-open : (s : InvoiceStatus) (b a p : ℕ) → is_open s ≡ true → Adds s b a p → b + p ≡ a
Adds-open issued b a p o h = h
Adds-open overdue b a p o h = h
Adds-open draft b a p o h = cc
Adds-open paid b a p o h = cc
Adds-open voided b a p o h = cc
Adds-open cancelled b a p o h = cc

open_Adds : (s : InvoiceStatus) (b a p : ℕ) → is_open s ≡ true → b + p ≡ a → Adds s b a p
open_Adds issued b a p o h = h
open_Adds overdue b a p o h = h
open_Adds draft b a p o h = cc
open_Adds paid b a p o h = cc
open_Adds voided b a p o h = cc
open_Adds cancelled b a p o h = cc

-- what was paid on a draft, by its status
draft_Adds : {s : InvoiceStatus} {b a p : ℕ} → s ≡ draft → Adds s b a p → (b ≡ a) × (p ≡ 0)
draft_Adds {s} {b} {a} {p} e h = subst (λ s. Adds s b a p) e h

amount_of : {x y : Terms} → x ≡ y → x.amount ≡ y.amount
amount_of e = ap (λ (t : Terms). t.amount) e

pub terms_key : {x y : Terms} → x ≡ y → (x.tenant_id ≡ y.tenant_id) × (x.id ≡ y.id)
terms_key e = (ap (λ (t : Terms). t.tenant_id) e, ap (λ (t : Terms). t.id) e)

-- a change of an invoice that is no payment keeps its sums, for what was paid on it
Adds-Moves :
    (v v' : Invoice) (p : ℕ)
    → Moves v v'
    → Adds v.status v.balance_due v.amount p
    → Adds v'.status v'.balance_due v'.amount p
Adds-Moves v v' p (edits d (s, e, _) _ _) h = Adds-cast p s refl refl (e, (draft_Adds d h).1)
Adds-Moves v v' p (keeps s t b) h = Adds-cast p s b (amount_of t) h
Adds-Moves v v' p (issues o s t b) h =
    let (x, y) = draft_Adds o h in Adds-cast p s b (amount_of t) (omega arith)
Adds-Moves v v' p (cancels o s t b) h = Adds-cast p s b (amount_of t) (draft_Adds o h)
Adds-Moves v v' p (lapses o s t b) h =
    Adds-cast p s b (amount_of t) (Adds-open v.status v.balance_due v.amount p (rw o refl) h)
Adds-Moves v v' p (voids o s t b) h =
    let sum = Adds-open v.status v.balance_due v.amount p o h in
    Adds-cast p s b (amount_of t) (refl, omega arith)

-- a payment keeps the sums
Adds-Receives :
    (n : ℕ) (v v' : Invoice) (p : ℕ)
    → Receives n v v'
    → Adds v.status v.balance_due v.amount p
    → Adds v'.status v'.balance_due v'.amount (p + n)
Adds-Receives n v v' p r h =
    let sum = Adds-open v.status v.balance_due v.amount p r.was_open h in
    let settles = r.settles in
    let same = amount_of r.same_terms in
    elim (Bool-cases (ltb 0 v'.balance_due)) [
      | inl more ↦
          Adds-cast (p + n) (r.closes ∙ ap (λ (c : Bool). if c then v.status else paid) more) refl
            refl (open_Adds v.status v'.balance_due v'.amount (p + n) r.was_open (omega arith))
      | inr all_paid ↦
          let zero_left : v'.balance_due ≡ 0 = ground arith in
          Adds-cast (p + n) (r.closes ∙ ap (λ (c : Bool). if c then v.status else paid) all_paid)
            refl refl (zero_left, omega arith)
    ]

pub Moves-key : (v v' : Invoice) → Moves v v' → (v'.tenant_id ≡ v.tenant_id) × (v'.id ≡ v.id)
Moves-key v v' (edits _ _ t i) = (t, i)
Moves-key v v' (keeps _ e _) = terms_key e
Moves-key v v' (issues _ _ e _) = terms_key e
Moves-key v v' (cancels _ _ e _) = terms_key e
Moves-key v v' (lapses _ _ e _) = terms_key e
Moves-key v v' (voids _ _ e _) = terms_key e

Balanced-Moves : (v v' : Invoice) (ps : List Payment) → Moves v v' → Balanced ps v → Balanced ps v'
Balanced-Moves v v' ps m h =
    let (t, i) = Moves-key v v' m in
    subst (λ p. Adds v'.status v'.balance_due v'.amount p) (rw (t, i) refl)
      (Adds-Moves v v' (paid_on v.tenant_id v.id ps) m h)

pays_all :
    {t t' u : TenantId} {i i' j : Uuid} (ps : List Payment) (n : ℕ)
    → t' ≡ t
    → i' ≡ i
    → u ≡ t
    → j ≡ i
    → paid_on t' i' ps + (if keyed t' i' u j then n else 0) ≡ paid_on t i ps + n
pays_all {t} {t'} {u} {i} {i'} {j} ps n et ei eu ej = rw (et, ei, eu, ej, ==_refl t, ==_refl i) refl

pays_none :
    (t : TenantId) (i : Uuid) (p : Payment) (ps : List Payment) (x : Invoice)
    → p.tenant_id ≡ t
    → p.invoice_id ≡ i
    → is_invoice t i x ≡ false
    → paid_on x.tenant_id x.id ps
        + (if keyed x.tenant_id x.id p.tenant_id p.invoice_id then p.amount else 0)
      ≡ paid_on x.tenant_id x.id ps
pays_none t i p ps x et ei miss =
    let other : keyed x.tenant_id x.id p.tenant_id p.invoice_id ≡ false = ground arith in
    rw other (omega arith)

Balanced-Receives :
    (v v' : Invoice) (p : Payment) (ps : List Payment)
    → IsNewPayment p.tenant_id p.id ps
    → p.tenant_id ≡ v.tenant_id
    → p.invoice_id ≡ v.id
    → Receives p.amount v v'
    → Balanced ps v
    → Balanced (put (is_payment p.tenant_id p.id) p ps) v'
Balanced-Receives v v' p ps new et ei r h =
    let (t, i) = terms_key r.same_terms in
    subst (λ n. Adds v'.status v'.balance_due v'.amount n)
      (sym (paid_on-put v'.tenant_id v'.id p ps new ∙ pays_all ps p.amount t i et ei))
      (Adds-Receives p.amount v v' (paid_on v.tenant_id v.id ps) r h)

other_paid :
    (p : Payment) (ps : List Payment) (t : TenantId) (i : Uuid) (x : Invoice)
    → IsNewPayment p.tenant_id p.id ps
    → p.tenant_id ≡ t
    → p.invoice_id ≡ i
    → is_invoice t i x ≡ false
    → Balanced ps x
    → Balanced (put (is_payment p.tenant_id p.id) p ps) x
other_paid p ps t i x new et ei miss h =
    subst (λ n. Adds x.status x.balance_due x.amount n)
      (sym (paid_on-put x.tenant_id x.id p ps new ∙ pays_none t i p ps x et ei miss)) h

-- the books stay balanced
pub Change-IsBalanced : {b c : Books} → Change b c → IsBalanced b → IsBalanced c
Change-IsBalanced {b} (opens v _ unpaid (s, e, _)) h =
    put-All (Balanced b.payments) (Balanced b.payments) (is_invoice v.tenant_id v.id) v b.invoices
      (λ x _ k. k)
      (Adds-cast (paid_on v.tenant_id v.id b.payments) s refl refl
        (e, IsUnpaid-paid_on v.tenant_id v.id b.payments unpaid))
      h
Change-IsBalanced {b} (moves v v' found m) h =
    put-All (Balanced b.payments) (Balanced b.payments) (is_invoice v'.tenant_id v'.id) v'
      b.invoices (λ x _ k. k)
      (Balanced-Moves v v' b.payments m
        (find-All (Balanced b.payments) (is_invoice v.tenant_id v.id) b.invoices v h found))
      h
Change-IsBalanced {b} (receives v v' p found new et ei r) h =
    let (t, i) = terms_key r.same_terms in
    put-All (Balanced b.payments) (Balanced (put (is_payment p.tenant_id p.id) p b.payments))
      (is_invoice v'.tenant_id v'.id) v' b.invoices
      (λ x miss k.
        other_paid p b.payments v'.tenant_id v'.id x new (et ∙ sym t) (ei ∙ sym i) miss k)
      (Balanced-Receives v v' p b.payments new et ei r
        (find-All (Balanced b.payments) (is_invoice v.tenant_id v.id) b.invoices v h found))
      h

pub Changes-IsBalanced : {b c : Books} → Changes b c → IsBalanced b → IsBalanced c
Changes-IsBalanced here h = h
Changes-IsBalanced (next before change) h = Change-IsBalanced change (Changes-IsBalanced before h)

-- ===== src/Finance/Books/Distinct.antt =====
-- One row for each invoice: the keys of a dict are distinct.
use azienda.Base.{
  ◌≡◌, refl, subst, ◌∙◌, Bool, true, false, some, List, [], ◌∷◌, ◌++◌, arith, ==_refl, inl, inr,
  Bool-cases, find, any, select, update_where, All,
}
use azienda.Finance.{Invoice, put, is_invoice}
use azienda.Finance.Books.{Books, Change, opens, moves, receives, Changes, here, next}

abbrev pub Distinct : List Invoice → Type 0
Distinct [] = Unit
Distinct (v ∷ vs) = (any (is_invoice v.tenant_id v.id) vs ≡ false) × Distinct vs

any-update :
    {A : Type 0} (q same : A → Bool) (a : A) (ys : List A)
    → ((x : A) → same x ≡ true → q a ≡ q x)
    → any q (update_where same (λ _. a) ys) ≡ any q ys
any-update q same a [] agree = refl
any-update q same a (y ∷ ys) agree = ground (arith, agree y, any-update q same a ys agree)

any_last :
    {A : Type 0} (q : A → Bool) (a : A) (ys : List A)
    → any q ys ≡ false
    → q a ≡ false
    → any q (ys ++ a ∷ []) ≡ false
any_last q a [] h miss = ground arith
any_last q a (y ∷ ys) h miss = ground (arith, any_last q a ys)

key_agree :
    (v a x : Invoice)
    → is_invoice a.tenant_id a.id x ≡ true
    → is_invoice v.tenant_id v.id a ≡ is_invoice v.tenant_id v.id x
key_agree v a x h = ground arith

pub key_sym :
    (v w : Invoice) → is_invoice v.tenant_id v.id w ≡ false → is_invoice w.tenant_id w.id v ≡ false
key_sym v w h = ground arith

key_same :
    (a y : Invoice)
    → is_invoice a.tenant_id a.id y ≡ true
    → (y.tenant_id ≡ a.tenant_id) × (y.id ≡ a.id)
key_same a y h = (ground arith, ground arith)

put-Distinct :
    (a : Invoice) (xs : List Invoice)
    → Distinct xs
    → Distinct (put (is_invoice a.tenant_id a.id) a xs)
put-Distinct a xs h = elim (Bool-cases (any (is_invoice a.tenant_id a.id) xs)) [
  | inl there ↦ rw there (replaced xs h)
  | inr new ↦ rw new (added xs new h)
]
  where
    same : Invoice → Bool
    same = is_invoice a.tenant_id a.id

    replaced : (ys : List Invoice) → Distinct ys → Distinct (update_where same (λ _. a) ys)
    replaced [] h = tt
    replaced (y ∷ ys) (fresh, h) = elim (Bool-cases (same y)) [
      | inl hit ↦
          let (t, i) = key_same a y hit in
          rw hit (
            any-update (is_invoice a.tenant_id a.id) same a ys (λ x. key_agree a a x)
                ∙ subst (λ t. any (is_invoice t a.id) ys ≡ false) t
                    (subst (λ i. any (is_invoice y.tenant_id i) ys ≡ false) i fresh),
            replaced ys h,
          )
      | inr miss ↦ rw miss (
        any-update (is_invoice y.tenant_id y.id) same a ys (λ x. key_agree y a x) ∙ fresh,
        replaced ys h,
      )
    ]

    added : (ys : List Invoice) → any same ys ≡ false → Distinct ys → Distinct (ys ++ a ∷ [])
    added [] e h = (refl, tt)
    added (y ∷ ys) e (fresh, h) = elim (Bool-cases (same y)) [
      | inl hit ↦ cc (rw hit at e)
      | inr miss ↦ (
        any_last (is_invoice y.tenant_id y.id) a ys fresh (key_sym a y miss),
        added ys (rw miss at e) h,
      )
    ]

pub Change-Distinct : {b c : Books} → Change b c → Distinct b.invoices → Distinct c.invoices
Change-Distinct {b} (opens v _ _ _) h = put-Distinct v b.invoices h
Change-Distinct {b} (moves _ v _ _) h = put-Distinct v b.invoices h
Change-Distinct {b} (receives _ v _ _ _ _ _ _) h = put-Distinct v b.invoices h

pub Changes-Distinct : {b c : Books} → Changes b c → Distinct b.invoices → Distinct c.invoices
Changes-Distinct here h = h
Changes-Distinct (next before change) h = Change-Distinct change (Changes-Distinct before h)

-- every row is found by its key
abbrev pub IsFoundIn : List Invoice → Invoice → Type 0
IsFoundIn xs v = find (is_invoice v.tenant_id v.id) xs ≡ some v

pub Distinct-IsFoundIn : (xs : List Invoice) → Distinct xs → All (IsFoundIn xs) xs
Distinct-IsFoundIn [] h = tt
Distinct-IsFoundIn (x ∷ xs) (fresh, h) =
    (rw (==_refl x.tenant_id, ==_refl x.id) refl, further xs fresh (Distinct-IsFoundIn xs h))
  where
    further :
        (ys : List Invoice)
        → any (is_invoice x.tenant_id x.id) ys ≡ false
        → All (IsFoundIn xs) ys
        → All (IsFoundIn (x ∷ xs)) ys
    further [] e k = tt
    further (y ∷ ys) e (k, ks) = elim (Bool-cases (is_invoice x.tenant_id x.id y)) [
      | inl hit ↦ cc (rw hit at e)
      | inr miss ↦ (rw (key_sym x y miss) k, further ys (rw miss at e) ks)
    ]

any-select :
    {A : Type 0} (q p : A → Bool) (xs : List A) → any q xs ≡ false → any q (select p xs) ≡ false
any-select q p [] h = refl
any-select q p (x ∷ xs) h = ground (arith, any-select q p xs)

pub select-Distinct :
    (p : Invoice → Bool) (xs : List Invoice) → Distinct xs → Distinct (select p xs)
select-Distinct p [] h = tt
select-Distinct p (x ∷ xs) (fresh, h) = elim (Bool-cases (p x)) [
  | inl hit ↦ rw hit (any-select (is_invoice x.tenant_id x.id) p xs fresh, select-Distinct p xs h)
  | inr miss ↦ rw miss (select-Distinct p xs h)
]

pub select-All :
    {A : Type 0} (P : A → Type 0) (p : A → Bool) (xs : List A) → All P xs → All P (select p xs)
select-All P p [] h = tt
select-All P p (x ∷ xs) (h, k) = elim (Bool-cases (p x)) [
  | inl hit ↦ rw hit (h, select-All P p xs k)
  | inr miss ↦ rw miss (select-All P p xs k)
]

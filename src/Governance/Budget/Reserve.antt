-- ===== src/Governance/Budget/Reserve.antt =====
-- When `reserve` holds credits, and which budget they are held against.
use azienda.Base.{
  ℕ, ◌+◌, ◌≡◌, ◌⊎◌, refl, String, true, false, none, some, List, [], ◌∷◌, arith, ◌==◌, find,
  update_where, All,
}
use azienda.Base.Int.{ℤ, pos, pos_part, ◌≤ℤ◌}
use azienda.Contracts.{Time, TenantContext}
use azienda.Governance.Budget.{
  Months, Tenant, Budget, Db, Ids, tenant_row, reserve, is_frozen, kill_switch, freeze, cut,
}
use azienda.Governance.Budget.Committed.{committed, Fits}

find_frozen :
    (id : ℕ) (f : Tenant → Tenant) (ts : List Tenant) (row : Tenant)
    → ((t : Tenant) → (f t).id ≡ t.id)
    → ((t : Tenant) → (f t).spend_frozen ≡ true)
    → find (λ t. t.id == id) ts ≡ some row
    → (elim (find (λ t. t.id == id) (update_where (λ t. t.id == id) f ts)) [
      | none ↦ false
      | some t ↦ t.spend_frozen
    ])
      ≡ true
find_frozen id f [] row keeps freezes e = cc
find_frozen id f (t ∷ ts) row keeps freezes e =
    ground (arith, keeps t, freezes t, find_frozen id f ts row keeps freezes)

frozen_after :
    (tenant : TenantContext) (reason : String) (now : Time) (db : Db) {row : Tenant}
    → tenant_row tenant.tenant_id db ≡ some row
    → is_frozen tenant (kill_switch tenant reason now db) ≡ true
unfolding is_frozen kill_switch
frozen_after tenant reason now db {row} known =
    find_frozen tenant.tenant_id (freeze true (some now) (some (cut 1024 reason))) db.tenants row
      (λ _. refl) (λ _. refl) known

module _ (month : Months) (ids : Ids) (now : Time) where
  -- what a reservation that was made against the budgets `b ∷ rest` has done
  abbrev pub Holds : ℤ → List Budget → Db → Db → Type 0
  Holds estimated [] db db' = ⊥
  Holds estimated (b ∷ rest) db db' =
      All (Fits month ids now estimated db) (b ∷ rest)
      × (committed month ids now b db' ≡ committed month ids now b db + pos_part estimated)
      × (pos (committed month ids now b db') ≤ℤ b.credit_limit)
      × ((x : Budget)
          → (x.id ≡ b.id) ⊎ (committed month ids now x db' ≡ committed month ids now x db))

  -- A tenant whose spending is frozen gets no reservation, and the call writes nothing.
  pub frozen_refuses :
      (tenant : TenantContext) (estimated : ℤ) (purpose : String) (db : Db)
      → is_frozen tenant db ≡ true
      → let (d, db') = reserve month ids tenant estimated purpose now db in
        (d.allowed ≡ false) × (d.reservation_id ≡ none) × (db' ≡ db)
  unfolding reserve is_frozen
  frozen_refuses tenant estimated purpose db h = ground arith

  -- After the kill switch of a known tenant every call of `reserve` for that tenant is refused, gets
  -- no reservation and writes nothing, whatever its budgets.
  pub kill_switch_stops :
      (tenant : TenantContext) (reason : String) (at : Time) (estimated : ℤ) (purpose : String)
      (db : Db) {row : Tenant}
      → tenant_row tenant.tenant_id db ≡ some row
      → let killed = kill_switch tenant reason at db in
        let (d, db') = reserve month ids tenant estimated purpose now killed in
        (d.allowed ≡ false) × (d.reservation_id ≡ none) × (db' ≡ killed)
  kill_switch_stops tenant reason at estimated purpose db known =
      frozen_refuses tenant estimated purpose (kill_switch tenant reason at db)
        (frozen_after tenant reason at db known)

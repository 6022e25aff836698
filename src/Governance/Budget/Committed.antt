-- ===== src/Governance/Budget/Committed.antt =====
-- What a budget has committed in its current period, and what the checks of `reserve` say of it.
use mathlib.Core.Path.{ap₂}
use azienda.Base.{
  select, ℕ, ◌+◌, ◌≡◌, refl, ap, ◌∙◌, subst, Bool, ◌&&◌, Option, none, some, List, [], ◌∷◌, ◌++◌,
  arith, ◌==◌, inl, inr, Bool-cases, Option-cases, find, All, All-map, ◌⊎◌,
}
use azienda.Base.Int.{ℤ, pos, pos_part, ltb_ℤ, ◌≤ℤ◌, ◌-ℤ◌}
use azienda.Contracts.{Time}
use azienda.Governance.Budget.{
  Months, Budget, BudgetPeriod, Reservation, sum_reserved, held_by, Db, Ids, passed, period_bounds,
  held_credits, new_period, current_period, check_budgets, lower_of, first_of_two,
}

module _ (month : Months) (ids : Ids) (now : Time) where
  -- the current period of a budget and what is used of it
  abbrev pub seat : Budget → Db → ℕ × ℕ
  seat b db = let p = (current_period month ids b now db).0 in (p.id, p.credits_used)

  -- what is used and held
  abbrev pub committed : Budget → Db → ℕ
  committed b db = let (id, used) = seat b db in used + held_credits b.id id db

  abbrev starts : Budget → BudgetPeriod → Bool
  starts b p = p.budget_id == b.id && p.starts_at == (period_bounds month b.period now).0

  -- the period of `b` after one of `c` may have been added
  find_added :
      (b c : Budget) (ps : List BudgetPeriod) (d : BudgetPeriod)
      → find (starts c) ps ≡ none
      → d ≡ new_period month ids c now
      → ((find (starts b) (ps ++ d ∷ []) ≡ find (starts b) ps))
        ⊎ ((find (starts b) ps ≡ none) × (find (starts b) (ps ++ d ∷ []) ≡ some d) × (b.id ≡ c.id))
  find_added b c [] d missing e = ground arith
  find_added b c (p ∷ ps) d missing e = ground (arith, find_added b c ps d)

  kept :
      (c : Budget) (db : Db) (p : BudgetPeriod)
      → find (starts c) db.periods ≡ some p
      → (current_period month ids c now db).1 ≡ db
  unfolding current_period
  kept c db p found = rw (found, current_period)

  seat-current_period :
      (b c : Budget) (db : Db) → seat b (current_period month ids c now db).1 ≡ seat b db
  unfolding current_period
  seat-current_period b c db = elim (Option-cases (find (starts c) db.periods)) [
    | inr (p, found) ↦ ap (λ (d : Db). seat b d) (kept c db p found)
    | inl missing ↦ elim (find_added b c db.periods (new_period month ids c now) missing refl) [
      | inl same ↦ ground arith
      | inr (none_yet, added, e) ↦ ground arith
    ]
  ]

  abbrev pub Fits : ℤ → Db → Budget → Type 0
  Fits estimated db b = pos (committed b db + pos_part estimated) ≤ℤ b.credit_limit

  reservations-current_period :
      (c : Budget) (db : Db) → (current_period month ids c now db).1.reservations ≡ db.reservations
  unfolding current_period
  reservations-current_period c db = ground arith

  held-same :
      (i j : ℕ) (a b : Db)
      → a.reservations ≡ b.reservations
      → held_credits i j a ≡ held_credits i j b
  unfolding held_credits
  held-same i j a b e = rw e

  -- what a budget has committed depends on its seat and the reservations alone
  pub committed-same :
      (b : Budget) (x y : Db)
      → seat b x ≡ seat b y
      → x.reservations ≡ y.reservations
      → committed b x ≡ committed b y
  unfolding held_credits
  committed-same b x y e f =
      ap₂ (λ (s : ℕ × ℕ) (rs : List Reservation). s.1 + sum_reserved (select (held_by b.id s.0) rs))
        e f

  committed-current_period :
      (b c : Budget) (db : Db) → committed b (current_period month ids c now db).1 ≡ committed b db
  committed-current_period b c db =
      committed-same b (current_period month ids c now db).1 db (seat-current_period b c db)
        (reservations-current_period c db)

  -- a passed check: every budget had room, no reservation was written, and what the budgets have
  -- committed is as before
  pub check_budgets_passed :
      (estimated : ℤ) (bs : List Budget) (w : Option ℤ) (c : Option (Budget × BudgetPeriod))
      (db db' : Db) {w' : Option ℤ} {c' : Option (Budget × BudgetPeriod)}
      → check_budgets month ids estimated now bs w c db ≡ (passed w' c', db')
      → All (Fits estimated db) bs
        × (db'.reservations ≡ db.reservations)
        × ((b : Budget) → seat b db' ≡ seat b db)
  unfolding check_budgets
  check_budgets_passed estimated [] w c db db' e =
      let same : db' ≡ db = ground arith in
      (tt, ap (λ (d : Db). d.reservations) same, λ b. ap (λ (d : Db). seat b d) same)
  check_budgets_passed estimated (b ∷ bs) w c db db' e =
      let (p, db₁) = current_period month ids b now db in
      let used = p.credits_used + held_credits b.id p.id db₁ in
      elim (Bool-cases (ltb_ℤ b.credit_limit (pos (used + pos_part estimated)))) [
        | inl over ↦ cc (rw (over, check_budgets) at e)
        | inr room ↦
            let (fits, kept_rows, kept_seats) =
              check_budgets_passed estimated bs (some (lower_of w (b.credit_limit -ℤ pos used)))
                (first_of_two c (b, p)) db₁ db' (rw (room, check_budgets) at e) in
            (
              (
                ground (arith, held-same b.id p.id db₁ db (reservations-current_period b db)),
                All-map (Fits estimated db₁) (Fits estimated db) bs
                    (λ x f.
                      subst (λ n. pos (n + pos_part estimated) ≤ℤ x.credit_limit)
                        (committed-current_period x b db) f)
                    fits,
              ),
              kept_rows ∙ reservations-current_period b db,
              λ x. kept_seats x ∙ seat-current_period x b db,
            )
      ]

  -- a budget that was chosen stays the chosen one
  pub check_budgets_chosen :
      (estimated : ℤ) (bs : List Budget) (w : Option ℤ) (x : Budget × BudgetPeriod) (db db' : Db)
      {w' : Option ℤ} {c' : Option (Budget × BudgetPeriod)}
      → check_budgets month ids estimated now bs w (some x) db ≡ (passed w' c', db')
      → c' ≡ some x
  unfolding check_budgets
  check_budgets_chosen estimated [] w x db db' e = ground arith
  check_budgets_chosen estimated (b ∷ bs) w x db db' e =
      let (p, db₁) = current_period month ids b now db in
      let used = p.credits_used + held_credits b.id p.id db₁ in
      elim (Bool-cases (ltb_ℤ b.credit_limit (pos (used + pos_part estimated)))) [
        | inl over ↦ cc (rw (over, check_budgets) at e)
        | inr room ↦
            check_budgets_chosen estimated bs (some (lower_of w (b.credit_limit -ℤ pos used))) x db₁
              db' (rw (room, check_budgets) at e)
      ]

-- ===== src/Governance/Budget/Calendar.antt =====
-- The bounds of a day, of a week and of a month.
use azienda.Base.{
  ℕ, ◌⊎◌, ◌↔◌, inl, inr, Bool-cases, ◌==◌, refl, subst, leb, ltb, sym, true, ◌+◌, ◌*◌, ◌≤◌, ◌<◌,
  arith, ◌≡◌,
}
use azienda.Contracts.{Time}
use azienda.Governance.Budget.{
  Months, month_bounds, monthly, daily, weekly, period_bounds, day, weekday,
}

-- From the second week of the epoch on, the current day and the current week of a budget begin at or
-- before the time and end after it; they last a day and seven days, and the week begins on a Monday.
pub period_bounds_contain :
    (month : Months) (now : Time)
    → 7 * day ≤ now
    → let (d, d') = period_bounds month daily now in
      let (w, w') = period_bounds month weekly now in
      (d ≤ now)
      × (now < d')
      × (d' ≡ d + day)
      × (w ≤ now)
      × (now < w')
      × (w' ≡ w + 7 * day)
      × (weekday w ≡ 0)
unfolding period_bounds
period_bounds_contain month now late =
    (omega arith, omega arith, omega arith, omega arith, omega arith, omega arith, omega arith)

-- the order of a year and a month
abbrev pub IsUpTo : ℕ → ℕ → ℕ → ℕ → Type 0
IsUpTo y m y' m' = (y < y') ⊎ ((y ≡ y') × (m ≤ m'))

-- `datetime` counts twelve months a year, and a month has begun at a time exactly if it is the month of
-- the time or an earlier one
pub record IsCalendar (month : Months) : Type 0 where
  pub first : (t : Time) → 1 ≤ month.month_of t
  pub last : (t : Time) → month.month_of t ≤ 12
  pub begun :
      (t : Time) (y m : ℕ)
      → 1 ≤ m
      → m ≤ 12
      → (month.first_of y m ≤ t) ↔ IsUpTo y m (month.year_of t) (month.month_of t)

module _ (month : Months) (calendar : IsCalendar month) where
  -- `t` is in a later month than `now`
  abbrev Later : Time → Time → Type 0
  Later now t =
      (month.year_of now < month.year_of t)
      ⊎ ((month.year_of now ≡ month.year_of t) × (month.month_of now < month.month_of t))

  next_begins : (now t : Time) → ((month_bounds month now).1 ≤ t) ↔ Later now t
  next_begins now t = elim (Bool-cases (month.month_of now == 12)) [
    | inl december ↦ rw december (
        let at = calendar.begun t (month.year_of now + 1) 1 (omega arith) (omega arith) in
        (λ h. to_december (at.0 h), λ h. at.1 (of_december december h)))
    | inr other ↦ rw other (
        let at =
          calendar.begun t (month.year_of now) (month.month_of now + 1) (omega arith)
            (ground (arith, calendar.last now)) in
        (λ h. to_other (at.0 h), λ h. at.1 (of_other h)))
  ]
    where
      to_december :
          IsUpTo (month.year_of now + 1) 1 (month.year_of t) (month.month_of t) → Later now t
      to_december (inl h) = inl (omega (arith, h))
      to_december (inr (h, _)) = inl (omega (arith, h))

      of_december :
          (month.month_of now == 12) ≡ true
          → Later now t
          → IsUpTo (month.year_of now + 1) 1 (month.year_of t) (month.month_of t)
      of_december d (inl h) = elim (Bool-cases (ltb (month.year_of now + 1) (month.year_of t))) [
        | inl far ↦ inl (ground arith)
        | inr near ↦ inr (ground (arith, h), calendar.first t)
      ]
      of_december d (inr (_, h)) = absurd (ground (arith, h, calendar.last t))

      to_other :
          IsUpTo (month.year_of now) (month.month_of now + 1) (month.year_of t) (month.month_of t)
          → Later now t
      to_other (inl h) = inl h
      to_other (inr (e, h)) = inr (e, omega (arith, h))

      of_other :
          Later now t
          → IsUpTo (month.year_of now) (month.month_of now + 1) (month.year_of t) (month.month_of t)
      of_other (inl h) = inl h
      of_other (inr (e, h)) = inr (e, omega (arith, h))

  month_starts : (now : Time) → (month_bounds month now).0 ≤ now
  month_starts now =
      (calendar.begun now (month.year_of now) (month.month_of now) (calendar.first now)
          (calendar.last now)).1
        (inr (refl, omega arith))

  month_ends : (now : Time) → now < (month_bounds month now).1
  month_ends now =
      not_below (month_bounds month now).1 now λ h. not_later ((next_begins now now).0 h)
    where
      not_below : (a b : Time) → (a ≤ b → ⊥) → b < a
      not_below a b h = elim (Bool-cases (leb a b)) [
        | inl under ↦ absurd (h (ground arith))
        | inr over ↦ ground arith
      ]

      not_later : Later now now → ⊥
      not_later (inl h) = omega (arith, h)
      not_later (inr (_, h)) = omega (arith, h)

  same_month :
      (now t : Time)
      → (month_bounds month now).0 ≤ t
      → t < (month_bounds month now).1
      → month_bounds month t ≡ month_bounds month now
  same_month now t h k =
      let (e, f) =
        one
          ((calendar.begun t (month.year_of now) (month.month_of now) (calendar.first now)
              (calendar.last now)).0
            h)
          not_later in
      rw (e, f) refl
    where
      not_later : Later now t → ⊥
      not_later l = let below = (next_begins now t).1 l in omega (arith, below, k)

      one :
          IsUpTo (month.year_of now) (month.month_of now) (month.year_of t) (month.month_of t)
          → (Later now t → ⊥)
          → (month.year_of t ≡ month.year_of now) × (month.month_of t ≡ month.month_of now)
      one (inl y) n = absurd (n (inl y))
      one (inr (e, m)) n = elim (Bool-cases (ltb (month.month_of now) (month.month_of t))) [
        | inl beyond ↦ absurd (n (inr (e, ground arith)))
        | inr same ↦ (sym e, ground (arith, m))
      ]

  -- The month of a budget begins at or before the time and ends after it, in December too, and every
  -- time with the same bounds is within it and every time within it has them: where a year has
  -- twelve months, and a month has begun at a time exactly if it is not later than that of the time.
  pub month_contains :
      (now t : Time)
      → let (start, end) = period_bounds month monthly now in
        (start ≤ now)
        × (now < end)
        × (((start ≤ t) × (t < end)) ↔ (period_bounds month monthly t ≡ (start, end)))
  unfolding period_bounds
  month_contains now t = (
    month_starts now,
    month_ends now,
    (
      λ (h, k). same_month now t h k,
      λ e. subst (λ b. (b.0 ≤ t) × (t < b.1)) e (month_starts t, month_ends t),
    ),
  )

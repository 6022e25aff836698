-- ===== src/Governance/Policy/Engine/Order.antt =====
-- The rules are tried by falling priority, and the first that matches decides.
use azienda.Base.{ℕ, ◌≡◌, false, some, List, [], ◌∷◌, arith, inl, inr, Bool-cases, All, All-map}
use azienda.Base.Int.{ℤ, leb_ℤ, ◌≤ℤ◌}
use azienda.Contracts.{ActionRequest}
use azienda.Governance.Policy.Rules.{CompiledRule, rule_matches}
use azienda.Governance.Policy.Engine.{Env, Policy, insert, sort_desc}

module _ {A : Type 0} (priority : A → ℤ) where
  abbrev pub IsSorted : List A → Type 0
  IsSorted [] = Unit
  IsSorted (x ∷ xs) = All (λ y. priority y ≤ℤ priority x) xs × IsSorted xs

  insert-All :
      (P : A → Type 0) (a : A) (xs : List A) → P a → All P xs → All P (insert priority a xs)
  insert-All P a [] p h = (p, tt)
  insert-All P a (x ∷ xs) p h = elim (Bool-cases (leb_ℤ (priority x) (priority a))) [
    | inl first ↦ rw first (p, h)
    | inr later ↦ rw later (h.0, insert-All P a xs p h.1)
  ]

  insert-IsSorted : (a : A) (xs : List A) → IsSorted xs → IsSorted (insert priority a xs)
  insert-IsSorted a [] h = (tt, tt)
  insert-IsSorted a (x ∷ xs) h = elim (Bool-cases (leb_ℤ (priority x) (priority a))) [
    | inl first ↦ rw first (
      (
        ground arith,
        All-map (λ y. priority y ≤ℤ priority x) (λ y. priority y ≤ℤ priority a) xs
            (λ y below. ground arith) h.0,
      ),
      h,
    )
    | inr later ↦ rw later (
      insert-All (λ y. priority y ≤ℤ priority x) a xs (ground arith) h.0,
      insert-IsSorted a xs h.1,
    )
  ]

  pub sort_desc-IsSorted : (xs : List A) → IsSorted (sort_desc priority xs)
  unfolding sort_desc
  sort_desc-IsSorted [] = tt
  sort_desc-IsSorted (x ∷ xs) = insert-IsSorted x (sort_desc priority xs) (sort_desc-IsSorted xs)

-- what is known of each rule when `r` is the one that decides
abbrev pub Outranks : Env → ActionRequest → ℕ → CompiledRule → CompiledRule → Type 0
Outranks env req n r x =
    leb_ℤ x.priority r.priority ≡ false → rule_matches env.py x req n ≡ some false

-- ===== src/Workflows/Conditions/Compare.antt =====
-- What the comparisons of backend/app/workflows/conditions.py answer.
use azienda.Base.{
  ℕ, suc, ◌≤◌, ◌≡◌, refl, sym, subst, String, Bool, true, false, ◌||◌, not, some, List, [], ◌∷◌,
  ◌⊎◌, inl, inr, arith, str_eq, if◌then◌else◌, any, Bool-cases, Option-cases, All, eq_iff, ◌&&◌,
}
use azienda.Base.Int.{ℤ, ltb_ℤ}
use azienda.Contracts.{Value, Fields, null, flag, num, real, text, items, dict}
use azienda.Workflows.Conditions.{
  Python, Outcome, gives, raises, starved, Operand, is_value, fails, outcome_value, both, var_of,
  has_key, compare_by, resolve_path, operand, evaluate, operators, compared, one, comparison,
}
use azienda.Workflows.Conditions.Laws.{weight, Ends, evaluate-Ends}

-- the operators that order their operands or look for one in the other: all but `eq` and `ne`
abbrev pub ordering : List String
ordering = "gt" ∷ "lt" ∷ "gte" ∷ "lte" ∷ "contains" ∷ "startswith" ∷ "in" ∷ []

-- `v` is a value, or an expression that raises
abbrev Settles : (Value → Outcome) → Value → Operand → Type 0
Settles go v (is_value b) = Unit
Settles go v (fails o) = (o ≡ raises) × (go v ≡ raises)

outcome-Settles :
    (go : Value → Outcome) (v : Value) (o : Outcome)
    → Ends o
    → go v ≡ o
    → Settles go v (outcome_value o)
outcome-Settles go v (gives b) h e = tt
outcome-Settles go v raises h e = (refl, e)
outcome-Settles go v starved h e = cc

choice-Settles :
    (go : Value → Outcome) (v : Value) (c : Bool) (x y : Operand)
    → Settles go v x
    → Settles go v y
    → Settles go v (if c then x else y)
choice-Settles go v true x y h k = h
choice-Settles go v false x y h k = k

any-All :
    (P : String → Type 0) (op : String) (xs : List String)
    → All P xs
    → any (str_eq op) xs ≡ true
    → P op
any-All P op [] h e = cc
any-All P op (x ∷ xs) (p, ps) e = elim (Bool-cases (str_eq op x)) [
  | inl hit ↦ subst P (sym ((eq_iff op x).0 hit)) p
  | inr miss ↦ any-All P op xs ps (rw miss at e)
]

known : (op : String) → any (str_eq op) ordering ≡ true → any (str_eq op) operators ≡ true
known op =
    any-All (λ o. any (str_eq o) operators ≡ true) op ordering
      (refl, (refl, (refl, (refl, (refl, (refl, (refl, tt)))))))

-- an operand that is the literal `w`, or a path to it
abbrev pub Denotes : Python → Fields → Value → Value → Type 0
Denotes py context v w =
    (v ≡ w)
    ⊎ ((path : String) × (v ≡ one "var" (text path))
        × (resolve_path py context (py.str (text path)) ≡ w))

-- numbers are compared by their value
pub record ComparesNumbers (py : Python) : Type 0 where
  pub less : (m n : ℤ) → py.less (num m) (num n) ≡ some (ltb_ℤ m n)
  pub less_eq : (m n : ℤ) → py.less_eq (num m) (num n) ≡ some (not (ltb_ℤ n m))
  pub equal : (m n : ℤ) → py.equal (num m) (num n) ≡ (not (ltb_ℤ m n) && not (ltb_ℤ n m))

module _ (py : Python) (context : Fields) where
  operand-Settles :
      (go : Value → Outcome) (v : Value) → Ends (go v) → Settles go v (operand py context go v)
  operand-Settles go (dict d) h = elim (Option-cases (var_of d)) [
    | inr (path, found) ↦ rw (operand, found) tt
    | inl other ↦
        rw (operand, other)
          (choice-Settles go (dict d)
            (has_key "op" d || has_key "and" d || has_key "or" d || has_key "not" d)
            (outcome_value (go (dict d))) (is_value (dict d))
            (outcome-Settles go (dict d) (go (dict d)) h refl) tt)
  ]
  operand-Settles go null h = tt
  operand-Settles go (flag b) h = tt
  operand-Settles go (num n) h = tt
  operand-Settles go (real n) h = tt
  operand-Settles go (text t) h = tt
  operand-Settles go (items vs) h = tt

  null_left :
      (op : String) (b : Value)
      → any (str_eq op) ordering ≡ true
      → compare_by py op null b ≡ some false
  unfolding compare_by
  null_left op b =
      any-All (λ o. compare_by py o null b ≡ some false) op ordering
        (refl, (refl, (refl, (refl, (refl, (refl, (refl, tt)))))))

  null_right :
      (op : String) (a : Value)
      → any (str_eq op) ordering ≡ true
      → compare_by py op a null ≡ some false
  unfolding compare_by
  null_right op a =
      any-All (λ o. compare_by py o a null ≡ some false) op ordering
        (
          ground arith,
          (
            ground arith,
            (ground arith, (ground arith, (ground arith, (ground arith, (ground arith, tt))))),
          ),
        )

  -- the comparison of two operands with an operator that is known
  evaluate-comparison :
      (n : ℕ) (op : String) (l r : Value)
      → py.str (text op) ≡ op
      → any (str_eq op) operators ≡ true
      → evaluate py context (suc n) (comparison op l r)
        ≡ both
            (operand py context (evaluate py context n) l)
            (operand py context (evaluate py context n) r)
            (λ a b. compared (compare_by py op a b))
  unfolding evaluate
  evaluate-comparison n op l r s h = rw (s, h) refl

  Denotes-null :
      (go : Value → Outcome) (v : Value)
      → Denotes py context v null
      → operand py context go v ≡ is_value null
  Denotes-null go v (inl same) = rw same refl
  Denotes-null go v (inr (path, same, found)) = rw (same, found, operand) refl

  both-false :
      (go : Value → Outcome) (l r : Value) (x y : Operand) (f : Value → Value → Outcome)
      → Settles go l x
      → Settles go r y
      → ((a b : Value) → (x ≡ is_value a) → (y ≡ is_value b) → f a b ≡ gives false)
      → (both x y f ≡ gives false) ⊎ ((both x y f ≡ raises) × ((go l ≡ raises) ⊎ (go r ≡ raises)))
  both-false go l r (fails o) y f (e, bad) hy k = inr (e, inl bad)
  both-false go l r (is_value a) (fails o) f hx (e, bad) k = inr (e, inr bad)
  both-false go l r (is_value a) (is_value b) f hx hy k = inl (k a b refl refl)

  module _ (str_text : (s : String) → py.str (text s) ≡ s) where
    -- With enough fuel, a comparison in which an operand is null, or a path that the context does
    -- not have, is false whatever the operator, unless that is `eq` or `ne` or the other operand
    -- is an expression that raises: then it raises. `str` of a text is taken to be the text.
    pub missing_is_false :
        (op : String) (l r : Value) (n : ℕ)
        → any (str_eq op) ordering ≡ true
        → Denotes py context l null ⊎ Denotes py context r null
        → weight (comparison op l r) ≤ n
        → (evaluate py context (suc n) (comparison op l r) ≡ gives false)
          ⊎ ((evaluate py context (suc n) (comparison op l r) ≡ raises)
              × ((evaluate py context n l ≡ raises) ⊎ (evaluate py context n r ≡ raises)))
    missing_is_false op l r n h missing enough =
        rw (evaluate-comparison n op l r (str_text op) (known op h)) (
          both-false go l r (operand py context go l) (operand py context go r)
            (λ a b. compared (compare_by py op a b))
            (operand-Settles go l (evaluate-Ends py context n l (omega (arith, enough))))
            (operand-Settles go r (evaluate-Ends py context n r (omega (arith, enough)))) false_of)
      where
        go : Value → Outcome
        go = evaluate py context n

        false_of :
            (a b : Value)
            → operand py context go l ≡ is_value a
            → operand py context go r ≡ is_value b
            → compared (compare_by py op a b) ≡ gives false
        false_of a b x y = elim missing [
          | inl m ↦
              let is_null : a ≡ null = cc (x, Denotes-null go l m) in
              rw (is_null, null_left op b h) refl
          | inr m ↦
              let is_null : b ≡ null = cc (y, Denotes-null go r m) in
              rw (is_null, null_right op a h) refl
        ]

-- ===== src/Workflows/Conditions/Laws.antt =====
-- How much fuel an expression needs.
use azienda.Base.{
  ℕ, zero, suc, ◌+◌, ◌≤◌, ◌<◌, ◌≡◌, refl, sym, ap, subst, String, Bool, true, false, ◌||◌, Option,
  none, some, List, [], ◌∷◌, arith, str_eq, if◌then◌else◌, map, any, inl, inr, Bool-cases,
  Option-cases, All,
}
use mathlib.Core.Option.{some-injective}
use azienda.Contracts.{
  Value, Items, Fields, null, flag, num, real, text, items, dict, nil, cons, end, field, get,
  get_or, to_list,
}
use azienda.Workflows.Conditions.{
  Python, Outcome, gives, raises, starved, Operand, is_value, fails, negated, all_of, any_of,
  outcome_value, both, var_of, has_key, compare_by, resolve_path, operand, operation, of_list,
  by_shape, evaluate, operators, compared,
}

-- how much there is to evaluate
abbrev mutual
  pub weight : Value → ℕ
  weight (items vs) = suc (weight_items vs)
  weight (dict d) = suc (weight_fields d)
  weight _ = 0

  weight_items : Items → ℕ
  weight_items nil = 0
  weight_items (cons v vs) = weight v + weight_items vs

  weight_fields : Fields → ℕ
  weight_fields end = 0
  weight_fields (field k v d) = weight v + weight_fields d

weight-get : (k : String) (d : Fields) (v : Value) → get k d ≡ some v → weight v ≤ weight_fields d
weight-get k end v e = cc
weight-get k (field j w d) v e = elim (Bool-cases (str_eq j k)) [
  | inl hit ↦
      let same : weight w ≡ weight v = ap weight (some-injective w v (rw hit at e)) in
      omega (arith, same)
  | inr miss ↦ omega (arith, weight-get k d v (rw miss at e))
]

abbrev pub is_starved : Outcome → Bool
is_starved starved = true
is_starved _ = false

abbrev pub Ends : Outcome → Type 0
Ends o = is_starved o ≡ false

compared-Ends : (o : Option Bool) → Ends (compared o)
compared-Ends none = refl
compared-Ends (some b) = refl

negated-Ends : (o : Outcome) → Ends o → Ends (negated o)
negated-Ends (gives b) h = refl
negated-Ends raises h = refl
negated-Ends starved h = h

all_of-Ends : (os : List Outcome) → All Ends os → Ends (all_of os)
all_of-Ends [] h = refl
all_of-Ends (gives true ∷ os) (_, h) = all_of-Ends os h
all_of-Ends (gives false ∷ os) h = refl
all_of-Ends (raises ∷ os) h = refl
all_of-Ends (starved ∷ os) (h, _) = h

any_of-Ends : (os : List Outcome) → All Ends os → Ends (any_of os)
any_of-Ends [] h = refl
any_of-Ends (gives true ∷ os) h = refl
any_of-Ends (gives false ∷ os) (_, h) = any_of-Ends os h
any_of-Ends (raises ∷ os) h = refl
any_of-Ends (starved ∷ os) (h, _) = h

members_end :
    (go : Value → Outcome) (m : ℕ) (vs : Items)
    → ((v : Value) → weight v ≤ m → Ends (go v))
    → weight_items vs ≤ m
    → All Ends (map go (to_list vs))
members_end go m nil ends le = tt
members_end go m (cons v vs) ends le =
    (ends v (omega (arith, le)), members_end go m vs ends (omega (arith, le)))

of_list-Ends :
    (py : Python) (context : Fields) (combine : List Outcome → Outcome) (go : Value → Outcome)
    (m : ℕ) (v : Value)
    → ((os : List Outcome) → All Ends os → Ends (combine os))
    → ((v : Value) → weight v ≤ m → Ends (go v))
    → weight v ≤ m
    → Ends (of_list py context combine go v)
of_list-Ends py context combine go m (items vs) end_of ends le =
    end_of (map go (to_list vs)) (members_end go m vs ends (omega (arith, le)))
of_list-Ends py context combine go m null end_of ends le = refl
of_list-Ends py context combine go m (flag b) end_of ends le = refl
of_list-Ends py context combine go m (num n) end_of ends le = refl
of_list-Ends py context combine go m (real n) end_of ends le = refl
of_list-Ends py context combine go m (text t) end_of ends le = refl
of_list-Ends py context combine go m (dict d) end_of ends le = refl

-- an operand that fails has an outcome
abbrev OperandEnds : Operand → Type 0
OperandEnds (is_value v) = Unit
OperandEnds (fails o) = Ends o

outcome_operand : (o : Outcome) → Ends o → OperandEnds (outcome_value o)
outcome_operand (gives b) h = tt
outcome_operand raises h = refl
outcome_operand starved h = h

both-Ends :
    (x y : Operand) (f : Value → Value → Outcome)
    → OperandEnds x
    → OperandEnds y
    → ((a b : Value) → Ends (f a b))
    → Ends (both x y f)
both-Ends (fails o) y f hx hy k = hx
both-Ends (is_value a) (fails o) f hx hy k = hy
both-Ends (is_value a) (is_value b) f hx hy k = k a b

choice_operand :
    (c : Bool) (x y : Operand) → OperandEnds x → OperandEnds y → OperandEnds (if c then x else y)
choice_operand true x y h k = h
choice_operand false x y h k = k

module _ (py : Python) (context : Fields) (go : Value → Outcome) where
  operand_ends : (v : Value) → Ends (go v) → OperandEnds (operand py context go v)
  operand_ends (dict d) h = elim (Option-cases (var_of d)) [
    | inr (path, found) ↦ subst OperandEnds (sym (named path found)) tt
    | inl other ↦ subst OperandEnds (sym (nested other)) (
        choice_operand is_expression (outcome_value (go (dict d))) (is_value (dict d))
          (outcome_operand (go (dict d)) h) tt)
  ]
    where
      is_expression : Bool
      is_expression = has_key "op" d || has_key "and" d || has_key "or" d || has_key "not" d

      named :
          (path : Value)
          → var_of d ≡ some path
          → operand py context go (dict d) ≡ is_value (resolve_path py context (py.str path))
      named path found = rw (operand, found) refl

      nested :
          var_of d ≡ none
          → operand py context go (dict d)
            ≡ (if is_expression then outcome_value (go (dict d)) else is_value (dict d))
      nested other = rw (operand, other) refl
  operand_ends null h = tt
  operand_ends (flag b) h = tt
  operand_ends (num n) h = tt
  operand_ends (real n) h = tt
  operand_ends (text t) h = tt
  operand_ends (items vs) h = tt

  get_or-Ends :
      (k : String) (d : Fields)
      → ((v : Value) → weight v ≤ weight_fields d → Ends (go v))
      → OperandEnds (operand py context go (get_or k d null))
  get_or-Ends k d ends = elim (Option-cases (get k d)) [
    | inl missing ↦ subst (λ x. OperandEnds (operand py context go x)) (sym (absent missing)) tt
    | inr (v, found) ↦
        subst (λ x. OperandEnds (operand py context go x)) (sym (present v found))
          (operand_ends v (ends v (weight-get k d v found)))
  ]
    where
      absent : get k d ≡ none → get_or k d null ≡ null
      absent e = rw (get_or, e) refl

      present : (v : Value) → get k d ≡ some v → get_or k d null ≡ v
      present v e = rw (get_or, e) refl

  by_shape-Ends :
      (d : Fields)
      → ((v : Value) → weight v ≤ weight_fields d → Ends (go v))
      → Ends (by_shape py context go d)
  by_shape-Ends d ends = elim (Option-cases (var_of d)) [
    | inr (path, found) ↦ rw (by_shape, found) refl
    | inl no_var ↦ elim (Option-cases (get "and" d)) [
      | inr (vs, found) ↦
          rw (by_shape, no_var, found)
            (of_list-Ends py context all_of go (weight_fields d) vs all_of-Ends ends
              (weight-get "and" d vs found))
      | inl no_and ↦ elim (Option-cases (get "or" d)) [
        | inr (vs, found) ↦
            rw (by_shape, no_var, no_and, found)
              (of_list-Ends py context any_of go (weight_fields d) vs any_of-Ends ends
                (weight-get "or" d vs found))
        | inl no_or ↦ elim (Option-cases (get "not" d)) [
          | inr (v, found) ↦
              rw (by_shape, no_var, no_and, no_or, found)
                (negated-Ends (go v) (ends v (weight-get "not" d v found)))
          | inl no_not ↦ elim (Option-cases (get "op" d)) [
            | inl no_op ↦ rw (by_shape, no_var, no_and, no_or, no_not, operation, no_op) refl
            | inr (op, found) ↦ elim (Bool-cases (any (str_eq (py.str op)) operators)) [
              | inr unknown ↦
                  rw (by_shape, no_var, no_and, no_or, no_not, operation, found, unknown) refl
              | inl known ↦
                  rw (by_shape, no_var, no_and, no_or, no_not, operation, found, known)
                    (both-Ends (operand py context go (get_or "left" d null))
                      (operand py context go (get_or "right" d null))
                      (λ a b. compared (compare_by py (py.str op) a b)) (get_or-Ends "left" d ends)
                      (get_or-Ends "right" d ends)
                      (λ a b. compared-Ends (compare_by py (py.str op) a b)))
            ]
          ]
        ]
      ]
    ]
  ]

-- Fuel above the weight of an expression is enough for it: the evaluation gives a Boolean or raises.
pub evaluate-Ends :
    (py : Python) (context : Fields) (n : ℕ) (v : Value)
    → weight v < n
    → Ends (evaluate py context n v)
unfolding evaluate
evaluate-Ends py context zero v h = let never : suc zero ≡ zero = omega (arith, h) in cc
evaluate-Ends py context (suc n) (dict d) h =
    by_shape-Ends py context (evaluate py context n) d
      (λ v le. evaluate-Ends py context n v (omega (arith, le, h)))
evaluate-Ends py context (suc n) null h = refl
evaluate-Ends py context (suc n) (flag b) h = refl
evaluate-Ends py context (suc n) (num k) h = refl
evaluate-Ends py context (suc n) (real k) h = refl
evaluate-Ends py context (suc n) (text t) h = refl
evaluate-Ends py context (suc n) (items vs) h = refl

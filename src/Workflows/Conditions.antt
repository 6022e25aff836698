-- ===== src/Workflows/Conditions.antt =====
-- backend/app/workflows/conditions.py: the expressions of condition nodes. A recursion of the source is
-- one unit of fuel.
mod Laws
pub mod Compare
mod Tests
use azienda.Base.{
  ℕ, zero, suc, ◌+◌, ◌≡◌, refl, String, Bool, true, false, ◌&&◌, ◌||◌, not, Option, none, some,
  List, [], ◌∷◌, str_eq, if◌then◌else◌, map, any, is_some,
}
use azienda.Contracts.{
  Value, Items, Fields, null, flag, num, real, text, items, dict, nil, cons, end, field, get,
  get_or, to_list, truthy,
}

-- what the code takes from Python: `==`, `<` and `<=` (`none` for a TypeError), `b in a`, `str(v)`,
-- `s.startswith(p)` and `path.split(".")`
pub record Python : Type 0 where
  pub equal : Value → Value → Bool
  pub less : Value → Value → Option Bool
  pub less_eq : Value → Value → Option Bool
  pub member : Value → Value → Option Bool
  pub str : Value → String
  pub starts_with : String → String → Bool
  pub split_dots : String → List String

-- a Boolean, an ExpressionError, or no fuel
pub data Outcome : Type 0 where
  gives : Bool → Outcome
  raises starved : Outcome

-- an operand is a value where it is no expression that raises
pub data Operand : Type 0 where
  is_value : Value → Operand
  fails : Outcome → Operand

-- the loop of `resolve_path`
abbrev walk : List String → Value → Value
walk [] v = v
walk (p ∷ ps) v = elim v [ dict d ↦ elim (get p d) [ none ↦ null | some w ↦ walk ps w ] | _ ↦ null ]

-- `resolve_path`
pub resolve_path : Python → Fields → String → Value
resolve_path py context path = walk (py.split_dots path) (dict context)

-- a comparison that raises TypeError is False
abbrev or_false : Option Bool → Option Bool
or_false none = some false
or_false (some b) = some b

abbrev is_null : Value → Bool
is_null null = true
is_null _ = false

abbrev ordered : Value → Value → Option Bool → Option Bool
ordered a b o = if is_null a || is_null b then some false else or_false o

-- `_compare`; `none` is the ExpressionError
pub compare_by : Python → String → Value → Value → Option Bool
compare_by py op a b =
    if str_eq op "eq"
    then some (py.equal a b)
    else if str_eq op "ne"
    then some (not (py.equal a b))
    else if str_eq op "gt"
    then ordered a b (py.less b a)
    else if str_eq op "lt"
    then ordered a b (py.less a b)
    else if str_eq op "gte"
    then ordered a b (py.less_eq b a)
    else if str_eq op "lte"
    then ordered a b (py.less_eq a b)
    else if str_eq op "contains"
    then ordered a b (py.member b a)
    else if str_eq op "startswith"
    then ordered a b (some (py.starts_with (py.str a) (py.str b)))
    else if str_eq op "in"
    then ordered a b (py.member a b)
    else none

abbrev pub compared : Option Bool → Outcome
compared none = raises
compared (some b) = gives b

abbrev pub operators : List String
operators = "eq" ∷ "ne" ∷ "gt" ∷ "lt" ∷ "gte" ∷ "lte" ∷ "contains" ∷ "startswith" ∷ "in" ∷ []

-- `set(expr.keys()) == {"var"}`
abbrev pub var_of : Fields → Option Value
var_of (field k v end) = if str_eq k "var" then some v else none
var_of _ = none

abbrev pub has_key : String → Fields → Bool
has_key k d = is_some (get k d)

abbrev pub negated : Outcome → Outcome
negated (gives b) = gives (not b)
negated raises = raises
negated starved = starved

-- `all` and `any` of the outcomes, with their early end
abbrev pub all_of : List Outcome → Outcome
all_of [] = gives true
all_of (o ∷ os) =
    let rest = all_of os in
    elim o [ gives b ↦ if b then rest else gives false | raises ↦ raises | starved ↦ starved ]

abbrev pub any_of : List Outcome → Outcome
any_of [] = gives false
any_of (o ∷ os) =
    let rest = any_of os in
    elim o [ gives b ↦ if b then gives true else rest | raises ↦ raises | starved ↦ starved ]

abbrev pub outcome_value : Outcome → Operand
outcome_value (gives b) = is_value (flag b)
outcome_value o = fails o

abbrev pub both : Operand → Operand → (Value → Value → Outcome) → Outcome
both (fails o) b f = o
both (is_value x) (fails o) f = o
both (is_value x) (is_value y) f = f x y

module _ (py : Python) (context : Fields) where
  -- `_operand`, `go` being `evaluate`
  abbrev pub operand : (Value → Outcome) → Value → Operand
  operand go v = elim v [
    | dict d ↦ elim (var_of d) [
      | some path ↦ is_value (resolve_path py context (py.str path))
      | none ↦
          if has_key "op" d || has_key "and" d || has_key "or" d || has_key "not" d
          then outcome_value (go (dict d))
          else is_value (dict d)
    ]
    | w ↦ is_value w
  ]

  abbrev pub operation : (Value → Outcome) → Fields → Outcome
  operation go d = elim (get "op" d) [
    | none ↦ raises
    | some op ↦
        if any (str_eq (py.str op)) operators
        then both (operand go (get_or "left" d null)) (operand go (get_or "right" d null))
            (λ a b. compared (compare_by py (py.str op) a b))
        else raises
  ]

  abbrev pub of_list : (List Outcome → Outcome) → (Value → Outcome) → Value → Outcome
  of_list combine go (items vs) = combine (map go (to_list vs))
  of_list combine go _ = raises

  abbrev pub by_shape : (Value → Outcome) → Fields → Outcome
  by_shape go d = elim (var_of d) [
    | some path ↦ gives (truthy (resolve_path py context (py.str path)))
    | none ↦ elim (get "and" d) [
      | some vs ↦ of_list all_of go vs
      | none ↦ elim (get "or" d) [
        | some vs ↦ of_list any_of go vs
        | none ↦ elim (get "not" d) [ some v ↦ negated (go v) | none ↦ operation go d ]
      ]
    ]
  ]

  -- `evaluate`
  unfoldable pub evaluate : ℕ → Value → Outcome
  evaluate zero v = starved
  evaluate (suc n) v = elim v [ dict d ↦ by_shape (evaluate n) d | _ ↦ raises ]

-- `{k: v}`, and `{"op": op, "left": l, "right": r}`
abbrev pub one : String → Value → Value
one k v = dict (field k v end)

abbrev pub comparison : String → Value → Value → Value
comparison op l r = dict (field "op" (text op) (field "left" l (field "right" r end)))

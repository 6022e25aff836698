-- ===== src/Governance/Policy/Rules.antt =====
-- backend/app/governance/policy/engine.py: validation of requests, rules and their conditions. A
-- condition that raises (`float("x")`, a loop over a number) is `none`.
use Prim.Native.Char.{code}
use azienda.Base.{
  ℕ, suc, ◌*◌, String, Bool, true, false, ◌&&◌, ◌||◌, not, Option, none, some, List, [], ◌∷◌,
  str_eq, ltb, leb, ◌==◌, if◌then◌else◌, or_else, any, all,
}
use azienda.Base.Int.{ℤ, pos, ltb_ℤ}
use azienda.Contracts.{
  Uuid, Value, null, flag, num, text, items, dict, Fields, end, field, get, get_or, keys, size,
  truthy, to_list, ActionRequest, PolicyEffect, allow, deny, require_approval, Python, Conversion,
  refused, overflows, converted, Real, nan, finite,
}

abbrev pub max_args_keys : ℕ
max_args_keys = 200

abbrev pub max_args_bytes : ℕ
max_args_bytes = 65536

-- the characters of a text
abbrev pub codes : String → List ℕ
codes String.[] = []
codes (String.◌∷◌ c rest) = code c ∷ codes rest

abbrev pub count : List ℕ → ℕ
count [] = 0
count (_ ∷ rest) = suc (count rest)

-- `[A-Za-z0-9_.:/*?!\-]`
abbrev pub is_action_char : ℕ → Bool
is_action_char c =
    (leb b'A' c && leb c b'Z')
    || (leb b'a' c && leb c b'z')
    || (leb b'0' c && leb c b'9')
    || c == b'_'
    || c == b'.'
    || c == b':'
    || c == b'/'
    || c == b'*'
    || c == b'?'
    || c == b'!'
    || c == b'-'

-- `$` also matches before one newline at the end
abbrev pub before_newline : List ℕ → List ℕ
before_newline [] = []
before_newline (c ∷ []) = if c == 10 then [] else c ∷ []
before_newline (c ∷ d ∷ rest) = c ∷ before_newline (d ∷ rest)

-- `_ACTION_RE.match(action)`
pub action_matches : String → Bool
action_matches action =
    let body = before_newline (codes action) in
    leb 1 (count body) && leb (count body) 512 && all is_action_char body

-- `validate_request`: the reason why a request is malformed
unfoldable pub validate_request : Python → ActionRequest → Option String
unfolding action_matches
validate_request py request =
    if not (action_matches request.action)
    then some "malformed action"
    else if ltb 1024 (count (codes (or_else request.resource "")))
    then some "resource exceeds 1024 chars"
    else if ltb max_args_keys (size request.args)
    then some "args exceeds 200 keys"
    else elim (py.json_len request.args) [
      | none ↦ some "args are not JSON-serializable"
      | some n ↦ if ltb max_args_bytes n then some "args exceed 64KB" else none
    ]

pub record CompiledRule : Type 0 where
  pub name : String
  pub effect : PolicyEffect
  pub priority : ℤ
  pub condition : Fields
  pub obligations : Fields
  pub reason : String
  pub policy_id : Option Uuid

-- `EFFECTS.get(...)`
abbrev pub effect_of : String → Option PolicyEffect
effect_of s =
    if str_eq s "allow"
    then some allow
    else if str_eq s "deny"
    then some deny
    else if str_eq s "require_approval"
    then some require_approval
    else none

-- `v or {}`, where anything that is true and no dict is refused
abbrev pub mapping : Value → Option Fields
mapping (dict d) = some d
mapping v = if truthy v then none else some end

-- `dict(v or {})`
abbrev pub copied : Python → Value → Option Fields
copied py v = if truthy v then py.to_dict v else some end

-- `compile_rule`; `refused` where it raises ValueError, TypeError or AttributeError, and `overflows`
-- where `int` raises OverflowError, as it does on an infinity
unfoldable pub compile_rule : Python → Uuid → Value → Conversion CompiledRule
compile_rule py policy_id (dict raw) =
    elim (effect_of (py.lower (py.str (get_or "effect" raw (text ""))))) [
      | none ↦ refused
      | some effect ↦ elim (mapping (get_or "condition" raw null)) [
        | none ↦ refused
        | some condition ↦ elim (py.int (get_or "priority" raw (num (pos 100)))) [
          | refused ↦ refused
          | overflows ↦ overflows
          | converted priority ↦ elim (copied py (get_or "obligations" raw null)) [
            | none ↦ refused
            | some obligations ↦ converted (record {
              name = py.str (get_or "name" raw (text "unnamed"));
              effect = effect;
              priority = priority;
              condition = condition;
              obligations = obligations;
              reason = py.str (get_or "reason" raw (text ""));
              policy_id = some policy_id;
            })
          ]
        ]
      ]
    ]
compile_rule py policy_id _ = refused

-- `pattern.split(",")`: the piece read so far comes first
abbrev push_char : Prim.Native.Char.Char → List String → List String
push_char c [] = String.◌∷◌ c String.[] ∷ []
push_char c (s ∷ rest) = String.◌∷◌ c s ∷ rest

pub split_comma : String → List String
split_comma String.[] = "" ∷ []
split_comma (String.◌∷◌ c s) =
    let rest = split_comma s in if code c == b',' then "" ∷ rest else push_char c rest

-- the stripped pieces that are not empty
abbrev pieces : Python → List String → List Value
pieces py [] = []
pieces py (s ∷ rest) =
    let more = pieces py rest in if str_eq (py.strip s) "" then more else text (py.strip s) ∷ more

-- `any(fnmatch.fnmatch(value or "", p) for p in patterns)`
abbrev pub any_match : Python → String → List Value → Option Bool
any_match py value [] = some false
any_match py value (text p ∷ rest) =
    let more = any_match py value rest in if py.fnmatch value p then some true else more
any_match py value (_ ∷ rest) = none

pub glob_match : Python → Value → Option String → Option Bool
unfolding split_comma
glob_match py null value = some true
glob_match py (text pattern) value =
    any_match py (or_else value "") (pieces py (split_comma pattern))
glob_match py (items ps) value = any_match py (or_else value "") (to_list ps)
glob_match py (dict d) value = any_match py (or_else value "") (keys d)
glob_match py _ value = none

-- `av in v`, and `str(i) in map(str, v)` for every `i` of the list `av`
abbrev among : Python → Value → List Value → Bool
among py av vs = any (λ v. py.equal av v) vs

abbrev texts_among : Python → Value → List Value → Bool
texts_among py (items is) vs = all (λ i. any (λ v. str_eq (py.str i) (py.str v)) vs) (to_list is)
texts_among py _ vs = false

abbrev as_dict : Value → Option Fields
as_dict (dict d) = some d
as_dict _ = none

-- `_args_subset_match`
mutual
  pub args_subset : Python → Fields → Fields → Bool
  args_subset py end actual = true
  args_subset py (field k v rest) actual =
      arg_matches py v (get k actual) && args_subset py rest actual

  pub arg_matches : Python → Value → Option Value → Bool
  arg_matches py (dict d) none = false
  arg_matches py (dict d) (some (dict a)) = args_subset py d a
  arg_matches py (dict d) (some av) = py.equal av (dict d)
  arg_matches py v none = false
  arg_matches py (items vs) (some av) = among py av (to_list vs) || texts_among py av (to_list vs)
  arg_matches py v (some av) = py.equal av v

-- `for r in roles_any`
pub chars : String → List Value
chars String.[] = []
chars (String.◌∷◌ c rest) = text (String.◌∷◌ c String.[]) ∷ chars rest

abbrev pub iterate : Value → Option (List Value)
iterate (items is) = some (to_list is)
iterate (dict d) = some (keys d)
iterate (text s) = some (chars s)
iterate _ = none

abbrev is_role : List String → Value → Bool
is_role roles (text r) = any (λ s. str_eq s r) roles
is_role roles _ = false

-- `and` on conditions that may raise: the second is read only if the first holds
infixr 35 ◌then_if◌
abbrev pub ◌then_if◌ : Option Bool → Option Bool → Option Bool
none then_if q = none
some false then_if q = some false
some true then_if q = q

-- `score < bound` and `score > bound`, which are False of NaN
abbrev below : ℕ → Real → Bool
below score nan = false
below score (finite bound) = ltb_ℤ (pos (score * 10000)) bound

abbrev above : ℕ → Real → Bool
above score nan = false
above score (finite bound) = ltb_ℤ bound (pos (score * 10000))

abbrev score_condition : Python → Fields → ℕ → Option Bool
score_condition py c score = elim (py.float (get_or "min_score" c (num (pos 0)))) [
  | converted least ↦
      if below score least
      then some false
      else elim (py.float (get_or "max_score" c (num (pos 100)))) [
        | converted most ↦ some (not (above score most))
        | _ ↦ none
      ]
  | _ ↦ none
]

abbrev roles_condition : Fields → List String → Option Bool
roles_condition c roles =
    let wanted = get_or "roles_any" c null in
    if not (truthy wanted)
    then some true
    else elim (iterate wanted) [ none ↦ none | some rs ↦ some (any (is_role roles) rs) ]

abbrev args_condition : Python → Fields → Fields → Option Bool
args_condition py c args =
    let wanted = get_or "args_equals" c null in
    if not (truthy wanted)
    then some true
    else elim (as_dict wanted) [ none ↦ none | some d ↦ some (args_subset py d args) ]

-- `isinstance(v, int)`: a `bool` is an `int`
abbrev as_int : Value → Option ℤ
as_int (num n) = some n
as_int (flag true) = some (pos 1)
as_int (flag false) = some (pos 0)
as_int _ = none

abbrev autonomy_condition : Python → Fields → Fields → Option Bool
autonomy_condition py c ctx = elim (get_or "autonomy_level_max" c null) [
  | null ↦ some true
  | alm ↦ elim (as_int (get_or "autonomy_level" ctx null)) [
    | none ↦ some false
    | some level ↦ elim (py.int alm) [ converted limit ↦ some (not (ltb_ℤ limit level)) | _ ↦ none ]
  ]
]

-- `rule_matches`
unfoldable pub rule_matches : Python → CompiledRule → ActionRequest → ℕ → Option Bool
unfolding glob_match args_subset chars
rule_matches py rule request score =
    let c = rule.condition in
    glob_match py (get_or "action" c null) (some request.action)
    then_if glob_match py (get_or "resource" c null) request.resource
    then_if score_condition py c score
    then_if roles_condition c request.tenant.roles
    then_if args_condition py c request.args
    then_if autonomy_condition py c request.risk_context

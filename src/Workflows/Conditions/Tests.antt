-- ===== src/Workflows/Conditions/Tests.antt =====
-- Two expressions on a small context.
use azienda.Base.{
  some, not, ◌&&◌, ◌⊎◌, inl, inr, ◌≡◌, refl, arith, String, true, false, none, [], ◌∷◌, str_eq,
}
use azienda.Base.Int.{ℤ, pos, ltb_ℤ}
use azienda.Contracts.{null, num, Value, Fields, text, items, dict, nil, cons, end, field}
use azienda.Workflows.Conditions.{
  Python, gives, raises, evaluate, one, comparison, resolve_path, compare_by,
}
use azienda.Workflows.Conditions.Compare.{missing_is_false}

abbrev spelled : Value → String
spelled (text s) = s
spelled _ = ""

abbrev python : Python
python = record {
  equal = λ a b. str_eq (spelled a) (spelled b);
  less = λ a b. none;
  less_eq = λ a b. none;
  member = λ a b. none;
  str = spelled;
  starts_with = λ a b. str_eq a b;
  split_dots = λ s. s ∷ [];
}

abbrev context : Fields
context = field "status" (text "new") end

-- the status is new, and another operator that is unknown
abbrev is_new : Value
is_new = dict (
    field "op" (text "eq")
      (field "left" (one "var" (text "status")) (field "right" (text "new") end)))

abbrev unknown : Value
unknown = dict (field "op" (text "like") end)

t_new : evaluate python context 5 is_new ≡ gives true
unfolding evaluate resolve_path compare_by
t_new = refl

-- an `and` ends at the first operand that is false, and so does not see the unknown operator
t_short :
    evaluate python context 9 (one "and" (items (cons (one "not" is_new) (cons unknown nil))))
    ≡ gives false
unfolding evaluate resolve_path compare_by
t_short = refl

t_raises : evaluate python context 9 (one "and" (items (cons is_new (cons unknown nil)))) ≡ raises
unfolding evaluate resolve_path compare_by
t_raises = refl

no_owner : resolve_path python context "owner" ≡ null
unfolding resolve_path
no_owner = refl

-- the context has no owner
missing_is_false_example :
    (evaluate python context 6 (comparison "gt" (one "var" (text "owner")) is_new) ≡ gives false)
    ⊎ ((evaluate python context 6 (comparison "gt" (one "var" (text "owner")) is_new) ≡ raises)
        × ((evaluate python context 5 (one "var" (text "owner")) ≡ raises)
            ⊎ (evaluate python context 5 is_new ≡ raises)))
missing_is_false_example =
    missing_is_false python context (λ s. refl) "gt" (one "var" (text "owner")) is_new 5 refl
      (inl (inr ("owner", refl, no_owner))) (omega arith)

-- Python's order of numbers
abbrev valued : Value → ℤ
valued (num n) = n
valued _ = pos 0

abbrev numeric : Python
numeric = record python {
  equal = λ a b. not (ltb_ℤ (valued a) (valued b)) && not (ltb_ℤ (valued b) (valued a));
  less = λ a b. some (ltb_ℤ (valued a) (valued b));
  less_eq = λ a b. some (not (ltb_ℤ (valued b) (valued a)));
}

abbrev order : Fields
order = field "amount" (num (pos 7)) end

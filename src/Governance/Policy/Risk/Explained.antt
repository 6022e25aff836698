-- ===== src/Governance/Policy/Risk/Explained.antt =====
-- A score can be derived again from the factors that are recorded with it.
use Prim.Native.Nat.{min}
use azienda.Base.{
  ℕ, ◌+◌, ◌≡◌, refl, ap, String, Bool, true, false, List, [], ◌∷◌, ◌++◌, arith, str_eq,
  if◌then◌else◌, All, Bool-cases, inl, inr, Option, some,
}
use azienda.Base.Int.{ℤ, pos, leb_ℤ, ltb_ℤ}
use azienda.Contracts.{
  Factor, Fields, ActionRequest, RiskScore, finite, Python, Value, null, flag, num, get_or,
}
use azienda.Governance.Policy.Risk.{
  Keyword, Accumulator, destructive, bulk, external, financial, data_access, plain, add,
  score_keywords, score_tables, tables, haystack, score_action_text, score_financials,
  score_context, accumulate, amount_of, occurs, fresh_accumulator, score, impact, score_sensitivity,
  autonomy_points, irreversible_points, sensitive, scored, RiskScoreRecord,
}

-- the points of a label, by the tables and by the passes over amounts and context
points_in : String → List Keyword → ℕ → ℕ
points_in label [] otherwise = otherwise
points_in label (k ∷ ks) otherwise =
    let rest = points_in label ks otherwise in if str_eq label k.factor then k.points else rest

pub points_of : Factor → ℕ
unfolding points_in
points_of f = points_in f.label (destructive ++ bulk ++ external ++ financial ++ data_access) (
    if str_eq f.label "financial-impact:>=1000usd"
    then 20
    else if str_eq f.label "data-sensitivity"
    then 15
    else 10)

pub total : List Factor → ℕ
unfolding points_of
total [] = 0
total (f ∷ fs) = points_of f + total fs

total-append : (fs gs : List Factor) → total (fs ++ gs) ≡ total fs + total gs
unfolding total
total-append [] gs = omega arith
total-append (f ∷ fs) gs = omega (arith, total-append fs gs)

-- the score is the total of the factors, and reversibility is only ever taken away
record IsExplained (acc : Accumulator) : Type 0 where
  sums : acc.score ≡ total acc.factors

add-IsExplained :
    (points : ℕ) (f : Factor) (b : Bool) (acc : Accumulator)
    → points_of f ≡ points
    → IsExplained acc
    → IsExplained (add points f b acc)
unfolding add
add-IsExplained points f b acc e h = record {
  sums = unfold total in omega (arith, total-append acc.factors (f ∷ []), h.sums, e);
}

HasPoints : Keyword → Type 0
HasPoints k = points_of (plain k.factor) ≡ k.points

score_keywords-IsExplained :
    (hay : String) (ks : List Keyword) (acc : Accumulator)
    → All HasPoints ks
    → IsExplained acc
    → IsExplained (score_keywords hay ks acc)
unfolding score_keywords HasPoints
score_keywords-IsExplained hay [] acc t h = h
score_keywords-IsExplained hay (k ∷ ks) acc (t, ts) h = elim (Bool-cases (occurs k.word hay)) [
  | inl hit ↦ rw hit (
      score_keywords-IsExplained hay ks (add k.points (plain k.factor) k.reversible acc) ts
        (add-IsExplained k.points (plain k.factor) k.reversible acc t h))
  | inr miss ↦ rw miss (score_keywords-IsExplained hay ks acc ts h)
]

destructive-HasPoints : All HasPoints destructive
unfolding HasPoints points_of
destructive-HasPoints = (refl, (refl, (refl, (refl, (refl, tt)))))

bulk-HasPoints : All HasPoints bulk
unfolding HasPoints points_of
bulk-HasPoints = (refl, (refl, (refl, tt)))

external-HasPoints : All HasPoints external
unfolding HasPoints points_of
external-HasPoints = (refl, (refl, (refl, (refl, (refl, tt)))))

financial-HasPoints : All HasPoints financial
unfolding HasPoints points_of
financial-HasPoints = (refl, (refl, (refl, (refl, (refl, (refl, (refl, tt)))))))

data_access-HasPoints : All HasPoints data_access
unfolding HasPoints points_of
data_access-HasPoints = (refl, (refl, (refl, (refl, (refl, tt)))))

score_tables-IsExplained :
    (hay : String) (ts : List (List Keyword)) (acc : Accumulator)
    → All (λ t. All HasPoints t) ts
    → IsExplained acc
    → IsExplained (score_tables hay ts acc)
unfolding score_tables
score_tables-IsExplained hay [] acc h e = e
score_tables-IsExplained hay (t ∷ ts) acc (p, ps) e =
    score_tables-IsExplained hay ts (score_keywords hay t acc) ps
      (score_keywords-IsExplained hay t acc p e)

score_action_text-IsExplained :
    (py : Python) (action : String) (resource : Option String) (acc : Accumulator)
    → IsExplained acc
    → IsExplained (score_action_text py action resource acc)
unfolding score_action_text
score_action_text-IsExplained py action resource acc =
    score_tables-IsExplained (haystack py action resource) tables acc (
      destructive-HasPoints,
      (bulk-HasPoints, (external-HasPoints, (financial-HasPoints, (data_access-HasPoints, tt)))),
    )

impact-IsExplained : (amt : ℤ) (acc : Accumulator) → IsExplained acc → IsExplained (impact amt acc)
impact-IsExplained amt acc h = elim (Bool-cases (leb_ℤ (pos 10000000) amt)) [
  | inl large ↦ rw large (add-IsExplained 20 _ false acc (unfold points_of in refl) h)
  | inr small ↦ elim (Bool-cases (leb_ℤ (pos 1000000) amt)) [
    | inl middling ↦
        rw (small, middling) (add-IsExplained 10 _ true acc (unfold points_of in refl) h)
    | inr slight ↦ rw (small, slight) h
  ]
]

score_financials-IsExplained :
    (py : Python) (req : ActionRequest) (acc : Accumulator)
    → (amt : ℤ) → amount_of py req.args ≡ finite amt
    → IsExplained acc
    → (acc' : Accumulator) × (score_financials py req acc ≡ some acc') × IsExplained acc'
unfolding score_financials
score_financials-IsExplained py req acc amt e h = elim (Bool-cases (ltb_ℤ (pos 0) amt)) [
  | inl positive ↦
      let acc' = record acc { financial_impact = amt } in
      (
        impact amt acc',
        rw (e, positive, score_financials) refl,
        impact-IsExplained amt acc' (record { sums = h.sums }),
      )
  | inr none_due ↦ (acc, rw (e, none_due, score_financials) refl, h)
]

score_sensitivity-IsExplained :
    (ctx : Fields) (acc : Accumulator) → IsExplained acc → IsExplained (score_sensitivity ctx acc)
score_sensitivity-IsExplained ctx acc h =
    elim (Bool-cases (sensitive (get_or "data_sensitivity" ctx null))) [
      | inl hit ↦ rw hit (add-IsExplained 15 _ true acc (unfold points_of in refl) h)
      | inr miss ↦ rw miss h
    ]

autonomy_value-IsExplained :
    (v : Value) (acc : Accumulator) → IsExplained acc → IsExplained (autonomy_points v acc)
autonomy_value-IsExplained (num n) acc h = elim (Bool-cases (leb_ℤ (pos 4) n)) [
  | inl hit ↦ rw hit (add-IsExplained 10 _ true acc (unfold points_of in refl) h)
  | inr miss ↦ rw miss h
]
autonomy_value-IsExplained _ acc h = h

irreversible_value-IsExplained :
    (v : Value) (acc : Accumulator) → IsExplained acc → IsExplained (irreversible_points v acc)
irreversible_value-IsExplained (flag false) acc h =
    add-IsExplained 10 _ true _ (unfold points_of in refl) (record { sums = h.sums })
irreversible_value-IsExplained _ acc h = h

score_context-IsExplained :
    (req : ActionRequest) (acc : Accumulator)
    → IsExplained acc
    → IsExplained (score_context req acc)
unfolding score_context
score_context-IsExplained req acc h =
    let ctx = req.risk_context in
    let one = score_sensitivity ctx acc in
    let two = autonomy_points (get_or "autonomy_level" ctx null) one in
    irreversible_value-IsExplained (get_or "reversible" ctx null) two (
      autonomy_value-IsExplained (get_or "autonomy_level" ctx null) one
        (score_sensitivity-IsExplained ctx acc h))

accumulate-IsExplained :
    (py : Python) (req : ActionRequest) (amt : ℤ)
    → amount_of py req.args ≡ finite amt
    → (acc : Accumulator) × (accumulate py req ≡ some acc) × IsExplained acc
unfolding accumulate total
accumulate-IsExplained py req amt e =
    let one = score_action_text py req.action req.resource fresh_accumulator in
    let (two, made, h) = score_financials-IsExplained py req one amt e (
      score_action_text-IsExplained py req.action req.resource fresh_accumulator
        (record { sums = refl })) in
    (score_context req two, rw (made, accumulate) refl, score_context-IsExplained req two h)

-- Where the amount in the arguments is not NaN, a score is returned: it is the total of the points
-- of the factors that are recorded with it, cut off at 100, and the row that is written holds the
-- same score and factors.
pub score-explained :
    (py : Python) (req : ActionRequest) (amt : ℤ)
    → amount_of py req.args ≡ finite amt
    → (risk : RiskScore) × (written : RiskScoreRecord) × (score py req ≡ some (risk, written))
      × (risk.score ≡ min 100 (total risk.factors))
      × (written.score ≡ risk.score)
      × (written.factors ≡ risk.factors)
unfolding score
score-explained py req amt e =
    let (acc, made, h) = accumulate-IsExplained py req amt e in
    ((scored req acc).0, (scored req acc).1, rw (made, score) refl, ap (min 100) h.sums, refl, refl)

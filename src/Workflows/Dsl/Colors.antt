-- ===== src/Workflows/Dsl/Colors.antt =====
-- What the cycle check of `validate_dag` leaves: the history of its colors.
use azienda.Base.{
  ℕ, zero, suc, ◌≡◌, ◌⊎◌, refl, sym, ap, subst, ◌∙◌, Bool, true, false, List, [], ◌∷◌, ◌==◌,
  ==_refl, eq_of_==, inl, inr, Bool-cases, All,
}
use azienda.Workflows.{NodeId, Dag}
use azienda.Workflows.Dsl.{
  Color, white, gray, black, Colors, color_of, adjacent, visit_all, dfs, any_cycle,
}

abbrev pub is_white : Color → Bool
is_white white = true
is_white _ = false

-- the colors that were given stay
abbrev pub Kept : Colors → Colors → Type 0
Kept c c' = (v : NodeId) → is_white (color_of v c) ≡ false → color_of v c' ≡ color_of v c

Kept-trans : (a b c : Colors) → Kept a b → Kept b c → Kept a c
Kept-trans a b c f g v h = g v (ap is_white (f v h) ∙ h) ∙ f v h

Kept-black : (c c' : Colors) (v : NodeId) → Kept c c' → color_of v c ≡ black → color_of v c' ≡ black
Kept-black c c' v kept b = kept v (ap is_white b) ∙ b

color-cases : (c : Color) → (c ≡ white) ⊎ ((c ≡ gray) ⊎ (c ≡ black))
color-cases white = inl refl
color-cases gray = inr (inl refl)
color-cases black = inr (inr refl)

abbrev is_gray : Color → Bool
is_gray gray = true
is_gray _ = false

abbrev pub is_black : Color → Bool
is_black black = true
is_black _ = false

-- and the colors that are given are black in the end
abbrev Settled : Colors → Colors → Type 0
Settled c c' = (v : NodeId) → color_of v c ≡ white → is_gray (color_of v c') ≡ false

Settled-trans : (a b c : Colors) → Settled a b → Kept b c → Settled b c → Settled a c
Settled-trans a b c first kept later v w = elim (color-cases (color_of v b)) [
  | inl still ↦ later v still
  | inr (inl g) ↦ cc (rw g at (first v w))
  | inr (inr x) ↦ ap is_gray (Kept-black b c v kept x)
]

color_of_head : (u : NodeId) (k : Color) (c : Colors) → color_of u ((u, k) ∷ c) ≡ k
color_of_head u k c = rw (==_refl u) refl

pub color_of_tail :
    (u v : NodeId) (k : Color) (c : Colors)
    → (u == v) ≡ false
    → color_of v ((u, k) ∷ c) ≡ color_of v c
color_of_tail u v k c miss = rw miss refl

recolored-Kept :
    (u : NodeId) (c c' : Colors)
    → color_of u c ≡ white
    → Kept ((u, gray) ∷ c) c'
    → Kept c ((u, black) ∷ c')
recolored-Kept u c c' w kept v h = elim (Bool-cases (u == v)) [
  | inl same ↦ cc (ap is_white (subst (λ v. color_of v c ≡ white) (eq_of_== u v same) w))
  | inr apart ↦
      let tail = color_of_tail u v gray c apart in
      color_of_tail u v black c' apart ∙ (kept v (ap is_white tail ∙ h) ∙ tail)
]

recolored-Settled :
    (u : NodeId) (c c' : Colors) → Settled ((u, gray) ∷ c) c' → Settled c ((u, black) ∷ c')
recolored-Settled u c c' settled v w = elim (Bool-cases (u == v)) [
  | inl same ↦ rw same refl
  | inr apart ↦
      ap is_gray (color_of_tail u v black c' apart) ∙ settled v (color_of_tail u v gray c apart ∙ w)
]

module _ (spec : Dag) (ids : List NodeId) where
  -- the history of the colors: a node turns gray when it was white, and black when it was gray and all its
  -- neighbours were black
  abbrev pub IsSound : Colors → Type 0
  IsSound [] = Unit
  IsSound ((u, white) ∷ rest) = true ≡ false
  IsSound ((u, gray) ∷ rest) = (color_of u rest ≡ white) × IsSound rest
  IsSound ((u, black) ∷ rest) =
      (color_of u rest ≡ gray)
      × (All (λ v. color_of v rest ≡ black) (adjacent spec ids u))
      × IsSound rest

  -- what a finds that finds no cycle leaves
  abbrev Blackens : NodeId → Colors → Colors → Type 0
  Blackens u c c' = IsSound c' × Kept c c' × Settled c c' × (color_of u c' ≡ black)

  abbrev IsFinder : (NodeId → Colors → Bool × Colors) → Type 0
  IsFinder go =
      (u : NodeId) (c : Colors)
      → color_of u c ≡ white
      → IsSound c
      → (go u c).0 ≡ false
      → Blackens u c (go u c).1

  -- and one that goes through a list of nodes
  abbrev Visited : Colors → List NodeId → Colors → Type 0
  Visited c vs c' = IsSound c' × Kept c c' × Settled c c' × All (λ v. color_of v c' ≡ black) vs

  visit_all_lem :
      (go : NodeId → Colors → Bool × Colors)
      → IsFinder go
      → (vs : List NodeId) (c : Colors) → IsSound c
      → (visit_all go vs c).0 ≡ false
      → Visited c vs (visit_all go vs c).1
  visit_all_lem go finds [] c s e = (s, (λ v h. refl), (λ v w. ap is_gray w), tt)
  visit_all_lem go finds (v ∷ vs) c s e = elim (color-cases (color_of v c)) [
    | inr (inl g) ↦ cc (rw (g, visit_all) at e)
    | inr (inr b) ↦
        let (s', kept, settled, blacks) = visit_all_lem go finds vs c s (rw (b, visit_all) at e) in
        subst (λ (r : Bool × Colors). Visited c (v ∷ vs) r.1) (sym (skips b))
          (s', kept, settled, (Kept-black c (visit_all go vs c).1 v kept b, blacks))
    | inl w ↦ elim (Bool-cases (go v c).0) [
      | inl hit ↦ cc (rw (w, visit_all, hit) at e)
      | inr miss ↦
          let (s₁, kept₁, settled₁, b) = finds v c w s miss in
          let c₁ = (go v c).1 in
          let (s', kept, settled, blacks) =
            visit_all_lem go finds vs c₁ s₁ (rw (w, visit_all, miss) at e) in
          subst (λ (r : Bool × Colors). Visited c (v ∷ vs) r.1) (sym (enters w miss))
            (
              s',
              Kept-trans c c₁ (visit_all go vs c₁).1 kept₁ kept,
              Settled-trans c c₁ (visit_all go vs c₁).1 settled₁ kept settled,
              (Kept-black c₁ (visit_all go vs c₁).1 v kept b, blacks),
            )
    ]
  ]
    where
      skips : color_of v c ≡ black → visit_all go (v ∷ vs) c ≡ visit_all go vs c
      skips b = rw (b, visit_all) refl

      enters :
          color_of v c ≡ white
          → (go v c).0 ≡ false
          → visit_all go (v ∷ vs) c ≡ visit_all go vs (go v c).1
      enters w miss = rw (w, visit_all, miss) refl

  dfs_lem : (n : ℕ) → IsFinder (dfs n spec ids)
  unfolding dfs
  dfs_lem zero u c w s e = cc
  dfs_lem (suc n) u c w s e =
      elim (Bool-cases (visit_all (dfs n spec ids) (adjacent spec ids u) ((u, gray) ∷ c)).0) [
        | inl hit ↦ cc (rw (dfs, hit) at e)
        | inr miss ↦
            let c₁ : Colors = (u, gray) ∷ c in
            let c₂ = (visit_all (dfs n spec ids) (adjacent spec ids u) c₁).1 in
            let (s₂, kept, settled, blacks) =
              visit_all_lem (dfs n spec ids) (dfs_lem n) (adjacent spec ids u) c₁ (w, s) miss in
            subst (λ (r : Bool × Colors). Blackens u c r.1) (sym (closes miss))
              (
                (
                  kept u (ap is_white (color_of_head u gray c)) ∙ color_of_head u gray c,
                  blacks,
                  s₂,
                ),
                recolored-Kept u c c₂ w kept,
                recolored-Settled u c c₂ settled,
                color_of_head u black c₂,
              )
      ]
    where
      closes :
          (visit_all (dfs n spec ids) (adjacent spec ids u) ((u, gray) ∷ c)).0 ≡ false
          → dfs (suc n) spec ids u c ≡ (
            false,
            (u, black) ∷ (visit_all (dfs n spec ids) (adjacent spec ids u) ((u, gray) ∷ c)).1,
          )
      closes miss = rw (dfs, miss) refl

  abbrev NoGray : Colors → Type 0
  NoGray c = (v : NodeId) → is_gray (color_of v c) ≡ false

  NoGray-stays : (c c' : Colors) → NoGray c → Kept c c' → Settled c c' → NoGray c'
  NoGray-stays c c' no_gray kept settled v = elim (color-cases (color_of v c)) [
    | inl w ↦ settled v w
    | inr (inl g) ↦ cc (rw g at (no_gray v))
    | inr (inr b) ↦ ap is_gray (Kept-black c c' v kept b)
  ]

  pub any_cycle_lem :
      (n : ℕ) (us : List NodeId) (c : Colors)
      → IsSound c
      → NoGray c
      → any_cycle n spec ids us c ≡ false
      → (c' : Colors) × IsSound c' × Kept c c' × All (λ v. color_of v c' ≡ black) us
  unfolding any_cycle
  any_cycle_lem n [] c s no_gray e = (c, s, (λ v h. refl), tt)
  any_cycle_lem n (u ∷ us) c s no_gray e = elim (color-cases (color_of u c)) [
    | inr (inl g) ↦ cc (rw g at (no_gray u))
    | inr (inr b) ↦
        let (c', s', kept, blacks) = any_cycle_lem n us c s no_gray (rw (b, any_cycle) at e) in
        (c', s', kept, (Kept-black c c' u kept b, blacks))
    | inl w ↦ elim (Bool-cases (dfs n spec ids u c).0) [
      | inl hit ↦ cc (rw (w, any_cycle, hit) at e)
      | inr miss ↦
          let c₁ = (dfs n spec ids u c).1 in
          let (s₁, kept₁, settled₁, b) = dfs_lem n u c w s miss in
          let (c', s', kept, blacks) =
            any_cycle_lem n us c₁ s₁ (NoGray-stays c c₁ no_gray kept₁ settled₁)
              (rw (w, any_cycle, miss) at e) in
          (c', s', Kept-trans c c₁ c' kept₁ kept, (Kept-black c₁ c' u kept b, blacks))
    ]
  ]

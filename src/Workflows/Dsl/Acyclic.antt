-- ===== src/Workflows/Dsl/Acyclic.antt =====
-- What the cycle check of `validate_dag` shows: a rank that falls along every edge.
use azienda.Base.{
  ℕ, suc, ◌≤◌, ◌<◌, ◌≡◌, refl, sym, ap, subst, ◌∙◌, true, false, ◌&&◌, none, List, [], ◌∷◌, arith,
  ◌==◌, ==_refl, eq_of_==, if◌then◌else◌, inl, inr, Bool-cases, select, map, length, All, All-map,
}
use azienda.Workflows.{NodeId, Edge, Dag}
use azienda.Workflows.Dsl.{
  has_label, Color, white, gray, black, Colors, color_of, adjacent, is_member, any_cycle,
}
use azienda.Workflows.Dsl.Colors.{is_black, color_of_tail, IsSound, any_cycle_lem}

-- the later a node turned black, the higher its rank
abbrev pub rank_in : Colors → NodeId → ℕ
rank_in [] i = 0
rank_in ((j, k) ∷ rest) i = if j == i then suc (length rest) else rank_in rest i

pub rank_in_bound : (c : Colors) (i : NodeId) → rank_in c i ≤ length c
rank_in_bound [] i = omega arith
rank_in_bound ((j, k) ∷ rest) i = ground (arith, rank_in_bound rest i)

-- a node that was not black before has another color now
not_black :
    (k : Color) (w v : NodeId) (rest : Colors)
    → is_black k ≡ false
    → color_of w rest ≡ k
    → color_of v rest ≡ black
    → (w == v) ≡ false
not_black k w v rest other before now = elim (Bool-cases (w == v)) [
  | inr apart ↦ apart
  | inl same ↦
      let clash : k ≡ black = sym before ∙ (ap (λ i. color_of i rest) (eq_of_== w v same) ∙ now) in
      cc (ap is_black clash)
]

further :
    (k : Color) (w u v : NodeId) (rest : Colors)
    → (w == u) ≡ false
    → (color_of v rest ≡ black → (w == v) ≡ false)
    → (color_of v rest ≡ black) × (rank_in rest v < rank_in rest u)
    → (color_of v ((w, k) ∷ rest) ≡ black) × (rank_in ((w, k) ∷ rest) v < rank_in ((w, k) ∷ rest) u)
further k w u v rest apart miss (b, falls) =
    let apart' = miss b in (color_of_tail w v k rest apart' ∙ b, rw (apart, apart') falls)

module _ (spec : Dag) (ids : List NodeId) where
  rank_in_falls :
      (c : Colors) (u v : NodeId)
      → IsSound spec ids c
      → color_of u c ≡ black
      → ((rest : Colors)
          → All (λ w. color_of w rest ≡ black) (adjacent spec ids u)
          → color_of v rest ≡ black)
      → (color_of v c ≡ black) × (rank_in c v < rank_in c u)
  rank_in_falls [] u v s b pick = cc
  rank_in_falls ((w, white) ∷ rest) u v s b pick = cc
  rank_in_falls ((w, gray) ∷ rest) u v (before, s) b pick = elim (Bool-cases (w == u)) [
    | inl same ↦ cc (rw same at b)
    | inr apart ↦
        further gray w u v rest apart (not_black white w v rest refl before)
          (rank_in_falls rest u v s (rw apart at b) pick)
  ]
  rank_in_falls ((w, black) ∷ rest) u v (before, blacks, s) b pick = elim (Bool-cases (w == u)) [
    | inr apart ↦
        further black w u v rest apart (not_black gray w v rest refl before)
          (rank_in_falls rest u v s (rw apart at b) pick)
    | inl same ↦
        let v_black = pick rest (
          subst (λ i. All (λ w. color_of w rest ≡ black) (adjacent spec ids i)) (eq_of_== w u same)
            blacks) in
        let miss = not_black gray w v rest refl before v_black in
        (
          color_of_tail w v black rest miss ∙ v_black,
          rw (same, miss) (omega (arith, rank_in_bound rest v)),
        )
  ]

  -- an edge between known nodes is one of those that the check follows
  edges_among :
      (Q : NodeId → NodeId → Type 0) (es : List Edge)
      → ((i : NodeId)
          → is_member i ids ≡ true
          → All (Q i) (
              select
                (λ j. is_member j ids)
                (map
                  (λ (e : Edge). e.to)
                  (select (λ e. e.from_node == i && has_label none e.label) es))))
      → All (λ (e : Edge). (is_member e.from_node ids ≡ true) × (is_member e.to ids ≡ true)) es
      → All (λ (e : Edge). Q e.from_node e.to) es
  edges_among Q [] all known = tt
  edges_among Q (e ∷ es) all ((from, to), known) = (
    (rw (==_refl e.from_node, to) at (all e.from_node from)).0,
    edges_among Q es
        (λ i m. elim (Bool-cases (e.from_node == i)) [
          | inl hit ↦ (rw (hit, to) at (all i m)).1
          | inr miss ↦ rw miss at (all i m)
        ])
        known,
  )

  member_black :
      (c : Colors) (us : List NodeId) (i : NodeId)
      → All (λ v. color_of v c ≡ black) us
      → is_member i us ≡ true
      → color_of i c ≡ black
  member_black c [] i h m = cc
  member_black c (u ∷ us) i (b, h) m = elim (Bool-cases (u == i)) [
    | inl same ↦ subst (λ v. color_of v c ≡ black) (eq_of_== u i same) b
    | inr apart ↦ member_black c us i h (rw apart at m)
  ]

  -- a member of the neighbours is as black as they are
  All-pick :
      (P : NodeId → Type 0) (xs : List NodeId) (v : NodeId) → is_member v xs ≡ true → All P xs → P v
  All-pick P [] v m h = cc
  All-pick P (x ∷ xs) v m (p, h) = elim (Bool-cases (x == v)) [
    | inl same ↦ subst P (eq_of_== x v same) p
    | inr apart ↦ All-pick P xs v (rw apart at m) h
  ]

  All-own : (xs : List NodeId) → All (λ v. is_member v xs ≡ true) xs
  All-own [] = tt
  All-own (x ∷ xs) = (
    rw (==_refl x) refl,
    All-map (λ v. is_member v xs ≡ true) (λ v. is_member v (x ∷ xs) ≡ true) xs (λ v m. later x v m)
        (All-own xs),
  )
    where
      later : (x v : NodeId) → is_member v xs ≡ true → is_member v (x ∷ xs) ≡ true
      later x v m = ground arith

  -- A check that finds no cycle in edges between known nodes leaves a rank that falls along each of them.
  pub edges_fall :
      (n : ℕ)
      → any_cycle n spec ids ids [] ≡ false
      → All
          (λ (e : Edge). (is_member e.from_node ids ≡ true) × (is_member e.to ids ≡ true))
          spec.edges
      → (c : Colors) × All (λ (e : Edge). rank_in c e.to < rank_in c e.from_node) spec.edges
  edges_fall n no_cycle known =
      let (c, sound, kept, blacks) = any_cycle_lem spec ids n ids [] tt (λ v. refl) no_cycle in
      (
        c,
        edges_among (λ i j. rank_in c j < rank_in c i) spec.edges
            (λ i m.
              All-map (λ v. is_member v (adjacent spec ids i) ≡ true)
                (λ v. rank_in c v < rank_in c i) (adjacent spec ids i)
                (λ v mine.
                  (rank_in_falls c i v sound (member_black c ids i blacks m) (λ rest h.
                    All-pick (λ w. color_of w rest ≡ black) (adjacent spec ids i) v mine h)).1)
                (All-own (adjacent spec ids i)))
            known,
      )

-- ===== src/Tasks/Graph/Acyclic.antt =====
-- An edge that the search lets pass closes no cycle.
use azienda.Base.{◌≡◌, ◌⊎◌, sym, subst, true, false, some, [], ◌∷◌, ◌++◌, arith, inl, inr}
use azienda.Contracts.{Uuid}
use azienda.Tasks.Graph.{Edges, creates_cycle}
use azienda.Tasks.Graph.Search.{Reaches, here, step, has_edge, creates_cycle_iff}

-- no task can be reached from one that it depends on
abbrev pub IsAcyclic : Edges → Type 0
IsAcyclic es = (a b : Uuid) → ¬ ((has_edge es a b ≡ true) × Reaches es b a)

has_edge-append :
    (es : Edges) (t d a b : Uuid)
    → has_edge (es ++ (t, d) ∷ []) a b ≡ true
    → (has_edge es a b ≡ true) ⊎ ((t ≡ a) × (d ≡ b))
has_edge-append [] t d a b h = ground arith
has_edge-append ((x, y) ∷ es) t d a b h = ground (arith, has_edge-append es t d a b)

-- a path that uses the new edge leads to its source, and on from its end
split_path :
    {es : Edges} {t d a b : Uuid}
    → Reaches (es ++ (t, d) ∷ []) a b
    → Reaches es a b ⊎ (Reaches es a t × Reaches es d b)
split_path here = inl here
split_path {es} {t} {d} {a} {b} (step {b = c} e r) = elim (has_edge-append es t d a c e) [
  | inl old ↦ elim (split_path r) [ inl q ↦ inl (step old q) | inr (q, q') ↦ inr (step old q, q') ]
  | inr (ea, ec) ↦ elim (split_path r) [
    | inl q ↦ inr (subst (λ z. Reaches es z t) ea here, subst (λ z. Reaches es z b) (sym ec) q)
    | inr (q, q') ↦ inr (subst (λ z. Reaches es z t) ea here, q')
  ]
]

joined : {es : Edges} {a b c : Uuid} → Reaches es a b → Reaches es b c → Reaches es a c
joined here r = r
joined (step e q) r = step e (joined q r)

-- Where the tasks depend on each other without a cycle, and the search answers no for an edge, they
-- do so with that edge too.
pub IsAcyclic-stays :
    (es : Edges) (task depends_on : Uuid)
    → IsAcyclic es
    → creates_cycle es task depends_on ≡ some false
    → IsAcyclic (es ++ (task, depends_on) ∷ [])
IsAcyclic-stays es task depends_on ok no_path a b (e, r) =
    let (answer, said, iff) = creates_cycle_iff es task depends_on in
    let free : Reaches es depends_on task → ⊥ = λ q. cc (said, no_path, iff.1 q) in
    elim (has_edge-append es task depends_on a b e) [
      | inl old ↦ elim (split_path r) [
        | inl q ↦ ok a b (old, q)
        | inr (q, q') ↦ free (joined q' (step old q))
      ]
      | inr (ea, eb) ↦ elim (split_path r) [
        | inl q ↦
            free (
              subst (λ z. Reaches es depends_on z) (sym ea)
                (subst (λ z. Reaches es z a) (sym eb) q))
        | inr (q, q') ↦ free (subst (λ z. Reaches es depends_on z) (sym ea) q')
      ]
    ]

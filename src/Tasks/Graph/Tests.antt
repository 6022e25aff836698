-- ===== src/Tasks/Graph/Tests.antt =====
-- The cycle search on small graphs, and its theorems at them.
use azienda.Base.{◌≡◌, ◌↔◌, refl, Bool, true, false, some, [], ◌∷◌}
use azienda.Tasks.Graph.{creates_cycle, dfs}
use azienda.Tasks.Graph.Search.{Reaches, creates_cycle_iff}
use azienda.Tasks.Graph.Acyclic.{IsAcyclic, IsAcyclic-stays}

no_edges : IsAcyclic []
no_edges a b (e, r) = cc e

two_ways : creates_cycle [] 1 2 ≡ some false
unfolding creates_cycle dfs
two_ways = refl

IsAcyclic-stays_example : IsAcyclic ((1, 2) ∷ [])
IsAcyclic-stays_example = IsAcyclic-stays [] 1 2 no_edges two_ways

creates_cycle_iff_example :
    (b : Bool) × (creates_cycle ((1, 2) ∷ (2, 3) ∷ []) 1 3 ≡ some b)
    × ((b ≡ true) ↔ Reaches ((1, 2) ∷ (2, 3) ∷ []) 3 1)
creates_cycle_iff_example = creates_cycle_iff ((1, 2) ∷ (2, 3) ∷ []) 1 3

-- 3 must not depend on 1, which depends on it already
cycle_found : creates_cycle ((1, 2) ∷ (2, 3) ∷ []) 3 1 ≡ some true
unfolding creates_cycle dfs
cycle_found = refl

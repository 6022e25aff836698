-- ===== src/Tasks/Graph/Search.antt =====
-- The search ends, and finds the task just when the task can be reached.
use azienda.Base.{
  ℕ, zero, suc, ◌+◌, ◌≤◌, ◌<◌, ◌≡◌, ◌↔◌, ◌⊎◌, refl, sym, ap, ◌∙◌, subst, Bool, true, false, not,
  some, List, [], ◌∷◌, ◌++◌, arith, ◌==◌, if◌then◌else◌, inl, inr, Bool-cases, length, count_if,
  eq_of_==, length-append,
}
use azienda.Contracts.{Uuid}
use azienda.Tasks.Graph.{Edges, mem, successors, dfs, creates_cycle}

-- whether there is an edge from `a` to `b`
abbrev pub has_edge : Edges → Uuid → Uuid → Bool
has_edge es a b = mem b (successors es a)

-- `b` can be reached from `a` along the edges
pub data Reaches (es : Edges) : Uuid → Uuid → Type 0 where
  here : {a : Uuid} → Reaches es a a
  step : {a b c : Uuid} → has_edge es a b ≡ true → Reaches es b c → Reaches es a c

-- the edges whose source was not seen
abbrev open_edges : List Uuid → Edges → ℕ
open_edges seen = count_if (λ e. not (mem e.0 seen))

mem_append :
    (x : Uuid) (xs ys : List Uuid) → mem x (xs ++ ys) ≡ (if mem x xs then true else mem x ys)
mem_append x [] ys = refl
mem_append x (y ∷ xs) ys = ground (arith, mem_append x xs ys)

-- a node that is seen pays for its pushes with its own edges
fewer_open :
    (es : Edges) (x : Uuid) (seen : List Uuid)
    → mem x seen ≡ false
    → length (successors es x) + open_edges (x ∷ seen) es ≤ open_edges seen es
fewer_open [] x seen h = ground arith
fewer_open ((a, b) ∷ es) x seen h = ground (arith, fewer_open es x seen)

dfs_ends :
    (n : ℕ) (es : Edges) (task : Uuid) (stack seen : List Uuid)
    → length stack + open_edges seen es < n
    → (b : Bool) × (dfs n es task stack seen ≡ some b)
unfolding dfs
dfs_ends zero es task stack seen lo = absurd (omega (arith, lo))
dfs_ends (suc n) es task [] seen lo = (false, refl)
dfs_ends (suc n) es task (x ∷ stack) seen lo = elim (Bool-cases (x == task)) [
  | inl found ↦ (true, ground arith)
  | inr other ↦ elim (Bool-cases (mem x seen)) [
    | inl old ↦ rw (other, old, dfs) (dfs_ends n es task stack seen (ground arith))
    | inr new ↦
        rw (other, new, dfs)
          (dfs_ends n es task (successors es x ++ stack) (x ∷ seen)
            (ground (arith, fewer_open es x seen new, length-append (successors es x) stack)))
  ]
]

reach_last : {es : Edges} {a b c : Uuid} → Reaches es a b → has_edge es b c ≡ true → Reaches es a c
reach_last here e = step e here
reach_last (step f r) e = step f (reach_last r e)

mem_cons : (y x : Uuid) (xs : List Uuid) → mem y (x ∷ xs) ≡ true → (x ≡ y) ⊎ (mem y xs ≡ true)
mem_cons y x xs m = ground arith

mem_rest : (y x : Uuid) (xs : List Uuid) → mem y xs ≡ true → mem y (x ∷ xs) ≡ true
mem_rest y x xs m = ground arith

mem_here : (x : Uuid) (xs : List Uuid) → mem x (x ∷ xs) ≡ true
mem_here x xs = ground arith

mem_front : (y : Uuid) (xs ys : List Uuid) → mem y xs ≡ true → mem y (xs ++ ys) ≡ true
mem_front y xs ys m = ground (arith, mem_append y xs ys)

mem_back : (y : Uuid) (xs ys : List Uuid) → mem y ys ≡ true → mem y (xs ++ ys) ≡ true
mem_back y xs ys m = ground (arith, mem_append y xs ys)

dfs_found :
    (n : ℕ) (es : Edges) (root task : Uuid) (stack seen : List Uuid)
    → ((y : Uuid) → mem y stack ≡ true → Reaches es root y)
    → dfs n es task stack seen ≡ some true
    → Reaches es root task
unfolding dfs
dfs_found zero es root task stack seen inv e = cc
dfs_found (suc n) es root task [] seen inv e = cc
dfs_found (suc n) es root task (x ∷ stack) seen inv e = elim (Bool-cases (x == task)) [
  | inl found ↦ subst (λ y. Reaches es root y) (eq_of_== x task found) (inv x (ground arith))
  | inr other ↦ elim (Bool-cases (mem x seen)) [
    | inl old ↦
        dfs_found n es root task stack seen (λ y m. inv y (ground arith))
          (rw (other, old, dfs) at e)
    | inr new ↦
        dfs_found n es root task (successors es x ++ stack) (x ∷ seen)
          (λ y m. elim (Bool-cases (has_edge es x y)) [
            | inl edge ↦ reach_last (inv x (ground arith)) edge
            | inr no_edge ↦ inv y (ground (arith, mem_append y (successors es x) stack))
          ])
          (rw (other, new, dfs) at e)
  ]
]

-- the nodes of `s` are not the task, and their edges end in `s` or on the stack
pub record IsClosed (es : Edges) (task : Uuid) (stack s : List Uuid) : Type 0 where
  pub avoids : mem task s ≡ false
  pub inside :
      (a b : Uuid)
      → mem a s ≡ true
      → has_edge es a b ≡ true
      → (mem b s ≡ true) ⊎ (mem b stack ≡ true)

-- a round keeps `IsClosed`
IsClosed-old :
    (es : Edges) (task x : Uuid) (stack seen : List Uuid)
    → IsClosed es task (x ∷ stack) seen
    → mem x seen ≡ true
    → IsClosed es task stack seen
IsClosed-old es task x stack seen inv old = record {
  avoids = inv.avoids;
  inside = λ a b m f. elim (inv.inside a b m f) [
    | inl p ↦ inl p
    | inr q ↦ elim (mem_cons b x stack q) [
      | inl e ↦ inl (subst (λ z. mem z seen ≡ true) e old)
      | inr r ↦ inr r
    ]
  ];
}

IsClosed-new :
    (es : Edges) (task x : Uuid) (stack seen : List Uuid)
    → IsClosed es task (x ∷ stack) seen
    → (x == task) ≡ false
    → IsClosed es task (successors es x ++ stack) (x ∷ seen)
IsClosed-new es task x stack seen inv other = record {
  avoids = rw (other, inv.avoids) refl;
  inside = λ a b m f. elim (mem_cons a x seen m) [
    | inl e ↦
        inr (mem_front b (successors es x) stack (subst (λ z. has_edge es z b ≡ true) (sym e) f))
    | inr old ↦ elim (inv.inside a b old f) [
      | inl p ↦ inl (mem_rest b x seen p)
      | inr q ↦ elim (mem_cons b x stack q) [
        | inl e ↦ inl (subst (λ z. mem z (x ∷ seen) ≡ true) e (mem_here x seen))
        | inr r ↦ inr (mem_back b (successors es x) stack r)
      ]
    ]
  ];
}

dfs_missed :
    (n : ℕ) (es : Edges) (task : Uuid) (stack seen : List Uuid)
    → IsClosed es task stack seen
    → dfs n es task stack seen ≡ some false
    → (s : List Uuid) × IsClosed es task [] s
      × ((y : Uuid) → mem y stack ≡ true → mem y s ≡ true)
      × ((y : Uuid) → mem y seen ≡ true → mem y s ≡ true)
unfolding dfs
dfs_missed zero es task stack seen inv e = cc
dfs_missed (suc n) es task [] seen inv e = (seen, inv, λ y m. cc m, λ y m. m)
dfs_missed (suc n) es task (x ∷ stack) seen inv e = elim (Bool-cases (x == task)) [
  | inl found ↦ cc (rw (found, dfs) at e)
  | inr other ↦ elim (Bool-cases (mem x seen)) [
    | inl old ↦
        let (s, c, on, in_seen) =
          dfs_missed n es task stack seen (IsClosed-old es task x stack seen inv old)
            (rw (other, old, dfs) at e) in
        (
          s,
          c,
          λ y m. elim (mem_cons y x stack m) [
            | inl q ↦ subst (λ z. mem z s ≡ true) q (in_seen x old)
            | inr r ↦ on y r
          ],
          in_seen,
        )
    | inr new ↦
        let (s, c, on, in_seen) =
          dfs_missed n es task (successors es x ++ stack) (x ∷ seen)
            (IsClosed-new es task x stack seen inv other) (rw (other, new, dfs) at e) in
        (
          s,
          c,
          λ y m. elim (mem_cons y x stack m) [
            | inl q ↦ subst (λ z. mem z s ≡ true) q (in_seen x (mem_here x seen))
            | inr r ↦ on y (mem_back y (successors es x) stack r)
          ],
          λ y m. in_seen y (mem_rest y x seen m),
        )
  ]
]

stays_inside :
    {es : Edges} {task : Uuid} {s : List Uuid} {a b : Uuid}
    → IsClosed es task [] s
    → mem a s ≡ true
    → Reaches es a b
    → mem b s ≡ true
stays_inside c m here = m
stays_inside {es} {task} {s} {a} {b} c m (step {b = d} e r) = elim (c.inside a d m e) [
  | inl p ↦ stays_inside c p r
  | inr q ↦ absurd (cc q)
]

open_none : (es : Edges) → open_edges [] es ≡ length es
open_none [] = refl
open_none (e ∷ es) = ground (arith, open_none es)

-- The search always ends within its rounds, and answers true just when the task can be reached from
-- the one that it would depend on.
pub creates_cycle_iff :
    (es : Edges) (task depends_on : Uuid)
    → (b : Bool) × (creates_cycle es task depends_on ≡ some b)
      × ((b ≡ true) ↔ Reaches es depends_on task)
unfolding creates_cycle
creates_cycle_iff es task depends_on =
    let (b, e) =
      dfs_ends (length es + 2) es task (depends_on ∷ []) [] (omega (arith, open_none es)) in
    (
      b,
      e,
      (
        λ t.
            dfs_found (length es + 2) es depends_on task (depends_on ∷ []) []
              (λ y m. elim (mem_cons y depends_on [] m) [
                | inl q ↦ subst (λ z. Reaches es depends_on z) q here
                | inr r ↦ absurd (cc r)
              ])
              (e ∙ ap some t),
        λ r. elim (Bool-cases b) [
          | inl said ↦ said
          | inr denied ↦
              let (s, c, on, in_seen) =
                dfs_missed (length es + 2) es task (depends_on ∷ []) []
                  (record { avoids = refl; inside = λ x y m f. absurd (cc m) })
                  (e ∙ ap some denied) in
              absurd (cc (c.avoids, stays_inside c (on depends_on (mem_here depends_on [])) r))
        ],
      ),
    )

-- ===== src/Workflows/Service/Published.antt =====
-- What `publish_version` adds.
use azienda.Base.{
  ℕ, ◌+◌, ◌≤◌, ◌<◌, ◌≡◌, refl, sym, ap, subst, ◌∙◌, true, none, List, [], ◌∷◌, ◌++◌, arith, inl,
  inr, Bool-cases, Option-cases, All, All-map, Result, ok, err,
}
use azienda.Contracts.{TenantContext, Uuid, PolicyDecision, end}
use azienda.Workflows.{Version}
use azienda.Workflows.Dsl.{dag_errors, DagError}
use azienda.Workflows.Ports.{Ports}
use azienda.Workflows.Runner.{is_deny}
use azienda.Workflows.Service.{
  Definition, ServiceError, Sys, emit, add_version, latest, new_version, publish_version,
  definition_row, no_errors, id_arg, on_db,
}

latest_bound :
    (i : Uuid) (vs : List Version)
    → All (λ (v : Version). v.definition_id ≡ i → v.version ≤ latest i vs) vs
unfolding latest
latest_bound i [] = tt
latest_bound i (v ∷ vs) = (
  (λ own. own_bound own),
  All-map (λ (w : Version). w.definition_id ≡ i → w.version ≤ latest i vs)
      (λ (w : Version). w.definition_id ≡ i → w.version ≤ latest i (v ∷ vs)) vs
      (λ w bound own. below (bound own)) (latest_bound i vs),
)
  where
    own_bound : v.definition_id ≡ i → v.version ≤ latest i (v ∷ vs)
    own_bound own = ground arith

    below : {n : ℕ} → n ≤ latest i vs → n ≤ latest i (v ∷ vs)
    below h = ground arith

module _ {W : Type 0} (ports : Ports W) (tenant : TenantContext) where
  abbrev asked : Uuid → Sys W → PolicyDecision × W
  asked i s =
      ports.policy
        (record {
          tenant = tenant;
          action = "workflows.version.publish";
          resource = none;
          args = id_arg ports tenant i;
          risk_context = end;
          idempotency_key = none;
        })
        s.db.world

  abbrev Published : Version → Sys W → Sys W → Type 0
  Published v s t =
      (t.db.versions ≡ s.db.versions ++ v ∷ [])
      × (dag_errors v.dag ≡ [])
      × (v.tenant_id ≡ tenant.tenant_id)
      × All (λ (w : Version). w.definition_id ≡ v.definition_id → w.version < v.version)
          s.db.versions

  abbrev version_of : Version → Result ServiceError Version → Version
  version_of v (ok w) = w
  version_of v (err _) = v

  no_errors_nil : (es : List DagError) → no_errors ports tenant es ≡ true → es ≡ []
  no_errors_nil [] h = refl
  no_errors_nil (x ∷ es) h = cc

  added :
      (fresh : Uuid) (s : Sys W) (d : Definition) (v : Version) (t s' : Sys W)
      → s'.db.versions ≡ s.db.versions
      → no_errors ports tenant (dag_errors d.draft_dag) ≡ true
      → Path
          (Result ServiceError Version × Sys W)
          (
            ok (new_version ports tenant fresh d s'),
            (emit ports tenant "workflows.version.published" fresh
                (add_version ports tenant (new_version ports tenant fresh d s') s')).1,
          )
          (ok v, t)
      → Published v s t
  added fresh s d v t s' same valid e =
      let w = new_version ports tenant fresh d s' in
      let eq : w ≡ v = ap (λ (x : Result ServiceError Version × Sys W). version_of v x.0) e in
      let eq' : s'.db.versions ++ w ∷ [] ≡ t.db.versions =
        ap (λ (x : Result ServiceError Version × Sys W). x.1.db.versions) e in
      subst (λ (x : Version). Published x s t) eq
        (
          sym eq' ∙ ap (λ vs. vs ++ w ∷ []) same,
          no_errors_nil (dag_errors d.draft_dag) valid,
          refl,
          All-map (λ (x : Version). x.definition_id ≡ d.id → x.version ≤ latest d.id s.db.versions)
              (λ (x : Version). x.definition_id ≡ d.id → x.version < latest d.id s'.db.versions + 1)
              s.db.versions (λ x bound own. omega (arith, bound own, ap (latest d.id) same))
              (latest_bound d.id s.db.versions),
        )

  -- A version that is published comes after all the others and changes none of them; its graph passes
  -- validation, it belongs to the tenant, and its number is above that of every other version of its definition.
  pub publish_version_lem :
      (fresh i : Uuid) (s t : Sys W) (v : Version)
      → publish_version ports tenant fresh i s ≡ (ok v, t)
      → (t.db.versions ≡ s.db.versions ++ v ∷ [])
        × (dag_errors v.dag ≡ [])
        × (v.tenant_id ≡ tenant.tenant_id)
        × All
            (λ (w : Version). w.definition_id ≡ v.definition_id → w.version < v.version)
            s.db.versions
  unfolding publish_version
  publish_version_lem fresh i s t v e =
      elim (Bool-cases (is_deny ports tenant (asked i s).0.effect)) [
        | inl refuses ↦ cc (rw (publish_version, refuses) at e)
        | inr lets ↦ elim (Option-cases (definition_row ports tenant i s)) [
          | inl missing ↦ cc (rw (publish_version, lets, missing) at e)
          | inr (d, found) ↦ elim (Bool-cases (no_errors ports tenant (dag_errors d.draft_dag))) [
            | inr invalid ↦ cc (rw (publish_version, lets, found, invalid) at e)
            | inl valid ↦
                added fresh s d v t
                  (on_db ports tenant (λ db. record db { world = (asked i s).1 }) s) refl valid
                  (rw (publish_version, lets, found, valid) at e)
          ]
        ]
      ]

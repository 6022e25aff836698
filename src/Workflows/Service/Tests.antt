-- ===== src/Workflows/Service/Tests.antt =====
-- Publishing a second version of a definition.
use azienda.Base.{ℕ, ◌≡◌, ◌<◌, refl, true, none, [], ◌∷◌, ◌++◌, All, ok}
use azienda.Workflows.{Version}
use azienda.Workflows.Dsl.{dag_errors, any_cycle, dfs, reach}
use azienda.Workflows.Runner.Tests.{alice, ports, approval_dag, db_of}
use azienda.Workflows.Service.{Definition, Sys, publish_version, latest}
use azienda.Workflows.Service.Published.{publish_version_lem}

abbrev outreach : Definition
outreach = record {
  id = 4;
  tenant_id = 7;
  name = "outreach";
  description = none;
  autonomy_level = 1;
  is_active = true;
  draft_dag = approval_dag;
}

abbrev before : Sys ℕ
before = record { definitions = outreach ∷ []; db = db_of approval_dag }

abbrev after : Sys ℕ
after = (publish_version ports alice 30 4 before).1

abbrev second : Version
second = record { id = 30; tenant_id = 7; definition_id = 4; version = 2; dag = approval_dag }

published : publish_version ports alice 30 4 before ≡ (ok second, after)
unfolding publish_version latest dag_errors any_cycle dfs reach
published = refl

publish_version_lem_example :
    (after.db.versions ≡ before.db.versions ++ second ∷ [])
    × (dag_errors second.dag ≡ [])
    × (second.tenant_id ≡ alice.tenant_id)
    × All
        (λ (w : Version). w.definition_id ≡ second.definition_id → w.version < second.version)
        before.db.versions
publish_version_lem_example = publish_version_lem ports alice 30 4 before after second published

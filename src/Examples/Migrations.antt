-- ===== src/Examples/Migrations.antt =====
-- The theorems on the migrator, on the cluster of which the first node is left.
use sentinel_fs.Prelude.{
  ◌≡◌, ◌≢◌, refl, [], ◌∷◌, ◌++◌, true, false, none, some, Str, bytes, ◌==◌, lookup, put, length,
}
use sentinel_fs.Config.{critical}
use sentinel_fs.ChunkManager.State.{ChunkManager}
use sentinel_fs.ChunkManager.Invariant.Steps.{Inv}
use sentinel_fs.ChunkManager.Invariant.Runs.{Run, stay}
use sentinel_fs.Health.Prediction.{PredictionResult}
use sentinel_fs.Health.Migrator.{
  Surroundings, MigrationReport, Migrator, new_migrator, is_migrating, begin_migration,
  migrate_chunk, migrate_off, migrate_node, get_last_report,
}
use sentinel_fs.Health.Migrator.Tally.{Tallied, migrate_node-Tallied}
use sentinel_fs.Health.Migrator.Exclusion.{Exclusive, begins, idle, after, Runs-Exclusive}
use sentinel_fs.MetaServer.Adapter.{chunk_manager_adapter}
use sentinel_fs.MetaServer.Migration.{Moved, migrate_chunk-Moved, migrate_off-Run}
use sentinel_fs.Examples.Cluster.{identity_hash, address_a, cluster, cluster-Inv, chunk_a}

-- Every transfer succeeds, and no other call comes between.
abbrev quiet : Surroundings ChunkManager
quiet = record {
  transfer = λ source chunk target cm. (none, cm);
  started_at = λ chunk. 10;
  duration = λ chunk. 1;
}

abbrev prediction : PredictionResult
prediction = record {
  node_id = bytes "node-1";
  overall_risk = 0x3FECCCCCCCCCCCCD;
  status = critical;
  metric_risks = [];
  reasons = [];
  predicted_at = 9;
}

migrate_node-Tallied_example :
    let m = new_migrator in
    let r = migrate_node chunk_manager_adapter quiet prediction 10 12 m cluster in
    (is_migrating (bytes "node-1") m ≡ true → r ≡ (none, m, cluster))
    × (is_migrating (bytes "node-1") m ≡ false
        → (report : MigrationReport) × (r.0 ≡ some report)
          × Tallied report
          × (report.node_id ≡ bytes "node-1")
          × (report.total_chunks
              ≡ length (chunk_manager_adapter.get_chunks_on_node cluster (bytes "node-1")))
          × (is_migrating (bytes "node-1") r.1 ≡ false)
          × ((k : Str) → (bytes "node-1" == k) ≡ false → is_migrating k r.1 ≡ is_migrating k m)
          × (chunk_manager_adapter.get_node_address cluster (bytes "node-1") ≢ none
              → (length report.events ≡ report.total_chunks)
                × (r.1.history ≡ m.history ++ report ∷ [])
                × (get_last_report (bytes "node-1") r.1 ≡ some report)))
unfolding new_migrator
migrate_node-Tallied_example =
    migrate_node-Tallied chunk_manager_adapter quiet prediction 10 12 new_migrator cluster tt

abbrev busy : Migrator
busy = record new_migrator { migrating = put (bytes "node-1") true new_migrator.migrating }

begun : begin_migration (bytes "node-1") new_migrator ≡ some busy
unfolding begin_migration is_migrating new_migrator lookup
begun = refl

Runs-Exclusive_example : Exclusive (record { migrator = busy; in_flight = bytes "node-1" ∷ [] })
Runs-Exclusive_example = Runs-Exclusive (after idle (begins (bytes "node-1") busy begun))

migrate_chunk-Moved_example :
    let r = migrate_chunk chunk_manager_adapter quiet chunk_a (bytes "node-1") address_a cluster in
    (r.0.success ≡ true → Moved quiet chunk_a (bytes "node-1") address_a cluster r.0 r.1)
    × (r.0.success ≡ false → r.1 ≡ cluster)
migrate_chunk-Moved_example =
    migrate_chunk-Moved quiet chunk_a (bytes "node-1") address_a cluster cluster-Inv
      (λ source chunk target. refl)

migrate_off-Run_example :
    let cm' = (migrate_off chunk_manager_adapter quiet prediction 10 12 cluster).2 in
    Run identity_hash cluster cm' × Inv cm'
migrate_off-Run_example =
    migrate_off-Run identity_hash quiet (λ source chunk target cm. stay) prediction 10 12 cluster
      cluster-Inv

-- ===== src/MetaServer/Admin.antt =====
-- internal/metaserver/admin.go: the HTTP handlers that show the migrations and the cluster. The texts
-- of durations and of times are arguments. A response has the values that the handler encodes.
use sentinel_fs.Prelude.{ℕ, List, map, Str, Int64, length}
use sentinel_fs.Float64.{Float64}
use sentinel_fs.Config.{status_string}
use sentinel_fs.ChunkManager.State.{DataNodeInfo}
use sentinel_fs.ChunkManager.Nodes.{get_all_nodes}
use sentinel_fs.ChunkManager.Stats.{get_cluster_stats}
use sentinel_fs.Health.Regression.{time_sub}
use sentinel_fs.Health.Migrator.{MigrationReport, get_history}
use sentinel_fs.MetaServer.Messages.{int_of_int32}
use sentinel_fs.MetaServer.Monitoring.{MonitoredServer}

pub record MigrationSummary : Type 0 where
  pub node_id : Str
  pub risk : Float64
  pub total : ℕ
  pub migrated : ℕ
  pub failed : ℕ
  pub duration : Str
  pub started_at : Str

pub record MigrationsResponse : Type 0 where
  pub count : ℕ
  pub migrations : List MigrationSummary

pub record NodeSummary : Type 0 where
  pub node_id : Str
  pub status : Str
  pub risk : Float64
  pub chunks : Int64

pub record HealthResponse : Type 0 where
  pub total_nodes : ℕ
  pub healthy_nodes : ℕ
  pub total_chunks : ℕ
  pub nodes : List NodeSummary

module _ (duration_string : Int64 → Str) (clock_string : ℕ → Str) where
  unfoldable pub migration_summary : MigrationReport → MigrationSummary
  unfolding time_sub
  migration_summary r = record {
    node_id = r.node_id;
    risk = r.risk_score;
    total = r.total_chunks;
    migrated = r.migrated_chunks;
    failed = r.failed_chunks;
    duration = duration_string (time_sub r.completed_at r.started_at);
    started_at = clock_string r.started_at;
  }

  unfoldable pub handle_migrations : MonitoredServer → MigrationsResponse
  unfolding get_history migration_summary
  handle_migrations srv =
      let summaries = map migration_summary (get_history srv.migrator) in
      record { count = length summaries; migrations = summaries }

unfoldable pub node_summary : DataNodeInfo → NodeSummary
unfolding status_string int_of_int32
node_summary n = record {
  node_id = n.node_id;
  status = status_string n.status;
  risk = n.risk_score;
  chunks = int_of_int32 n.chunk_count;
}

unfoldable pub handle_health : MonitoredServer → HealthResponse
unfolding get_cluster_stats get_all_nodes node_summary
handle_health srv =
    let stats = get_cluster_stats srv.server.chunk_mgr in
    record {
      total_nodes = stats.total_nodes;
      healthy_nodes = stats.healthy_nodes;
      total_chunks = stats.total_chunks;
      nodes = map node_summary (get_all_nodes srv.server.chunk_mgr);
    }

-- ===== src/Health/Migrator.antt =====
-- internal/health/migrator.go: moving all chunks off a node that is about to fail.
pub mod Tally
pub mod Exclusion
use sentinel_fs.Prelude.{
  ℕ, zero, suc, ◌+◌, List, [], ◌∷◌, ◌++◌, Bool, true, false, Option, none, some, Str, bytes, ◌==◌,
  Map, lookup, put, delete, length, if◌then◌else◌,
}
use mathlib.Core.List.{reverse}
use sentinel_fs.Float64.{Float64}
use sentinel_fs.Config.{NodeStatus}
use sentinel_fs.Health.Locator.{ChunkLocator, NodeTarget}
use sentinel_fs.Health.Prediction.{PredictionResult}

pub record MigrationEvent : Type 0 where
  pub chunk_id : Str
  pub from_node_id : Str
  pub to_node_id : Str
  pub to_address : Str
  pub reason : Str
  pub success : Bool
  pub error : Str
  pub started_at : ℕ
  pub duration : ℕ

pub record MigrationReport : Type 0 where
  pub node_id : Str
  pub risk_score : Float64
  pub status : NodeStatus
  pub total_chunks : ℕ
  pub migrated_chunks : ℕ
  pub failed_chunks : ℕ
  pub events : List MigrationEvent
  pub started_at : ℕ
  pub completed_at : ℕ
  pub reasons : List Str

-- The fields of `Migrator` but for its locator.
pub record Migrator : Type 0 where
  pub migrating : Map Bool
  pub history : List MigrationReport

unfoldable pub new_migrator : Migrator
new_migrator = record { migrating = []; history = [] }

-- m.migrating[nodeID]
unfoldable pub is_migrating : Str → Migrator → Bool
is_migrating node_id m = elim (lookup node_id m.migrating) [ none ↦ false | some b ↦ b ]

-- The first critical section of `MigrateNode`: none if the node is being migrated.
unfoldable pub begin_migration : Str → Migrator → Option Migrator
unfolding is_migrating
begin_migration node_id m =
    if is_migrating node_id m
    then none
    else some (record m { migrating = put node_id true m.migrating })

-- The deferred one.
unfoldable pub end_migration : Str → Migrator → Migrator
end_migration node_id m = record m { migrating = delete node_id m.migrating }

unfoldable pub record_report : MigrationReport → Migrator → Migrator
record_report r m = record m { history = m.history ++ r ∷ [] }

unfoldable pub get_history : Migrator → List MigrationReport
get_history m = m.history

-- The loop of `GetLastReport`, over the reports from the last one on.
unfoldable pub first_report : Str → List MigrationReport → Option MigrationReport
first_report node_id [] = none
first_report node_id (r ∷ rs) = if r.node_id == node_id then some r else first_report node_id rs

unfoldable pub get_last_report : Str → Migrator → Option MigrationReport
unfolding first_report
get_last_report node_id m = first_report node_id (reverse m.history)

-- The last critical sections, the deferred one too.
unfoldable pub conclude : MigrationReport → Bool → Migrator → Migrator
unfolding record_report end_migration
conclude r recorded m = end_migration r.node_id (if recorded then record_report r m else m)

-- The report as `MigrateNode` begins it, with the number of chunks and the time that it ends with.
unfoldable pub new_report : PredictionResult → ℕ → ℕ → ℕ → MigrationReport
new_report prediction total started_at completed_at = record {
  node_id = prediction.node_id;
  risk_score = prediction.overall_risk;
  status = prediction.status;
  total_chunks = total;
  migrated_chunks = 0;
  failed_chunks = 0;
  events = [];
  started_at = started_at;
  completed_at = completed_at;
  reasons = prediction.reasons;
}

-- What the migrator meets outside itself. `transfer source chunk target` is the call of the source
-- node: its error, or none if it succeeds, and the state after it, since the locator's owner serves
-- other calls meanwhile.
pub record Surroundings (S : Type 0) : Type 0 where
  pub transfer : Str → Str → Str → S → Option Str × S
  pub started_at : Str → ℕ
  pub duration : Str → ℕ

module _ {S : Type 0} (locator : ChunkLocator S) (env : Surroundings S) where
  -- The event as `migrateChunk` begins it, with the duration that it ends with.
  unfoldable pub new_event : Str → Str → MigrationEvent
  new_event chunk_id from_node_id = record {
    chunk_id = chunk_id;
    from_node_id = from_node_id;
    to_node_id = [];
    to_address = [];
    reason = [];
    success = false;
    error = [];
    started_at = env.started_at chunk_id;
    duration = env.duration chunk_id;
  }

  -- `migrateChunk` from the choice of the target on.
  unfoldable pub migrate_to : Str → Str → Str → NodeTarget → S → MigrationEvent × S
  unfolding new_event
  migrate_to chunk_id from_node_id source_addr target s =
      let event : MigrationEvent = record (new_event chunk_id from_node_id) {
        to_node_id = target.node_id;
        to_address = target.address;
        reason =
            bytes "proactive migration from at-risk node " ++ from_node_id ++ bytes " (risk: 0.00)";
      } in
      let (answer, s') = env.transfer source_addr chunk_id target.address s in
      elim answer [
        | some error ↦ (record event { error = error }, s')
        | none ↦
            let added = locator.add_chunk_to_node chunk_id target.node_id s' in
            (
              record event { success = true },
              locator.remove_chunk_from_node chunk_id from_node_id added,
            )
      ]

  unfoldable pub migrate_chunk : Str → Str → Str → S → MigrationEvent × S
  unfolding migrate_to new_event
  migrate_chunk chunk_id from_node_id source_addr s = elim (locator.get_chunk_meta s chunk_id) [
    | none ↦
        (record (new_event chunk_id from_node_id) { error = bytes "chunk metadata not found" }, s)
    | some existing ↦ elim (locator.get_healthy_node_addresses s existing) [
      | [] ↦ (
        record (new_event chunk_id from_node_id) {
          error = bytes "no healthy target nodes available";
        },
        s,
      )
      | target ∷ _ ↦ migrate_to chunk_id from_node_id source_addr target s
    ]
  ]

  -- The loop over the chunks.
  unfoldable pub migrate_chunks : Str → Str → List Str → MigrationReport → S → MigrationReport × S
  unfolding migrate_chunk
  migrate_chunks from_node_id source_addr [] r s = (r, s)
  migrate_chunks from_node_id source_addr (c ∷ cs) r s =
      let (event, s') = migrate_chunk c from_node_id source_addr s in
      migrate_chunks from_node_id source_addr cs
        (record r {
          events = r.events ++ event ∷ [];
          migrated_chunks = if event.success then r.migrated_chunks + 1 else r.migrated_chunks;
          failed_chunks = if event.success then r.failed_chunks else r.failed_chunks + 1;
        })
        s'

  -- `MigrateNode` between its first and its last critical section: the report, whether it goes into
  -- the history, and the state.
  unfoldable pub migrate_off : PredictionResult → ℕ → ℕ → S → MigrationReport × Bool × S
  unfolding migrate_chunks new_report
  migrate_off prediction started_at completed_at s =
      let chunk_ids = locator.get_chunks_on_node s prediction.node_id in
      let report = new_report prediction (length chunk_ids) started_at completed_at in
      elim chunk_ids [
        | [] ↦ (report, true, s)
        | c ∷ cs ↦ elim (locator.get_node_address s prediction.node_id) [
          | none ↦ (report, false, s)
          | some source_addr ↦
              let (r, s') = migrate_chunks prediction.node_id source_addr (c ∷ cs) report s in
              (r, true, s')
        ]
      ]

  -- `MigrateNode` where no other migration comes between; none is a migration that is refused.
  unfoldable pub migrate_node :
      PredictionResult → ℕ → ℕ → Migrator → S → Option MigrationReport × Migrator × S
  unfolding migrate_off begin_migration conclude
  migrate_node prediction started_at completed_at m s =
      elim (begin_migration prediction.node_id m) [
        | none ↦ (none, m, s)
        | some m' ↦
            let (r, recorded, s') = migrate_off prediction started_at completed_at s in
            (some r, conclude r recorded m', s')
      ]

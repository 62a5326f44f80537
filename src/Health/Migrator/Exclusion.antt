-- ===== src/Health/Migrator/Exclusion.antt =====
-- Calls of `MigrateNode` by several goroutines: each is its first critical section, and later its last
-- ones; between them stand those of other calls.
use sentinel_fs.Prelude.{
  ◌≡◌, refl, sym, ◌∙◌, List, [], ◌∷◌, Bool, true, false, some, Str, lookup, put, delete, keys,
  Distinct, mem, erase, arith, mem-erase, erase-Distinct, lookup-put, lookup-delete,
  keys-put-Distinct, keys-delete-Distinct,
}
use sentinel_fs.Health.Migrator.{
  MigrationReport, Migrator, new_migrator, is_migrating, begin_migration, end_migration,
  record_report, conclude,
}

-- The migrator, and the node of each call that is between its first and its last critical section.
pub record Running : Type 0 where
  pub migrator : Migrator
  pub in_flight : List Str

pub data RunningStep (s : Running) : Running → Type 0 where
  begins :
      (node_id : Str) (m : Migrator)
      → begin_migration node_id s.migrator ≡ some m
      → RunningStep s (record { migrator = m; in_flight = node_id ∷ s.in_flight })
  concludes :
      (r : MigrationReport) (recorded : Bool)
      → mem r.node_id s.in_flight ≡ true
      → RunningStep s (record {
        migrator = conclude r recorded s.migrator;
        in_flight = erase r.node_id s.in_flight;
      })

pub data Runs : Running → Type 0 where
  idle : Runs (record { migrator = new_migrator; in_flight = [] })
  after : {s s' : Running} → Runs s → RunningStep s s' → Runs s'

pub record Exclusive (s : Running) : Type 0 where
  pub one_each : Distinct s.in_flight
  pub known : (k : Str) → is_migrating k s.migrator ≡ mem k s.in_flight
  pub keys_distinct : Distinct (keys s.migrator.migrating)

begin_migration-migrating :
    (k : Str) (m m' : Migrator)
    → begin_migration k m ≡ some m'
    → (is_migrating k m ≡ false) × (m'.migrating ≡ put k true m.migrating)
unfolding begin_migration
begin_migration-migrating k m m' e = ground arith

conclude-migrating :
    (r : MigrationReport) (b : Bool) (m : Migrator)
    → (conclude r b m).migrating ≡ delete r.node_id m.migrating
unfolding conclude end_migration record_report
conclude-migrating r true m = refl
conclude-migrating r false m = refl

RunningStep-Exclusive : {s s' : Running} → RunningStep s s' → Exclusive s → Exclusive s'
unfolding is_migrating mem
RunningStep-Exclusive {s} (begins k m e) v =
    let (free, is) = begin_migration-migrating k s.migrator m e in
    record {
      one_each = (sym (v.known k) ∙ free, v.one_each);
      known = λ j. ground (arith, v.known j, is, lookup-put k j true s.migrator.migrating);
      keys_distinct = rw is (keys-put-Distinct k true s.migrator.migrating v.keys_distinct);
    }
RunningStep-Exclusive {s} (concludes r b here) v = record {
  one_each = erase-Distinct r.node_id s.in_flight v.one_each;
  known = λ j. ground (
    arith,
    v.known j,
    conclude-migrating r b s.migrator,
    lookup-delete r.node_id j s.migrator.migrating v.keys_distinct,
    mem-erase j r.node_id s.in_flight v.one_each,
  );
  keys_distinct =
      rw (conclude-migrating r b s.migrator)
        (keys-delete-Distinct r.node_id s.migrator.migrating v.keys_distinct);
}

-- Whatever the order of the critical sections of any number of calls of `MigrateNode`: no two of the
-- calls that were let through and have not ended are for the same node, and `IsMigrating` answers
-- true for exactly the nodes of these calls.
pub Runs-Exclusive : {s : Running} → Runs s → Exclusive s
unfolding new_migrator is_migrating lookup mem
Runs-Exclusive idle = record { one_each = tt; known = λ k. refl; keys_distinct = tt }
Runs-Exclusive (after r st) = RunningStep-Exclusive st (Runs-Exclusive r)

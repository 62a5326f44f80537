-- ===== src/Health/Migrator/Tally.antt =====
-- What one call of `MigrateNode` reports and leaves behind.
use sentinel_fs.Prelude.{
  ℕ, ◌+◌, ◌≡◌, ◌≢◌, refl, sym, ◌∙◌, ap, inl, inr, List, [], ◌∷◌, ◌++◌, Bool, true, false, none,
  some, Str, ◌==◌, eq_iff, eq_refl, lookup, put, delete, keys, Distinct, length, length-append,
  if◌then◌else◌, arith, Bool-cases, Option-cases, lookup-put, lookup-delete, keys-put-Distinct,
}
use sentinel_fs.Health.Locator.{ChunkLocator}
use sentinel_fs.Health.Prediction.{PredictionResult}
use mathlib.Core.List.{reverse-append}
use sentinel_fs.Health.Migrator.{
  get_last_report, MigrationEvent, MigrationReport, Migrator, Surroundings, is_migrating,
  begin_migration, end_migration, record_report, migrate_chunk, migrate_chunks, migrate_off,
  new_report, conclude, migrate_node,
}

abbrev pub successes : List MigrationEvent → ℕ
successes [] = 0
successes (e ∷ es) = (if e.success then 1 else 0) + successes es

successes-append :
    (xs ys : List MigrationEvent) → successes (xs ++ ys) ≡ successes xs + successes ys
successes-append [] ys = omega arith
successes-append (x ∷ xs) ys = omega (arith, successes-append xs ys)

-- The counters of a report count its events.
pub record Tallied (r : MigrationReport) : Type 0 where
  pub counts_successes : r.migrated_chunks ≡ successes r.events
  pub counts_all : r.migrated_chunks + r.failed_chunks ≡ length r.events

module _ {S : Type 0} (locator : ChunkLocator S) (env : Surroundings S) where
  migrate_chunks-Tallied :
      (from addr : Str) (cs : List Str) (r : MigrationReport) (s : S)
      → Tallied r
      → let r' = (migrate_chunks locator env from addr cs r s).0 in
        Tallied r'
        × (length r'.events ≡ length r.events + length cs)
        × (r'.node_id ≡ r.node_id)
        × (r'.total_chunks ≡ r.total_chunks)
  unfolding migrate_chunks
  migrate_chunks-Tallied from addr [] r s t = (t, omega arith, refl, refl)
  migrate_chunks-Tallied from addr (c ∷ cs) r s t =
      let e = (migrate_chunk locator env c from addr s).0 in
      let r' : MigrationReport = record r {
        events = r.events ++ e ∷ [];
        migrated_chunks = if e.success then r.migrated_chunks + 1 else r.migrated_chunks;
        failed_chunks = if e.success then r.failed_chunks else r.failed_chunks + 1;
      } in
      let next =
        migrate_chunks-Tallied from addr cs r' (migrate_chunk locator env c from addr s).1
          (ground (arith, successes-append r.events (e ∷ []), length-append r.events (e ∷ []))) in
      (next.0, omega (arith, next.1, length-append r.events (e ∷ [])), next.2, next.3)

  migrate_off-Tallied :
      (p : PredictionResult) (t t' : ℕ) (s : S)
      → let r = migrate_off locator env p t t' s in
        Tallied r.0
        × (r.0.node_id ≡ p.node_id)
        × (r.0.total_chunks ≡ length (locator.get_chunks_on_node s p.node_id))
        × (locator.get_node_address s p.node_id ≢ none
            → (length r.0.events ≡ r.0.total_chunks) × (r.1 ≡ true))
  unfolding migrate_off
  migrate_off-Tallied p t t' s = by_chunks (locator.get_chunks_on_node s p.node_id) refl
    where
      Done : Type 0
      Done =
          let r = migrate_off locator env p t t' s in
          Tallied r.0
          × (r.0.node_id ≡ p.node_id)
          × (r.0.total_chunks ≡ length (locator.get_chunks_on_node s p.node_id))
          × (locator.get_node_address s p.node_id ≢ none
              → (length r.0.events ≡ r.0.total_chunks) × (r.1 ≡ true))

      by_chunks : (cs : List Str) → locator.get_chunks_on_node s p.node_id ≡ cs → Done
      by_chunks [] e =
          rw (e, migrate_off) (omega arith, refl, ap length e, λ h. (sym (ap length e), refl))
      by_chunks (c ∷ cs) e = elim (Option-cases (locator.get_node_address s p.node_id)) [
        | inl out ↦ rw (e, out, migrate_off) (omega arith, refl, ap length e, λ h. absurd (h refl))
        | inr (addr, found) ↦
            let start = new_report p (length (locator.get_chunks_on_node s p.node_id)) t t' in
            let h = migrate_chunks-Tallied p.node_id addr (c ∷ cs) start s (omega arith) in
            rw (e, found, migrate_off)
              (h.0, h.2, h.3 ∙ ap length e, λ _. (omega (arith, h.1, h.3, ap length e), refl))
      ]

  -- `MigrateNode` on a node that is being migrated returns nothing and changes nothing. Otherwise it
  -- returns a report on the node and as many chunks as it held, whose counters count its events;
  -- afterwards the node is not being migrated, and for every other node that is as before. If the
  -- address of the node is known, there is an event for each chunk, and the report stands last in the
  -- history and is the last one of its node.
  pub migrate_node-Tallied :
      (p : PredictionResult) (started_at completed_at : ℕ) (m : Migrator) (s : S)
      → Distinct (keys m.migrating)
      → let r = migrate_node locator env p started_at completed_at m s in
        (is_migrating p.node_id m ≡ true → r ≡ (none, m, s))
        × (is_migrating p.node_id m ≡ false
            → (report : MigrationReport) × (r.0 ≡ some report)
              × Tallied report
              × (report.node_id ≡ p.node_id)
              × (report.total_chunks ≡ length (locator.get_chunks_on_node s p.node_id))
              × (is_migrating p.node_id r.1 ≡ false)
              × ((k : Str) → (p.node_id == k) ≡ false → is_migrating k r.1 ≡ is_migrating k m)
              × (locator.get_node_address s p.node_id ≢ none
                  → (length report.events ≡ report.total_chunks)
                    × (r.1.history ≡ m.history ++ report ∷ [])
                    × (get_last_report p.node_id r.1 ≡ some report)))
  unfolding migrate_node conclude is_migrating get_last_report record_report end_migration
  migrate_node-Tallied p t t' m s d = elim (Bool-cases (is_migrating p.node_id m)) [
    | inl busy ↦ rw (busy, migrate_node, begin_migration) ((λ _. refl), λ h. cc h)
    | inr free ↦
        let r = migrate_off locator env p t t' s in
        let h = migrate_off-Tallied p t t' s in
        rw (free, migrate_node, begin_migration)
          (
            (λ e. cc e),
            λ _. (
              r.0,
              refl,
              h.0,
              h.1,
              h.2,
              ended r.0 r.1 h.1,
              (λ k ne. others r.0 r.1 h.1 k ne),
              (λ known.
                  ((h.3 known).0, history r.0 r.1 (h.3 known).1, last r.0 r.1 h.1 (h.3 known).1)),
            ),
          )
  ]
    where
      begun : Migrator
      begun = record m { migrating = put p.node_id true m.migrating }

      back :
          (k : Str)
          → lookup k (delete p.node_id begun.migrating)
            ≡ (if p.node_id == k then none else lookup k begun.migrating)
      back k =
          lookup-delete p.node_id k begun.migrating (keys-put-Distinct p.node_id true m.migrating d)

      gone : lookup p.node_id (delete p.node_id begun.migrating) ≡ none
      gone = ground (arith, back p.node_id, eq_refl p.node_id)

      ended :
          (r : MigrationReport) (b : Bool)
          → r.node_id ≡ p.node_id
          → is_migrating p.node_id (conclude r b begun) ≡ false
      ended r true e = ground (arith, gone, eq_refl p.node_id)
      ended r false e = ground (arith, gone, eq_refl p.node_id)

      others :
          (r : MigrationReport) (b : Bool)
          → r.node_id ≡ p.node_id
          → (k : Str) → (p.node_id == k) ≡ false
          → is_migrating k (conclude r b begun) ≡ is_migrating k m
      others r true e k ne = ground (arith, back k, lookup-put p.node_id k true m.migrating)
      others r false e k ne = ground (arith, back k, lookup-put p.node_id k true m.migrating)

      history :
          (r : MigrationReport) (b : Bool)
          → b ≡ true
          → (conclude r b begun).history ≡ m.history ++ r ∷ []
      history r true e = refl
      history r false e = cc

      last :
          (r : MigrationReport) (b : Bool)
          → r.node_id ≡ p.node_id
          → b ≡ true
          → get_last_report p.node_id (conclude r b begun) ≡ some r
      last r true e h =
          rw (reverse-append m.history (r ∷ [])) (ground (arith, eq_iff r.node_id p.node_id))
      last r false e h = cc

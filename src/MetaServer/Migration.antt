-- ===== src/MetaServer/Migration.antt =====
-- The migrator at work on the chunk manager, through the adapter.
use sentinel_fs.Prelude.{
  ℕ, ◌≡◌, refl, subst, inl, inr, List, [], ◌∷◌, true, false, none, some, Str, bytes, lookup, mem,
  length, Option-cases, All,
}
use sentinel_fs.ChunkManager.State.{DataNodeInfo, ChunkMeta, ChunkManager}
use sentinel_fs.ChunkManager.Nodes.{get_all_nodes, receives_chunks}
use sentinel_fs.ChunkManager.Locations.{get_chunk_meta}
use sentinel_fs.ChunkManager.Replicas.Migration.{moved}
use sentinel_fs.ChunkManager.Invariant.Steps.{Inv, adds, drops}
use sentinel_fs.ChunkManager.Invariant.Runs.{Run, stay, more, Run-Inv, Run-Keeps, Run-trans}
use sentinel_fs.Health.Locator.{NodeTarget}
use sentinel_fs.Health.Prediction.{PredictionResult}
use sentinel_fs.Health.Migrator.{
  MigrationEvent, MigrationReport, Surroundings, new_event, migrate_to, migrate_chunk,
  migrate_chunks, migrate_off, new_report,
}
use sentinel_fs.MetaServer.Adapter.{
  targets_among, chunk_manager_adapter, IsTarget, chunk_manager_adapter-IsTarget,
}

-- What a migration of chunk `c` off node `from` did when it succeeded in a state where no other call
-- came between.
pub record Moved (env : Surroundings ChunkManager) (c from addr : Str) (cm : ChunkManager)
    (e : MigrationEvent) (cm' : ChunkManager) : Type 0 where
  pub meta : ChunkMeta
  pub recorded : lookup c cm.chunks ≡ some meta
  pub target : DataNodeInfo
  pub registered : lookup e.to_node_id cm.nodes ≡ some target
  pub its_address : target.address ≡ e.to_address
  pub receives : receives_chunks target.status ≡ true
  pub new_holder : mem e.to_node_id meta.node_ids ≡ false
  pub transferred : (env.transfer addr c e.to_address cm).0 ≡ none
  pub state : cm' ≡ moved c from e.to_node_id cm

module _ (env : Surroundings ChunkManager) where
  targets-IsTarget :
      (cm : ChunkManager) (meta : ChunkMeta) (t : NodeTarget) (ts : List NodeTarget)
      → Inv cm
      → targets_among meta.node_ids (get_all_nodes cm) ≡ t ∷ ts
      → IsTarget cm meta.node_ids t
  unfolding chunk_manager_adapter
  targets-IsTarget cm meta t ts v e =
      (subst (All (IsTarget cm meta.node_ids)) e
        (chunk_manager_adapter-IsTarget cm meta.node_ids v.registry)).0

  -- In a well-formed state, if no other call comes between: a chunk that is migrated has a record, its
  -- target is a registered node, healthy or warned, that the record does not list, the transfer to
  -- the registered address of the target succeeded, and the state is that with the replica moved
  -- there. A chunk that is not migrated leaves the state as it was.
  pub migrate_chunk-Moved :
      (c from addr : Str) (cm : ChunkManager)
      → Inv cm
      → ((source chunk target : Str) → (env.transfer source chunk target cm).1 ≡ cm)
      → let r = migrate_chunk chunk_manager_adapter env c from addr cm in
        (r.0.success ≡ true → Moved env c from addr cm r.0 r.1) × (r.0.success ≡ false → r.1 ≡ cm)
  unfolding migrate_chunk chunk_manager_adapter get_chunk_meta migrate_to new_event
  migrate_chunk-Moved c from addr cm v quiet = elim (Option-cases (lookup c cm.chunks)) [
    | inl out ↦
        rw (migrate_chunk, chunk_manager_adapter, get_chunk_meta, out) ((λ h. cc h), λ h. refl)
    | inr (m, found) ↦
        rw (migrate_chunk, chunk_manager_adapter, get_chunk_meta, found)
          (by_targets m found (targets_among m.node_ids (get_all_nodes cm)) refl)
  ]
    where
      Done : MigrationEvent × ChunkManager → Type 0
      Done r =
          (r.0.success ≡ true → Moved env c from addr cm r.0 r.1) × (r.0.success ≡ false → r.1 ≡ cm)

      by_answer :
          (m : ChunkMeta) (t : NodeTarget)
          → lookup c cm.chunks ≡ some m
          → IsTarget cm m.node_ids t
          → Done (migrate_to chunk_manager_adapter env c from addr t cm)
      by_answer m t found is = elim (Option-cases (env.transfer addr c t.address cm).0) [
        | inl sent ↦
            rw (migrate_to, sent, quiet addr c t.address)
              (
                (λ _. record {
                  meta = m;
                  recorded = found;
                  target = is.node;
                  registered = is.registered;
                  its_address = is.its_address;
                  receives = is.receives;
                  new_holder = is.not_excluded;
                  transferred = sent;
                  state = refl;
                }),
                λ h. cc h,
              )
        | inr (error, lost) ↦ rw (migrate_to, lost, quiet addr c t.address) ((λ h. cc h), λ h. refl)
      ]

      by_targets :
          (m : ChunkMeta)
          → lookup c cm.chunks ≡ some m
          → (ts : List NodeTarget) → targets_among m.node_ids (get_all_nodes cm) ≡ ts
          → Done (elim ts [
            | [] ↦ (
              record (new_event chunk_manager_adapter env c from) {
                error = bytes "no healthy target nodes available";
              },
              cm,
            )
            | t ∷ _ ↦ migrate_to chunk_manager_adapter env c from addr t cm
          ])
      by_targets m found [] e = ((λ h. cc h), λ h. refl)
      by_targets m found (t ∷ ts) e = by_answer m t found (targets-IsTarget cm m t ts v e)

module _ (sha256 : List ℕ → List ℕ) (env : Surroundings ChunkManager)
    (interleaves : (source chunk target : Str) (cm : ChunkManager)
      → Run sha256 cm (env.transfer source chunk target cm).1) where
  migrate_to-Run :
      (c from addr : Str) (t : NodeTarget) (n : DataNodeInfo) (cm : ChunkManager)
      → lookup t.node_id cm.nodes ≡ some n
      → Run sha256 cm (migrate_to chunk_manager_adapter env c from addr t cm).1
  unfolding migrate_to chunk_manager_adapter new_event
  migrate_to-Run c from addr t n cm found =
      let r = interleaves addr c t.address cm in
      elim (Option-cases (env.transfer addr c t.address cm).0) [
        | inl sent ↦
            let (n', found') = Run-Keeps sha256 r t.node_id n found in
            rw (migrate_to, sent) (more (more r (adds c t.node_id) (n', found')) (drops c from) tt)
        | inr (error, lost) ↦ rw (migrate_to, lost) r
      ]

  migrate_chunk-Run :
      (c from addr : Str) (cm : ChunkManager)
      → Inv cm
      → Run sha256 cm (migrate_chunk chunk_manager_adapter env c from addr cm).1
  unfolding migrate_chunk chunk_manager_adapter get_chunk_meta
  migrate_chunk-Run c from addr cm v = elim (Option-cases (lookup c cm.chunks)) [
    | inl out ↦ rw (migrate_chunk, chunk_manager_adapter, get_chunk_meta, out) stay
    | inr (m, found) ↦
        rw (migrate_chunk, chunk_manager_adapter, get_chunk_meta, found)
          (by_targets m (targets_among m.node_ids (get_all_nodes cm)) refl)
  ]
    where
      Done : MigrationEvent × ChunkManager → Type 0
      Done r = Run sha256 cm r.1

      by_targets :
          (m : ChunkMeta) (ts : List NodeTarget)
          → targets_among m.node_ids (get_all_nodes cm) ≡ ts
          → Done (elim ts [
            | [] ↦ (
              record (new_event chunk_manager_adapter env c from) {
                error = bytes "no healthy target nodes available";
              },
              cm,
            )
            | t ∷ _ ↦ migrate_to chunk_manager_adapter env c from addr t cm
          ])
      by_targets m [] e = stay
      by_targets m (t ∷ ts) e =
          let is = targets-IsTarget env cm m t ts v e in
          migrate_to-Run c from addr t is.node cm is.registered

  migrate_chunks-Run :
      (from addr : Str) (cs : List Str) (r : MigrationReport) (cm : ChunkManager)
      → Inv cm
      → Run sha256 cm (migrate_chunks chunk_manager_adapter env from addr cs r cm).1
  unfolding migrate_chunks
  migrate_chunks-Run from addr [] r cm v = stay
  migrate_chunks-Run from addr (c ∷ cs) r cm v =
      let first = migrate_chunk-Run c from addr cm v in
      Run-trans sha256 first (
        migrate_chunks-Run from addr cs _ (migrate_chunk chunk_manager_adapter env c from addr cm).1
          (Run-Inv sha256 first v))

  -- A migration of all chunks of a node, during whose transfers the chunk manager may do any sequence
  -- of its operations: what it does to a well-formed state is again such a sequence, in which a
  -- replica is only ever added on a registered node, and the state is well formed after it.
  pub migrate_off-Run :
      (p : PredictionResult) (started_at completed_at : ℕ) (cm : ChunkManager)
      → Inv cm
      → let cm' = (migrate_off chunk_manager_adapter env p started_at completed_at cm).2 in
        Run sha256 cm cm' × Inv cm'
  unfolding migrate_off
  migrate_off-Run p t t' cm v = (whole, Run-Inv sha256 whole v)
    where
      by_chunks :
          (cs : List Str)
          → chunk_manager_adapter.get_chunks_on_node cm p.node_id ≡ cs
          → Run sha256 cm (migrate_off chunk_manager_adapter env p t t' cm).2
      by_chunks [] e = rw (migrate_off, e) stay
      by_chunks (c ∷ cs) e =
          elim (Option-cases (chunk_manager_adapter.get_node_address cm p.node_id)) [
            | inl out ↦ rw (migrate_off, e, out) stay
            | inr (addr, found) ↦
                rw (migrate_off, e, found)
                  (migrate_chunks-Run p.node_id addr (c ∷ cs)
                    (new_report p (length (chunk_manager_adapter.get_chunks_on_node cm p.node_id)) t
                      t')
                    cm v)
          ]

      whole : Run sha256 cm (migrate_off chunk_manager_adapter env p t t' cm).2
      whole = by_chunks (chunk_manager_adapter.get_chunks_on_node cm p.node_id) refl

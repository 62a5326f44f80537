-- ===== src/MetaServer/Steps.antt =====
-- The handlers, the background routines and the writes of a migration as steps of the server's state.
use sentinel_fs.Prelude.{
  ℕ, ◌≡◌, refl, sym, inl, inr, List, some, Str, Result, lookup, Result-cases, Int64, subst,
}
use sentinel_fs.Float64.{Float64}
use sentinel_fs.Config.{NodeStatus}
use sentinel_fs.ChunkManager.State.{DataNodeInfo, ChunkManager, ChunkError}
use sentinel_fs.ChunkManager.Nodes.{update_node_health, check_dead_nodes}
use sentinel_fs.ChunkManager.Replicas.{add_chunk_to_node, remove_chunk_from_node}
use sentinel_fs.ChunkManager.Placement.{ChunkPlacementInfo, allocate_chunks}
use sentinel_fs.ChunkManager.Invariant.Steps.{
  Inv, SameMap, registers, beats, grades, allocates, removes, adds, drops, checks, reorders,
}
use sentinel_fs.ChunkManager.Invariant.Reach.{Step-Inv, new_chunk_manager-Inv}
use sentinel_fs.Namespace.Files
use sentinel_fs.Namespace.Files.{Namespace, create_file}
use sentinel_fs.MetaServer.Messages.{
  Server, new_server, PutFileRequest, int_of_int32, new_file_meta,
}
use sentinel_fs.MetaServer.FileRequests.{put_file, register_file, delete_file}
use sentinel_fs.MetaServer.NodeRequests.{register_node, heartbeat}

-- A request that changes the state, a round of a background routine, the two writes of a migration, or
-- a new order of the maps' entries. What the predictor finds and where a migration goes is free, but
-- that the target is registered.
pub data ServerStep (sha256 : List ℕ → List ℕ) (s : Server) : Server → Type 0 where
  puts :
      (req : PutFileRequest) (now created_at : ℕ)
      → ServerStep sha256 s (put_file sha256 req now created_at s).1
  deletes : (path : Str) → ServerStep sha256 s (delete_file path s).1
  joins :
      (address : Str) (capacity : Int64) (now : ℕ)
      → ServerStep sha256 s (register_node address capacity now s).1
  hears :
      (node_id : Str) (used_bytes : Int64) (chunk_count now : ℕ)
      → ServerStep sha256 s (heartbeat node_id used_bytes chunk_count now s).1
  predicts :
      (node_id : Str) (status : NodeStatus) (risk : Float64)
      → ServerStep sha256 s
          (record s { chunk_mgr = update_node_health node_id status risk s.chunk_mgr })
  buries :
      (now : ℕ)
      → ServerStep sha256 s (record s { chunk_mgr = (check_dead_nodes now s.chunk_mgr).1 })
  copies :
      (chunk_id node_id : Str) (n : DataNodeInfo)
      → lookup node_id s.chunk_mgr.nodes ≡ some n
      → ServerStep sha256 s
          (record s { chunk_mgr = add_chunk_to_node chunk_id node_id s.chunk_mgr })
  discards :
      (chunk_id node_id : Str)
      → ServerStep sha256 s
          (record s { chunk_mgr = remove_chunk_from_node chunk_id node_id s.chunk_mgr })
  shuffles :
      (cm : ChunkManager)
      → SameMap s.chunk_mgr.nodes cm.nodes
      → SameMap s.chunk_mgr.chunks cm.chunks
      → ServerStep sha256 s (record s { chunk_mgr = cm })

pub data Serves (sha256 : List ℕ → List ℕ) : Server → Type 0 where
  begin : Serves sha256 new_server
  then_step : {s s' : Server} → Serves sha256 s → ServerStep sha256 s s' → Serves sha256 s'

register_file-chunk_mgr :
    (req : PutFileRequest) (created_at : ℕ) (ps : List ChunkPlacementInfo) (s : Server)
    → (register_file req created_at ps s).1.chunk_mgr ≡ s.chunk_mgr
unfolding register_file
register_file-chunk_mgr req created_at ps s =
    elim (Result-cases (create_file req.path (new_file_meta req created_at ps) s.namespace)) [
      | inl (e, failed) ↦ rw (failed, register_file) refl
      | inr (u, made) ↦ rw (made, register_file) refl
    ]

-- `PutFile` leaves the chunk manager as the allocation did.
pub put_file-chunk_mgr :
    (sha256 : List ℕ → List ℕ) (req : PutFileRequest) (now created_at : ℕ) (s : Server)
    → (put_file sha256 req now created_at s).1.chunk_mgr
      ≡ (allocate_chunks sha256 req.path req.file_size
          (int_of_int32 req.chunk_count)
          now
          s.chunk_mgr).1
unfolding put_file
put_file-chunk_mgr sha256 req now created_at s = elim (Result-cases allocated) [
  | inl (e, failed) ↦ rw (failed, put_file) refl
  | inr (ps, done) ↦
      rw (done, put_file)
        (register_file-chunk_mgr req created_at ps (record s { chunk_mgr = allocated.1 }))
]
  where
    allocated : Result ChunkError (List ChunkPlacementInfo) × ChunkManager
    allocated =
        allocate_chunks sha256 req.path req.file_size (int_of_int32 req.chunk_count) now s.chunk_mgr

delete_file-Inv :
    (sha256 : List ℕ → List ℕ) (path : Str) (s : Server)
    → Inv s.chunk_mgr
    → Inv (delete_file path s).1.chunk_mgr
unfolding delete_file
delete_file-Inv sha256 path s v = elim (Result-cases (Files.delete_file path s.namespace)) [
  | inl (e, failed) ↦ rw (failed, delete_file) v
  | inr (f, done) ↦ rw (done, delete_file) (Step-Inv sha256 (removes f.chunk_ids) tt v)
]

ServerStep-Inv :
    (sha256 : List ℕ → List ℕ) {s s' : Server}
    → ServerStep sha256 s s'
    → Inv s.chunk_mgr
    → Inv s'.chunk_mgr
unfolding register_node heartbeat
ServerStep-Inv sha256 {s = s} (puts req now created_at) v =
    subst Inv (sym (put_file-chunk_mgr sha256 req now created_at s))
      (Step-Inv sha256 (allocates req.path req.file_size (int_of_int32 req.chunk_count) now) tt v)
ServerStep-Inv sha256 {s = s} (deletes path) v = delete_file-Inv sha256 path s v
ServerStep-Inv sha256 (joins a c t) v = Step-Inv sha256 (registers a c t) tt v
ServerStep-Inv sha256 (hears k u c t) v = Step-Inv sha256 (beats k u c t) tt v
ServerStep-Inv sha256 (predicts k st r) v = Step-Inv sha256 (grades k st r) tt v
ServerStep-Inv sha256 (buries t) v = Step-Inv sha256 (checks t) tt v
ServerStep-Inv sha256 (copies c k n found) v = Step-Inv sha256 (adds c k) (n, found) v
ServerStep-Inv sha256 (discards c k) v = Step-Inv sha256 (drops c k) tt v
ServerStep-Inv sha256 (shuffles cm ns cs) v = Step-Inv sha256 (reorders cm ns cs) tt v

pub Serves-Inv : (sha256 : List ℕ → List ℕ) {s : Server} → Serves sha256 s → Inv s.chunk_mgr
unfolding new_server
Serves-Inv sha256 begin = new_chunk_manager-Inv
Serves-Inv sha256 (then_step r st) = ServerStep-Inv sha256 st (Serves-Inv sha256 r)

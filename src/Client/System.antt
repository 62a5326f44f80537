-- ===== src/Client/System.antt =====
-- A file that is uploaded to the metadata server and the data nodes, and downloaded from them.
use mathlib.Core.List.{Mem, Perm}
use sentinel_fs.Prelude.{
  ℕ, ◌+◌, ◌%◌, ◌^◌, ◌≤◌, ◌<◌, ◌≡◌, refl, sym, ◌∙◌, ap, subst, List, [], ◌∷◌, ◌++◌, map, Bool, true,
  Option, some, Str, All, Distinct, length, Map, length-map, Result, ok, arith, min,
}
use sentinel_fs.Config.{chunk_size}
use sentinel_fs.ChunkManager.State.{DataNodeInfo}
use sentinel_fs.ChunkManager.Nodes.{healthy_nodes}
use sentinel_fs.ChunkManager.Placement.{ChunkPlacementInfo}
use sentinel_fs.ChunkManager.Placement.Replication.{PlacedFrom}
use sentinel_fs.ChunkManager.Invariant.Steps.{Inv}
use sentinel_fs.Namespace.Paths.Words.{IsWord, path_of}
use sentinel_fs.DataNode.Server.Cluster.{Cluster, Weather, send_store}
use sentinel_fs.DataNode.Server.Serving.{Compatible}
use sentinel_fs.MetaServer.Messages.{
  Server, Failure, PutFileRequest, ChunkPlacement, placement_of, int_of_int32,
}
use sentinel_fs.MetaServer.FileRequests
use sentinel_fs.MetaServer.Requests.{put_file_lem}
use sentinel_fs.MetaServer.Readback.{get_file-put_file}
use sentinel_fs.Client.Split.{read_chunks, read_and_chunk_file}
use sentinel_fs.Client.Upload.{Sender, start_senders}
use sentinel_fs.Client.Upload.Replicated.{request_of}
use sentinel_fs.Client.Download.{ChunkResult}
use sentinel_fs.Client.Download.Ordered.{IndexesFrom}
use sentinel_fs.Client.Files.{put_file, get_file}
use sentinel_fs.Client.RoundTrip.{AllReached, fetch_from, request_for, put_file-get_file}

-- The call of `PutFile` at these times, which is answered.
abbrev pub call_server :
    (List ℕ → List ℕ)
    → ℕ
    → ℕ
    → PutFileRequest
    → Server
    → Option (Result Failure (List ChunkPlacement)) × Server
call_server sha256 now created_at req s =
    let (r, s') = FileRequests.put_file sha256 req now created_at s in (some r, s')

PlacedFrom-IndexesFrom :
    (sha256 : List ℕ → List ℕ) (path : Str) (nodes : Map DataNodeInfo) (healthy : List Str)
    (count i : ℕ) (ps : List ChunkPlacementInfo)
    → i + length ps ≤ 2 ^ 31
    → PlacedFrom sha256 path nodes healthy count i ps
    → IndexesFrom i (map placement_of ps)
unfolding placement_of
PlacedFrom-IndexesFrom sha256 path nodes healthy count i [] small h = tt
PlacedFrom-IndexesFrom sha256 path nodes healthy count i (p ∷ ps) small h =
    let at : p.chunk_index % 2 ^ 32 ≡ i = omega (arith, h.0.index) in
    (
      omega arith,
      omega arith,
      subst (λ x. IndexesFrom (x + 1) (map placement_of ps)) (sym at)
          (PlacedFrom-IndexesFrom sha256 path nodes healthy count (i + 1) ps (omega arith) h.1),
    )

int_of_count : (n : ℕ) → n < 2 ^ 31 → int_of_int32 (n % 2 ^ 32) ≡ n
unfolding int_of_int32
int_of_count n small = ground arith

-- The server's state after an upload is the one after its `PutFile`.
put_file-server :
    (sha256 : List ℕ → List ℕ) (env : Weather) (contents schedule : List ℕ) (now created_at : ℕ)
    (path : Str) (s : Server) (nodes : Cluster)
    → (put_file sha256
        (call_server sha256 now created_at)
        (send_store sha256 env)
        schedule
        (some contents)
        path
        s
        nodes).1
      ≡ (FileRequests.put_file sha256 (request_for sha256 path contents) now created_at s).1
unfolding put_file read_and_chunk_file
put_file-server sha256 env contents schedule now created_at path s nodes = refl

-- For a path in normal form, a well-formed metadata server and a file of fewer than 2 ^ 31 chunks:
-- where `PutFile` answers with placements whose ids differ, and different chunks have, on every
-- node, different files; and where the download reaches an address of each chunk, on nodes that
-- read their disks: if the client's upload succeeds, then its download of that path, if it comes
-- next and can write its local file, returns the contents of the file. That holds for any
-- interleaving of the uploads, whatever the network and the disks do to their calls, and for any
-- order in which the downloads arrive.
pub system_round_trip :
    (sha256 : List ℕ → List ℕ) (env : Weather) (reaches : Str → Bool) (dirs : List Str) (name : Str)
    (contents schedule : List ℕ) (now created_at : ℕ) (s : Server) (nodes : Cluster)
    (placements : List ChunkPlacement) (arrive : List ChunkResult → List ChunkResult)
    → All IsWord (dirs ++ name ∷ [])
    → Inv s.chunk_mgr
    → let path = path_of dirs name in
      let chunks = read_chunks (length contents) chunk_size contents in
      let r =
        put_file sha256
          (call_server sha256 now created_at)
          (send_store sha256 env)
          schedule
          (some contents)
          path
          s
          nodes in
      length chunks < 2 ^ 31
      → (FileRequests.put_file sha256 (request_for sha256 path contents) now created_at s).0
        ≡ ok placements
      → Distinct (map (λ p. p.chunk_id) placements)
      → ((t u : Sender)
          → Mem t (start_senders chunks placements)
          → Mem u (start_senders chunks placements)
          → Compatible sha256 (request_of sha256 env t) u.chunk_id u.contents)
      → AllReached sha256 env reaches placements
      → ((rs : List ChunkResult) → Perm (arrive rs) rs)
      → r.0 ≡ some true
      → get_file true arrive
          (fetch_from sha256 env reaches r.2)
          (some (FileRequests.get_file path r.1))
        ≡ some contents
system_round_trip sha256 env reaches dirs name contents schedule now created_at s nodes placements
      arrive words v small answered distinct apart reached shuffles done =
    let (ps, same, len, placed, _) =
      (put_file_lem sha256 dirs name req now created_at s words refl v).0 placements answered in
    let count : length ps ≡ length chunks = len ∙ int_of_count (length chunks) small in
    let (info, got, _, _) =
      get_file-put_file sha256 dirs name req now created_at s placements words refl v distinct
        answered in
    ap
      (λ s'.
        get_file true arrive (fetch_from sha256 env reaches nodes')
          (some (FileRequests.get_file path s')))
      (put_file-server sha256 env contents schedule now created_at path s nodes)
    ∙ ap (λ a. get_file true arrive (fetch_from sha256 env reaches nodes') (some a)) got
    ∙ put_file-get_file sha256 env reaches (call_server sha256 now created_at) schedule contents
        path s nodes placements info arrive (ap some answered)
        (ap length same ∙ length-map placement_of ps ∙ count)
        (subst (IndexesFrom 0) (sym same) (
          PlacedFrom-IndexesFrom sha256 path s.chunk_mgr.nodes healthy (min 3 (length healthy)) 0 ps
            (omega (arith, count, small)) placed))
        apart reached shuffles done
  where
    healthy : List Str
    healthy = healthy_nodes now s.chunk_mgr.nodes

    path : Str
    path = path_of dirs name

    chunks : List (List ℕ)
    chunks = read_chunks (length contents) chunk_size contents

    req : PutFileRequest
    req = request_for sha256 path contents

    nodes' : Cluster
    nodes' =
        (put_file sha256 (call_server sha256 now created_at) (send_store sha256 env) schedule
          (some contents) path s nodes).2

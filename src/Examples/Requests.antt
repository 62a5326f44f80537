-- ===== src/Examples/Requests.antt =====
-- The theorems on the server's handlers, on a cluster of one node.
use sentinel_fs.Prelude.{
  ℕ, Option, ◌==◌, true, bytes, ◌≡◌, ◌≢◌, ◌↔◌, refl, List, [], ◌∷◌, ◌++◌, map, none, some, Str, ok,
  err, All, length, min, lookup, mem, if◌then◌else◌,
}
use sentinel_fs.ChunkManager.State.{ChunkManager}
use sentinel_fs.ChunkManager.Nodes.{healthy_nodes}
use sentinel_fs.ChunkManager.Placement.{ChunkPlacementInfo}
use sentinel_fs.ChunkManager.Placement.Replication.{PlacedFrom}
use sentinel_fs.ChunkManager.Locations.Live.{HasLive}
use sentinel_fs.Namespace.Paths.{clean_path}
use sentinel_fs.Namespace.Paths.Words.{path_of}
use sentinel_fs.Namespace.Tree.{FileMeta}
use sentinel_fs.Namespace.Tree.View.{same_words}
use sentinel_fs.Namespace.Files.Contract.{stored}
use sentinel_fs.MetaServer.Messages.{
  Server, new_server, Failure, nil_chunk, PutFileRequest, ChunkPlacement, FileInfo, placement_of,
  int_of_int32,
}
use sentinel_fs.MetaServer.FileRequests.{put_file, delete_file, get_file, get_file_during}
use sentinel_fs.MetaServer.NodeRequests.{register_node}
use sentinel_fs.MetaServer.Requests.{put_file_lem, delete_file-removes}
use sentinel_fs.MetaServer.Steps.{Serves, begin, then_step, joins, puts, Serves-Inv}
use sentinel_fs.MetaServer.Reached.{Vanishes, get_file-answers}
use sentinel_fs.MetaServer.Adapter.{IsTarget, chunk_manager_adapter, chunk_manager_adapter-IsTarget}
use sentinel_fs.Client.Fetch.{
  GetChunkResponse, fetch_chunk_from_node, fetch_chunk_from_nodes, Vouched,
  fetch_chunk_from_nodes-Vouched,
}
use sentinel_fs.Examples.Cluster.{identity_hash, address_a, cluster, cluster-Inv}
use sentinel_fs.Examples.Files.{dirs, name, words}

abbrev request : PutFileRequest
request = record { path = path_of dirs name; file_size = 100; chunk_count = 1; checksum = [] }

abbrev one_node : Server
one_node = (register_node address_a 1000 5 new_server).1

abbrev one_file : Server
one_file = (put_file identity_hash request 7 8 one_node).1

one_node-Serves : Serves identity_hash one_node
one_node-Serves = then_step begin (joins address_a 1000 5)

one_file-Serves : Serves identity_hash one_file
one_file-Serves = then_step one_node-Serves (puts request 7 8)

put_file_lem_example :
    let r = put_file identity_hash request 7 8 one_node in
    let healthy = healthy_nodes 7 one_node.chunk_mgr.nodes in
    ((answer : List ChunkPlacement)
      → r.0 ≡ ok answer
      → (ps : List ChunkPlacementInfo) × (answer ≡ map placement_of ps)
        × (length ps ≡ int_of_int32 1)
        × PlacedFrom identity_hash request.path one_node.chunk_mgr.nodes healthy
            (min 3 (length healthy))
            0
            ps
        × ((path : Str)
            → stored r.1.namespace path ≡ (
                if same_words (dirs ++ name ∷ []) (clean_path path)
                then some (record {
                  path = request.path;
                  size = 100;
                  chunk_count = int_of_int32 1;
                  replication_factor = 3;
                  checksum = [];
                  chunk_ids = map (λ p. p.chunk_id) ps;
                  created_at = 8;
                })
                else stored one_node.namespace path)))
    × ((e : Failure)
        → r.0 ≡ err e
        → (path : Str) → stored r.1.namespace path ≡ stored one_node.namespace path)
put_file_lem_example =
    put_file_lem identity_hash dirs name request 7 8 one_node words refl
      (Serves-Inv identity_hash one_node-Serves)

delete_file-removes_example :
    let r = delete_file (path_of dirs name) one_file in
    (r.0 ≡ ok tt
      → (f : FileMeta) × (stored one_file.namespace (path_of dirs name) ≡ some f)
        × ((path : Str)
            → stored r.1.namespace path ≡ (
                if same_words (dirs ++ name ∷ []) (clean_path path)
                then none
                else stored one_file.namespace path))
        × ((d : Str)
            → lookup d r.1.chunk_mgr.chunks
              ≡ (if mem d f.chunk_ids then none else lookup d one_file.chunk_mgr.chunks)))
    × ((e : Failure)
        → r.0 ≡ err e
        → (stored one_file.namespace (path_of dirs name) ≡ none)
          × (r.1.namespace ≡ one_file.namespace)
          × (r.1.chunk_mgr ≡ one_file.chunk_mgr))
delete_file-removes_example =
    delete_file-removes dirs name one_file words (Serves-Inv identity_hash one_file-Serves)

get_file-answers_example :
    (((answer : FileInfo × List ChunkPlacement) × (get_file (path_of dirs name) one_file
          ≡ ok answer))
      ↔ ((f : FileMeta) × (stored one_file.namespace (path_of dirs name) ≡ some f)
          × All (HasLive one_file.chunk_mgr) f.chunk_ids))
    × ((c : Str) → get_file (path_of dirs name) one_file ≢ err (nil_chunk c))
    × ((at : ℕ → ChunkManager) (c : Str)
        → get_file_during (path_of dirs name) one_file.namespace one_file.chunk_mgr at
          ≡ err (nil_chunk c)
        → Vanishes one_file.chunk_mgr at c)
get_file-answers_example =
    get_file-answers identity_hash (path_of dirs name) one_file one_file-Serves

chunk_manager_adapter-IsTarget_example :
    let excluded : List Str = bytes "node-1" ∷ [] in
    All
      (IsTarget cluster excluded)
      (chunk_manager_adapter.get_healthy_node_addresses cluster excluded)
chunk_manager_adapter-IsTarget_example =
    chunk_manager_adapter-IsTarget cluster (bytes "node-1" ∷ []) cluster-Inv.registry

-- The second node answers.
abbrev second_answers : Str → Str → Option GetChunkResponse
second_answers addr chunk_id =
    if addr == bytes "b:9001"
    then some (record { success = true; contents = 1 ∷ []; checksum = [] })
    else none

abbrev both : List Str
both = address_a ∷ bytes "b:9001" ∷ []

fetch_chunk_from_nodes-Vouched_example :
    ((contents : List ℕ)
      → fetch_chunk_from_nodes identity_hash second_answers (bytes "c1") both ≡ some contents
      → (addr : Str) × (mem addr both ≡ true)
        × Vouched identity_hash second_answers (bytes "c1") addr contents)
    × ((fetch_chunk_from_nodes identity_hash second_answers (bytes "c1") both ≡ none)
        ↔ All
            (λ addr. fetch_chunk_from_node identity_hash second_answers addr (bytes "c1") ≡ none)
            both)
fetch_chunk_from_nodes-Vouched_example =
    fetch_chunk_from_nodes-Vouched identity_hash second_answers (bytes "c1") both

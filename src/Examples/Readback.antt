-- ===== src/Examples/Readback.antt =====
-- The theorems on a file that is read back, on one data node.
use sentinel_fs.Prelude.{
  ◌≡◌, refl, List, [], ◌∷◌, true, some, Str, bytes, ◌==◌, itoa, mem, insert, lookup, put, modify,
  slt64, sub64, ok, Option, Distinct, map, Bool, ap, sym, ◌∙◌, subst, length, ◌<◌, ◌^◌, arith,
}
use mathlib.Core.List.Perm
use sentinel_fs.Config.{chunk_size}
use sentinel_fs.Chunks.{generate_chunk_id, hex, data_checksum}
use sentinel_fs.ChunkManager.Nodes.{find_address, node_name, fresh_node, healthy_nodes, can_receive}
use sentinel_fs.ChunkManager.Nodes
use sentinel_fs.ChunkManager.State.{new_chunk_manager}
use sentinel_fs.ChunkManager.Placement.{
  allocate_chunks, place_chunks, place_chunk, select_nodes, less, load, size_of_chunk,
  add_to_targets,
}
use sentinel_fs.Sorting.{sort_slice}
use sentinel_fs.Namespace.Paths.{
  trim_prefix, trim_suffix, extend, split, join, init, last, split_parts, split_trimmed, split_path,
  split_cleaned, clean_path,
}
use sentinel_fs.Namespace.Paths.Words.{path_of}
use sentinel_fs.Namespace.Tree.{child, set_child, mkdir_all}
use sentinel_fs.Namespace.Files.{new_namespace, dir_parts, add_file, create_file}
use sentinel_fs.MetaServer.Messages.{
  Server, new_server, PutFileRequest, ChunkPlacement, FileInfo, placement_of, new_file_meta,
  int_of_int32,
}
use sentinel_fs.MetaServer.FileRequests.{put_file, register_file, get_file}
use sentinel_fs.MetaServer.NodeRequests.{register_node}
use sentinel_fs.MetaServer.Steps.{Serves, begin, then_step, joins, Serves-Inv}
use sentinel_fs.MetaServer.Readback.{get_file-put_file}
use sentinel_fs.DataNode.Store.{
  store_chunk, keep_chunk, stored_chunk, new_chunk_store, load_existing,
}
use sentinel_fs.DataNode.Server.{new_data_node, handle_store_chunk}
use sentinel_fs.DataNode.Server.Cluster.{Cluster, send_store}
use sentinel_fs.Client.Split.{read_chunks, read_and_chunk_file}
use sentinel_fs.Client.Upload.{
  start_senders, upload_chunks, run_senders, send_at, send_next, send_chunk_to_node, all_done,
}
use sentinel_fs.Client.Files
use sentinel_fs.Client.Files.{upload}
use sentinel_fs.Client.RoundTrip.{fetch_from, request_for}
use sentinel_fs.Client.System.{call_server, system_round_trip}
use sentinel_fs.Examples.Cluster.{identity_hash, address_a}
use sentinel_fs.Examples.Files.{dirs, name, words}
use sentinel_fs.Examples.Transfers.{chunk, pair, fair, one_chunk, alone_read}

abbrev pub one_node : Server
one_node = (register_node address_a 1000 5 new_server).1

one_node-Serves : Serves identity_hash one_node
one_node-Serves = then_step begin (joins address_a 1000 5)

abbrev pub path : Str
path = path_of dirs name

abbrev pub request : PutFileRequest
request = request_for identity_hash path chunk

abbrev pub placement : ChunkPlacement
placement = record {
  chunk_id = bytes "2f642f723a636875";
  chunk_index = 0;
  node_addresses = address_a ∷ [];
  node_ids = bytes "node-1" ∷ [];
}

abbrev answer : List ChunkPlacement
answer = placement ∷ []

put_ok : (put_file identity_hash request 7 8 one_node).0 ≡ ok answer
unfolding put_file register_file allocate_chunks place_chunks place_chunk select_nodes less load
    size_of_chunk add_to_targets sort_slice generate_chunk_id hex healthy_nodes can_receive
    find_address node_name fresh_node Nodes.register_node register_node new_server new_chunk_manager
    new_namespace create_file add_file dir_parts mkdir_all child set_child split_path trim_prefix
    split_trimmed split extend split_parts init last join clean_path trim_suffix split_cleaned
    placement_of new_file_meta int_of_int32 read_chunks ◌==◌ itoa mem insert lookup put modify slt64
    sub64
put_ok = refl

one_id : Distinct (map (λ a. a.chunk_id) answer)
unfolding mem
one_id = (refl, tt)

get_file-put_file_example :
    (info : FileInfo) × (get_file request.path (put_file identity_hash request 7 8 one_node).1
      ≡ ok (info, answer))
    × (info.path ≡ request.path)
    × (info.size ≡ request.file_size)
get_file-put_file_example =
    get_file-put_file identity_hash dirs name request 7 8 one_node answer words refl
      (Serves-Inv identity_hash one_node-Serves) one_id put_ok

abbrev after_put : Option Bool × Server × Cluster
after_put =
    Files.put_file identity_hash (call_server identity_hash 7 8) (send_store identity_hash fair)
      (0 ∷ []) (some chunk) path one_node pair

uploaded :
    (upload_chunks identity_hash
      (send_store identity_hash fair)
      (0 ∷ [])
      (chunk ∷ [])
      answer
      pair).0
    ≡ some true
unfolding upload_chunks run_senders send_at send_next send_chunk_to_node all_done start_senders
    send_store handle_store_chunk store_chunk keep_chunk stored_chunk data_checksum hex lookup put
    ◌==◌ new_data_node new_chunk_store load_existing
uploaded = refl

upload_ok : after_put.0 ≡ some true
unfolding Files.put_file read_and_chunk_file upload
upload_ok =
    ap
      (λ a.
        (upload identity_hash (call_server identity_hash 7 8) (send_store identity_hash fair)
          (0 ∷ []) (read_chunks (length chunk) chunk_size chunk) (some a) pair).0)
      put_ok
    ∙ ap
        (λ cs.
          (upload_chunks identity_hash (send_store identity_hash fair) (0 ∷ []) cs answer pair).0)
        one_chunk
    ∙ uploaded

system_round_trip_example :
    Files.get_file true
      (λ rs. rs)
      (fetch_from identity_hash fair (λ addr. true) after_put.2)
      (some (get_file path after_put.1))
    ≡ some chunk
system_round_trip_example =
    system_round_trip identity_hash fair (λ addr. true) dirs name chunk (0 ∷ []) 7 8 one_node pair
      answer (λ rs. rs) words (Serves-Inv identity_hash one_node-Serves)
      (subst (λ cs. length cs < 2 ^ 31) (sym one_chunk) (omega arith)) put_ok one_id
      (alone_read placement) (refl, tt) (λ rs. Perm.rfl) upload_ok

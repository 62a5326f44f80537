-- ===== src/Examples/Races.antt =====
-- A deletion that comes between the two reads of `GetFile` makes the handler panic.
use sentinel_fs.Prelude.{
  ◌≡◌, refl, ◌==◌, itoa, mem, insert, lookup, put, modify, slt64, sub64, err, delete, erase,
}
use sentinel_fs.Chunks.{generate_chunk_id, hex}
use sentinel_fs.ChunkManager.Nodes.{find_address, node_name, fresh_node, healthy_nodes, can_receive}
use sentinel_fs.ChunkManager.Nodes
use sentinel_fs.ChunkManager.State.{new_chunk_manager}
use sentinel_fs.ChunkManager.Placement.{
  allocate_chunks, place_chunks, place_chunk, select_nodes, less, load, size_of_chunk,
  add_to_targets,
}
use sentinel_fs.ChunkManager.Locations.{
  get_chunk_locations, chunk_location, location_of, live_replicas, get_chunk_meta,
}
use sentinel_fs.ChunkManager.Replicas.{
  remove_chunks, remove_all, remove_chunk, forget_on, forget, meet,
}
use sentinel_fs.Sorting.{sort_slice}
use sentinel_fs.Namespace.Paths.{
  trim_prefix, trim_suffix, extend, split, join, init, last, split_parts, split_trimmed, split_path,
  split_cleaned, clean_path,
}
use sentinel_fs.Namespace.Tree.{child, set_child, drop_child, descend, mkdir_all, resolve_dir}
use sentinel_fs.Namespace.Files
use sentinel_fs.Namespace.Files.{
  new_namespace, dir_parts, add_file, create_file, resolve, file_of, remove_file,
}
use sentinel_fs.MetaServer.Messages.{
  Server, nil_chunk, new_server, placement_of, new_file_meta, int_of_int32,
}
use sentinel_fs.MetaServer.FileRequests.{
  put_file, register_file, get_file_during, locate_file, located_chunks, delete_file,
}
use sentinel_fs.MetaServer.NodeRequests.{register_node}
use sentinel_fs.Client.Split.{read_chunks}
use sentinel_fs.Examples.Cluster.{identity_hash}
use sentinel_fs.Examples.Readback.{one_node, path, request, placement}

abbrev one_file : Server
one_file = (put_file identity_hash request 7 8 one_node).1

deleted_between :
    get_file_during path one_file.namespace one_file.chunk_mgr
      (λ i. (delete_file path one_file).1.chunk_mgr)
    ≡ err (nil_chunk placement.chunk_id)
unfolding put_file register_file allocate_chunks place_chunks place_chunk select_nodes less load
    size_of_chunk add_to_targets sort_slice generate_chunk_id hex healthy_nodes can_receive
    find_address node_name fresh_node Nodes.register_node register_node new_server new_chunk_manager
    new_namespace create_file add_file dir_parts mkdir_all child set_child split_path trim_prefix
    split_trimmed split extend split_parts init last join clean_path trim_suffix split_cleaned
    placement_of new_file_meta int_of_int32 read_chunks ◌==◌ itoa mem insert lookup put modify slt64
    sub64 get_file_during locate_file located_chunks get_chunk_locations chunk_location location_of
    live_replicas get_chunk_meta delete_file Files.delete_file remove_file resolve_dir drop_child
    remove_chunks remove_all remove_chunk forget_on forget meet delete erase Files.get_file resolve
    file_of descend
deleted_between = refl

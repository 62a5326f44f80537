-- ===== src/DataNode/Server.antt =====
-- internal/datanode/server.go: the requests of a data node, what it sends to the metadata server, and
-- the transfer of a chunk to another node. A request is one step; `GetChunk` reads the file after it
-- has released the lock, and here nothing comes in between. Of an error the model has its kind; of the connections it has whether a call got through.
pub mod Cluster
pub mod Serving
pub mod Transfer
use sentinel_fs.Prelude.{
  ℕ, ◌+◌, ◌*◌, ◌%◌, ◌^◌, List, [], ◌∷◌, ◌++◌, Bool, true, false, Option, none, some, Str, bytes,
  ◌==◌, itoa, Int64, if◌then◌else◌, Result, ok, err,
}
use sentinel_fs.DataNode.Store.Filesystem.{Disk}
use sentinel_fs.DataNode.Store.{
  ChunkStore, StoreError, Write, DirFile, new_chunk_store, store_chunk, get_chunk, delete_chunk,
  chunk_count,
}
use sentinel_fs.Client.Fetch.{GetChunkResponse}

-- The server with its disk. The ports and the address of the metadata server only serve to connect.
pub record DataNode : Type 0 where
  pub store : ChunkStore
  pub disk : Disk
  pub node_id : Str
  pub address : Str
  pub capacity : Int64

-- `NewServer` on a data directory with these entries.
unfoldable pub new_data_node :
    (List ℕ → List ℕ) → ℕ → Str → List DirFile → Disk → Int64 → Str → DataNode
unfolding new_chunk_store
new_data_node sha256 port data_dir entries disk capacity advertise_addr = record {
  store = new_chunk_store sha256 data_dir entries;
  disk = disk;
  node_id = [];
  address = if advertise_addr == [] then bytes "localhost:" ++ itoa port else advertise_addr;
  capacity = capacity;
}

-- pb.RegisterNodeRequest
pub record RegisterRequest : Type 0 where
  pub address : Str
  pub capacity_bytes : Int64

unfoldable pub register_request : DataNode → RegisterRequest
register_request dn = record { address = dn.address; capacity_bytes = dn.capacity }

-- pb.RegisterNodeResponse
pub record RegisterResponse : Type 0 where
  pub success : Bool
  pub node_id : Str

-- `register` from the response on, none where the call failed: whether it succeeds.
unfoldable pub register : Option RegisterResponse → DataNode → Bool × DataNode
register none dn = (false, dn)
register (some resp) dn =
    if resp.success then (true, record dn { node_id = resp.node_id }) else (false, dn)

-- pb.HeartbeatRequest
pub record HeartbeatRequest : Type 0 where
  pub node_id : Str
  pub used_bytes : Int64
  pub chunk_count : ℕ

unfoldable pub heartbeat_request : DataNode → HeartbeatRequest
unfolding chunk_count
heartbeat_request dn = record {
  node_id = dn.node_id;
  used_bytes = dn.store.used_bytes;
  chunk_count = chunk_count dn.store;
}

pub record StoreChunkRequest : Type 0 where
  pub chunk_id : Str
  pub contents : List ℕ
  pub checksum : Str

-- Why a transfer fails: the chunk cannot be read, the call of the target fails, or the target answers
-- that it failed.
pub data TransferError : Type 0 where
  read_error : StoreError → TransferError
  call_error : TransferError
  target_error : StoreError → TransferError

module _ (sha256 : List ℕ → List ℕ) where
  unfoldable pub handle_store_chunk :
      Write → StoreChunkRequest → DataNode → Result StoreError (Unit {0}) × DataNode
  unfolding store_chunk
  handle_store_chunk w req dn =
      let (r, store, disk) =
        store_chunk sha256 w req.chunk_id req.contents req.checksum dn.store dn.disk in
      (r, record dn { store = store; disk = disk })

  unfoldable pub handle_get_chunk : Bool → Str → DataNode → GetChunkResponse
  unfolding get_chunk
  handle_get_chunk fails chunk_id dn = elim (get_chunk sha256 fails chunk_id dn.store dn.disk) [
    | err e ↦ record { success = false; contents = []; checksum = [] }
    | ok (contents, checksum) ↦ record { success = true; contents = contents; checksum = checksum }
  ]

  -- `send` is the call of a node's StoreChunk: its response, or none where the connection or the call
  -- fails, and the state after it.
  unfoldable pub transfer_chunk :
      {S : Type 0}
      → (Str → StoreChunkRequest → S → Option (Result StoreError (Unit {0})) × S)
      → Bool
      → Str
      → Str
      → DataNode
      → S
      → Result TransferError (Unit {0}) × S
  unfolding get_chunk
  transfer_chunk send fails chunk_id target dn s =
      elim (get_chunk sha256 fails chunk_id dn.store dn.disk) [
        | err e ↦ (err (read_error e), s)
        | ok (contents, checksum) ↦
            let (answer, s') =
              send target (record { chunk_id = chunk_id; contents = contents; checksum = checksum })
                s in
            (
              elim answer [
                | none ↦ err call_error
                | some (err e) ↦ err (target_error e)
                | some (ok u) ↦ ok tt
              ],
              s',
            )
      ]

unfoldable pub handle_delete_chunk : Bool → Str → DataNode → Result StoreError (Unit {0}) × DataNode
unfolding delete_chunk
handle_delete_chunk fails chunk_id dn =
    let (r, store, disk) = delete_chunk fails chunk_id dn.store dn.disk in
    (r, record dn { store = store; disk = disk })

-- ===== src/DataNode/Server/Cluster.antt =====
-- The data nodes of a cluster by their addresses, and the calls between them.
use sentinel_fs.Prelude.{
  ℕ, List, Bool, Option, none, some, Str, Map, lookup, put, if◌then◌else◌, Result,
}
use sentinel_fs.Client.Fetch.{GetChunkResponse}
use sentinel_fs.DataNode.Store.{StoreError, Write}
use sentinel_fs.DataNode.Server.{DataNode, StoreChunkRequest, handle_store_chunk, handle_get_chunk}

abbrev pub Cluster : Type 0
Cluster = Map DataNode

-- How far a call gets: it is lost, it is served but its answer is lost, or it is answered.
pub data Delivery : Type 0 where
  lost unanswered answered : Delivery

-- What the network and the disks do to the call of StoreChunk for a chunk at an address.
pub record Weather : Type 0 where
  pub delivery : Str → Str → Delivery
  pub write : Str → Str → Write

module _ (sha256 : List ℕ → List ℕ) where
  unfoldable pub send_store :
      Weather → Str → StoreChunkRequest → Cluster → Option (Result StoreError (Unit {0})) × Cluster
  unfolding handle_store_chunk
  send_store env addr req nodes = elim (lookup addr nodes) [
    | none ↦ (none, nodes)
    | some dn ↦
        let (r, dn') = handle_store_chunk sha256 (env.write addr req.chunk_id) req dn in
        elim (env.delivery addr req.chunk_id) [
          | lost ↦ (none, nodes)
          | unanswered ↦ (none, put addr dn' nodes)
          | answered ↦ (some r, put addr dn' nodes)
        ]
  ]

  -- The call of GetChunk, where `reaches` are the nodes that a call reaches and `fails` are the read
  -- errors.
  unfoldable pub send_get :
      (Str → Bool) → (Str → Str → Bool) → Cluster → Str → Str → Option GetChunkResponse
  unfolding handle_get_chunk
  send_get reaches fails nodes addr chunk_id = elim (lookup addr nodes) [
    | none ↦ none
    | some dn ↦
        if reaches addr
        then some (handle_get_chunk sha256 (fails addr chunk_id) chunk_id dn)
        else none
  ]

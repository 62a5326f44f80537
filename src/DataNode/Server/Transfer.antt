-- ===== src/DataNode/Server/Transfer.antt =====
-- A chunk that one node sends to another.
use sentinel_fs.Prelude.{
  ℕ, ◌≡◌, refl, sym, ◌∙◌, ap, List, Bool, false, Option, none, some, Str, ◌==◌, lookup, lookup-put,
  Result, ok, err,
}
use sentinel_fs.Chunks.{data_checksum}
use sentinel_fs.DataNode.Store.{StoreError, get_chunk}
use sentinel_fs.DataNode.Store.Integrity.{get_chunk-intact}
use sentinel_fs.DataNode.Server.{
  DataNode, StoreChunkRequest, TransferError, read_error, transfer_chunk,
}
use sentinel_fs.DataNode.Server.Cluster.{Cluster, Weather, send_store}
use sentinel_fs.DataNode.Server.Serving.{Serves, after_write, send_store-ok, send_store-Serves}

module _ (sha256 : List ℕ → List ℕ) (env : Weather) (fails : Bool) (id target : Str) (dn : DataNode)
    (nodes : Cluster) where
  abbrev Transfer : Type 0
  Transfer = Result TransferError (Unit {0}) × Cluster

  abbrev read : Result StoreError (List ℕ × Str)
  read = get_chunk sha256 fails id dn.store dn.disk

  -- What the transfer is to have done.
  abbrev Transferred : Transfer → Type 0
  Transferred r =
      (r.0 ≡ ok tt
        → (contents : List ℕ) × (get_chunk sha256 fails id dn.store dn.disk
            ≡ ok (contents, data_checksum sha256 contents))
          × Serves sha256 r.1 target id contents
          × ((addr : Str) → (target == addr) ≡ false → lookup addr r.1 ≡ lookup addr nodes))
      × ((e : StoreError) → r.0 ≡ err (read_error e) → r.1 ≡ nodes)

  abbrev request : List ℕ → Str → StoreChunkRequest
  request contents checksum = record { chunk_id = id; contents = contents; checksum = checksum }

  own_checksum :
      (contents : List ℕ) (checksum : Str)
      → read ≡ ok (contents, checksum)
      → read ≡ ok (contents, data_checksum sha256 contents)
  own_checksum contents checksum h =
      let (c, found, fine, at, sum, is) =
        (get_chunk-intact sha256 fails id dn.store dn.disk contents checksum).0 h in
      h ∙ ap (λ s. ok (contents, s)) (is ∙ sym sum)

  sent :
      (req : StoreChunkRequest)
      → (send_store sha256 env target req nodes).0 ≡ some (ok tt)
      → (addr : Str) → (target == addr) ≡ false
      → lookup addr (send_store sha256 env target req nodes).1 ≡ lookup addr nodes
  sent req h addr other =
      let (node, found, after) = send_store-ok sha256 env target req nodes h in
      ap (lookup addr) after
      ∙ lookup-put target addr (after_write sha256 req node) nodes
      ∙ rw other refl

  by_answer :
      (contents : List ℕ) (checksum : Str)
      → read ≡ ok (contents, checksum)
      → (a : Option (Result StoreError (Unit {0})))
      → (send_store sha256 env target (request contents checksum) nodes).0 ≡ a
      → Transferred (transfer_chunk sha256 (send_store sha256 env) fails id target dn nodes)
  unfolding transfer_chunk
  by_answer contents checksum got none e = rw (transfer_chunk, got, e) ((λ h. cc h), λ x h. cc h)
  by_answer contents checksum got (some (err x)) e =
      rw (transfer_chunk, got, e) ((λ h. cc h), λ x h. cc h)
  by_answer contents checksum got (some (ok u)) e =
      rw (transfer_chunk, got, e)
        (
          (λ h. (
            contents,
            sym got ∙ own_checksum contents checksum got,
            (send_store-Serves sha256 env target (request contents checksum) nodes e).0,
            sent (request contents checksum) e,
          )),
          λ x h. cc h,
        )

  -- A transfer that succeeds: the node read some contents, and the target now serves them under the
  -- same id, whatever it held before; every other node is as it was. A transfer that cannot read the
  -- chunk asks no other node for anything.
  pub transfer_chunk_lem :
      let r = transfer_chunk sha256 (send_store sha256 env) fails id target dn nodes in
      (r.0 ≡ ok tt
        → (contents : List ℕ) × (get_chunk sha256 fails id dn.store dn.disk
            ≡ ok (contents, data_checksum sha256 contents))
          × Serves sha256 r.1 target id contents
          × ((addr : Str) → (target == addr) ≡ false → lookup addr r.1 ≡ lookup addr nodes))
      × ((e : StoreError) → r.0 ≡ err (read_error e) → r.1 ≡ nodes)
  unfolding transfer_chunk
  transfer_chunk_lem = by_read read refl
    where
      by_read :
          (g : Result StoreError (List ℕ × Str))
          → read ≡ g
          → Transferred (transfer_chunk sha256 (send_store sha256 env) fails id target dn nodes)
      by_read (err x) e = rw (transfer_chunk, e) ((λ h. cc h), λ x h. refl)
      by_read (ok (contents, checksum)) e =
          by_answer contents checksum e
            (send_store sha256 env target (request contents checksum) nodes).0 refl

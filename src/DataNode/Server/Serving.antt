-- ===== src/DataNode/Server/Serving.antt =====
-- What the nodes of a cluster serve, before and after a store.
use mathlib.Core.Option.{some-injective}
use sentinel_fs.Prelude.{
  ℕ, ◌≡◌, refl, sym, ◌∙◌, ap, subst, ◌⊎◌, inl, inr, List, [], Bool, true, false, ◌&&◌, none, some,
  Option-cases, Bool-cases, Str, ◌==◌, eq_iff, eq_refl, lookup, put, lookup-put, not, ok,
  if◌then◌else◌,
}
use sentinel_fs.Chunks.{data_checksum}
use sentinel_fs.Client.Fetch.{GetChunkResponse}
use sentinel_fs.DataNode.Store.{
  StoredChunk, Write, written, write_error, chunk_path, store_chunk, keep_chunk, stored_chunk,
  get_chunk,
}
use sentinel_fs.DataNode.Store.Integrity.{get_chunk-intact}
use sentinel_fs.DataNode.Server.{DataNode, StoreChunkRequest, handle_store_chunk, handle_get_chunk}
use sentinel_fs.DataNode.Server.Cluster.{
  Cluster, Weather, Delivery, lost, unanswered, answered, send_store, send_get,
}

-- The file of the chunk on the node.
abbrev pub path_on : DataNode → Str → Str
path_on dn chunk_id = chunk_path dn.store.data_dir chunk_id

module _ (sha256 : List ℕ → List ℕ) where
  -- The node holds the contents in the chunk's file, with a record of them.
  pub record Holds (chunk_id : Str) (contents : List ℕ) (dn : DataNode) : Type 0 where
    pub chunk : StoredChunk
    pub recorded : lookup chunk_id dn.store.chunks ≡ some chunk
    pub its_path : chunk.file_path ≡ path_on dn chunk_id
    pub its_checksum : chunk.checksum ≡ data_checksum sha256 contents
    pub on_disk : lookup (path_on dn chunk_id) dn.disk ≡ some contents

  -- So does the node at an address.
  pub record Serves (nodes : Cluster) (addr chunk_id : Str) (contents : List ℕ) : Type 0 where
    pub node : DataNode
    pub present : lookup addr nodes ≡ some node
    pub holds : Holds chunk_id contents node

  -- The answer of a node that serves the chunk.
  abbrev pub served : List ℕ → GetChunkResponse
  served contents = record {
    success = true;
    contents = contents;
    checksum = data_checksum sha256 contents;
  }

  Holds-get_chunk :
      (chunk_id : Str) (contents : List ℕ) (dn : DataNode)
      → Holds chunk_id contents dn
      → get_chunk sha256 false chunk_id dn.store dn.disk
        ≡ ok (contents, data_checksum sha256 contents)
  Holds-get_chunk chunk_id contents dn h =
      (get_chunk-intact sha256 false chunk_id dn.store dn.disk contents
          (data_checksum sha256 contents)).1
        (h.chunk, h.recorded, refl, rw h.its_path h.on_disk, sym h.its_checksum, sym h.its_checksum)

  pub Serves-send_get :
      (reaches : Str → Bool) (nodes : Cluster) (addr chunk_id : Str) (contents : List ℕ)
      → Serves nodes addr chunk_id contents
      → send_get sha256 reaches (λ _ _. false) nodes addr chunk_id
        ≡ (if reaches addr then some (served contents) else none)
  unfolding send_get handle_get_chunk
  Serves-send_get reaches nodes addr chunk_id contents s =
      rw (send_get, s.present, handle_get_chunk, Holds-get_chunk chunk_id contents s.node s.holds)
        refl

  -- The node after the write of a chunk.
  abbrev pub after_write : StoreChunkRequest → DataNode → DataNode
  after_write req dn =
      let path = path_on dn req.chunk_id in
      record dn {
        store = keep_chunk sha256 req.chunk_id path req.contents dn.store;
        disk = put path req.contents dn.disk;
      }

  handle_store_chunk-ok :
      (w : Write) (req : StoreChunkRequest) (dn : DataNode)
      → (handle_store_chunk sha256 w req dn).0 ≡ ok tt
      → (handle_store_chunk sha256 w req dn).1 ≡ after_write req dn
  unfolding handle_store_chunk store_chunk
  handle_store_chunk-ok w req dn h =
      elim (Bool-cases
        (not (req.checksum == []) && not (data_checksum sha256 req.contents == req.checksum))) [
          | inl refused ↦ absurd (cc (rw (refused, handle_store_chunk, store_chunk) at h))
          | inr accepted ↦ by_write w h accepted
        ]
    where
      by_write :
          (w : Write)
          → (handle_store_chunk sha256 w req dn).0 ≡ ok tt
          → (not (req.checksum == []) && not (data_checksum sha256 req.contents == req.checksum))
            ≡ false
          → (handle_store_chunk sha256 w req dn).1 ≡ after_write req dn
      by_write written h a = rw (a, handle_store_chunk, store_chunk) refl
      by_write (write_error disk') h a = absurd (cc (rw (a, handle_store_chunk, store_chunk) at h))

  after_write-Holds :
      (req : StoreChunkRequest) (dn : DataNode)
      → Holds req.chunk_id req.contents (after_write req dn)
  unfolding keep_chunk stored_chunk
  after_write-Holds req dn = record {
    chunk = c;
    recorded =
        lookup-put req.chunk_id req.chunk_id c dn.store.chunks ∙ rw (eq_refl req.chunk_id) refl;
    its_path = refl;
    its_checksum = refl;
    on_disk = lookup-put path path req.contents dn.disk ∙ rw (eq_refl path) refl;
  }
    where
      path : Str
      path = path_on dn req.chunk_id

      c : StoredChunk
      c = stored_chunk sha256 req.chunk_id path req.contents

  after_write-kept :
      (req : StoreChunkRequest) (dn : DataNode) (id : Str) (contents : List ℕ)
      → (req.chunk_id == id) ≡ false
      → (path_on dn req.chunk_id == path_on dn id) ≡ false
      → Holds id contents dn
      → Holds id contents (after_write req dn)
  unfolding keep_chunk stored_chunk
  after_write-kept req dn id contents other apart h = record {
    chunk = h.chunk;
    recorded =
        lookup-put req.chunk_id id (stored_chunk sha256 req.chunk_id path req.contents)
          dn.store.chunks
        ∙ rw other h.recorded;
    its_path = h.its_path;
    its_checksum = h.its_checksum;
    on_disk = lookup-put path (path_on dn id) req.contents dn.disk ∙ rw apart h.on_disk;
  }
    where
      path : Str
      path = path_on dn req.chunk_id

  -- What a call of StoreChunk that is answered as a success has done.
  pub send_store-ok :
      (env : Weather) (addr : Str) (req : StoreChunkRequest) (nodes : Cluster)
      → (send_store sha256 env addr req nodes).0 ≡ some (ok tt)
      → (dn : DataNode) × (lookup addr nodes ≡ some dn)
        × ((send_store sha256 env addr req nodes).1 ≡ put addr (after_write req dn) nodes)
  unfolding send_store
  send_store-ok env addr req nodes h = elim (Option-cases (lookup addr nodes)) [
    | inl out ↦ absurd (cc (rw (out, send_store) at h))
    | inr (dn, found) ↦ (dn, found, by_delivery dn found (env.delivery addr req.chunk_id) refl)
  ]
    where
      w : Write
      w = env.write addr req.chunk_id

      by_delivery :
          (dn : DataNode)
          → lookup addr nodes ≡ some dn
          → (d : Delivery) → env.delivery addr req.chunk_id ≡ d
          → (send_store sha256 env addr req nodes).1 ≡ put addr (after_write req dn) nodes
      by_delivery dn found lost e = absurd (cc (rw (found, e, send_store) at h))
      by_delivery dn found unanswered e = absurd (cc (rw (found, e, send_store) at h))
      by_delivery dn found answered e =
          rw (found, e, send_store)
            (ap (λ x. put addr x nodes)
              (handle_store_chunk-ok w req dn (cc (rw (found, e, send_store) at h))))

  -- The chunk is the one that was stored, with its contents, or it has another id and another file.
  abbrev pub Compatible : StoreChunkRequest → Str → List ℕ → Type 0
  Compatible req id contents =
      ((req.chunk_id ≡ id) × (req.contents ≡ contents))
      ⊎ (((req.chunk_id == id) ≡ false)
          × ((dn : DataNode) → (path_on dn req.chunk_id == path_on dn id) ≡ false))

  pub send_store-Serves :
      (env : Weather) (addr : Str) (req : StoreChunkRequest) (nodes : Cluster)
      → (send_store sha256 env addr req nodes).0 ≡ some (ok tt)
      → let nodes' = (send_store sha256 env addr req nodes).1 in
        Serves nodes' addr req.chunk_id req.contents
        × ((other id : Str) (contents : List ℕ)
            → Compatible req id contents
            → Serves nodes other id contents
            → Serves nodes' other id contents)
  send_store-Serves env addr req nodes h =
      let (dn, found, after) = send_store-ok env addr req nodes h in
      (
        stored dn after,
        λ other id contents compatible s. elim (Bool-cases (addr == other)) [
          | inr elsewhere ↦ record {
            node = s.node;
            present =
                ap (lookup other) after
                ∙ lookup-put addr other (after_write req dn) nodes
                ∙ rw elsewhere s.present;
            holds = s.holds;
          }
          | inl here ↦
              subst (λ a. Serves (send_store sha256 env addr req nodes).1 a id contents)
                ((eq_iff addr other).0 here)
                (at_target dn found after id contents compatible
                  (subst (λ a. Serves nodes a id contents) (sym ((eq_iff addr other).0 here)) s))
        ],
      )
    where
      nodes' : Cluster
      nodes' = (send_store sha256 env addr req nodes).1

      at_addr :
          (dn : DataNode)
          → nodes' ≡ put addr (after_write req dn) nodes
          → lookup addr nodes' ≡ some (after_write req dn)
      at_addr dn after =
          ap (lookup addr) after
          ∙ lookup-put addr addr (after_write req dn) nodes
          ∙ rw (eq_refl addr) refl

      stored :
          (dn : DataNode)
          → nodes' ≡ put addr (after_write req dn) nodes
          → Serves nodes' addr req.chunk_id req.contents
      stored dn after = record {
        node = after_write req dn;
        present = at_addr dn after;
        holds = after_write-Holds req dn;
      }

      at_target :
          (dn : DataNode)
          → lookup addr nodes ≡ some dn
          → nodes' ≡ put addr (after_write req dn) nodes
          → (id : Str) (contents : List ℕ) → Compatible req id contents
          → Serves nodes addr id contents
          → Serves nodes' addr id contents
      at_target dn found after id contents (inl same) s =
          subst (λ d. Serves nodes' addr id d) same.1
            (subst (λ i. Serves nodes' addr i req.contents) same.0 (stored dn after))
      at_target dn found after id contents (inr apart) s = record {
        node = after_write req dn;
        present = at_addr dn after;
        holds =
            after_write-kept req dn id contents apart.0 (apart.1 dn) (
              subst (Holds id contents) (some-injective s.node dn (sym s.present ∙ found)) s.holds);
      }

-- ===== src/Examples/Transfers.antt =====
-- The theorems on uploads, downloads and transfers, on a cluster of two data nodes.
use mathlib.Core.List.{Mem, mem-singleton}
use mathlib.Core.List.Perm
use sentinel_fs.Prelude.{
  ℕ, ◌≡◌, refl, sym, ap, inl, List, [], ◌∷◌, Bool, true, false, Option, some, Str, bytes, ◌==◌,
  lookup, put, ◌∙◌, length, Result, ok, err, arith, subst,
}
use sentinel_fs.Config.{chunk_size}
use sentinel_fs.Chunks.{data_checksum, hex}
use sentinel_fs.DataNode.Store.{
  StoreError, written, store_chunk, keep_chunk, stored_chunk, get_chunk, new_chunk_store,
  load_existing,
}
use sentinel_fs.DataNode.Server.{
  StoreChunkRequest, DataNode, read_error, new_data_node, handle_store_chunk, transfer_chunk,
}
use sentinel_fs.DataNode.Server.Cluster.{Cluster, Weather, answered, send_store}
use sentinel_fs.DataNode.Server.Serving.{Serves, Compatible}
use sentinel_fs.DataNode.Server.Transfer.{transfer_chunk_lem}
use sentinel_fs.MetaServer.Messages.{ChunkPlacement}
use sentinel_fs.Client.Split.{
  chunk_file, reassemble_from, concat, Full, read_chunks, chunk_file-Full,
}
use sentinel_fs.Client.Upload.{
  Sender, start_senders, upload_chunks, run_senders, send_at, send_next, send_chunk_to_node,
  all_done,
}
use sentinel_fs.Client.Upload.Replicated.{request_of, AllServed, upload_chunks-AllServed}
use sentinel_fs.Client.Upload.Finished.{Sends, upload_chunks_finishes}
use sentinel_fs.Client.Download.{download_chunks}
use sentinel_fs.Client.Download.Ordered.{fetch_all, download_chunks-fetch_all}
use sentinel_fs.Examples.Cluster.{identity_hash}

abbrev empty_node : DataNode
empty_node = new_data_node identity_hash 9001 (bytes "/d") [] [] 1000 []

abbrev pub pair : Cluster
pair = (bytes "a:9001", empty_node) ∷ (bytes "b:9001", empty_node) ∷ []

-- Every call is answered and every write succeeds.
abbrev pub fair : Weather
fair = record { delivery = λ addr chunk. answered; write = λ addr chunk. written }

abbrev pub chunk : List ℕ
chunk = 1 ∷ 2 ∷ 3 ∷ []

chunk_file-Full_example :
    (chunks : List (List ℕ)) × (chunk_file (some chunk) ≡ some chunks)
    × (concat chunks ≡ chunk)
    × Full chunk_size chunks
    × ((writes : ℕ → Bool)
        → ((i : ℕ) → writes i ≡ true)
        → reassemble_from writes 0 chunks [] ≡ (true, chunk))
chunk_file-Full_example = chunk_file-Full chunk

abbrev placement : ChunkPlacement
placement = record {
  chunk_id = bytes "2f613a6368756e6b";
  chunk_index = 0;
  node_addresses = bytes "a:9001" ∷ bytes "b:9001" ∷ [];
  node_ids = bytes "node-1" ∷ bytes "node-2" ∷ [];
}

abbrev sender : Sender
sender = record {
  chunk_id = placement.chunk_id;
  contents = chunk;
  addresses = placement.node_addresses;
}

Sender-set : IsSet Sender
Sender-set = hlevel

-- A chunk alone shares neither its id nor its file.
pub alone :
    (s t u : Sender)
    → Mem t (s ∷ [])
    → Mem u (s ∷ [])
    → Compatible identity_hash (request_of identity_hash fair t) u.chunk_id u.contents
alone s t u m m' =
    let e : t ≡ u = (mem-singleton Sender-set).0 m ∙ sym ((mem-singleton Sender-set).0 m') in
    inl (ap (λ x. x.chunk_id) e, ap (λ x. x.contents) e)

abbrev schedule : List ℕ
schedule = 0 ∷ 0 ∷ []

uploaded :
    (upload_chunks identity_hash
      (send_store identity_hash fair)
      schedule
      (chunk ∷ [])
      (placement ∷ [])
      pair).0
    ≡ some true
unfolding upload_chunks run_senders send_at send_next send_chunk_to_node all_done start_senders
    send_store handle_store_chunk store_chunk keep_chunk stored_chunk data_checksum hex lookup put
    ◌==◌ new_data_node new_chunk_store load_existing
uploaded = refl

upload_chunks-AllServed_example :
    AllServed identity_hash fair
      (upload_chunks identity_hash
        (send_store identity_hash fair)
        schedule
        (chunk ∷ [])
        (placement ∷ [])
        pair).1
      (start_senders (chunk ∷ []) (placement ∷ []))
unfolding start_senders
upload_chunks-AllServed_example =
    upload_chunks-AllServed identity_hash fair schedule (chunk ∷ []) (placement ∷ []) pair
      (alone sender) uploaded

abbrev fetch : Str → List Str → Option (List ℕ)
fetch id addresses = some chunk

download_chunks-fetch_all_example :
    download_chunks (λ rs. rs) fetch (placement ∷ []) ≡ fetch_all fetch (placement ∷ [])
download_chunks-fetch_all_example =
    download_chunks-fetch_all fetch (λ rs. rs) (placement ∷ []) (λ rs. Perm.rfl)
      (omega arith, omega arith, tt) (omega arith, tt)

pub one_chunk : read_chunks (length chunk) chunk_size chunk ≡ chunk ∷ []
unfolding read_chunks
one_chunk = refl

pub alone_read :
    (p : ChunkPlacement) (t u : Sender)
    → Mem t (start_senders (read_chunks (length chunk) chunk_size chunk) (p ∷ []))
    → Mem u (start_senders (read_chunks (length chunk) chunk_size chunk) (p ∷ []))
    → Compatible identity_hash (request_of identity_hash fair t) u.chunk_id u.contents
unfolding start_senders
alone_read p =
    subst
      (λ cs.
        (t u : Sender)
        → Mem t (start_senders cs (p ∷ []))
        → Mem u (start_senders cs (p ∷ []))
        → Compatible identity_hash (request_of identity_hash fair t) u.chunk_id u.contents)
      (sym one_chunk)
      (alone (record { chunk_id = p.chunk_id; contents = chunk; addresses = p.node_addresses }))

abbrev loaded : DataNode
loaded =
    (handle_store_chunk identity_hash written
      (record { chunk_id = bytes "c1"; contents = chunk; checksum = [] }) empty_node).1

transfer_chunk_lem_example :
    let r =
      transfer_chunk identity_hash
        (send_store identity_hash fair)
        false
        (bytes "c1")
        (bytes "b:9001")
        loaded
        pair in
    (r.0 ≡ ok tt
      → (contents : List ℕ) × (get_chunk identity_hash false (bytes "c1") loaded.store loaded.disk
          ≡ ok (contents, data_checksum identity_hash contents))
        × Serves identity_hash r.1 (bytes "b:9001") (bytes "c1") contents
        × ((addr : Str) → (bytes "b:9001" == addr) ≡ false → lookup addr r.1 ≡ lookup addr pair))
    × ((e : StoreError) → r.0 ≡ err (read_error e) → r.1 ≡ pair)
transfer_chunk_lem_example =
    transfer_chunk_lem identity_hash fair false (bytes "c1") (bytes "b:9001") loaded pair

-- Every call succeeds.
abbrev send_fine :
    Str → StoreChunkRequest → Unit {0} → Option (Result StoreError (Unit {0})) × Unit {0}
send_fine addr req s = (some (ok tt), s)

upload_chunks_finishes_example :
    let r = upload_chunks identity_hash send_fine schedule (chunk ∷ []) (placement ∷ []) tt in
    ((b : Bool) × (r.0 ≡ some b)) × (Sends identity_hash send_fine → r.0 ≡ some true)
unfolding start_senders
upload_chunks_finishes_example =
    upload_chunks_finishes identity_hash send_fine schedule (chunk ∷ []) (placement ∷ []) tt
      (omega arith, tt) (omega arith, tt)

-- ===== src/Client/RoundTrip.antt =====
-- What was uploaded is what is downloaded.
use mathlib.Core.List.{Mem, Perm}
use sentinel_fs.Prelude.{
  ℕ, ◌≤◌, ◌≡◌, refl, sym, ◌∙◌, ap, subst, ◌%◌, ◌^◌, inl, inr, List, [], ◌∷◌, Bool, true, false,
  ◌||◌, Bool-cases, Option, none, some, Str, eq_refl, All, length, if◌then◌else◌, Result, ok, arith,
}
use sentinel_fs.Chunks.{data_checksum}
use sentinel_fs.Config.{chunk_size}
use sentinel_fs.DataNode.Server.Cluster.{Cluster, Weather, send_store, send_get}
use sentinel_fs.DataNode.Server.Serving.{Serves, Compatible, Serves-send_get}
use sentinel_fs.MetaServer.Messages.{ChunkPlacement, FileInfo, Failure, PutFileRequest}
use sentinel_fs.Client.Fetch.{accept, fetch_chunk_from_node, fetch_chunk_from_nodes}
use sentinel_fs.Client.Split.{concat, Full-read_chunks, read_chunks, read_and_chunk_file}
use sentinel_fs.Client.Upload.{Sender, AllLong, short_id, start_senders}
use sentinel_fs.Client.Upload.Replicated.{request_of, AllServed, upload_chunks-Replicated}
use sentinel_fs.Client.Download.{ChunkResult, download_chunks}
use sentinel_fs.Client.Download.Ordered.{
  IndexesFrom, fetch_all, joined_to, download_chunks-fetch_all,
}
use sentinel_fs.Client.Files.{upload, put_file, get_file}

-- Some address of the list can be reached.
abbrev pub reaches_one : (Str → Bool) → List Str → Bool
reaches_one reaches [] = false
reaches_one reaches (a ∷ addrs) = reaches a || reaches_one reaches addrs

-- What the client asks the metadata server for.
abbrev pub request_for : (List ℕ → List ℕ) → Str → List ℕ → PutFileRequest
request_for sha256 path contents = record {
  path = path;
  file_size = length contents % 2 ^ 64;
  chunk_count = length (read_chunks (length contents) chunk_size contents) % 2 ^ 32;
  checksum = data_checksum sha256 contents;
}

AllLong-placements :
    (chunks : List (List ℕ)) (placements : List ChunkPlacement)
    → length placements ≡ length chunks
    → AllLong (start_senders chunks placements)
    → All (λ p. 12 ≤ length p.chunk_id) placements
unfolding start_senders short_id
AllLong-placements chunks [] e h = tt
AllLong-placements [] (p ∷ ps) e h = absurd (omega (arith, e))
AllLong-placements (c ∷ cs) (p ∷ ps) e h =
    let here = h.0 in (ground arith, AllLong-placements cs ps (omega (arith, e)) h.1)

module _ (sha256 : List ℕ → List ℕ) (env : Weather) (reaches : Str → Bool) where
  -- The fetch of a chunk from the nodes, of which those that are reached read their disks.
  abbrev pub fetch_from : Cluster → Str → List Str → Option (List ℕ)
  fetch_from nodes = fetch_chunk_from_nodes sha256 (send_get sha256 reaches (λ _ _. false) nodes)

  fetch_reached :
      (nodes : Cluster) (id : Str) (contents : List ℕ) (a : Str)
      → Serves sha256 nodes a id contents
      → fetch_chunk_from_node sha256 (send_get sha256 reaches (λ _ _. false) nodes) a id
        ≡ (if reaches a then some contents else none)
  unfolding fetch_chunk_from_node accept
  fetch_reached nodes id contents a s = elim (Bool-cases (reaches a)) [
    | inl up ↦
        rw
          (
            Serves-send_get sha256 reaches nodes a id contents s,
            up,
            fetch_chunk_from_node,
            accept,
            eq_refl (data_checksum sha256 contents),
          )
          (ground arith)
    | inr down ↦
        rw (Serves-send_get sha256 reaches nodes a id contents s, down, fetch_chunk_from_node) refl
  ]

  fetch_from-Serves :
      (nodes : Cluster) (id : Str) (contents : List ℕ) (addrs : List Str)
      → All (λ a. Serves sha256 nodes a id contents) addrs
      → reaches_one reaches addrs ≡ true
      → fetch_from nodes id addrs ≡ some contents
  unfolding fetch_chunk_from_nodes
  fetch_from-Serves nodes id contents [] h r = absurd (cc r)
  fetch_from-Serves nodes id contents (a ∷ addrs) h r = elim (Bool-cases (reaches a)) [
    | inl up ↦ rw (fetch_chunk_from_nodes, fetch_reached nodes id contents a h.0, up) refl
    | inr down ↦
        rw (fetch_chunk_from_nodes, fetch_reached nodes id contents a h.0, down)
          (fetch_from-Serves nodes id contents addrs h.1 (rw down at r))
  ]

  -- Every placement has an address that can be reached.
  abbrev pub AllReached : List ChunkPlacement → Type 0
  AllReached = All (λ p. reaches_one reaches p.node_addresses ≡ true)

  fetch_all-AllServed :
      (nodes : Cluster) (chunks : List (List ℕ)) (placements : List ChunkPlacement)
      → AllServed sha256 env nodes (start_senders chunks placements)
      → length placements ≡ length chunks
      → AllReached placements
      → fetch_all (fetch_from nodes) placements ≡ some (concat chunks)
  unfolding start_senders
  fetch_all-AllServed nodes [] [] h e r = refl
  fetch_all-AllServed nodes [] (p ∷ ps) h e r = absurd (omega (arith, e))
  fetch_all-AllServed nodes (c ∷ cs) [] h e r = absurd (omega (arith, e))
  fetch_all-AllServed nodes (c ∷ cs) (p ∷ ps) h e r =
      rw (fetch_all, fetch_from-Serves nodes p.chunk_id c p.node_addresses h.0 r.0)
        (ap (joined_to c) (fetch_all-AllServed nodes cs ps h.1 (omega (arith, e)) r.1))

  module _ {M : Type 0}
      (call_put : PutFileRequest → M → Option (Result Failure (List ChunkPlacement)) × M) where
    put_file-Replicated :
        (schedule contents : List ℕ) (path : Str) (m : M) (nodes : Cluster)
        (placements : List ChunkPlacement)
        → (call_put (request_for sha256 path contents) m).0 ≡ some (ok placements)
        → let chunks = read_chunks (length contents) chunk_size contents in
          let r =
            put_file sha256 call_put
              (send_store sha256 env)
              schedule
              (some contents)
              path
              m
              nodes in
          ((t u : Sender)
            → Mem t (start_senders chunks placements)
            → Mem u (start_senders chunks placements)
            → Compatible sha256 (request_of sha256 env t) u.chunk_id u.contents)
          → r.0 ≡ some true
          → AllServed sha256 env r.2 (start_senders chunks placements)
            × AllLong (start_senders chunks placements)
    unfolding put_file read_and_chunk_file upload
    put_file-Replicated schedule contents path m nodes placements answers apart =
        subst
          (λ a.
            let r = upload sha256 call_put (send_store sha256 env) schedule chunks a nodes in
            r.0 ≡ some true
            → AllServed sha256 env r.1 (start_senders chunks placements)
              × AllLong (start_senders chunks placements))
          (sym answers) (upload_chunks-Replicated sha256 env schedule chunks placements nodes apart)
      where
        chunks : List (List ℕ)
        chunks = read_chunks (length contents) chunk_size contents

    -- Where the metadata server answers an upload with a placement for each chunk, in the order of
    -- their indexes, and a download with the same locations; where different chunks have different ids
    -- and, on every node, different files; and where the download reaches an address of each chunk, on
    -- nodes that read their disks: if the upload of a file succeeds, then the download returns the
    -- contents of the file. That holds for any interleaving of the uploads, whatever the network and
    -- the disks do to their calls, and for any order in which the downloads arrive.
    pub put_file-get_file :
        (schedule contents : List ℕ) (path : Str) (m : M) (nodes : Cluster)
        (placements : List ChunkPlacement) (info : FileInfo)
        (arrive : List ChunkResult → List ChunkResult)
        → (call_put (request_for sha256 path contents) m).0 ≡ some (ok placements)
        → length placements ≡ length (read_chunks (length contents) chunk_size contents)
        → IndexesFrom 0 placements
        → let chunks = read_chunks (length contents) chunk_size contents in
          let r =
            put_file sha256 call_put
              (send_store sha256 env)
              schedule
              (some contents)
              path
              m
              nodes in
          ((t u : Sender)
            → Mem t (start_senders chunks placements)
            → Mem u (start_senders chunks placements)
            → Compatible sha256 (request_of sha256 env t) u.chunk_id u.contents)
          → AllReached placements
          → ((rs : List ChunkResult) → Perm (arrive rs) rs)
          → r.0 ≡ some true
          → get_file true arrive (fetch_from r.2) (some (ok (info, placements))) ≡ some contents
    unfolding get_file
    put_file-get_file schedule contents path m nodes placements info arrive answers same indexes
          apart reached shuffles done =
        rw (get_file, fetched) refl
      where
        chunks : List (List ℕ)
        chunks = read_chunks (length contents) chunk_size contents

        nodes' : Cluster
        nodes' =
            (put_file sha256 call_put (send_store sha256 env) schedule (some contents) path m
              nodes).2

        served :
            AllServed sha256 env nodes' (start_senders chunks placements)
            × AllLong (start_senders chunks placements)
        served = put_file-Replicated schedule contents path m nodes placements answers apart done

        fetched : download_chunks arrive (fetch_from nodes') placements ≡ some contents
        fetched =
            download_chunks-fetch_all (fetch_from nodes') arrive placements shuffles indexes
              (AllLong-placements chunks placements same served.1)
            ∙ fetch_all-AllServed nodes' chunks placements served.0 same reached
            ∙ ap some
                (Full-read_chunks (length contents) chunk_size contents (omega arith)
                  (omega arith)).0

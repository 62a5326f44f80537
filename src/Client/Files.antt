-- ===== src/Client/Files.antt =====
-- `PutFile`, `GetFile` and `DeleteFile` of internal/client/client.go. Calls of the metadata server are
-- arguments: the answer, or none where the call fails, and the server's state after it. What is
-- printed is left out.
use sentinel_fs.Prelude.{
  ℕ, ◌%◌, ◌^◌, List, Bool, true, false, Option, none, some, Str, length, if◌then◌else◌, Result, ok,
  err,
}
use sentinel_fs.DataNode.Store.{StoreError}
use sentinel_fs.DataNode.Server.{StoreChunkRequest}
use sentinel_fs.MetaServer.Messages.{ChunkPlacement, Failure, FileInfo, PutFileRequest}
use sentinel_fs.Client.Split.{read_and_chunk_file}
use sentinel_fs.Client.Upload.{upload_chunks}
use sentinel_fs.Client.Download.{ChunkResult, download_chunks}

-- `resp.Success` of a call that was answered.
unfoldable pub succeeds : {A : Type 0} → Option (Result Failure A) → Bool
succeeds none = false
succeeds (some (err e)) = false
succeeds (some (ok a)) = true

module _ (sha256 : List ℕ → List ℕ) {M S : Type 0}
    (call_put : PutFileRequest → M → Option (Result Failure (List ChunkPlacement)) × M)
    (send : Str → StoreChunkRequest → S → Option (Result StoreError (Unit {0})) × S) where
  -- `PutFile` from the response on.
  unfoldable pub upload :
      List ℕ → List (List ℕ) → Option (Result Failure (List ChunkPlacement)) → S → Option Bool × S
  unfolding upload_chunks
  upload schedule chunks none s = (some false, s)
  upload schedule chunks (some (err e)) s = (some false, s)
  upload schedule chunks (some (ok placements)) s =
      upload_chunks sha256 send schedule chunks placements s

  -- Whether `PutFile` of a local file succeeds, none if the schedule lets a goroutine wait for ever.
  unfoldable pub put_file : List ℕ → Option (List ℕ) → Str → M → S → Option Bool × M × S
  unfolding read_and_chunk_file upload
  put_file schedule local remote_path m s = elim (read_and_chunk_file sha256 local) [
    | none ↦ (some false, m, s)
    | some (chunks, file_size, checksum) ↦
        let (answer, m') =
          call_put
            (record {
              path = remote_path;
              file_size = file_size;
              chunk_count = length chunks % 2 ^ 32;
              checksum = checksum;
            })
            m in
        let (r, s') = upload schedule chunks answer s in (r, m', s')
  ]

-- `GetFile` from the response on: the local file, if it succeeds; `writes` is whether the local file
-- can be written.
unfoldable pub get_file :
    Bool
    → (List ChunkResult → List ChunkResult)
    → (Str → List Str → Option (List ℕ))
    → Option (Result Failure (FileInfo × List ChunkPlacement))
    → Option (List ℕ)
unfolding download_chunks
get_file writes arrive fetch none = none
get_file writes arrive fetch (some (err e)) = none
get_file writes arrive fetch (some (ok (info, locations))) =
    elim (download_chunks arrive fetch locations) [
      | none ↦ none
      | some contents ↦ if writes then some contents else none
    ]

-- Whether `DeleteFile` succeeds.
unfoldable pub delete_file : Option (Result Failure (Unit {0})) → Bool
unfolding succeeds
delete_file answer = succeeds answer

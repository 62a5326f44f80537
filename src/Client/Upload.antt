-- ===== src/Client/Upload.antt =====
-- The upload of internal/client/transfer.go: `uploadChunks` and `sendChunkToNode`, and the reads of a
-- file in chunks. A goroutine sends its chunk to one address after the other; the goroutines interleave
-- freely. `send` is the call of a node's StoreChunk: its response, or none where the connection or the
-- call fails, and the world after.
pub mod Replicated
pub mod Finished
use sentinel_fs.Prelude.{
  ℕ, zero, suc, List, [], ◌∷◌, ◌++◌, Bool, true, false, ◌||◌, not, Option, none, some, Str, take,
  length, ltb, leb, eqb, ◌+◌, ◌&&◌, ◌≡◌, refl, ◌⊎◌, All, inl, inr, if◌then◌else◌, Result, ok, err,
}
use sentinel_fs.Chunks.{data_checksum}
use sentinel_fs.DataNode.Store.{StoreError}
use sentinel_fs.DataNode.Server.{StoreChunkRequest}
use sentinel_fs.MetaServer.Messages.{ChunkPlacement}

-- A goroutine: its chunk and the addresses that it has still to send to.
pub record Sender : Type 0 where
  pub chunk_id : Str
  pub contents : List ℕ
  pub addresses : List Str

-- The loop that starts the goroutines.
unfoldable pub start_senders : List (List ℕ) → List ChunkPlacement → List Sender
start_senders chunks [] = []
start_senders [] (p ∷ ps) = []
start_senders (c ∷ cs) (p ∷ ps) =
    record { chunk_id = p.chunk_id; contents = c; addresses = p.node_addresses }
    ∷ start_senders cs ps

-- No goroutine has an address left: the wait is over.
unfoldable pub all_done : List Sender → Bool
all_done [] = true
all_done (t ∷ ts) = elim t.addresses [ [] ↦ all_done ts | a ∷ rest ↦ false ]

-- What a step of a goroutine comes to: it goes on or returns, it has an error for `errCh`, or its
-- message of progress panics, which ends the client.
pub data Event : Type 0 where
  goes fails panics : Event

pub Event-cases : (e : Event) → (e ≡ goes) ⊎ ((e ≡ fails) ⊎ (e ≡ panics))
Event-cases goes = inl refl
Event-cases fails = inr (inl refl)
Event-cases panics = inr (inr refl)

-- The message shows `placement.ChunkId[:12]`.
unfoldable pub short_id : Str → Bool
short_id id = ltb (length id) 12

-- No id is too short for it.
abbrev pub AllLong : List Sender → Type 0
AllLong = All (λ t. short_id t.chunk_id ≡ false)

-- After a call that succeeds: the next address, or the message.
unfoldable pub after_send : Str → List Str → Event
unfolding short_id
after_send id [] = if short_id id then panics else goes
after_send id (addr ∷ rest) = goes

-- A goroutine without any address panics.
unfoldable pub panics_idle : List Sender → Bool
unfolding short_id
panics_idle [] = false
panics_idle (t ∷ ts) =
    elim t.addresses [ [] ↦ short_id t.chunk_id | a ∷ rest ↦ false ] || panics_idle ts

module _ (sha256 : List ℕ → List ℕ) {S : Type 0}
    (send : Str → StoreChunkRequest → S → Option (Result StoreError (Unit {0})) × S) where
  -- Whether the call succeeds.
  unfoldable pub send_chunk_to_node : Str → Str → List ℕ → Str → S → Bool × S
  send_chunk_to_node addr chunk_id contents checksum s =
      let (answer, s') =
        send addr (record { chunk_id = chunk_id; contents = contents; checksum = checksum }) s in
      (elim answer [ none ↦ false | some (err e) ↦ false | some (ok u) ↦ true ], s')

  -- The next call of a goroutine: the goroutine and the world after it, and what it comes to. After an
  -- error the goroutine makes no call.
  unfoldable pub send_next : Sender → S → Sender × Event × S
  unfolding send_chunk_to_node data_checksum after_send
  send_next t s = elim t.addresses [
    | [] ↦ (t, goes, s)
    | addr ∷ rest ↦
        let (sent, s') =
          send_chunk_to_node addr t.chunk_id t.contents (data_checksum sha256 t.contents) s in
        (
          record t { addresses = if sent then rest else [] },
          (if sent then after_send t.chunk_id rest else fails),
          s',
        )
  ]

  -- A step of goroutine `i`.
  unfoldable pub send_at : ℕ → List Sender → S → List Sender × Event × S
  unfolding send_next
  send_at i [] s = ([], goes, s)
  send_at zero (t ∷ ts) s = let (t', event, s') = send_next t s in (t' ∷ ts, event, s')
  send_at (suc i) (t ∷ ts) s = let (ts', event, s') = send_at i ts s in (t ∷ ts', event, s')

  -- The goroutines step in the order of the schedule: the errors that they have for `errCh`, or none if
  -- one panics, which ends the run.
  unfoldable pub run_senders : List ℕ → List Sender → ℕ → S → List Sender × Option ℕ × S
  unfolding send_at
  run_senders [] ts errors s = (ts, some errors, s)
  run_senders (i ∷ schedule) ts errors s =
      let (ts', event, s') = send_at i ts s in
      elim event [
        | goes ↦ run_senders schedule ts' errors s'
        | fails ↦ run_senders schedule ts' (errors + 1) s'
        | panics ↦ (ts', none, s')
      ]

  -- `uploadChunks` under a schedule: whether it returns nil, or none if it does not return, because a
  -- goroutine panics, or is not done, or its error does not fit into the buffer of `errCh`, which is
  -- only read after the wait.
  unfoldable pub upload_chunks : List ℕ → List (List ℕ) → List ChunkPlacement → S → Option Bool × S
  unfolding run_senders all_done start_senders panics_idle
  upload_chunks schedule chunks placements s =
      let ts0 = start_senders chunks placements in
      let (ts, log, s') = run_senders schedule ts0 0 s in
      (
        elim log [
          | none ↦ none
          | some errors ↦
              if all_done ts && leb errors (length placements) && not (panics_idle ts0)
              then some (eqb errors 0)
              else none
        ],
        s',
      )

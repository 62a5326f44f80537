-- ===== src/Client/Upload/Finished.antt =====
-- When an upload returns.
use sentinel_fs.Prelude.{
  ℕ, ◌≢◌, ◌∙◌, inl, inr, All, Bool-cases, min, leb, zero, suc, ◌+◌, ◌-◌, ◌≤◌, ◌<◌, ◌≡◌, refl, ap,
  subst, List, [], ◌∷◌, Bool, true, false, Option, some, Str, length, eqb, if◌then◌else◌, Result,
  ok, arith,
}
use sentinel_fs.Chunks.{data_checksum}
use sentinel_fs.DataNode.Store.{StoreError}
use sentinel_fs.DataNode.Server.{StoreChunkRequest}
use sentinel_fs.MetaServer.Messages.{ChunkPlacement}
use sentinel_fs.Client.Upload.{
  AllLong, Event, goes, fails, panics, Event-cases, short_id, after_send, panics_idle, Sender,
  start_senders, send_chunk_to_node, send_next, send_at, run_senders, all_done, upload_chunks,
}

-- How often `n` occurs.
abbrev pub count : ℕ → List ℕ → ℕ
count n [] = 0
count n (i ∷ schedule) = (if eqb n i then 1 else 0) + count n schedule

-- The goroutines, of which the first is number `n`, occur in the schedule as often as they have
-- addresses.
abbrev pub EnoughFrom : ℕ → List ℕ → List Sender → Type 0
EnoughFrom n schedule [] = Unit
EnoughFrom n schedule (t ∷ ts) =
    (length t.addresses ≤ count n schedule) × EnoughFrom (n + 1) schedule ts

skip :
    (i n : ℕ) (schedule : List ℕ) (ts : List Sender)
    → i < n
    → EnoughFrom n (i ∷ schedule) ts
    → EnoughFrom n schedule ts
skip i n schedule [] lt h = tt
skip i n schedule (t ∷ ts) lt h =
    let here = h.0 in (ground arith, skip i (n + 1) schedule ts (omega arith) h.1)

none_left : (n : ℕ) (ts : List Sender) → EnoughFrom n [] ts → all_done ts ≡ true
unfolding all_done
none_left n [] h = refl
none_left n (t ∷ ts) h = by_addresses t.addresses refl (none_left (n + 1) ts h.1)
  where
    by_addresses :
        (addrs : List Str) → t.addresses ≡ addrs → all_done ts ≡ true → all_done (t ∷ ts) ≡ true
    by_addresses [] e later = rw (all_done, e) later
    by_addresses (a ∷ addrs) e later = absurd (omega (arith, h.0, ap length e))

module _ (sha256 : List ℕ → List ℕ) {S : Type 0}
    (send : Str → StoreChunkRequest → S → Option (Result StoreError (Unit {0})) × S) where
  length-send_next :
      (t : Sender) (s : S) → length (send_next sha256 send t s).0.addresses ≤ length t.addresses - 1
  unfolding send_next
  length-send_next t s = by_addresses t.addresses refl
    where
      by_addresses :
          (addrs : List Str)
          → t.addresses ≡ addrs
          → length (send_next sha256 send t s).0.addresses ≤ length t.addresses - 1
      by_addresses [] e = rw (send_next, e) (omega (arith, ap length e))
      by_addresses (a ∷ addrs) e = rw (send_next, e) (ground arith)

  send_at-EnoughFrom :
      (k n : ℕ) (schedule : List ℕ) (ts : List Sender) (s : S)
      → EnoughFrom n ((n + k) ∷ schedule) ts
      → EnoughFrom n schedule (send_at sha256 send k ts s).0
  unfolding send_at
  send_at-EnoughFrom k n schedule [] s h = tt
  send_at-EnoughFrom zero n schedule (t ∷ ts) s h =
      let here = h.0 in
      let shorter = length-send_next t s in
      (ground arith, skip (n + 0) (n + 1) schedule ts (omega arith) h.1)
  send_at-EnoughFrom (suc k) n schedule (t ∷ ts) s h =
      let here = h.0 in
      (
        ground arith,
        send_at-EnoughFrom k (n + 1) schedule ts s
            (subst (λ i. EnoughFrom (n + 1) (i ∷ schedule) ts) (omega arith) h.1),
      )

  -- Goroutines that have a call left, each of which may still fail.
  abbrev active : List Sender → ℕ
  active [] = 0
  active (t ∷ ts) = min 1 (length t.addresses) + active ts

  abbrev errors_of : Event → ℕ
  errors_of fails = 1
  errors_of _ = 0

  after_send-goes : (id : Str) (rest : List Str) → short_id id ≡ false → after_send id rest ≡ goes
  unfolding after_send
  after_send-goes id [] h = rw h refl
  after_send-goes id (a ∷ rest) h = refl

  -- A step of a goroutine whose id is long enough: it does not panic, and an error is its last.
  record Steps (t t' : Sender) (e : Event) : Type 0 where
    same_id : t'.chunk_id ≡ t.chunk_id
    calm : e ≢ panics
    fewer : errors_of e + min 1 (length t'.addresses) ≤ min 1 (length t.addresses)

  send_next-Steps :
      (t : Sender) (s : S)
      → short_id t.chunk_id ≡ false
      → let r = send_next sha256 send t s in Steps t r.0 r.1
  unfolding send_next send_chunk_to_node
  send_next-Steps t s long = by_addresses t.addresses refl
    where
      Goal : Type 0
      Goal = let r = send_next sha256 send t s in Steps t r.0 r.1

      by_addresses : (addrs : List Str) → t.addresses ≡ addrs → Goal
      by_addresses [] e =
          rw (send_next, e)
            (record { same_id = refl; calm = λ x. cc x; fewer = omega (arith, ap length e) })
      by_addresses (a ∷ rest) e =
          elim (Bool-cases
            (send_chunk_to_node sha256 send a t.chunk_id t.contents
              (data_checksum sha256 t.contents) s).0) [
                | inl sent ↦
                    rw (send_next, e, sent, after_send-goes t.chunk_id rest long)
                      (record {
                        same_id = refl;
                        calm = λ x. cc x;
                        fewer = omega (arith, ap length e);
                      })
                | inr failed ↦
                    rw (send_next, e, failed)
                      (record {
                        same_id = refl;
                        calm = λ x. cc x;
                        fewer = omega (arith, ap length e);
                      })
              ]

  send_at-Steps :
      (i : ℕ) (ts : List Sender) (s : S)
      → AllLong ts
      → let r = send_at sha256 send i ts s in
        AllLong r.0 × (r.1 ≢ panics) × (errors_of r.1 + active r.0 ≤ active ts)
  unfolding send_at
  send_at-Steps i [] s h = (tt, (λ x. cc x), omega arith)
  send_at-Steps zero (t ∷ ts) s h =
      let step = send_next-Steps t s h.0 in
      ((ap short_id step.same_id ∙ h.0, h.1), step.calm, omega (arith, step.fewer))
  send_at-Steps (suc i) (t ∷ ts) s h =
      let (longs, calm, fewer) = send_at-Steps i ts s h.1 in
      ((h.0, longs), calm, omega (arith, fewer))

  -- The run ends without a panic, with no more errors than there is room for, and all are done.
  run_senders-finishes :
      (schedule : List ℕ) (ts : List Sender) (errors room : ℕ) (s : S)
      → EnoughFrom 0 schedule ts
      → AllLong ts
      → errors + active ts ≤ room
      → let r = run_senders sha256 send schedule ts errors s in
        (n : ℕ) × (r.1 ≡ some n) × (n ≤ room) × (all_done r.0 ≡ true)
  unfolding run_senders
  run_senders-finishes [] ts errors room s h longs fits =
      (errors, refl, omega arith, none_left 0 ts h)
  run_senders-finishes (i ∷ schedule) ts errors room s h longs fits =
      let r = send_at sha256 send i ts s in
      let (longs', calm, fewer) = send_at-Steps i ts s longs in
      let enough =
        send_at-EnoughFrom i 0 schedule ts s
          (subst (λ x. EnoughFrom 0 (x ∷ schedule) ts) (omega arith) h) in
      elim (Event-cases r.1) [
        | inl is ↦
            rw (run_senders, is)
              (run_senders-finishes schedule r.0 errors room r.2 enough longs'
                (omega (arith, fewer)))
        | inr (inl is) ↦
            let one_less : errors_of r.1 ≡ 1 = ap errors_of is in
            rw (run_senders, is)
              (run_senders-finishes schedule r.0 (errors + 1) room r.2 enough longs'
                (omega (arith, fewer, one_less)))
        | inr (inr is) ↦ absurd (calm is)
      ]

  -- Every call succeeds.
  abbrev pub Sends : Type 0
  Sends = (addr : Str) (req : StoreChunkRequest) (s : S) → (send addr req s).0 ≡ some (ok tt)

  send_next-fine :
      (t : Sender) (s : S)
      → Sends
      → short_id t.chunk_id ≡ false
      → (send_next sha256 send t s).1 ≡ goes
  unfolding send_next send_chunk_to_node
  send_next-fine t s h long = by_addresses t.addresses refl
    where
      by_addresses : (addrs : List Str) → t.addresses ≡ addrs → (send_next sha256 send t s).1 ≡ goes
      by_addresses [] e = rw (send_next, e) refl
      by_addresses (a ∷ addrs) e =
          rw (send_next, e, send_chunk_to_node, h) (after_send-goes t.chunk_id addrs long)

  send_at-fine :
      (i : ℕ) (ts : List Sender) (s : S)
      → Sends
      → AllLong ts
      → (send_at sha256 send i ts s).1 ≡ goes
  unfolding send_at
  send_at-fine i [] s h longs = refl
  send_at-fine zero (t ∷ ts) s h longs = send_next-fine t s h longs.0
  send_at-fine (suc i) (t ∷ ts) s h longs = send_at-fine i ts s h longs.1

  run_senders-fine :
      (schedule : List ℕ) (ts : List Sender) (s : S)
      → Sends
      → AllLong ts
      → (run_senders sha256 send schedule ts 0 s).1 ≡ some 0
  unfolding run_senders
  run_senders-fine [] ts s h longs = refl
  run_senders-fine (i ∷ schedule) ts s h longs =
      let r = send_at sha256 send i ts s in
      rw (run_senders, send_at-fine i ts s h longs)
        (run_senders-fine schedule r.0 r.2 h (send_at-Steps i ts s longs).0)

  AllLong-start_senders :
      (chunks : List (List ℕ)) (placements : List ChunkPlacement)
      → All (λ p. 12 ≤ length p.chunk_id) placements
      → AllLong (start_senders chunks placements)
        × (active (start_senders chunks placements) ≤ length placements)
  unfolding start_senders short_id
  AllLong-start_senders chunks [] h = (tt, omega arith)
  AllLong-start_senders [] (p ∷ ps) h = (tt, omega arith)
  AllLong-start_senders (c ∷ cs) (p ∷ ps) h =
      let (longs, few) = AllLong-start_senders cs ps h.1 in
      let here : 12 ≤ length p.chunk_id = h.0 in ((ground arith, longs), omega (arith, few))

  AllLong-panics_idle : (ts : List Sender) → AllLong ts → panics_idle ts ≡ false
  unfolding panics_idle
  AllLong-panics_idle [] h = refl
  AllLong-panics_idle (t ∷ ts) h = by_addresses t.addresses refl (AllLong-panics_idle ts h.1)
    where
      by_addresses :
          (addrs : List Str)
          → t.addresses ≡ addrs
          → panics_idle ts ≡ false
          → panics_idle (t ∷ ts) ≡ false
      by_addresses [] e later = rw (panics_idle, e, h.0) later
      by_addresses (a ∷ addrs) e later = rw (panics_idle, e) later

  -- Where the chunk ids have at least 12 bytes, which the message of progress shows: an upload returns
  -- under every schedule in which each goroutine occurs at least as often as its placement has
  -- addresses, in whatever order and whichever calls fail; none panics, and `errCh` has room for every
  -- error. If every call succeeds, the upload returns nil.
  pub upload_chunks_finishes :
      (schedule : List ℕ) (chunks : List (List ℕ)) (placements : List ChunkPlacement) (s : S)
      → All (λ p. 12 ≤ length p.chunk_id) placements
      → EnoughFrom 0 schedule (start_senders chunks placements)
      → let r = upload_chunks sha256 send schedule chunks placements s in
        ((b : Bool) × (r.0 ≡ some b)) × (Sends → r.0 ≡ some true)
  unfolding upload_chunks
  upload_chunks_finishes schedule chunks placements s long h =
      let (longs, few) = AllLong-start_senders chunks placements long in
      let (n, log, fits, done) =
        run_senders-finishes schedule ts 0 (length placements) s h longs (omega (arith, few)) in
      let idle = AllLong-panics_idle ts longs in
      let room : leb n (length placements) ≡ true = ground (arith, fits) in
      (
        (eqb n 0, rw (upload_chunks, log, done, idle, room) refl),
        λ fine.
            rw (upload_chunks, run_senders-fine schedule ts s fine longs, done, idle)
              (ground arith),
      )
    where
      ts : List Sender
      ts = start_senders chunks placements

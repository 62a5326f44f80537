-- ===== src/Client/Upload/Replicated.antt =====
-- An upload that succeeds, whatever the interleaving of its goroutines.
use sentinel_fs.Prelude.{
  ℕ, zero, suc, ◌≡◌, refl, sym, ◌∙◌, ap, subst, List, [], ◌∷◌, ◌++◌, Bool, true, false, ◌||◌, ◌&&◌,
  not, leb, eqb, ◌≤◌, ◌+◌, length, if◌then◌else◌, Option, none, some, Str, All, Bool-cases, inl,
  inr, Result, ok, err, arith,
}
use mathlib.Core.Option.{some-injective}
use mathlib.Core.Logic.Or
use mathlib.Core.List.{append-nil, append_assoc, Mem, mem-cons, mem-cons_of_mem}
use sentinel_fs.Chunks.{data_checksum}
use sentinel_fs.DataNode.Store.{StoreError}
use sentinel_fs.DataNode.Server.{StoreChunkRequest}
use sentinel_fs.DataNode.Server.Cluster.{Cluster, Weather, send_store}
use sentinel_fs.DataNode.Server.Serving.{Serves, Compatible, send_store-Serves}
use sentinel_fs.MetaServer.Messages.{ChunkPlacement}
use sentinel_fs.Client.Upload.{
  Sender, AllLong, Event-cases, goes, short_id, after_send, panics_idle, start_senders,
  send_chunk_to_node, send_next, send_at, run_senders, all_done, upload_chunks,
}

module _ (sha256 : List ℕ → List ℕ) (env : Weather) where
  -- What the goroutine sends to each address.
  abbrev pub request_of : Sender → StoreChunkRequest
  request_of t = record {
    chunk_id = t.chunk_id;
    contents = t.contents;
    checksum = data_checksum sha256 t.contents;
  }

  -- The goroutine that was `t0` has `rest` left; what it has sent is served.
  record Progress (nodes : Cluster) (t0 t : Sender) : Type 0 where
    rest : List Str
    sent : List Str
    state : record t0 { addresses = rest } ≡ t
    split : sent ++ rest ≡ t0.addresses
    serves : All (λ a. Serves sha256 nodes a t0.chunk_id t0.contents) sent
    long : rest ≡ [] → short_id t0.chunk_id ≡ false

  abbrev Progresses : Cluster → List Sender → List Sender → Type 0
  Progresses nodes [] [] = Unit
  Progresses nodes [] (t ∷ ts) = true ≡ false
  Progresses nodes (t0 ∷ ts0) [] = true ≡ false
  Progresses nodes (t0 ∷ ts0) (t ∷ ts) = Progress nodes t0 t × Progresses nodes ts0 ts

  or_false : (a b : Bool) → (a || b) ≡ false → b ≡ false
  or_false a b h = ground arith

  or_false_left : (a b : Bool) → (a || b) ≡ false → a ≡ false
  or_false_left a b h = ground arith

  after_send-long :
      (id : Str) (rest : List Str) → after_send id rest ≡ goes → rest ≡ [] → short_id id ≡ false
  unfolding after_send
  after_send-long id [] h e = elim (Bool-cases (short_id id)) [
    | inl short ↦ absurd (cc (rw (short, after_send) at h))
    | inr long ↦ long
  ]
  after_send-long id (a ∷ rest) h e = absurd (cc e)

  idle_long :
      (t : Sender) (ts : List Sender)
      → panics_idle (t ∷ ts) ≡ false
      → t.addresses ≡ []
      → short_id t.chunk_id ≡ false
  unfolding panics_idle
  idle_long t ts h e = or_false_left _ _ (rw (panics_idle, e) at h)

  begun : (nodes : Cluster) (ts : List Sender) → panics_idle ts ≡ false → Progresses nodes ts ts
  unfolding panics_idle
  begun nodes [] h = tt
  begun nodes (t ∷ ts) h = (
    record {
      rest = t.addresses;
      sent = [];
      state = refl;
      split = refl;
      serves = tt;
      long = idle_long t ts h;
    },
    begun nodes ts (or_false _ (panics_idle ts) h),
  )

  module _ (P : Sender → Type 0)
      (compatible : (t u : Sender)
        → P t
        → P u
        → Compatible sha256 (request_of t) u.chunk_id u.contents) where
    -- What is served stays served.
    abbrev Keeps : Cluster → Cluster → Type 0
    Keeps nodes nodes' =
        (u : Sender)
        → P u
        → (a : Str) → Serves sha256 nodes a u.chunk_id u.contents
        → Serves sha256 nodes' a u.chunk_id u.contents

    Keeps-All :
        (nodes nodes' : Cluster) (u : Sender) (addrs : List Str)
        → Keeps nodes nodes'
        → P u
        → All (λ a. Serves sha256 nodes a u.chunk_id u.contents) addrs
        → All (λ a. Serves sha256 nodes' a u.chunk_id u.contents) addrs
    Keeps-All nodes nodes' u [] k p h = tt
    Keeps-All nodes nodes' u (a ∷ addrs) k p h =
        (k u p a h.0, Keeps-All nodes nodes' u addrs k p h.1)

    Keeps-Progress :
        (nodes nodes' : Cluster) (t0 t : Sender)
        → Keeps nodes nodes'
        → P t0
        → Progress nodes t0 t
        → Progress nodes' t0 t
    Keeps-Progress nodes nodes' t0 t k p h = record {
      rest = h.rest;
      sent = h.sent;
      state = h.state;
      split = h.split;
      serves = Keeps-All nodes nodes' t0 h.sent k p h.serves;
      long = h.long;
    }

    Keeps-Progresses :
        (nodes nodes' : Cluster) (ts0 ts : List Sender)
        → Keeps nodes nodes'
        → All P ts0
        → Progresses nodes ts0 ts
        → Progresses nodes' ts0 ts
    Keeps-Progresses nodes nodes' [] [] k p h = tt
    Keeps-Progresses nodes nodes' [] (t ∷ ts) k p h = h
    Keeps-Progresses nodes nodes' (t0 ∷ ts0) [] k p h = h
    Keeps-Progresses nodes nodes' (t0 ∷ ts0) (t ∷ ts) k p h =
        (Keeps-Progress nodes nodes' t0 t k p.0 h.0, Keeps-Progresses nodes nodes' ts0 ts k p.1 h.1)

    All_last :
        (Q : Str → Type 0) (addrs : List Str) (a : Str)
        → All Q addrs
        → Q a
        → All Q (addrs ++ a ∷ [])
    All_last Q [] a h q = (q, tt)
    All_last Q (b ∷ addrs) a h q = (h.0, All_last Q addrs a h.1 q)

    -- A call of a goroutine that does not fail.
    send_next-Progress :
        (t0 : Sender) (rest sent : List Str) (nodes : Cluster)
        → P t0
        → sent ++ rest ≡ t0.addresses
        → All (λ a. Serves sha256 nodes a t0.chunk_id t0.contents) sent
        → (rest ≡ [] → short_id t0.chunk_id ≡ false)
        → let r = send_next sha256 (send_store sha256 env) (record t0 { addresses = rest }) nodes in
          r.1 ≡ goes → Progress r.2 t0 r.0 × Keeps nodes r.2
    unfolding send_next send_chunk_to_node
    send_next-Progress t0 [] sent nodes p split serves long fine = (
      record { rest = []; sent = sent; state = refl; split = split; serves = serves; long = long },
      λ u q a h. h,
    )
    send_next-Progress t0 (addr ∷ rest) sent nodes p split serves long fine =
        by_answer (send_store sha256 env addr (request_of t0) nodes).0 refl
      where
        by_answer :
            (r : Option (Result StoreError (Unit {0})))
            → (send_store sha256 env addr (request_of t0) nodes).0 ≡ r
            → let r =
                send_next sha256
                  (send_store sha256 env)
                  (record t0 { addresses = addr ∷ rest })
                  nodes in
              Progress r.2 t0 r.0 × Keeps nodes r.2
        by_answer none e = absurd (cc (rw (e, send_next, send_chunk_to_node) at fine))
        by_answer (some (err x)) e = absurd (cc (rw (e, send_next, send_chunk_to_node) at fine))
        by_answer (some (ok u)) e =
            let (here, kept) = send_store-Serves sha256 env addr (request_of t0) nodes e in
            rw (e, send_next, send_chunk_to_node)
              (
                record {
                  rest = rest;
                  sent = sent ++ addr ∷ [];
                  state = refl;
                  split = append_assoc sent (addr ∷ []) rest ∙ split;
                  serves =
                      All_last
                        (λ a.
                          Serves sha256 (send_store sha256 env addr (request_of t0) nodes).1 a
                            t0.chunk_id t0.contents)
                        sent addr
                        (Keeps-All nodes (send_store sha256 env addr (request_of t0) nodes).1 t0
                          sent (λ u q a s. kept a u.chunk_id u.contents (compatible t0 u p q) s) p
                          serves)
                        here;
                  long =
                      after_send-long t0.chunk_id rest
                        (rw (e, send_next, send_chunk_to_node) at fine);
                },
                λ u q a s. kept a u.chunk_id u.contents (compatible t0 u p q) s,
              )

    send_at-Progresses :
        (i : ℕ) (ts0 ts : List Sender) (nodes : Cluster)
        → All P ts0
        → Progresses nodes ts0 ts
        → let r = send_at sha256 (send_store sha256 env) i ts nodes in
          r.1 ≡ goes → Progresses r.2 ts0 r.0 × Keeps nodes r.2
    unfolding send_at
    send_at-Progresses i [] [] nodes p h fine = (tt, λ u q a s. s)
    send_at-Progresses i [] (t ∷ ts) nodes p h fine = absurd (cc h)
    send_at-Progresses i (t0 ∷ ts0) [] nodes p h fine = absurd (cc h)
    send_at-Progresses zero (t0 ∷ ts0) (t ∷ ts) nodes p h fine =
        subst
          (λ x.
            let r = send_next sha256 (send_store sha256 env) x nodes in
            r.1 ≡ goes → Progresses r.2 (t0 ∷ ts0) (r.0 ∷ ts) × Keeps nodes r.2)
          h.0.state
          (λ good.
            let (now, kept) =
              send_next-Progress t0 h.0.rest h.0.sent nodes p.0 h.0.split h.0.serves h.0.long
                good in
            ((now, Keeps-Progresses nodes _ ts0 ts kept p.1 h.1), kept))
          fine
    send_at-Progresses (suc i) (t0 ∷ ts0) (t ∷ ts) nodes p h fine =
        let (now, kept) = send_at-Progresses i ts0 ts nodes p.1 h.1 fine in
        (
          (
            Keeps-Progress nodes (send_at sha256 (send_store sha256 env) i ts nodes).2 t0 t kept p.0
                h.0,
            now,
          ),
          kept,
        )

    -- No error is lost.
    run_senders-errors :
        (schedule : List ℕ) (ts : List Sender) (errors n : ℕ) (nodes : Cluster)
        → (run_senders sha256 (send_store sha256 env) schedule ts errors nodes).1 ≡ some n
        → errors ≤ n
    unfolding run_senders
    run_senders-errors [] ts errors n nodes h = omega (arith, some-injective errors n h)
    run_senders-errors (i ∷ schedule) ts errors n nodes h =
        let r = send_at sha256 (send_store sha256 env) i ts nodes in
        elim (Event-cases r.1) [
          | inl is ↦ run_senders-errors schedule r.0 errors n r.2 (rw (run_senders, is) at h)
          | inr (inl is) ↦ omega (
            arith,
            run_senders-errors schedule r.0 (errors + 1) n r.2 (rw (run_senders, is) at h),
          )
          | inr (inr is) ↦ absurd (cc (rw (run_senders, is) at h))
        ]

    run_senders-Progresses :
        (schedule : List ℕ) (ts0 ts : List Sender) (nodes : Cluster)
        → All P ts0
        → Progresses nodes ts0 ts
        → let r = run_senders sha256 (send_store sha256 env) schedule ts 0 nodes in
          r.1 ≡ some 0 → Progresses r.2 ts0 r.0
    unfolding run_senders
    run_senders-Progresses [] ts0 ts nodes p h fine = h
    run_senders-Progresses (i ∷ schedule) ts0 ts nodes p h fine =
        let r = send_at sha256 (send_store sha256 env) i ts nodes in
        elim (Event-cases r.1) [
          | inl is ↦
              rw (run_senders, is)
                (run_senders-Progresses schedule ts0 r.0 r.2 p
                  (send_at-Progresses i ts0 ts nodes p h is).0 (rw (run_senders, is) at fine))
          | inr (inl is) ↦ absurd (
              omega (arith, run_senders-errors schedule r.0 1 0 r.2 (rw (run_senders, is) at fine)))
          | inr (inr is) ↦ absurd (cc (rw (run_senders, is) at fine))
        ]

  -- The goroutines whose chunks are on all their addresses.
  abbrev pub AllServed : Cluster → List Sender → Type 0
  AllServed nodes [] = Unit
  AllServed nodes (t ∷ ts) =
      All (λ a. Serves sha256 nodes a t.chunk_id t.contents) t.addresses × AllServed nodes ts

  all_done-AllServed :
      (nodes : Cluster) (ts0 ts : List Sender)
      → Progresses nodes ts0 ts
      → all_done ts ≡ true
      → AllServed nodes ts0
  unfolding all_done
  all_done-AllServed nodes [] ts h e = tt
  all_done-AllServed nodes (t0 ∷ ts0) [] h e = absurd (cc h)
  all_done-AllServed nodes (t0 ∷ ts0) (t ∷ ts) h e =
      by_rest (all_done-AllServed nodes ts0 ts h.1) h.0.rest refl
    where
      Goal : Type 0
      Goal = AllServed nodes (t0 ∷ ts0)

      by_rest :
          (all_done ts ≡ true → AllServed nodes ts0) → (rest : List Str) → h.0.rest ≡ rest → Goal
      by_rest later [] none_left =
          let left : t.addresses ≡ [] = ap (λ x. x.addresses) (sym h.0.state) ∙ none_left in
          (
            subst (λ l. All (λ a. Serves sha256 nodes a t0.chunk_id t0.contents) l)
                (sym (append-nil h.0.sent) ∙ ap (λ l. h.0.sent ++ l) (sym none_left) ∙ h.0.split)
                h.0.serves,
            later (rw (left, all_done) at e),
          )
      by_rest later (a ∷ rest) some_left =
          let left : t.addresses ≡ a ∷ rest = ap (λ x. x.addresses) (sym h.0.state) ∙ some_left in
          absurd (cc (rw (left, all_done) at e))

  all_done-AllLong :
      (nodes : Cluster) (ts0 ts : List Sender)
      → Progresses nodes ts0 ts
      → all_done ts ≡ true
      → AllLong ts0
  unfolding all_done
  all_done-AllLong nodes [] ts h e = tt
  all_done-AllLong nodes (t0 ∷ ts0) [] h e = absurd (cc h)
  all_done-AllLong nodes (t0 ∷ ts0) (t ∷ ts) h e =
      by_rest (all_done-AllLong nodes ts0 ts h.1) h.0.rest refl
    where
      by_rest :
          (all_done ts ≡ true → AllLong ts0)
          → (rest : List Str) → h.0.rest ≡ rest
          → AllLong (t0 ∷ ts0)
      by_rest later [] none_left =
          let left : t.addresses ≡ [] = ap (λ x. x.addresses) (sym h.0.state) ∙ none_left in
          (h.0.long none_left, later (rw (left, all_done) at e))
      by_rest later (a ∷ rest) some_left =
          let left : t.addresses ≡ a ∷ rest = ap (λ x. x.addresses) (sym h.0.state) ∙ some_left in
          absurd (cc (rw (left, all_done) at e))

  Mem-All : (ts : List Sender) → All (λ t. Mem t ts) ts
  Mem-All ts = within ts (λ t m. m)
    where
      within : (us : List Sender) → ((t : Sender) → Mem t us → Mem t ts) → All (λ t. Mem t ts) us
      within [] h = tt
      within (u ∷ us) h =
          (h u (mem-cons.1 (Or.inl refl)), within us (λ t m. h t (mem-cons_of_mem u m)))

  -- What the answer nil of an upload means.
  upload_chunks-nil :
      (log : Option ℕ) (done idle : Bool) (room : ℕ)
      → elim log [
        | none ↦ none
        | some n ↦ if done && leb n room && not idle then some (eqb n 0) else none
      ]
        ≡ some true
      → (log ≡ some 0) × (done ≡ true) × (idle ≡ false)
  upload_chunks-nil none done idle room h = absurd (cc h)
  upload_chunks-nil (some zero) true false room h = (refl, refl, refl)
  upload_chunks-nil (some zero) true true room h = absurd (ground (arith, h))
  upload_chunks-nil (some zero) false idle room h = absurd (cc h)
  upload_chunks-nil (some (suc n)) done idle room h = absurd (ground (arith, h))

  pub upload_chunks-Replicated :
      (schedule : List ℕ) (chunks : List (List ℕ)) (placements : List ChunkPlacement)
      (nodes : Cluster)
      → ((t u : Sender)
          → Mem t (start_senders chunks placements)
          → Mem u (start_senders chunks placements)
          → Compatible sha256 (request_of t) u.chunk_id u.contents)
      → let r = upload_chunks sha256 (send_store sha256 env) schedule chunks placements nodes in
        r.0 ≡ some true
        → AllServed r.1 (start_senders chunks placements)
          × AllLong (start_senders chunks placements)
  unfolding upload_chunks
  upload_chunks-Replicated schedule chunks placements nodes apart h =
      let (clean, finished, busy) =
        upload_chunks-nil r.1 (all_done r.0) (panics_idle ts0) (length placements) h in
      let progress =
        run_senders-Progresses (λ t. Mem t ts0) apart schedule ts0 ts0 nodes (Mem-All ts0)
          (begun nodes ts0 busy) clean in
      (
        all_done-AllServed r.2 ts0 r.0 progress finished,
        all_done-AllLong r.2 ts0 r.0 progress finished,
      )
    where
      ts0 : List Sender
      ts0 = start_senders chunks placements

      r : List Sender × Option ℕ × Cluster
      r = run_senders sha256 (send_store sha256 env) schedule ts0 0 nodes

  -- Where different chunks have different ids and, on every node, different files: an upload whose
  -- goroutines, in any interleaving, all finish and of which none fails leaves every chunk served
  -- with its contents by every node that its placement names, whatever the network and the disks do
  -- to the calls.
  pub upload_chunks-AllServed :
      (schedule : List ℕ) (chunks : List (List ℕ)) (placements : List ChunkPlacement)
      (nodes : Cluster)
      → ((t u : Sender)
          → Mem t (start_senders chunks placements)
          → Mem u (start_senders chunks placements)
          → Compatible sha256 (request_of t) u.chunk_id u.contents)
      → let r = upload_chunks sha256 (send_store sha256 env) schedule chunks placements nodes in
        r.0 ≡ some true → AllServed r.1 (start_senders chunks placements)
  upload_chunks-AllServed schedule chunks placements nodes apart h =
      (upload_chunks-Replicated schedule chunks placements nodes apart h).0

-- ===== src/Client/Fetch.antt =====
-- The download of one chunk: `fetchChunkFromNodes` of internal/client/transfer.go. `get_chunk` is the
-- call of a node's GetChunk: the response, or none where the connection or the call fails.
use sentinel_fs.Prelude.{
  ℕ, ◌≡◌, ◌↔◌, ◌⊎◌, ◌∙◌, refl, inl, inr, List, [], ◌∷◌, Bool, true, ◌&&◌, Option, none, some, Str,
  ◌==◌, eq_iff, eq_refl, mem, not, if◌then◌else◌, All, Option-cases, arith,
}
use sentinel_fs.Chunks.{data_checksum}

-- pb.GetChunkResponse
pub record GetChunkResponse : Type 0 where
  pub success : Bool
  pub contents : List ℕ
  pub checksum : Str

module _ (sha256 : List ℕ → List ℕ) (get_chunk : Str → Str → Option GetChunkResponse) where
  -- `fetchChunkFromNode` from the response on; an error is none.
  unfoldable pub accept : GetChunkResponse → Option (List ℕ)
  accept resp =
      if not resp.success
      then none
      else if not (resp.checksum == []) && not (data_checksum sha256 resp.contents == resp.checksum)
      then none
      else some resp.contents

  unfoldable pub fetch_chunk_from_node : Str → Str → Option (List ℕ)
  unfolding accept
  fetch_chunk_from_node addr chunk_id = elim (get_chunk addr chunk_id) [
    | none ↦ none
    | some resp ↦ accept resp
  ]

  unfoldable pub fetch_chunk_from_nodes : Str → List Str → Option (List ℕ)
  unfolding fetch_chunk_from_node
  fetch_chunk_from_nodes chunk_id [] = none
  fetch_chunk_from_nodes chunk_id (addr ∷ addresses) = elim (fetch_chunk_from_node addr chunk_id) [
    | none ↦ fetch_chunk_from_nodes chunk_id addresses
    | some contents ↦ some contents
  ]

  -- What node `addr` answered passes as `contents`.
  pub record Vouched (chunk_id addr : Str) (contents : List ℕ) : Type 0 where
    pub resp : GetChunkResponse
    pub answered : get_chunk addr chunk_id ≡ some resp
    pub succeeded : resp.success ≡ true
    pub its_contents : resp.contents ≡ contents
    pub its_checksum : (resp.checksum ≡ []) ⊎ (resp.checksum ≡ data_checksum sha256 contents)

  accept-some :
      (resp : GetChunkResponse) (contents : List ℕ)
      → accept resp ≡ some contents
      → (resp.success ≡ true)
        × (resp.contents ≡ contents)
        × ((resp.checksum ≡ []) ⊎ (resp.checksum ≡ data_checksum sha256 contents))
  unfolding accept
  accept-some resp contents h =
      let sum = data_checksum sha256 resp.contents in
      let same = eq_iff sum resp.checksum in
      let bare = eq_iff resp.checksum [] in ground (arith, same, bare)

  fetch_chunk_from_node-Vouched :
      (addr chunk_id : Str) (contents : List ℕ)
      → fetch_chunk_from_node addr chunk_id ≡ some contents
      → Vouched chunk_id addr contents
  unfolding fetch_chunk_from_node
  fetch_chunk_from_node-Vouched addr chunk_id contents h =
      elim (Option-cases (get_chunk addr chunk_id)) [
        | inl out ↦ absurd (cc (rw (out, fetch_chunk_from_node) at h))
        | inr (r, is) ↦
            let (good, same, sum) = accept-some r contents (rw (is, fetch_chunk_from_node) at h) in
            record {
              resp = r;
              answered = is;
              succeeded = good;
              its_contents = same;
              its_checksum = sum;
            }
      ]

  -- The download of a chunk: contents that it returns were answered as a success by a node of the
  -- list, with no checksum or with theirs; and it fails exactly if the fetch fails on every node.
  pub fetch_chunk_from_nodes-Vouched :
      (chunk_id : Str) (addresses : List Str)
      → ((contents : List ℕ)
          → fetch_chunk_from_nodes chunk_id addresses ≡ some contents
          → (addr : Str) × (mem addr addresses ≡ true) × Vouched chunk_id addr contents)
        × ((fetch_chunk_from_nodes chunk_id addresses ≡ none)
            ↔ All (λ addr. fetch_chunk_from_node addr chunk_id ≡ none) addresses)
  unfolding fetch_chunk_from_nodes mem
  fetch_chunk_from_nodes-Vouched chunk_id [] = ((λ d h. cc h), (λ h. tt, λ h. refl))
  fetch_chunk_from_nodes-Vouched chunk_id (a ∷ others) =
      let (found, fails) = fetch_chunk_from_nodes-Vouched chunk_id others in
      elim (Option-cases (fetch_chunk_from_node a chunk_id)) [
        | inl out ↦
            rw (out, fetch_chunk_from_nodes)
              (
                (λ d h. let (b, here, v) = found d h in (b, ground (arith, here), v)),
                (λ h. (refl, fails.0 h), λ h. fails.1 h.1),
              )
        | inr (c, got) ↦
            rw (got, fetch_chunk_from_nodes)
              (
                (λ d h. (
                  a,
                  ground (arith, eq_refl a),
                  fetch_chunk_from_node-Vouched a chunk_id d (got ∙ h),
                )),
                (λ h. cc h, λ h. cc h.0),
              )
      ]

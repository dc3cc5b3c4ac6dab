-- ===== src/Replication/Laws.antt =====
-- What a fetch returns, and when a replication is complete.
use p2p_distributed_system_m.Base.{
  ◌≡◌, ◌↔◌, ◌∙◌, refl, sym, Bytes, true, false, List, [], ◌∷◌, Option, none, some, Result, ok, err,
  arith, ◌==◌, Bool-cases, inl, inr, Option-cases, ◌⊎◌, ◌≢◌, ap, Result-cases,
}
use p2p_distributed_system_m.Gen.{PeerEndpoint, StoreBlockResponse}
use p2p_distributed_system_m.Network.{Grpc}
use p2p_distributed_system_m.Network.Pool.{Net, with_client}
use p2p_distributed_system_m.Os.{Disk}
use p2p_distributed_system_m.Storage.{Storage}
use p2p_distributed_system_m.Replication.{
  store_outcome, store_on_peer, replicate_from, replicate_to_addrs, later, get_from, verified,
  fetch_from, fetch_block,
}

-- A response that says that the block was stored.
abbrev Accepts : Result (Option StoreBlockResponse) → Type 0
Accepts answer = (resp : StoreBlockResponse) × (answer ≡ ok (some resp)) × (resp.ok ≡ true)

store_outcome→Accepts :
    (answer : Result (Option StoreBlockResponse)) → store_outcome answer ≡ none → Accepts answer
unfolding store_outcome
store_outcome→Accepts (err e) h = absurd (ground arith)
store_outcome→Accepts (ok none) h = absurd (ground arith)
store_outcome→Accepts (ok (some resp)) h = (resp, refl, ground arith)

Accepts→store_outcome :
    (answer : Result (Option StoreBlockResponse)) → Accepts answer → store_outcome answer ≡ none
unfolding store_outcome
Accepts→store_outcome answer (resp, e, fine) = rw (e, fine) refl

module _ (G : Grpc) (cid block : Bytes) where
  -- The call of `StoreBlock` at an address.
  abbrev pub stored : Bytes → Net G → Result (Option StoreBlockResponse) × Net G
  stored a n = with_client G a (λ c. G.store_block c (record { cid = cid; block = block })) n

  -- Every address, called one after the other, answers that it stored the block.
  abbrev pub AllAccept : List Bytes → Net G → Type 0
  AllAccept [] n = Unit
  AllAccept (a ∷ addrs) n = Accepts (stored a n).0 × AllAccept addrs (stored a n).1

  -- The rest of the loop, given what the first address answered.
  abbrev rest_of : Option Bytes → List Bytes → Net G → Option Bytes → Option Bytes
  rest_of last addrs n o = (replicate_from G (later last o) addrs cid block n).0

  replicate_after_error :
      (last : Bytes) (addrs : List Bytes) (n : Net G)
      → (replicate_from G (some last) addrs cid block n).0 ≡ none
      → ⊥
  unfolding replicate_from store_on_peer
  replicate_after_error last [] n h = absurd (ground arith)
  replicate_after_error last (a ∷ addrs) n h =
      let after = (stored a n).1 in
      elim (Option-cases (store_outcome (stored a n).0)) [
        | inl e ↦
            replicate_after_error last addrs after
              (sym (ap (rest_of (some last) addrs after) e) ∙ h)
        | inr (x, e) ↦
            replicate_after_error x addrs after (sym (ap (rest_of (some last) addrs after) e) ∙ h)
      ]

  replicated→AllAccept :
      (addrs : List Bytes) (n : Net G)
      → (replicate_from G none addrs cid block n).0 ≡ none
      → AllAccept addrs n
  unfolding replicate_from store_on_peer
  replicated→AllAccept [] n h = tt
  replicated→AllAccept (a ∷ addrs) n h =
      let after = (stored a n).1 in
      elim (Option-cases (store_outcome (stored a n).0)) [
        | inl e ↦ (
          store_outcome→Accepts (stored a n).0 e,
          replicated→AllAccept addrs after (sym (ap (rest_of none addrs after) e) ∙ h),
        )
        | inr (x, e) ↦
            absurd (replicate_after_error x addrs after (sym (ap (rest_of none addrs after) e) ∙ h))
      ]

  AllAccept→replicated :
      (addrs : List Bytes) (n : Net G)
      → AllAccept addrs n
      → (replicate_from G none addrs cid block n).0 ≡ none
  unfolding replicate_from store_on_peer
  AllAccept→replicated [] n s = refl
  AllAccept→replicated (a ∷ addrs) n s =
      ap (rest_of none addrs (stored a n).1) (Accepts→store_outcome (stored a n).0 s.0)
      ∙ AllAccept→replicated addrs (stored a n).1 s.1

  -- A replication reports no error exactly when every address, called one after the other, answers that
  -- it stored the block: its response is there and has `ok`.
  pub replicate_to_addrs_iff :
      (addrs : List Bytes) (n : Net G)
      → ((replicate_to_addrs G addrs cid block n).0 ≡ none) ↔ AllAccept addrs n
  unfolding replicate_to_addrs
  replicate_to_addrs_iff addrs n = (replicated→AllAccept addrs n, AllAccept→replicated addrs n)

module _ (G : Grpc) {D : Disk} (S : Storage D) (cid : Bytes) where
  pub verified_ok :
      (got : Result Bytes) (block : Bytes)
      → verified S cid got ≡ ok block
      → S.verify_cid cid block ≡ none
  unfolding verified
  verified_ok (err e) block h = absurd (ground arith)
  verified_ok (ok b) block h = elim (Option-cases (S.verify_cid cid b)) [
    | inl e ↦ ground arith
    | inr (x, e) ↦ absurd (ground arith)
  ]

  fetch_from_verified :
      (last : Option Bytes) (eps : List PeerEndpoint) (n : Net G) (block : Bytes)
      → (fetch_from G S last cid eps n).0 ≡ ok block
      → S.verify_cid cid block ≡ none
  unfolding fetch_from
  fetch_from_verified last [] n block h = absurd (ground arith)
  fetch_from_verified last (ep ∷ eps) n block h = elim (Bool-cases (ep.grpc_addr == [])) [
    | inl skip ↦ fetch_from_verified last eps n block (rw skip at h)
    | inr ask ↦
        let got = verified S cid (get_from G ep.grpc_addr cid n).0 in
        elim (Result-cases got) [
          | inl (b, e) ↦
              verified_ok (get_from G ep.grpc_addr cid n).0 block (e ∙ (rw (ask, e) at h))
          | inr (x, e) ↦
              fetch_from_verified (some x) eps (get_from G ep.grpc_addr cid n).1 block
                (rw (ask, e) at h)
        ]
  ]

  -- Whatever the providers answer, a block that is fetched has been verified against its CID.
  pub fetch_block_verified :
      (eps : List PeerEndpoint) (n : Net G) (block : Bytes)
      → (fetch_block G S cid eps n).0 ≡ ok block
      → S.verify_cid cid block ≡ none
  unfolding fetch_block
  fetch_block_verified eps n block h = fetch_from_verified none eps n block h

  -- An address whose answer is right, reached while the providers before it fail.
  abbrev pub Reaches : List PeerEndpoint → Net G → Bytes → Type 0
  Reaches [] n block = ⊥
  Reaches (ep ∷ eps) n block =
      ((ep.grpc_addr ≡ []) × Reaches eps n block)
      ⊎ ((ep.grpc_addr ≢ [])
          × ((verified S cid (get_from G ep.grpc_addr cid n).0 ≡ ok block)
              ⊎ (((e : Bytes) × (verified S cid (get_from G ep.grpc_addr cid n).0 ≡ err e))
                  × Reaches eps (get_from G ep.grpc_addr cid n).1 block)))

  fetch_from-Reaches :
      (last : Option Bytes) (eps : List PeerEndpoint) (n : Net G) (block : Bytes)
      → Reaches eps n block
      → (fetch_from G S last cid eps n).0 ≡ ok block
  unfolding fetch_from
  fetch_from-Reaches last [] n block h = absurd h
  fetch_from-Reaches last (ep ∷ eps) n block (inl (skip, rest)) =
      let skipped : (ep.grpc_addr == []) ≡ true = ground arith in
      rw skipped (fetch_from-Reaches last eps n block rest)
  fetch_from-Reaches last (ep ∷ eps) n block (inr (ask, inl e)) = ground arith
  fetch_from-Reaches last (ep ∷ eps) n block (inr (ask, inr ((x, e), rest))) =
      let asked : (ep.grpc_addr == []) ≡ false = ground arith in
      rw (asked, e) (fetch_from-Reaches (some x) eps (get_from G ep.grpc_addr cid n).1 block rest)

  -- A fetch falls back: where a provider gives the right block and those before it have no address or
  -- fail, by an error, an empty answer or a wrong block, the fetch returns that block.
  pub fetch_block_falls_back :
      (eps : List PeerEndpoint) (n : Net G) (block : Bytes)
      → Reaches eps n block
      → (fetch_block G S cid eps n).0 ≡ ok block
  unfolding fetch_block
  fetch_block_falls_back eps n block h = fetch_from-Reaches none eps n block h

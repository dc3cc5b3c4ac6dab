-- ===== src/Cluster/Fetching.antt =====
-- `FetchBlock` and `GetFile` in a cluster.
use p2p_distributed_system_m.Base.{
  ℕ, ◌≡◌, ◌≢◌, refl, sym, ap, ◌∙◌, Bytes, true, false, List, [], ◌∷◌, Option, none, some, Result,
  ok, err, arith, ◌==◌, inl, inr, Bool-cases, Result-cases,
}
use mathlib.Core.List.{Memᴰ}
use p2p_distributed_system_m.Base.GoMap.{lookup}
use p2p_distributed_system_m.Gen.{PeerEndpoint, GetBlockResponse}
use p2p_distributed_system_m.Network.Pool.{Net}
use p2p_distributed_system_m.Storage.{CidLaws}
use p2p_distributed_system_m.Replication.{block_outcome, get_from, verified, fetch_from}
use p2p_distributed_system_m.Replication.Laws.{verified_ok}
use p2p_distributed_system_m.Dht.Lookup.Distinct.{has_peer}
use p2p_distributed_system_m.Coordinator.Host.{Env, Orders, Host}
use p2p_distributed_system_m.Coordinator.Rpc.{serve_get_block}
use p2p_distributed_system_m.Cluster.{Nodes, pointed, read_at, cluster}
use p2p_distributed_system_m.Cluster.Calls.{Over, with_client-Answers}
use p2p_distributed_system_m.Cluster.Records.{Names, AllName}

equal_nil : (s : Bytes) → (s == []) ≡ true → s ≡ []
equal_nil s h = ground arith

ok-ne-err : (b x : Bytes) → ok b ≡ err x → ⊥
ok-ne-err b x h = absurd (ground arith)

module _ (E : Env) (o : Orders) (time : Nodes E → ℕ × ℕ) (cids : CidLaws E.storage) (w : Nodes E)
    (id a : Bytes) (addressed : a ≢ []) (holder : Host E) (there : lookup a w ≡ some holder)
    (cid b : Bytes) (known : cid ≢ []) (filled : b ≢ [])
    (held : E.storage.get cid holder.store ≡ ok b) where
  abbrev served : Option (Host E) → Result (Option GetBlockResponse)
  served found = read_at E (serve_get_block E (some (record { cid = cid }))) found

  handled :
      serve_get_block E (some (record { cid = cid })) holder
      ≡ ok (record { block = b; error_message = [] })
  unfolding serve_get_block
  handled = let named : (cid == []) ≡ false = ground arith in rw (named, held) refl

  block_outcome_filled : block_outcome (ok (some (record { block = b; error_message = [] }))) ≡ ok b
  unfolding block_outcome
  block_outcome_filled = let some_block : (b == []) ≡ false = ground arith in rw some_block refl

  served_block : block_outcome (served (some holder)) ≡ ok b
  served_block = ap (λ r. block_outcome (pointed E r)) handled ∙ block_outcome_filled

  get_from-Over :
      (x : Bytes) (n : Net (cluster E o time))
      → Over E o time w n
      → Over E o time w (get_from (cluster E o time) x cid n).1
  unfolding get_from
  get_from-Over x n v =
      elim (with_client-Answers E o time
        (λ c u. (cluster E o time).get_block c (record { cid = cid }) u) x w n v) [
          | inl (absent, failed, over) ↦ over
          | inr (e, over) ↦ over
        ]

  get_from_holder :
      (n : Net (cluster E o time))
      → Over E o time w n
      → (get_from (cluster E o time) a cid n).0 ≡ ok b
  unfolding get_from
  get_from_holder n v =
      elim (with_client-Answers E o time
        (λ c u. (cluster E o time).get_block c (record { cid = cid }) u) a w n v) [
          | inl (absent, failed, over) ↦ absurd (ground (arith, there, absent))
          | inr (e, over) ↦
              ap block_outcome e ∙ ap (λ f. block_outcome (served f)) there ∙ served_block
        ]

  right : E.storage.verify_cid cid b ≡ none
  right = cids.stored cid b holder.store held

  verified_holder : (got : Result Bytes) → got ≡ ok b → verified E.storage cid got ≡ ok b
  unfolding verified
  verified_holder got e = rw e (rw (right, verified) refl)

  past_head :
      (ep : PeerEndpoint) (eps : List PeerEndpoint)
      → has_peer id (ep ∷ eps) ≡ true
      → ep.peer_id ≢ id
      → has_peer id eps ≡ true
  past_head ep eps h other = ground arith

  unaddressed : (ep : PeerEndpoint) → Names id a ep → ep.grpc_addr ≡ [] → ep.peer_id ≢ id
  unaddressed ep n e q = addressed (sym (n q) ∙ e)

  failed_other :
      (ep : PeerEndpoint) (n : Net (cluster E o time)) (x : Bytes)
      → Over E o time w n
      → Names id a ep
      → verified E.storage cid (get_from (cluster E o time) ep.grpc_addr cid n).0 ≡ err x
      → ep.peer_id ≢ id
  failed_other ep n x v named e q = ok-ne-err b x (
      sym (
        verified_holder (get_from (cluster E o time) ep.grpc_addr cid n).0
          (ap (λ y. (get_from (cluster E o time) y cid n).0) (named q) ∙ get_from_holder n v))
      ∙ e)

  abbrev Fetched : Result Bytes × Net (cluster E o time) → Type 0
  Fetched r = (r.0 ≡ ok b) × Over E o time w r.1

  pub fetch_from_holder :
      (last : Option Bytes) (eps : List PeerEndpoint) (n : Net (cluster E o time))
      → Over E o time w n
      → has_peer id eps ≡ true
      → AllName id a eps
      → Fetched (fetch_from (cluster E o time) E.storage last cid eps n)
  unfolding fetch_from
  fetch_from_holder last [] n v h named = absurd (ground arith)
  fetch_from_holder last (ep ∷ eps) n v h named =
      let rest : AllName id a eps = λ x m. named x (Memᴰ.tail m) in
      let got = get_from (cluster E o time) ep.grpc_addr cid n in
      elim (Bool-cases (ep.grpc_addr == [])) [
        | inl skip ↦
            let other : has_peer id eps ≡ true =
              past_head ep eps h
                (unaddressed ep (named ep (Memᴰ.head refl)) (equal_nil ep.grpc_addr skip)) in
            rw skip (fetch_from_holder last eps n v other rest)
        | inr ask ↦ elim (Result-cases (verified E.storage cid got.0)) [
          | inl (d, e) ↦
              let same : d ≡ b =
                cids.one_block cid d b (verified_ok (cluster E o time) E.storage cid got.0 d e)
                  right in
              rw (ask, e) (ap ok same, get_from-Over ep.grpc_addr n v)
          | inr (x, e) ↦
              let other : has_peer id eps ≡ true =
                past_head ep eps h (failed_other ep n x v (named ep (Memᴰ.head refl)) e) in
              rw (ask, e)
                (fetch_from_holder (some x) eps got.1 (get_from-Over ep.grpc_addr n v) other rest)
        ]
      ]

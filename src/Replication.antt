-- ===== src/Replication.antt =====
-- internal/replication: which peers get a block, the calls that bring it there, and the fetch of a block
-- from its providers.
pub mod Laws
use mathlib.Core.Option
use p2p_distributed_system_m.Base.{
  ℕ, Bytes, codes, Bool, true, false, ◌++◌, ◌||◌, ◌&&◌, not, List, [], ◌∷◌, Option, none, some,
  Result, ok, err, if◌then◌else◌, ◌==◌,
}
use p2p_distributed_system_m.Base.Order.{RangeOrder}
use p2p_distributed_system_m.Gen.{PeerEndpoint, GetBlockResponse, StoreBlockResponse}
use p2p_distributed_system_m.Network.{Grpc}
use p2p_distributed_system_m.Network.Pool.{Net, with_client}
use p2p_distributed_system_m.Os.{Disk}
use p2p_distributed_system_m.Storage.{Storage}
use p2p_distributed_system_m.Peer.Record.{State, active}
use p2p_distributed_system_m.Peer.Registry.{Registry, Entry, ◌is◌}
use p2p_distributed_system_m.Dht.Xor.{key_from_hex}
use p2p_distributed_system_m.Dht.Routing.{closest_peer_ids}

-- replica_selection.go. An error of the key is `none`.
abbrev pub only_active : State → Bool
only_active s = s is active

unfoldable pub select_replica_peer_ids :
    RangeOrder Entry → Registry → Bytes → ℕ → Bytes → Option (List Bytes)
select_replica_peer_ids o r cid k self_id =
    Option.map (λ key. closest_peer_ids o r key k self_id (some only_active)) (key_from_hex cid)

-- replication_manager.go.
unfoldable pub store_outcome : Result (Option StoreBlockResponse) → Option Bytes
store_outcome (err e) = some e
store_outcome (ok none) = some (codes "store_block failed")
store_outcome (ok (some resp)) =
    if resp.ok
    then none
    else if not (resp.error_message == [])
    then some (codes "store_block: " ++ resp.error_message)
    else some (codes "store_block failed")

-- recovery.go. The text of a message, or an error.
unfoldable pub block_outcome : Result (Option GetBlockResponse) → Result Bytes
block_outcome (err e) = err e
block_outcome (ok none) = err (codes "empty block")
block_outcome (ok (some resp)) =
    if not (resp.block == [])
    then ok resp.block
    else if not (resp.error_message == [])
    then err resp.error_message
    else err (codes "empty block")

-- The later error, if there is one.
abbrev pub later : Option Bytes → Option Bytes → Option Bytes
later last none = last
later last (some e) = some e

module _ {D : Disk} (S : Storage D) where
  -- What one provider gave, after `VerifyCID`.
  unfoldable pub verified : Bytes → Result Bytes → Result Bytes
  verified cid (err e) = err e
  verified cid (ok block) = elim (S.verify_cid cid block) [ none ↦ ok block | some e ↦ err e ]

unfoldable pub no_providers : Option Bytes → Bytes → Bytes
no_providers none cid = codes "no providers for " ++ cid
no_providers (some e) cid = e

module _ (G : Grpc) where
  unfoldable pub store_on_peer : Bytes → Bytes → Bytes → Net G → Option Bytes × Net G
  unfolding store_outcome
  store_on_peer addr cid block n =
      let (answer, n') =
        with_client G addr (λ c. G.store_block c (record { cid = cid; block = block })) n in
      (store_outcome answer, n')

  unfoldable pub replicate_from :
      Option Bytes → List Bytes → Bytes → Bytes → Net G → Option Bytes × Net G
  replicate_from last [] cid block n = (last, n)
  replicate_from last (a ∷ addrs) cid block n =
      let (e, n') = store_on_peer a cid block n in replicate_from (later last e) addrs cid block n'

  -- The same block to each address; the last error is returned.
  unfoldable pub replicate_to_addrs : List Bytes → Bytes → Bytes → Net G → Option Bytes × Net G
  unfolding replicate_from
  replicate_to_addrs addrs cid block n = replicate_from none addrs cid block n

  unfoldable pub get_from : Bytes → Bytes → Net G → Result Bytes × Net G
  unfolding block_outcome
  get_from addr cid n =
      let (answer, n') = with_client G addr (λ c. G.get_block c (record { cid = cid })) n in
      (block_outcome answer, n')

  module _ {D : Disk} (S : Storage D) where
    unfoldable pub fetch_from :
        Option Bytes → Bytes → List PeerEndpoint → Net G → Result Bytes × Net G
    unfolding no_providers
    fetch_from last cid [] n = (err (no_providers last cid), n)
    fetch_from last cid (ep ∷ eps) n =
        let skipped = fetch_from last cid eps n in
        let (got, n') = get_from ep.grpc_addr cid n in
        if ep.grpc_addr == [] then skipped else elim (verified S cid got) [
          | ok block ↦ (ok block, n')
          | err e ↦ fetch_from (some e) cid eps n'
        ]

    -- Each provider in turn, until one gives a block that is the right one.
    unfoldable pub fetch_block : Bytes → List PeerEndpoint → Net G → Result Bytes × Net G
    unfolding fetch_from
    fetch_block cid eps n = fetch_from none cid eps n

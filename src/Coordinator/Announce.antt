-- ===== src/Coordinator/Announce.antt =====
-- `registerBootstrap` and the request of `mergeBootstrapPeers` (internal/coordinator/bootstrap_sync.go), and
-- a round of `bootstrapLoop` (node.go). `marshal` writes a peer as JSON, `unmarshal` reads a list of them.
pub mod Listing
use p2p_distributed_system_m.Base.{
  ℕ, Bytes, codes, List, [], ◌∷◌, ◌++◌, Option, none, some, Result, ok, err, if◌then◌else◌, ◌==◌,
  eqb, ltb,
}
use mathlib.Core.List.{reverse}
use p2p_distributed_system_m.Base.Decimal.{decimal}
use p2p_distributed_system_m.Http.{HttpClient}
use p2p_distributed_system_m.Coordinator.Host.{Env, Orders, Host}
use p2p_distributed_system_m.Coordinator.Loops.{BootstrapPeer, merge_bootstrap_peers}

abbrev drop_slashes : Bytes → Bytes
drop_slashes [] = []
drop_slashes (c ∷ cs) = if eqb c b'/' then drop_slashes cs else c ∷ cs

-- `strings.TrimRight` of slashes.
unfoldable pub trim_right : Bytes → Bytes
trim_right s = reverse (drop_slashes (reverse s))

abbrev pub register_url : Bytes → Bytes
register_url base = base ++ codes "/v1/register"

-- An answer with a status of 300 or more is an error.
unfoldable pub registered : Result (ℕ × Bytes) → Option Bytes
unfolding decimal
registered (err e) = some e
registered (ok (status, body)) =
    if ltb status 300
    then none
    else some (codes "register: status " ++ (decimal status ++ (codes ": " ++ body)))

abbrev pub peers_url : Bytes → Bytes
peers_url base = base ++ codes "/v1/peers"

-- The list in the answer.
unfoldable pub listed :
    (Bytes → Result (List BootstrapPeer)) → Result (ℕ × Bytes) → Result (List BootstrapPeer)
unfolding decimal
listed unmarshal (err e) = err e
listed unmarshal (ok (status, body)) =
    if ltb status 300
    then unmarshal body
    else err (codes "peers: status " ++ (decimal status ++ (codes ": " ++ body)))

abbrev pub announced : {E : Env} → Host E → BootstrapPeer
announced h = record { peer_id = h.self_id; grpc_addr = h.grpc_addr; http_addr = h.http_addr }

module _ (E : Env) (C : HttpClient) (marshal : BootstrapPeer → Result Bytes) where
  unfoldable pub send_marshalled : Bytes → Result Bytes → C.World → Option Bytes × C.World
  unfolding registered
  send_marshalled url (err e) w = (some e, w)
  send_marshalled url (ok body) w = let (r, w') = C.post url body w in (registered r, w')

  unfoldable pub register_bootstrap : Host E → C.World → Option Bytes × C.World
  unfolding send_marshalled trim_right
  register_bootstrap h w =
      if h.bootstrap == []
      then (none, w)
      else send_marshalled (register_url (trim_right h.bootstrap)) (marshal (announced h)) w

  module _ (unmarshal : Bytes → Result (List BootstrapPeer)) where
    -- `mergeBootstrapPeers` with its request; without an address nothing is sent.
    unfoldable pub fetch_and_merge :
        Orders → (ℕ → ℕ → ℕ × ℕ) → Host E → C.World → Option Bytes × Host E × C.World
    unfolding listed trim_right
    fetch_and_merge o clock h w =
        let (r, w') = C.get (peers_url (trim_right h.bootstrap)) w in
        let (e, h') = merge_bootstrap_peers E o clock (listed unmarshal r) h in
        if h.bootstrap == [] then (none, h, w) else (e, h', w')

    -- A round of `bootstrapLoop`: errors are only logged.
    unfoldable pub bootstrap_round : Orders → (ℕ → ℕ → ℕ × ℕ) → Host E → C.World → Host E × C.World
    unfolding register_bootstrap fetch_and_merge
    bootstrap_round o clock h w =
        let registration = register_bootstrap h w in
        let merged = fetch_and_merge o clock h registration.1 in (merged.1, merged.2)

-- ===== src/Bootstrap.antt =====
-- cmd/bootstrap/main.go: the handlers of the discovery server, over its list of peers. Each holds the
-- mutex, so a request is one step. What it sends to Redis is kept as a list, the newest first; the time
-- after which Redis forgets a peer is in the command.
pub mod Laws
pub mod Start
use mathlib.Core.Option
use p2p_distributed_system_m.Base.{
  ℕ, ◌*◌, Bytes, codes, List, [], ◌∷◌, ◌++◌, Bool, true, false, ◌&&◌, ◌||◌, not, Option, none, some,
  Result, ok, err, if◌then◌else◌, leb, length, ◌==◌,
}
use p2p_distributed_system_m.Utils.{max_network_peers, second}

pub record RegPeer : Type 0 where
  pub peer_id : Bytes
  pub grpc_addr : Bytes
  pub http_addr : Bytes

pub data Command : Type 0 where
  set : Bytes → RegPeer → ℕ → Command
  del : Bytes → Command

pub record Server : Type 0 where
  pub peers : List RegPeer
  pub rdb : Option (List Command)

pub data Method : Type 0 where
  get post delete options other_method : Method

-- The status of a response, with its text or the list of peers.
pub data Response : Type 0 where
  ok_200 no_content_204 : Response
  peers_200 : List RegPeer → Response
  bad_request_400 forbidden_403 : Bytes → Response
  not_found_404 method_not_allowed_405 : Response

abbrev pub redis_key : Bytes → Bytes
redis_key id = codes "bootstrap:peer:" ++ id

unfoldable pub send : Command → Option (List Command) → Option (List Command)
send c rdb = Option.map (λ sent. c ∷ sent) rdb

-- The entry is the peer itself, or has one of its addresses.
unfoldable pub same_peer : RegPeer → RegPeer → Bool
same_peer p q =
    (q.peer_id == p.peer_id) || ((q.grpc_addr == p.grpc_addr) || (q.http_addr == p.http_addr))

-- The entry that the loop of `/v1/register` stops at.
unfoldable pub first_same : RegPeer → List RegPeer → Option RegPeer
unfolding same_peer
first_same p [] = none
first_same p (q ∷ qs) = if same_peer p q then some q else first_same p qs

-- `peers[i] = p` at that entry.
unfoldable pub replace_first : RegPeer → List RegPeer → List RegPeer
unfolding same_peer
replace_first p [] = []
replace_first p (q ∷ qs) = if same_peer p q then p ∷ qs else q ∷ replace_first p qs

publish : RegPeer → Option (List Command) → Option (List Command)
unfolding send
publish p rdb = send (set (redis_key p.peer_id) p (5 * 60 * second)) rdb

forget_old : RegPeer → RegPeer → Option (List Command) → Option (List Command)
unfolding send
forget_old p old rdb =
    if not (old.peer_id == p.peer_id) then send (del (redis_key old.peer_id)) rdb else rdb

unfoldable pub register_at : RegPeer → Option RegPeer → Server → Response × Server
unfolding publish forget_old replace_first
register_at p (some old) s =
    (ok_200, record { peers = replace_first p s.peers; rdb = publish p (forget_old p old s.rdb) })
register_at p none s =
    if leb max_network_peers (length s.peers)
    then (forbidden_403 (codes "network full"), s)
    else (ok_200, record { peers = s.peers ++ p ∷ []; rdb = publish p s.rdb })

-- `/v1/register`. The body is a peer, or an error where it is no JSON of one.
unfoldable pub register : Method → Result RegPeer → Server → Response × Server
unfolding register_at first_same
register post (err e) s = (bad_request_400 e, s)
register post (ok p) s =
    if (p.peer_id == []) || (p.grpc_addr == [])
    then (bad_request_400 (codes "peer_id and grpc_addr required"), s)
    else register_at p (first_same p s.peers) s
register _ body s = (method_not_allowed_405, s)

-- `/v1/peers`.
unfoldable pub list_peers : Method → Server → Response × Server
list_peers get s = (peers_200 s.peers, s)
list_peers _ s = (method_not_allowed_405, s)

abbrev pub has_id : Bytes → List RegPeer → Bool
has_id id [] = false
has_id id (q ∷ qs) = if q.peer_id == id then true else has_id id qs

unfoldable pub remove_first : Bytes → List RegPeer → List RegPeer
remove_first id [] = []
remove_first id (q ∷ qs) = if q.peer_id == id then qs else q ∷ remove_first id qs

-- `/v1/peers/{id}`.
unfoldable pub delete_peer : Method → Bytes → Server → Response × Server
unfolding remove_first send
delete_peer delete id s =
    if id == []
    then (bad_request_400 (codes "missing id"), s)
    else if has_id id s.peers
    then (
      no_content_204,
      record { peers = remove_first id s.peers; rdb = send (del (redis_key id)) s.rdb },
    )
    else (not_found_404, s)
delete_peer _ id s = (method_not_allowed_405, s)

-- `withCORS` answers a preflight request itself. Its three headers are left out.
unfoldable pub with_cors : Method → (Server → Response × Server) → Server → Response × Server
with_cors options next s = (no_content_204, s)
with_cors _ next s = next s

pub data Request : Type 0 where
  registers : Method → Result RegPeer → Request
  lists : Method → Request
  deletes : Method → Bytes → Request

unfoldable pub serve : Request → Server → Response × Server
unfolding with_cors register list_peers delete_peer
serve (registers m body) s = with_cors m (register m body) s
serve (lists m) s = with_cors m (list_peers m) s
serve (deletes m id) s = with_cors m (delete_peer m id) s

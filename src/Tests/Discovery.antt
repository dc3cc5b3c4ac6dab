-- ===== src/Tests/Discovery.antt =====
-- The discovery server with two peers, a directory of two entries, and a command line.
use mathlib.Core.List.{Permᴰ}
use p2p_distributed_system_m.Base.{
  ℕ_discrete, dec_text, if◌then◌else◌, ◌==◌, ◌≡◌, ◌++◌, inl, arith, Bytes, refl, codes, List, [],
  ◌∷◌, true, none, ok, err,
}
use p2p_distributed_system_m.Bootstrap.{
  RegPeer, Server, get, post, delete, options, register, serve, delete_peer, has_id, no_content_204,
}
use p2p_distributed_system_m.Bootstrap.Laws.{IsValid, register_duplicates}
use p2p_distributed_system_m.Bootstrap.Start.{
  HttpCall, answer_all, answer_request, request_of, after_prefix, new_server, redis_of,
  answer_all-new_server-IsValid,
}
use p2p_distributed_system_m.Cli.{normalize_interspersed_flags, normalize_interspersed_flags-perm}
use p2p_distributed_system_m.Merkle.{DirEntry}
use p2p_distributed_system_m.Merkle.Directory.{
  AreSorted, new_directory_node, new_directory_node-AreSorted,
}

abbrev peer_a : RegPeer
peer_a = record { peer_id = codes "a"; grpc_addr = codes "a:1"; http_addr = codes "a:2" }

abbrev peer_b : RegPeer
peer_b = record { peer_id = codes "b"; grpc_addr = codes "b:1"; http_addr = codes "b:2" }

-- The peer `b` at the address of `a`.
abbrev moved : RegPeer
moved = record { peer_id = codes "b"; grpc_addr = codes "a:1"; http_addr = codes "c:2" }

-- An environment with a Redis and no address of its own.
abbrev getenv : Bytes → Bytes
getenv name = if name == codes "REDIS_URL" then codes "redis://r" else []

abbrev calls : List HttpCall
calls =
    record { method = post; path = codes "/v1/register"; body = ok peer_a }
    ∷ record { method = post; path = codes "/v1/register"; body = err (codes "bad") }
    ∷ record { method = options; path = codes "/v1/register"; body = ok peer_a }
    ∷ record { method = post; path = codes "/v1/register"; body = ok peer_b }
    ∷ record { method = get; path = codes "/v1/peers"; body = err [] }
    ∷ record { method = get; path = codes "/"; body = err [] }
    ∷ record { method = delete; path = codes "/v1/peers/a"; body = err [] }
    ∷ []

answer_all-new_server-IsValid_example : IsValid (answer_all calls (new_server getenv (λ url. none)))
answer_all-new_server-IsValid_example = answer_all-new_server-IsValid getenv (λ url. none) calls

-- What is left of them.
left_at_end : (answer_all calls (new_server getenv (λ url. none))).peers ≡ peer_b ∷ []
unfolding answer_all answer_request request_of after_prefix new_server redis_of serve register
    delete_peer dec_text ℕ_discrete
left_at_end = refl

-- A peer that is neither of them.
abbrev peer_d : RegPeer
peer_d = record { peer_id = codes "d"; grpc_addr = codes "d:1"; http_addr = codes "d:2" }

abbrev three : Server
three = record { peers = (peer_d ∷ []) ++ (peer_a ∷ ([] ++ peer_b ∷ [])); rdb = none }

register_duplicates_example :
    let s = (register post (ok moved) three).1 in
    (s.peers ≡ peer_d ∷ moved ∷ peer_b ∷ [])
    × ((delete_peer delete (codes "b") s).0 ≡ no_content_204)
    × ((delete_peer delete (codes "b") s).1.peers ≡ peer_d ∷ peer_b ∷ [])
    × (has_id (codes "b") (delete_peer delete (codes "b") s).1.peers ≡ true)
unfolding dec_text ℕ_discrete
register_duplicates_example =
    register_duplicates peer_a peer_b moved (peer_d ∷ []) [] [] none refl refl
      (
        λ e. absurd (ground (arith, e)),
        λ e. absurd (ground (arith, e)),
        λ e. absurd (ground (arith, e)),
        tt,
      )
      (inl refl) refl

abbrev entries : List DirEntry
entries =
    record { name = codes "b"; cid = codes "1" } ∷ record { name = codes "a"; cid = codes "2" } ∷ []

new_directory_node-AreSorted_example :
    Permᴰ (new_directory_node entries).entries entries
    × AreSorted (new_directory_node entries).entries
new_directory_node-AreSorted_example = new_directory_node-AreSorted entries

abbrev args : List Bytes
args = codes "file" ∷ codes "--out" ∷ codes "copy" ∷ codes "-v" ∷ []

normalize_interspersed_flags-perm_example : Permᴰ (normalize_interspersed_flags args) args
normalize_interspersed_flags-perm_example = normalize_interspersed_flags-perm args

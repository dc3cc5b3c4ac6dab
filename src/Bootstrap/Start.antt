-- ===== src/Bootstrap/Start.antt =====
-- The start of cmd/bootstrap/main.go, and the way of a request to its handler by `http.ServeMux`, which
-- is given a clean path. `getenv` gives the text of a variable, empty where it is not set, `parse_url`
-- the error of `redis.ParseURL` or none, and the body of a request is what JSON makes of it.
use mathlib.Core.Option
use p2p_distributed_system_m.Base.{
  Bytes, codes, List, [], ◌∷◌, Option, none, some, Result, if◌then◌else◌, ◌==◌, arith,
}
use p2p_distributed_system_m.Bootstrap.{
  RegPeer, Command, Server, Method, get, post, delete, options, other_method, Response,
  not_found_404, Request, registers, lists, deletes, with_cors, serve,
}
use p2p_distributed_system_m.Bootstrap.Laws.{IsValid, serve-IsValid}

unfoldable pub listen_addr : (Bytes → Bytes) → Bytes
listen_addr getenv =
    if getenv (codes "BOOTSTRAP_ADDR") == [] then codes ":9099" else getenv (codes "BOOTSTRAP_ADDR")

-- A text that is no URL of Redis leaves the server without Redis.
unfoldable pub redis_of : Bytes → Option Bytes → Option (List Command)
redis_of url (some e) = none
redis_of url none = if url == [] then none else some []

unfoldable pub new_server : (Bytes → Bytes) → (Bytes → Option Bytes) → Server
unfolding redis_of
new_server getenv parse_url = record {
  peers = [];
  rdb = redis_of (getenv (codes "REDIS_URL")) (parse_url (getenv (codes "REDIS_URL")));
}

-- What follows a prefix.
unfoldable pub after_prefix : Bytes → Bytes → Option Bytes
after_prefix [] path = some path
after_prefix (p ∷ ps) [] = none
after_prefix (p ∷ ps) (c ∷ cs) =
    let rest = after_prefix ps cs in if p ∷ [] == c ∷ [] then rest else none

abbrev peers_path : Bytes
peers_path = codes "/v1/peers/"

unfoldable pub request_of : Method → Bytes → Result RegPeer → Option Request
unfolding after_prefix
request_of m path body =
    if path == codes "/v1/register"
    then some (registers m body)
    else if path == codes "/v1/peers"
    then some (lists m)
    else Option.map (λ id. deletes m id) (after_prefix peers_path path)

abbrev pub not_found : Server → Response × Server
not_found s = (not_found_404, s)

unfoldable pub answer_request : Method → Option Request → Server → Response × Server
unfolding serve with_cors
answer_request m none s = with_cors m not_found s
answer_request m (some r) s = serve r s

-- A request by its method, its path and its body.
pub record HttpCall : Type 0 where
  pub method : Method
  pub path : Bytes
  pub body : Result RegPeer

unfoldable pub answer_all : List HttpCall → Server → Server
unfolding answer_request request_of
answer_all [] s = s
answer_all (c ∷ cs) s =
    answer_all cs (answer_request c.method (request_of c.method c.path c.body) s).1

answer_request-IsValid :
    (m : Method) (r : Option Request) (s : Server) → IsValid s → IsValid (answer_request m r s).1
unfolding answer_request with_cors
answer_request-IsValid get none s v = v
answer_request-IsValid post none s v = v
answer_request-IsValid delete none s v = v
answer_request-IsValid options none s v = v
answer_request-IsValid other_method none s v = v
answer_request-IsValid m (some r) s v = serve-IsValid r s v

answer_all-IsValid : (cs : List HttpCall) (s : Server) → IsValid s → IsValid (answer_all cs s)
unfolding answer_all
answer_all-IsValid [] s v = v
answer_all-IsValid (c ∷ cs) s v =
    answer_all-IsValid cs (answer_request c.method (request_of c.method c.path c.body) s).1
      (answer_request-IsValid c.method (request_of c.method c.path c.body) s v)

-- A discovery server that is started in any environment lists at most 20 peers after any requests,
-- whatever their methods, paths and bodies, and each has an ID and a gRPC address.
pub answer_all-new_server-IsValid :
    (getenv : Bytes → Bytes) (parse_url : Bytes → Option Bytes) (cs : List HttpCall)
    → IsValid (answer_all cs (new_server getenv parse_url))
unfolding new_server
answer_all-new_server-IsValid getenv parse_url cs =
    answer_all-IsValid cs _ (record { bounded = omega arith; named = tt })

-- ===== src/Coordinator/Announce/Listing.antt =====
-- A node that registers, and the discovery server that it registers with.
use p2p_distributed_system_m.Base.{
  ℕ, ◌≡◌, ◌≢◌, refl, ap, sym, subst, Bytes, codes, List, [], true, false, Option, none, some,
  Result, ok, err, if◌then◌else◌, ◌==◌, arith, Bool-cases, inl, inr, ltb, leb, length, ◌⊎◌, ◌||◌,
  ◌≤◌, ◌<◌,
}
use p2p_distributed_system_m.Http.{HttpClient}
use p2p_distributed_system_m.Coordinator.Host.{Env, Host}
use p2p_distributed_system_m.Coordinator.Loops.{BootstrapPeer}
use p2p_distributed_system_m.Bootstrap.{
  RegPeer, Server, Method, Response, register, register_at, first_same, has_id,
}
use p2p_distributed_system_m.Bootstrap.Laws.{register_lists}
use p2p_distributed_system_m.Utils.{max_network_peers}
use p2p_distributed_system_m.Coordinator.Announce.{
  trim_right, register_url, peers_url, registered, announced, send_marshalled, register_bootstrap,
}

-- The status code and the body of an answer of the server; a registration is not answered with peers.
unfoldable pub code_of : Response → ℕ × Bytes
code_of Response.ok_200 = (200, [])
code_of Response.no_content_204 = (204, [])
code_of (Response.peers_200 ps) = (200, [])
code_of (Response.bad_request_400 text) = (400, text)
code_of (Response.forbidden_403 text) = (403, text)
code_of Response.not_found_404 = (404, codes "404 page not found")
code_of Response.method_not_allowed_405 = (405, codes "method not allowed")

-- A client whose requests to `base` reach the server, which reads the body with `decode`.
abbrev pub connected : Bytes → (Bytes → Result RegPeer) → (List RegPeer → Bytes) → HttpClient
connected base decode encode = record {
  World = Server;
  post = λ url body s.
      if url == register_url base
      then (
        ok (code_of (register Method.post (decode body) s).0),
        (register Method.post (decode body) s).1,
      )
      else (err (codes "no such host"), s);
  get = λ url s.
      if url == peers_url base
      then (ok (200, encode s.peers), s)
      else (err (codes "no such host"), s);
}

-- A registration is answered with 200 or with the status of an error.
abbrev IsAnswer : Response → Type 0
IsAnswer r = (r ≡ Response.ok_200) ⊎ (300 ≤ (code_of r).0)

register-IsAnswer : (p : RegPeer) (s : Server) → IsAnswer (register Method.post (ok p) s).0
unfolding register code_of register_at
register-IsAnswer p s = elim (Bool-cases ((p.peer_id == []) || (p.grpc_addr == []))) [
  | inl bad ↦ rw bad (inr (omega arith))
  | inr good ↦ rw good (found_answer (first_same p s.peers))
]
  where
    found_answer : (found : Option RegPeer) → IsAnswer (register_at p found s).0
    found_answer (some old) = inl refl
    found_answer none = elim (Bool-cases (leb max_network_peers (length s.peers))) [
      | inl full ↦ rw full (inr (omega arith))
      | inr room ↦ rw room (inl refl)
    ]

-- A server with room takes a peer that has an ID and a gRPC address.
register-ok_200 :
    (p : RegPeer) (s : Server)
    → p.peer_id ≢ []
    → p.grpc_addr ≢ []
    → length s.peers < 20
    → (register Method.post (ok p) s).0 ≡ Response.ok_200
unfolding register register_at
register-ok_200 p s named reachable room =
    let good : ((p.peer_id == []) || (p.grpc_addr == [])) ≡ false = ground arith in
    let free : leb max_network_peers (length s.peers) ≡ false = ground arith in
    rw good (taken (first_same p s.peers) free)
  where
    taken :
        (found : Option RegPeer)
        → leb max_network_peers (length s.peers) ≡ false
        → (register_at p found s).0 ≡ Response.ok_200
    taken (some old) free = refl
    taken none free = rw free refl

module _ (E : Env) (marshal : BootstrapPeer → Result Bytes) (decode : Bytes → Result RegPeer)
    (encode : List RegPeer → Bytes)
    (read_back : (p : BootstrapPeer) (b : Bytes)
      → marshal p ≡ ok b
      → decode b
        ≡ ok (record { peer_id = p.peer_id; grpc_addr = p.grpc_addr; http_addr = p.http_addr }))
    (base : Bytes) (h : Host E) where
  abbrev self_peer : RegPeer
  self_peer = record { peer_id = h.self_id; grpc_addr = h.grpc_addr; http_addr = h.http_addr }

  -- A step that reports no error lists the node.
  abbrev Lists : Option Bytes × Server → Type 0
  Lists (some e, s) = Unit
  Lists (none, s) = has_id h.self_id s.peers ≡ true

  registered-Lists :
      (r : Response) (s : Server)
      → IsAnswer r
      → (r ≡ Response.ok_200 → has_id h.self_id s.peers ≡ true)
      → Lists (registered (ok (code_of r)), s)
  unfolding registered
  registered-Lists r s (inl e) listed =
      subst (λ q. Lists (registered (ok (code_of q)), s)) (sym e)
        (unfold registered code_of in listed e)
  registered-Lists r s (inr e) listed =
      let large : ltb (code_of r).0 300 ≡ false = ground arith in rw large tt

  connected-Lists :
      (url body : Bytes) (s : Server)
      → decode body ≡ ok self_peer
      → Lists (send_marshalled E (connected base decode encode) marshal url (ok body) s)
  unfolding send_marshalled
  connected-Lists url body s parsed = elim (Bool-cases (url == register_url base)) [
    | inl e ↦
        rw (e, parsed)
          (registered-Lists (register Method.post (ok self_peer) s).0
            (register Method.post (ok self_peer) s).1 (register-IsAnswer self_peer s)
            (register_lists self_peer s))
    | inr e ↦ rw e (unfold registered in tt)
  ]

  sent-Lists :
      (url : Bytes) (m : Result Bytes) (s : Server)
      → marshal (announced h) ≡ m
      → Lists (send_marshalled E (connected base decode encode) marshal url m s)
  sent-Lists url (err e) s q = unfold send_marshalled in tt
  sent-Lists url (ok body) s q = connected-Lists url body s (read_back (announced h) body q)

  -- A registration that reports no error lists the node.
  register_bootstrap-has_id :
      (s s' : Server)
      → h.bootstrap ≢ []
      → register_bootstrap E (connected base decode encode) marshal h s ≡ (none, s')
      → has_id h.self_id s'.peers ≡ true
  unfolding register_bootstrap
  register_bootstrap-has_id s s' addressed q =
      let there : (h.bootstrap == []) ≡ false = ground arith in
      subst Lists (rw there at q)
        (sent-Lists (register_url (trim_right h.bootstrap)) (marshal (announced h)) s refl)

  sent_ok :
      (url body : Bytes) (s : Server)
      → url ≡ register_url base
      → decode body ≡ ok self_peer
      → (register Method.post (ok self_peer) s).0 ≡ Response.ok_200
      → (send_marshalled E (connected base decode encode) marshal url (ok body) s).0 ≡ none
  unfolding send_marshalled
  sent_ok url body s there parsed fine =
      let same : (url == register_url base) ≡ true = ground (arith, there) in
      rw (same, parsed, fine) (unfold registered code_of in refl)

  -- A node with an ID and a gRPC address that registers with a discovery server of less than 20 peers, at
  -- its address with or without slashes at the end, has no error and is in the list of the server. JSON
  -- writes the node, and reads back what it has written.
  pub register_bootstrap_lists :
      (body : Bytes) (s : Server)
      → h.bootstrap ≢ []
      → trim_right h.bootstrap ≡ base
      → marshal (announced h) ≡ ok body
      → h.self_id ≢ []
      → h.grpc_addr ≢ []
      → length s.peers < 20
      → let r = register_bootstrap E (connected base decode encode) marshal h s in
        (r.0 ≡ none) × (has_id h.self_id r.1.peers ≡ true)
  unfolding register_bootstrap
  register_bootstrap_lists body s addressed at written named reachable room =
      let there : (h.bootstrap == []) ≡ false = ground arith in
      let client = connected base decode encode in
      let fine : (register_bootstrap E client marshal h s).0 ≡ none =
        rw (there, written, register_bootstrap)
          (sent_ok (register_url (trim_right h.bootstrap)) body s (ap register_url at)
            (read_back (announced h) body written)
            (register-ok_200 self_peer s named reachable room)) in
      (
        fine,
        register_bootstrap-has_id s (register_bootstrap E client marshal h s).1 addressed
            (λ i. (fine i, (register_bootstrap E client marshal h s).1)),
      )

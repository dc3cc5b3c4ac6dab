-- ===== src/Bootstrap/Laws.antt =====
-- The discovery server over any sequence of requests.
use mathlib.Core.List.{append_assoc}
use p2p_distributed_system_m.Base.{
  ◌⊎◌, ◌≢◌, ap, subst, ◌≤◌, ◌≡◌, refl, Bytes, List, [], ◌∷◌, ◌++◌, true, false, ◌||◌, Option, none,
  some, Result, ok, err, leb, length, length-append, ◌==◌, arith, Bool-cases, inl, inr,
}
use p2p_distributed_system_m.Bootstrap.{
  same_peer, RegPeer, Server, Method, post, get, delete, options, other_method, ok_200,
  no_content_204, first_same, replace_first, register_at, register, list_peers, has_id,
  remove_first, delete_peer, with_cors, Request, registers, lists, deletes, serve, Command,
}

-- Every peer has an ID and a gRPC address.
abbrev pub AreNamed : List RegPeer → Type 0
AreNamed [] = Unit
AreNamed (q ∷ qs) = ((q.peer_id == []) ≡ false) × ((q.grpc_addr == []) ≡ false) × AreNamed qs

pub record IsValid (s : Server) : Type 0 where
  pub bounded : length s.peers ≤ 20
  pub named : AreNamed s.peers

length-replace_first : (p : RegPeer) (qs : List RegPeer) → length (replace_first p qs) ≡ length qs
unfolding replace_first
length-replace_first p [] = refl
length-replace_first p (q ∷ qs) = ground (arith, length-replace_first p qs)

module _ (p : RegPeer) (id : (p.peer_id == []) ≡ false) (addr : (p.grpc_addr == []) ≡ false) where
  replace_first-AreNamed : (qs : List RegPeer) → AreNamed qs → AreNamed (replace_first p qs)
  unfolding replace_first
  replace_first-AreNamed [] h = tt
  replace_first-AreNamed (q ∷ qs) h = ground (arith, replace_first-AreNamed qs h.2)

  append-AreNamed : (qs : List RegPeer) → AreNamed qs → AreNamed (qs ++ p ∷ [])
  append-AreNamed [] h = (id, addr, tt)
  append-AreNamed (q ∷ qs) h = (h.0, h.1, append-AreNamed qs h.2)

  register_at-IsValid :
      (old : Option RegPeer) (s : Server) → IsValid s → IsValid (register_at p old s).1
  unfolding register_at
  register_at-IsValid (some old) s v = record {
    bounded = omega (arith, length-replace_first p s.peers, v.bounded);
    named = replace_first-AreNamed s.peers v.named;
  }
  register_at-IsValid none s v = elim (Bool-cases (leb 20 (length s.peers))) [
    | inl full ↦ rw full v
    | inr room ↦ rw room (record {
      bounded = ground (arith, length-append s.peers (p ∷ []));
      named = append-AreNamed s.peers v.named;
    })
  ]

register-IsValid :
    (m : Method) (body : Result RegPeer) (s : Server) → IsValid s → IsValid (register m body s).1
unfolding register
register-IsValid post (err e) s v = v
register-IsValid post (ok p) s v = elim (Bool-cases ((p.peer_id == []) || (p.grpc_addr == []))) [
  | inl bad ↦ rw bad v
  | inr good ↦
      rw good (register_at-IsValid p (ground arith) (ground arith) (first_same p s.peers) s v)
]
register-IsValid get body s v = v
register-IsValid delete body s v = v
register-IsValid options body s v = v
register-IsValid other_method body s v = v

remove_first-valid :
    (id : Bytes) (qs : List RegPeer)
    → AreNamed qs
    → (length (remove_first id qs) ≤ length qs) × AreNamed (remove_first id qs)
unfolding remove_first
remove_first-valid id [] h = (omega arith, tt)
remove_first-valid id (q ∷ qs) h = ground (arith, remove_first-valid id qs h.2)

delete_peer-IsValid :
    (m : Method) (id : Bytes) (s : Server) → IsValid s → IsValid (delete_peer m id s).1
unfolding delete_peer
delete_peer-IsValid delete id s v = ground (arith, remove_first-valid id s.peers v.named)
delete_peer-IsValid get id s v = v
delete_peer-IsValid post id s v = v
delete_peer-IsValid options id s v = v
delete_peer-IsValid other_method id s v = v

list_peers-eq : (m : Method) (s : Server) → (list_peers m s).1 ≡ s
unfolding list_peers
list_peers-eq get s = refl
list_peers-eq _ s = refl

pub serve-IsValid : (r : Request) (s : Server) → IsValid s → IsValid (serve r s).1
unfolding serve with_cors
serve-IsValid (registers options body) s v = v
serve-IsValid (registers m body) s v = register-IsValid m body s v
serve-IsValid (lists options) s v = v
serve-IsValid (lists m) s v = rw (list_peers-eq m s) v
serve-IsValid (deletes options id) s v = v
serve-IsValid (deletes m id) s v = delete_peer-IsValid m id s v

has_id-replace_first :
    (p : RegPeer) (qs : List RegPeer) {old : RegPeer}
    → first_same p qs ≡ some old
    → has_id p.peer_id (replace_first p qs) ≡ true
unfolding first_same replace_first
has_id-replace_first p [] h = absurd (ground arith)
has_id-replace_first p (q ∷ qs) {old} h = ground (arith, has_id-replace_first p qs {old = old})

has_id-append : (p : RegPeer) (qs : List RegPeer) → has_id p.peer_id (qs ++ p ∷ []) ≡ true
has_id-append p [] = ground arith
has_id-append p (q ∷ qs) = ground (arith, has_id-append p qs)

register_at_lists :
    (p : RegPeer) (found : Option RegPeer) (s : Server)
    → first_same p s.peers ≡ found
    → (register_at p found s).0 ≡ ok_200
    → has_id p.peer_id (register_at p found s).1.peers ≡ true
unfolding register_at
register_at_lists p none s e h = ground (arith, has_id-append p s.peers)
register_at_lists p (some old) s e h = has_id-replace_first p s.peers {old = old} e

-- A registration that is answered with 200 leaves the peer in the list.
pub register_lists :
    (p : RegPeer) (s : Server)
    → (register post (ok p) s).0 ≡ ok_200
    → has_id p.peer_id (register post (ok p) s).1.peers ≡ true
unfolding register
register_lists p s h = elim (Bool-cases ((p.peer_id == []) || (p.grpc_addr == []))) [
  | inl bad ↦ absurd (ground arith)
  | inr good ↦ rw good (register_at_lists p (first_same p s.peers) s refl (rw good at h))
]

first_same-append :
    (p a : RegPeer) (xs rest : List RegPeer)
    → first_same p xs ≡ none
    → same_peer p a ≡ true
    → first_same p (xs ++ a ∷ rest) ≡ some a
unfolding first_same
first_same-append p a [] rest fresh same = rw same refl
first_same-append p a (x ∷ xs) rest fresh same = ground (arith, first_same-append p a xs rest)

replace_first-append :
    (p a : RegPeer) (xs rest : List RegPeer)
    → first_same p xs ≡ none
    → same_peer p a ≡ true
    → replace_first p (xs ++ a ∷ rest) ≡ xs ++ p ∷ rest
unfolding first_same replace_first
replace_first-append p a [] rest fresh same = rw same refl
replace_first-append p a (x ∷ xs) rest fresh same = elim (Bool-cases (same_peer p x)) [
  | inl e ↦ absurd (ground arith)
  | inr e ↦ rw e (ap (λ l. x ∷ l) (replace_first-append p a xs rest (rw e at fresh) same))
]

remove_first-append :
    (p : RegPeer) (xs rest : List RegPeer)
    → first_same p xs ≡ none
    → remove_first p.peer_id (xs ++ p ∷ rest) ≡ xs ++ rest
unfolding first_same same_peer remove_first
remove_first-append p [] rest fresh = ground arith
remove_first-append p (x ∷ xs) rest fresh = elim (Bool-cases (x.peer_id == p.peer_id)) [
  | inl e ↦ absurd (ground arith)
  | inr e ↦ rw e (ap (λ l. x ∷ l) (remove_first-append p xs rest (ground arith)))
]

has_id-middle :
    (id : Bytes) (q : RegPeer) (xs rest : List RegPeer)
    → (q.peer_id == id) ≡ true
    → has_id id (xs ++ q ∷ rest) ≡ true
has_id-middle id q [] rest e = ground arith
has_id-middle id q (x ∷ xs) rest e = ground (arith, has_id-middle id q xs rest e)

-- None of these entries has the ID or an address of the peer.
abbrev pub AreOthers : RegPeer → List RegPeer → Type 0
AreOthers p [] = Unit
AreOthers p (x ∷ xs) =
    (x.peer_id ≢ p.peer_id)
    × (x.grpc_addr ≢ p.grpc_addr)
    × (x.http_addr ≢ p.http_addr)
    × AreOthers p xs

first_same-AreOthers : (p : RegPeer) (xs : List RegPeer) → AreOthers p xs → first_same p xs ≡ none
unfolding first_same same_peer
first_same-AreOthers p [] others = refl
first_same-AreOthers p (x ∷ xs) (i, g, h, others) =
    let rest = first_same-AreOthers p xs others in ground arith

same_peer-shared :
    (p a : RegPeer)
    → (p.grpc_addr ≡ a.grpc_addr) ⊎ (p.http_addr ≡ a.http_addr)
    → same_peer p a ≡ true
unfolding same_peer
same_peer-shared p a (inl e) = ground arith
same_peer-shared p a (inr e) = ground arith

-- A peer that is listed and registers again, while the first entry with its ID or one of its addresses
-- is one with its gRPC or HTTP address, and an entry with its ID stands further down, is listed twice:
-- it replaces the first of these entries, and the one with its ID stays. A DELETE of its ID is then
-- answered with 204, and leaves it listed.
pub register_duplicates :
    (a b p : RegPeer) (xs ys zs : List RegPeer) (rdb : Option (List Command))
    → (p.peer_id == []) ≡ false
    → (p.grpc_addr == []) ≡ false
    → AreOthers p xs
    → (p.grpc_addr ≡ a.grpc_addr) ⊎ (p.http_addr ≡ a.http_addr)
    → p.peer_id ≡ b.peer_id
    → let s = (register post (ok p) (record { peers = xs ++ (a ∷ (ys ++ b ∷ zs)); rdb = rdb })).1 in
      (s.peers ≡ xs ++ (p ∷ (ys ++ b ∷ zs)))
      × ((delete_peer delete p.peer_id s).0 ≡ no_content_204)
      × ((delete_peer delete p.peer_id s).1.peers ≡ xs ++ (ys ++ b ∷ zs))
      × (has_id p.peer_id (delete_peer delete p.peer_id s).1.peers ≡ true)
unfolding register register_at delete_peer
register_duplicates a b p xs ys zs rdb named addressed others shared same_id =
    let fresh = first_same-AreOthers p xs others in
    let same = same_peer-shared p a shared in
    let own : (b.peer_id == p.peer_id) ≡ true = ground arith in
    let listed : has_id p.peer_id (xs ++ (ys ++ b ∷ zs)) ≡ true =
      subst (λ l. has_id p.peer_id l ≡ true) (append_assoc xs ys (b ∷ zs))
        (has_id-middle p.peer_id b (xs ++ ys) zs own) in
    let here : (p.peer_id == p.peer_id) ≡ true = ground arith in
    rw
      (
        named,
        addressed,
        first_same-append p a xs (ys ++ b ∷ zs) fresh same,
        replace_first-append p a xs (ys ++ b ∷ zs) fresh same,
        has_id-middle p.peer_id p xs (ys ++ b ∷ zs) here,
        remove_first-append p xs (ys ++ b ∷ zs) fresh,
      )
      (refl, refl, refl, listed)

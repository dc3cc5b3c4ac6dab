-- ===== src/Dht/Routing/Closest.antt =====
-- `ClosestPeerIDs` and the XOR distances to its target.
use mathlib.Core.List.{Memᴰ}
use mathlib.Core.List.Permᴰ
use p2p_distributed_system_m.Base.{
  ℕ, ◌≤◌, ◌<◌, ◌≡◌, ◌≢◌, refl, sym, ◌∙◌, Bytes, List, [], ◌∷◌, Bool, true, false, inl, inr, arith,
  Option, none, some, if◌then◌else◌, ltb, leb, eqb, ◌==◌, ◌⊎◌, Bool-cases, length, take,
  length-take-le, length-take_long, subst, ◌&&◌,
}
use p2p_distributed_system_m.Base.Hex.{decode_string, decode_string_shape, Decodes}
use p2p_distributed_system_m.Base.GoMap.{lookup}
use p2p_distributed_system_m.Base.Order.{RangeOrder, any, perm-mem}
use p2p_distributed_system_m.Peer.Record.{Record, State}
use p2p_distributed_system_m.Peer.Registry.{Registry, Entry, snapshot}
use p2p_distributed_system_m.Peer.Registry.Validity.{IsValid}
use p2p_distributed_system_m.Peer.Registry.Snapshot.{hits, test_at, any-snapshot}
use p2p_distributed_system_m.Dht.Xor.{key_from_hex, xor, distance, closer}
use p2p_distributed_system_m.Dht.Routing.{
  key_of, nearer, is_known, allowed, is_true, is_candidate, candidates, closest_peer_ids,
}
use p2p_distributed_system_m.Base.Sort.{
  sort_stable, sort_stable-perm, sort_stable-IsSorted, take-least, take-mem, IsSorted,
}

abbrev or_zero : Option ℕ → ℕ
or_zero none = 0
or_zero (some n) = n

-- The XOR distance from the target to the key of a peer.
pub far : Bytes → Bytes → ℕ
far target id = or_zero (distance target (key_of (key_from_hex id)))

eqb→eq : (m n : ℕ) → eqb m n ≡ true → m ≡ n
eqb→eq m n h = ground arith

length-decoded :
    (s : Bytes) (d : Option Bytes) (e : Bool)
    → Decodes s d
    → eqb (length s) 64 ≡ e
    → is_known (if e then d else none) ≡ true
    → length (key_of (if e then d else none)) ≡ 32
unfolding key_of
length-decoded s none true c p q = absurd (ground arith)
length-decoded s (some k) true c p q = omega (arith, c.0, eqb→eq (length s) 64 p)
length-decoded s d false c p q = absurd (ground arith)

-- What decodes as a key has 32 bytes.
length-key : (s : Bytes) → is_known (key_from_hex s) ≡ true → length (key_of (key_from_hex s)) ≡ 32
unfolding key_from_hex
length-key s h = length-decoded s (decode_string s) _ (decode_string_shape s) refl h

nearer-eq :
    (target i j : Bytes)
    → length target ≡ 32
    → is_known (key_from_hex i) ≡ true
    → is_known (key_from_hex j) ≡ true
    → nearer target i j ≡ ltb (far target i) (far target j)
unfolding nearer far is_true closer distance xor
nearer-eq target i j l p q = ground (arith, length-key i p, length-key j q)

module _ (exclude : Bytes) (states : Option (State → Bool)) where
  -- A peer in the map that the call may choose: it is not the excluded one, its state is allowed, and
  -- its ID is the hexadecimal text of a key.
  pub record Eligible (r : Registry) (i : Bytes) : Type 0 where
    pub peer : Record
    pub listed : lookup i r.peers ≡ some peer
    pub other : i ≢ exclude
    pub allows : allowed states peer.state ≡ true
    pub known : is_known (key_from_hex i) ≡ true

  -- The same as a test.
  abbrev Passes : Registry → Bytes → Type 0
  Passes r i = test_at (is_candidate exclude states) (lookup i r.peers) ≡ true

  Passes→Eligible :
      (r : Registry) (i : Bytes) (o : Option Record)
      → IsValid r
      → lookup i r.peers ≡ o
      → test_at (is_candidate exclude states) o ≡ true
      → Eligible r i
  unfolding is_candidate
  Passes→Eligible r i none v e h = absurd (ground arith)
  Passes→Eligible r i (some p) v e h =
      let same : p.id ≡ i = v.keyed i p e in
      record {
        peer = p;
        listed = e;
        other = λ x. ground arith;
        allows = ground arith;
        known = subst (λ s. is_known (key_from_hex s) ≡ true) same (ground arith);
      }

  Eligible→Passes : (r : Registry) (i : Bytes) → IsValid r → Eligible r i → Passes r i
  unfolding is_candidate
  Eligible→Passes r i v e =
      let same : e.peer.id ≡ i = v.keyed i e.peer e.listed in
      let known : is_known (key_from_hex e.peer.id) ≡ true =
        subst (λ s. is_known (key_from_hex s) ≡ true) (sym same) e.known in
      let other : (e.peer.id == exclude) ≡ false = ground (arith, e.other) in
      rw e.listed (ground (arith, e.allows))

  kept_or_tail :
      (p : Record) (rest : List Bytes) {i : Bytes} (b : Bool)
      → Memᴰ i (if b then p.id ∷ rest else rest)
      → ((p.id == i) && b ≡ true) ⊎ Memᴰ i rest
  kept_or_tail p rest true (Memᴰ.head e) = inl (ground arith)
  kept_or_tail p rest true (Memᴰ.tail m) = inr m
  kept_or_tail p rest false m = inr m

  candidates→any :
      (recs : List Record) {i : Bytes}
      → Memᴰ i (candidates exclude states recs)
      → any (hits i (is_candidate exclude states)) recs ≡ true
  unfolding candidates any
  candidates→any [] m = elim m [ ]
  candidates→any (p ∷ recs) {i} m =
      elim (kept_or_tail p (candidates exclude states recs) {i = i} (is_candidate exclude states p)
        m) [ inl e ↦ ground arith | inr t ↦ ground (arith, candidates→any recs {i = i} t) ]

  any→candidates :
      (recs : List Record) {i : Bytes}
      → any (hits i (is_candidate exclude states)) recs ≡ true
      → Memᴰ i (candidates exclude states recs)
  unfolding candidates any
  any→candidates [] h = absurd (ground arith)
  any→candidates (p ∷ recs) {i} h = elim (Bool-cases (is_candidate exclude states p)) [
    | inl e ↦ elim (Bool-cases (p.id == i)) [
      | inl same ↦ rw e (Memᴰ.head (ground arith))
      | inr other ↦ rw e (Memᴰ.tail (any→candidates recs {i = i} (ground arith)))
    ]
    | inr e ↦ rw e (any→candidates recs {i = i} (ground arith))
  ]

  module _ (o : RangeOrder Entry) (r : Registry) (v : IsValid r) where
    found : List Bytes
    found = candidates exclude states (snapshot o r)

    found→Eligible : {i : Bytes} → Memᴰ i found → Eligible r i
    unfolding found
    found→Eligible {i} m =
        Passes→Eligible r i (lookup i r.peers) v refl (
          sym (any-snapshot o i (is_candidate exclude states) r v)
          ∙ candidates→any (snapshot o r) m)

    Eligible→found : {i : Bytes} → Eligible r i → Memᴰ i found
    unfolding found
    Eligible→found {i} h =
        any→candidates (snapshot o r)
          (any-snapshot o i (is_candidate exclude states) r v ∙ Eligible→Passes r i v h)

    sorted_found : Bytes → List Bytes
    sorted_found target = sort_stable (nearer target) found

    sorted→found : (target : Bytes) {i : Bytes} → Memᴰ i (sorted_found target) → Memᴰ i found
    unfolding sorted_found
    sorted→found target m = perm-mem (sort_stable-perm (nearer target) found) m

    found→sorted : (target : Bytes) {i : Bytes} → Memᴰ i found → Memᴰ i (sorted_found target)
    unfolding sorted_found
    found→sorted target m = perm-mem (Permᴰ.symm (sort_stable-perm (nearer target) found)) m

    sorted_found-IsSorted :
        (target : Bytes)
        → length target ≡ 32
        → IsSorted (nearer target) (far target) (sorted_found target)
    unfolding sorted_found
    sorted_found-IsSorted target l =
        sort_stable-IsSorted (nearer target) (far target) found
          λ a b m n. nearer-eq target a b l (found→Eligible m).known (found→Eligible n).known

-- The answer to a query for the `k` peers closest to a target.
pub record IsClosest (r : Registry) (target : Bytes) (k : ℕ) (exclude : Bytes)
    (states : Option (State → Bool)) (ids : List Bytes) : Type 0 where
  pub few : length ids ≤ k
  pub eligible : (i : Bytes) → Memᴰ i ids → Eligible exclude states r i
  pub nearest :
      (i j : Bytes)
      → Memᴰ i ids
      → Eligible exclude states r j
      → (Memᴰ j ids → ⊥)
      → far target i ≤ far target j
  pub filled : length ids < k → (j : Bytes) → Eligible exclude states r j → Memᴰ j ids

module _ (o : RangeOrder Entry) (r : Registry) (v : IsValid r) (target : Bytes) (k : ℕ)
    (exclude : Bytes) (states : Option (State → Bool)) (l : length target ≡ 32) where
  abbrev all_found : List Bytes
  all_found = sorted_found exclude states o r v target

  taken-IsClosest :
      ltb k (length all_found) ≡ true → IsClosest r target k exclude states (take k all_found)
  taken-IsClosest h = record {
    few = length-take-le k all_found;
    eligible = λ i m.
        found→Eligible exclude states o r v
          (sorted→found exclude states o r v target (take-mem k all_found m));
    nearest = λ i j m e out.
        take-least (nearer target) (far target) k all_found
          (sorted_found-IsSorted exclude states o r v target l) m
          (found→sorted exclude states o r v target (Eligible→found exclude states o r v e)) out;
    filled = λ short j e. absurd (omega (arith, length-take_long k all_found (ground arith)));
  }

  whole-IsClosest : ltb k (length all_found) ≡ false → IsClosest r target k exclude states all_found
  whole-IsClosest h = record {
    few = ground arith;
    eligible =
        λ i m. found→Eligible exclude states o r v (sorted→found exclude states o r v target m);
    nearest = λ i j m e out.
        absurd
          (out (found→sorted exclude states o r v target (Eligible→found exclude states o r v e)));
    filled = λ short j e.
        found→sorted exclude states o r v target (Eligible→found exclude states o r v e);
  }

  -- For a valid registry and a target of 32 bytes, `ClosestPeerIDs` returns at most `k` eligible peers, no
  -- eligible peer that it leaves out is closer than one that it returns, and it leaves none out where it
  -- returns fewer than `k`; this holds for every order of its loop.
  pub closest_peer_ids-IsClosest :
      IsClosest r target k exclude states (closest_peer_ids o r target k exclude states)
  unfolding closest_peer_ids sorted_found found
  closest_peer_ids-IsClosest = elim (Bool-cases (leb k 0)) [
    | inl z ↦ rw z (record {
      few = omega arith;
      eligible = λ i m. elim m [ ];
      nearest = λ i j m e out. elim m [ ];
      filled = λ short j e. absurd (ground arith);
    })
    | inr pos ↦ elim (Bool-cases (ltb k (length all_found))) [
      | inl h ↦ rw (pos, h) (taken-IsClosest h)
      | inr h ↦ rw (pos, h) (whole-IsClosest h)
    ]
  ]

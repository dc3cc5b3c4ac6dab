-- ===== src/Peer/Registry/Snapshot.antt =====
-- A test on the records of a snapshot, in whatever order the loop visits them.
use p2p_distributed_system_m.Base.{
  ◌≡◌, refl, Bool, Bytes, List, [], ◌∷◌, map, Option, none, some, false, ◌&&◌, arith, ◌==◌, ◌∙◌,
}
use p2p_distributed_system_m.Base.GoMap.{GoMap, lookup, Distinct}
use p2p_distributed_system_m.Base.Order.{RangeOrder, any, any-visit}
use p2p_distributed_system_m.Peer.Record.{Record}
use p2p_distributed_system_m.Peer.Registry.{Registry, Entry, snapshot}
use p2p_distributed_system_m.Peer.Registry.Validity.{IsValid}

abbrev pub test_at : (Record → Bool) → Option Record → Bool
test_at c none = false
test_at c (some p) = c p

-- The record is that of `j` and passes the test.
abbrev pub hits : Bytes → (Record → Bool) → Record → Bool
hits j c p = p.id == j && c p

any-map : (q : Record → Bool) (es : List Entry) → any q (map (λ e. e.1) es) ≡ any (λ e. q e.1) es
unfolding any
any-map q [] = refl
any-map q (e ∷ es) = ground (arith, any-map q es)

Keyed : GoMap Record → Type 0
Keyed m = (id : Bytes) (p : Record) → lookup id m ≡ some p → p.id ≡ id

Keyed-tail :
    (i : Bytes) (q : Record) (m : GoMap Record) → lookup i m ≡ none → Keyed ((i, q) ∷ m) → Keyed m
unfolding Keyed lookup
Keyed-tail i q m fresh k = λ id p h. ground (arith, k id p)

any-hits :
    (j : Bytes) (c : Record → Bool) (m : GoMap Record)
    → Distinct m
    → Keyed m
    → any (λ e. hits j c e.1) m ≡ test_at c (lookup j m)
unfolding any lookup
any-hits j c [] d k = refl
any-hits j c ((i, q) ∷ m) d k =
    ground (arith, any-hits j c m d.1 (Keyed-tail i q m d.0 k), head_keyed i q m k)
  where
    head_keyed : (i : Bytes) (q : Record) (m : GoMap Record) → Keyed ((i, q) ∷ m) → q.id ≡ i
    head_keyed i q m k = unfold Keyed in k i q (ground arith)

-- A snapshot holds a record of `j` that passes the test exactly when the map does.
pub any-snapshot :
    (o : RangeOrder Entry) (j : Bytes) (c : Record → Bool) (r : Registry)
    → IsValid r
    → any (hits j c) (snapshot o r) ≡ test_at c (lookup j r.peers)
unfolding snapshot Keyed
any-snapshot o j c r v =
    any-map (hits j c) (o.visit r.peers)
    ∙ any-visit o (λ e. hits j c e.1) r.peers
    ∙ any-hits j c r.peers v.distinct v.keyed

-- ===== src/Coordinator/Files/Reading.antt =====
-- `GetFile` with a writer of any kind, and the block store during it.
use p2p_distributed_system_m.Base.{
  ◌≡◌, refl, sym, ap, ◌∙◌, subst, Bytes, List, [], ◌∷◌, ◌++◌, Option, none, some, Result, ok, err,
  inl, inr, Option-cases, Result-cases,
}
use mathlib.Core.List.{append_assoc, append-nil}
use p2p_distributed_system_m.Os.{Writer}
use p2p_distributed_system_m.Storage.{Holds, StorageLaws}
use p2p_distributed_system_m.Merkle.{FileNode}
use p2p_distributed_system_m.Coordinator.Host.{Env, Orders, Host}
use p2p_distributed_system_m.Coordinator.Files.{
  fetch, keep_fetched, obtain, get_chunks, after_node, after_root, get_file, chunk_error,
  root_error,
}
use p2p_distributed_system_m.Coordinator.Files.Roundtrip.{Stored, Keeps, put-Keeps, obtain_local}

module _ (E : Env) (W : Writer) where
  -- Writes that do not fail, told of as the texts that a writer has taken.
  module _ (Wrote : Bytes → W.Out → Type 0)
      (takes : (t b : Bytes) (out : W.Out)
        → Wrote t out
        → ((W.write b out).0 ≡ none) × Wrote (t ++ b) (W.write b out).1)
      (o : Orders) where
    abbrev Delivers : Host E → Bytes → Option Bytes × Host E × W.Out → Type 0
    Delivers h t (e, h', out) = (e ≡ none) × (h' ≡ h) × Wrote t out

    get_chunks-Delivers :
        (cs : List Bytes) (content t : Bytes) (h : Host E) (out : W.Out)
        → Holds E.storage h.store cs content
        → Wrote t out
        → Delivers h (t ++ content) (get_chunks E W o cs h out)
    unfolding get_chunks
    get_chunks-Delivers [] content t h out e wrote =
        (refl, refl, subst (λ u. Wrote u out) (sym (ap (◌++◌ t) e ∙ append-nil t)) wrote)
    get_chunks-Delivers (c ∷ cs) content t h out (b, rest, got, e, held) wrote =
        let (fine, more) = takes t b out wrote in
        subst (λ u. Delivers h u (get_chunks E W o (c ∷ cs) h out))
          (append_assoc t b rest ∙ ap (◌++◌ t) (sym e))
          (subst (λ x. Delivers h ((t ++ b) ++ rest) (obtained x))
            (sym (obtain_local E o (chunk_error E c) c b h got))
            (subst (λ e. Delivers h ((t ++ b) ++ rest) (written b e)) (sym fine)
              (get_chunks-Delivers cs rest (t ++ b) h (W.write b out).1 held more)))
      where
        obtained : Result Bytes × Host E → Option Bytes × Host E × W.Out
        obtained x = elim x.0 [
          | err q ↦ (some q, x.1, out)
          | ok d ↦ elim (W.write d out).0 [
            | some y ↦ (some y, x.1, (W.write d out).1)
            | none ↦ get_chunks E W o cs x.1 (W.write d out).1
          ]
        ]

        written : Bytes → Option Bytes → Option Bytes × Host E × W.Out
        written d z = elim z [
          | some y ↦ (some y, h, (W.write d out).1)
          | none ↦ get_chunks E W o cs h (W.write d out).1
        ]

    -- A file of the store is written to any writer, and nothing else changes.
    pub get_file-Delivers :
        (root content t : Bytes) (h : Host E) (out : W.Out)
        → Stored E root content h.store
        → Wrote t out
        → Delivers h (t ++ content) (get_file E W o root h out)
    unfolding get_file after_root after_node
    get_file-Delivers root content t h out s wrote =
        rw (obtain_local E o (root_error E) root s.block h s.found, s.parsed)
          (get_chunks-Delivers s.node.chunks content t h out s.held wrote)

  module _ (laws : StorageLaws E.storage) (o : Orders) where
    keep_fetched-Keeps :
        (wrap : Bytes → Bytes) (cid : Bytes) (got : Result Bytes × Host E)
        → Keeps E got.1.store (keep_fetched E wrap cid got).1.store
    unfolding keep_fetched
    keep_fetched-Keeps wrap cid (err e, h) = λ c d g. g
    keep_fetched-Keeps wrap cid (ok block, h) =
        elim (Option-cases (E.storage.verify_cid cid block)) [
          | inl n ↦
              rw (n, keep_fetched)
                (put-Keeps E laws block (E.storage.put block h.store).0 h.store
                  (E.storage.put block h.store).1 refl)
          | inr (e, q) ↦ rw (q, keep_fetched) (λ c d g. g)
        ]

    obtain-Keeps :
        (wrap : Bytes → Bytes → Bytes) (cid : Bytes) (h : Host E)
        → Keeps E h.store (obtain E o wrap cid h).1.store
    unfolding obtain fetch
    obtain-Keeps wrap cid h = elim (Result-cases (E.storage.get cid h.store)) [
      | inl (b, q) ↦ rw (q, obtain) (λ c d g. g)
      | inr (e, q) ↦ rw (q, obtain) (keep_fetched-Keeps (wrap e) cid (fetch E o cid h))
    ]

    get_chunks-Keeps :
        (cs : List Bytes) (h : Host E) (out : W.Out)
        → Keeps E h.store (get_chunks E W o cs h out).1.store
    unfolding get_chunks
    get_chunks-Keeps [] h out = λ c d g. g
    get_chunks-Keeps (c ∷ cs) h out =
        obtained (λ h' out'. get_chunks-Keeps cs h' out') (obtain E o (chunk_error E c) c h)
          (obtain-Keeps (chunk_error E c) c h)
      where
        written :
            ((h' : Host E) (out' : W.Out) → Keeps E h'.store (get_chunks E W o cs h' out').1.store)
            → (h' : Host E) (w : Option Bytes × W.Out) → Keeps E h.store h'.store
            → Keeps E h.store
                (elim w.0 as (λ x. Option Bytes × Host E × W.Out) [
                  | some y ↦ (some y, h', w.1)
                  | none ↦ get_chunks E W o cs h' w.1
                ]).1.store
        written go h' (some y, out') k = k
        written go h' (none, out') k = λ c d g. go h' out' c d (k c d g)

        obtained :
            ((h' : Host E) (out' : W.Out) → Keeps E h'.store (get_chunks E W o cs h' out').1.store)
            → (x : Result Bytes × Host E) → Keeps E h.store x.1.store
            → Keeps E h.store
                (elim x.0 as (λ x. Option Bytes × Host E × W.Out) [
                  | err q ↦ (some q, x.1, out)
                  | ok d ↦ elim (W.write d out).0 as (λ x. Option Bytes × Host E × W.Out) [
                    | some y ↦ (some y, x.1, (W.write d out).1)
                    | none ↦ get_chunks E W o cs x.1 (W.write d out).1
                  ]
                ]).1.store
        obtained go (err q, h') k = k
        obtained go (ok d, h') k = written go h' (W.write d out) k

    node-Keeps :
        (h : Host E) (out : W.Out) (node : Result FileNode)
        → Keeps E h.store (after_node E W o h out node).1.store
    unfolding after_node
    node-Keeps h out (err e) = λ c d g. g
    node-Keeps h out (ok node) = get_chunks-Keeps node.chunks h out

    root-Keeps :
        (s : E.storage.Store) (out : W.Out) (got : Result Bytes × Host E)
        → Keeps E s got.1.store
        → Keeps E s (after_root E W o out got).1.store
    unfolding after_root
    root-Keeps s out (err e, h) k = k
    root-Keeps s out (ok block, h) k =
        λ c d g. node-Keeps h out (E.json.unmarshal_file block) c d (k c d g)

    -- No block is lost, whether the file is found or not.
    pub get_file-Keeps :
        (root : Bytes) (h : Host E) (out : W.Out)
        → Keeps E h.store (get_file E W o root h out).1.store
    unfolding get_file
    get_file-Keeps root h out =
        root-Keeps h.store out (obtain E o (root_error E) root h)
          (obtain-Keeps (root_error E) root h)

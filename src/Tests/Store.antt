-- ===== src/Tests/Store.antt =====
-- A block store that keeps blocks under the names that a function gives them. A file is one block.
use p2p_distributed_system_m.Base.{
  ◌≡◌, ◌≢◌, ◌∙◌, refl, sym, ap, subst, Bytes, codes, List, [], ◌∷◌, Option, none, some, Result, ok,
  err, arith, if◌then◌else◌, ◌==◌,
}
use mathlib.Core.List.{append-nil}
use p2p_distributed_system_m.Os.{Writer}
use p2p_distributed_system_m.Storage.{Storage, Holds, StorageLaws, CidLaws}
use p2p_distributed_system_m.Tests.Disk.{disk}

abbrev write_found : (W : Writer) → Result Bytes → W.Out → Option Bytes × W.Out
write_found W (err e) out = (some e, out)
write_found W (ok b) out = W.write b out

module _ (name : Bytes → Bytes) where
  abbrev pub find : Bytes → List Bytes → Result Bytes
  find c [] = err (codes "not found")
  find c (b ∷ bs) = if name b == c then ok b else find c bs

  abbrev chunked : Result Bytes → List Bytes → Result (List Bytes) × List Bytes
  chunked (err e) s = (err e, s)
  chunked (ok content) s = (ok (name content ∷ []), content ∷ s)

  abbrev pub store_by : Storage disk
  store_by = record {
    Store = List Bytes;
    new_store = λ dir files. (ok [], files);
    new_cid = name;
    validate = λ c. none;
    verify_cid = λ c b. if name b == c then none else some (codes "cid mismatch");
    get = find;
    put = λ b s. (ok (name b), b ∷ s);
    put_file = λ path files s. chunked (disk.read_file path files) s;
    reconstruct_file = λ s c W out. write_found W (find c s) out;
    root_dir = λ s. codes "blocks";
  }

  pub find_named : (c d : Bytes) (s : List Bytes) → find c s ≡ ok d → c ≡ name d
  find_named c d [] h = absurd (ground arith)
  find_named c d (b ∷ bs) h = ground (arith, find_named c d bs)

  module _ (name-injective : (b d : Bytes) → name b ≡ name d → b ≡ d)
      (name-ne-nil : (b : Bytes) → name b ≢ []) where
    put_kept : (b c d : Bytes) (s : List Bytes) → find c s ≡ ok d → find c (b ∷ s) ≡ ok d
    put_kept b c d s g = ground (arith, find_named c d s g, name-injective b d)

    chunked_kept :
        (r : Result Bytes) (c d : Bytes) (s : List Bytes)
        → find c s ≡ ok d
        → find c (chunked r s).1 ≡ ok d
    chunked_kept (err e) c d s g = g
    chunked_kept (ok b) c d s g = put_kept b c d s g

    abbrev HeldIn : Bytes → Result (List Bytes) × List Bytes → Type 0
    HeldIn content (err e, s) = Unit
    HeldIn content (ok cs, s) = Holds store_by s cs content

    chunked_held : (content : Bytes) (s : List Bytes) → HeldIn content (chunked (ok content) s)
    chunked_held content s = (content, [], ground arith, sym (append-nil content), refl)

    chunked_reads :
        (r : Result Bytes) (cs s s' : List Bytes)
        → chunked r s ≡ (ok cs, s')
        → (content : Bytes) × (r ≡ ok content)
    chunked_reads (err e) cs s s' h = absurd (ground (arith, ap (λ p. p.0) h))
    chunked_reads (ok content) cs s s' h = (content, refl)

    pub store_by-StorageLaws : StorageLaws store_by
    store_by-StorageLaws = record {
      put-get = λ b c s s' h. subst (λ t. find (name b) t ≡ ok b) (ap (λ p. p.1) h) (ground arith);
      new_cid-ne-nil = name-ne-nil;
      put-keeps =
          λ b r s s' c d h g. subst (λ t. find c t ≡ ok d) (ap (λ p. p.1) h) (put_kept b c d s g);
      put_file-keeps = λ path files r s s' c d h g.
          subst (λ t. find c t ≡ ok d) (ap (λ p. p.1) h)
            (chunked_kept (disk.read_file path files) c d s g);
      put_file-reads = λ path files cs s s' h. chunked_reads (disk.read_file path files) cs s s' h;
      put_file-holds = λ path content files cs s s' f h.
          subst (HeldIn content) (ap (λ r. chunked r s) (sym f) ∙ h) (chunked_held content s);
    }

    pub store_by-CidLaws : CidLaws store_by
    store_by-CidLaws = record {
      stored = λ c b s h. ground (arith, find_named c b s h);
      one_block = λ c b d p q. ground (arith, name-injective b d);
      named = λ c b p. ground arith;
      valid = λ c b p. refl;
    }

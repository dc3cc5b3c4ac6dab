-- ===== src/Storage.antt =====
-- internal/storage is not in the repository (its directory is ignored by git): the block store, the
-- chunker and the identifiers of blocks are a parameter, with what the program relies on as its laws.
use p2p_distributed_system_m.Base.{Bytes, List, [], ◌∷◌, ◌++◌, Option, none, Result, ok, ◌≡◌, ◌≢◌}
use p2p_distributed_system_m.Os.{Writer, Disk}

-- `validate` and `verify_cid` return an error or none. `new_store` opens the store of a directory,
-- `put_file` is `Chunker.PutFile`, which reads a file of the disk, and `reconstruct_file` is
-- `ReconstructFile`.
pub record Storage (D : Disk) : Type 1 where
  pub Store : Type 0
  pub new_store : Bytes → D.Files → Result Store × D.Files
  pub new_cid : Bytes → Bytes
  pub validate : Bytes → Option Bytes
  pub verify_cid : Bytes → Bytes → Option Bytes
  pub get : Bytes → Store → Result Bytes
  pub put : Bytes → Store → Result Bytes × Store
  pub put_file : Bytes → D.Files → Store → Result (List Bytes) × Store
  pub reconstruct_file : Store → Bytes → (W : Writer) → W.Out → Option Bytes × W.Out
  pub root_dir : Store → Bytes

module _ {D : Disk} (S : Storage D) where
  open S use {Store}

  -- The blocks of a list of identifiers are in the store, and make up the content together.
  abbrev pub Holds : Store → List Bytes → Bytes → Type 0
  Holds s [] content = content ≡ []
  Holds s (c ∷ cs) content =
      (b : Bytes) × (rest : Bytes) × (S.get c s ≡ ok b) × (content ≡ b ++ rest) × Holds s cs rest

  -- What the documents say of the block store: a block is found under its identifier once it is stored,
  -- identifiers are not empty, later writes do not lose a block, and a file is the sequence of its
  -- chunks.
  pub record StorageLaws : Type 0 where
    pub put-get :
        (b c : Bytes) (s s' : Store) → S.put b s ≡ (ok c, s') → S.get (S.new_cid b) s' ≡ ok b
    pub new_cid-ne-nil : (b : Bytes) → S.new_cid b ≢ []
    pub put-keeps :
        (b : Bytes) (r : Result Bytes) (s s' : Store) (c d : Bytes)
        → S.put b s ≡ (r, s')
        → S.get c s ≡ ok d
        → S.get c s' ≡ ok d
    pub put_file-keeps :
        (path : Bytes) (files : D.Files) (r : Result (List Bytes)) (s s' : Store) (c d : Bytes)
        → S.put_file path files s ≡ (r, s')
        → S.get c s ≡ ok d
        → S.get c s' ≡ ok d
    pub put_file-reads :
        (path : Bytes) (files : D.Files) (cs : List Bytes) (s s' : Store)
        → S.put_file path files s ≡ (ok cs, s')
        → (content : Bytes) × (D.read_file path files ≡ ok content)
    pub put_file-holds :
        (path content : Bytes) (files : D.Files) (cs : List Bytes) (s s' : Store)
        → D.read_file path files ≡ ok content
        → S.put_file path files s ≡ (ok cs, s')
        → Holds s' cs content

  -- The identifier of a block is a hash of it that is taken to be free of collisions: a store keeps a
  -- block under its own identifier only, which is valid and belongs to no other block.
  pub record CidLaws : Type 0 where
    pub stored : (c b : Bytes) (s : Store) → S.get c s ≡ ok b → S.verify_cid c b ≡ none
    pub one_block : (c b d : Bytes) → S.verify_cid c b ≡ none → S.verify_cid c d ≡ none → b ≡ d
    pub named : (c b : Bytes) → S.verify_cid c b ≡ none → c ≡ S.new_cid b
    pub valid : (c b : Bytes) → S.verify_cid c b ≡ none → S.validate c ≡ none

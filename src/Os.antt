-- ===== src/Os.antt =====
-- What the program uses of Go's packages `os` and `io`: a disk with its files, and writers. Errors are
-- values, and `none` is success.
use p2p_distributed_system_m.Base.{Bytes, codes, [], ◌++◌, Option, none, Result, ok, ◌≡◌}

-- An `io.Writer`: an error or none, and what has been written.
pub record Writer : Type 1 where
  pub Out : Type 0
  pub write : Bytes → Out → Option Bytes × Out

-- `bytes.Buffer`.
abbrev pub buffer : Writer
buffer = record { Out = Bytes; write = λ b out. (none, out ++ b) }

-- `os.MkdirAll`, `os.WriteFile`, `os.ReadFile`, `os.CreateTemp` (a directory and a pattern), a write to
-- an open file, its `Close`, `os.Remove`, and `os.Create`, which leaves an empty file.
pub record Disk : Type 1 where
  pub Files : Type 0
  pub mkdir_all : Bytes → Files → Option Bytes × Files
  pub write_file : Bytes → Bytes → Files → Option Bytes × Files
  pub read_file : Bytes → Files → Result Bytes
  pub create_temp : Bytes → Bytes → Files → Result Bytes × Files
  pub append : Bytes → Bytes → Files → Option Bytes × Files
  pub close : Bytes → Files → Option Bytes × Files
  pub remove : Bytes → Files → Option Bytes × Files
  pub create : Bytes → Files → Option Bytes × Files

-- `filepath.Join` of clean parts.
abbrev pub join : Bytes → Bytes → Bytes
join a b = a ++ codes "/" ++ b

module _ (D : Disk) where
  open D use {Files}

  -- What the documentation of `os` says: a file holds what was written to it, a temporary file is new
  -- and empty, a write adds at the end, and closing a file leaves what it holds.
  pub record DiskLaws : Type 0 where
    pub read-write :
        (p b : Bytes) (f f' : Files) → D.write_file p b f ≡ (none, f') → D.read_file p f' ≡ ok b
    pub read-create_temp :
        (dir pattern p : Bytes) (f f' : Files)
        → D.create_temp dir pattern f ≡ (ok p, f')
        → D.read_file p f' ≡ ok []
    pub read-append :
        (p old b : Bytes) (f f' : Files)
        → D.read_file p f ≡ ok old
        → D.append p b f ≡ (none, f')
        → D.read_file p f' ≡ ok (old ++ b)
    pub read-close :
        (p b : Bytes) (r : Option Bytes) (f f' : Files)
        → D.read_file p f ≡ ok b
        → D.close p f ≡ (r, f')
        → D.read_file p f' ≡ ok b

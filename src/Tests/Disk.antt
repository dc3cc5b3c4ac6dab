-- ===== src/Tests/Disk.antt =====
-- A disk of named files that is an association list, with its laws.
use p2p_distributed_system_m.Base.{
  Option, ◌≡◌, ap, Bytes, codes, [], ◌++◌, none, some, Result, ok, err, arith, subst,
}
use p2p_distributed_system_m.Base.GoMap.{GoMap, lookup, insert, delete, lookup-insert}
use p2p_distributed_system_m.Os.{Disk, DiskLaws}

abbrev pub or_missing : Option Bytes → Result Bytes
or_missing none = err (codes "no such file")
or_missing (some b) = ok b

abbrev pub or_nothing : Option Bytes → Bytes
or_nothing none = []
or_nothing (some b) = b

pub read_longer :
    (p old b : Bytes) (f : GoMap Bytes)
    → or_missing (lookup p f) ≡ ok old
    → or_missing (lookup p (insert p (or_nothing (lookup p f) ++ b) f)) ≡ ok (old ++ b)
read_longer p old b f h = ground (arith, lookup-insert p p (or_nothing (lookup p f) ++ b) f)

abbrev pub ReadsEmpty : Result Bytes × GoMap Bytes → Type 0
ReadsEmpty (err e, f) = Unit
ReadsEmpty (ok p, f) = or_missing (lookup p f) ≡ ok []

pub read_new : (pattern : Bytes) (f : GoMap Bytes) → ReadsEmpty (ok pattern, insert pattern [] f)
read_new pattern f = ground (arith, lookup-insert pattern pattern [] f)

-- Files are an association list, and a new temporary file has the pattern as its name.
abbrev pub disk : Disk
disk = record {
  Files = GoMap Bytes;
  mkdir_all = λ dir files. (none, files);
  write_file = λ path b files. (none, insert path b files);
  read_file = λ path files. or_missing (lookup path files);
  create_temp = λ dir pattern files. (ok pattern, insert pattern [] files);
  append = λ path b files. (none, insert path (or_nothing (lookup path files) ++ b) files);
  close = λ path files. (none, files);
  remove = λ path files. (none, delete path files);
  create = λ path files. (none, insert path [] files);
}

pub disk-DiskLaws : DiskLaws disk
disk-DiskLaws = record {
  read-write = λ p b f f' h.
      subst (λ g. or_missing (lookup p g) ≡ ok b) (ap (λ r. r.1) h)
        (ground (arith, lookup-insert p p b f));
  read-create_temp = λ dir pattern p f f' h. subst ReadsEmpty h (read_new pattern f);
  read-append = λ p old b f f' r h.
      subst (λ g. or_missing (lookup p g) ≡ ok (old ++ b)) (ap (λ r. r.1) h)
        (read_longer p old b f r);
  read-close = λ p b r f f' g h. subst (λ k. or_missing (lookup p k) ≡ ok b) (ap (λ x. x.1) h) g;
}

-- ===== src/Cli/Commands.antt =====
-- The commands of internal/cli/cli.go. Go's package `flag` is a parameter: it parses arguments, given
-- the names of the flags with their defaults. A command leaves its error or none, its output, the disk,
-- and the store that it opened.
use p2p_distributed_system_m.Base.{
  Bytes, codes, List, [], ◌∷◌, ◌++◌, ◌||◌, Option, none, some, Result, ok, err, length,
  if◌then◌else◌, ◌==◌,
}
use p2p_distributed_system_m.Base.Decimal.{decimal}
use p2p_distributed_system_m.Os.{Writer, Disk, buffer}
use p2p_distributed_system_m.Storage.{Storage}
use p2p_distributed_system_m.Merkle.{Json, detect_type, node_type_file, node_type_directory}
use p2p_distributed_system_m.Cli.{normalize_interspersed_flags}
use p2p_distributed_system_m.Cli.Add.{add_local}

-- What a flag set holds after parsing: the value of each flag, and the arguments that are left.
pub record Parsed : Type 0 where
  pub value : Bytes → Bytes
  pub args : List Bytes

abbrev pub FlagParser : Type 0
FlagParser = List (Bytes × Bytes) → List Bytes → Result Parsed

abbrev pub default_storage_dir : Bytes
default_storage_dir = codes "storage"

abbrev pub storage_flag : Bytes × Bytes
storage_flag = (codes "storage", default_storage_dir)

abbrev new_line : Bytes
new_line = 10 ∷ []

abbrev line : Bytes → Bytes → Bytes
line text rest = text ++ (new_line ++ rest)

-- The text of `printHelp`; its dash has three bytes.
abbrev help_text : Bytes
help_text =
    (codes "node "
      ++ (226 ∷ 128 ∷ 148 ∷ codes " content-addressed storage (local CLI + networked serve)"))
    ++ (new_line
        ++ (new_line
            ++ line (codes "Local (no network):") (
                line (codes "  node add <file> [--storage storage]") (
                  line (codes "  node get <rootCID> [--out file] [--storage storage]") (
                    line (codes "  node inspect <cid> [--storage storage]") (
                      new_line
                      ++ line (codes "Networked node + HTTP API + gRPC:") (
                          line
                            (codes
                              "  node serve --data storage/node1 --grpc 127.0.0.1:50051 --http 127.0.0.1:8080 [--bootstrap http://127.0.0.1:9099] [--replication 3]")
                            new_line)))))))

abbrev only : List Bytes → Option Bytes
only (a ∷ []) = some a
only _ = none

-- The file to add: the flag, or else the only argument.
unfoldable pub path_of : Parsed → Option Bytes
path_of fs = if fs.value (codes "in") == [] then only fs.args else some (fs.value (codes "in"))

unfoldable pub inspect_message : Json → Bytes → Bytes → Bytes
unfolding decimal
inspect_message J c b =
    let raw =
      codes "CID: "
      ++ (c
          ++ (new_line
              ++ (codes "Type: raw block"
                  ++ (new_line
                      ++ (codes "Size: "
                          ++ (decimal (length b) ++ (codes " bytes" ++ new_line))))))) in
    elim (detect_type J b) [
      | ok t ↦
          if t == node_type_file
          then codes "CID: "
            ++ (c
                ++ (new_line
                    ++ (codes "Type: file"
                        ++ (new_line
                            ++ (codes "Chunks: "
                                ++ (decimal (length (J.left_in_file b).chunks) ++ new_line))))))
          else if t == node_type_directory
          then codes "CID: "
            ++ (c
                ++ (new_line
                    ++ (codes "Type: directory"
                        ++ (new_line
                            ++ (codes "Entries: "
                                ++ (decimal (length (J.left_in_directory b).entries)
                                    ++ new_line))))))
          else raw
      | err e ↦ raw
    ]

module _ {D : Disk} (S : Storage D) where
  open S use {Store}

  pub record Outcome : Type 0 where
    pub error : Option Bytes
    pub out : Bytes
    pub files : D.Files
    pub store : Option Store

  abbrev pub failed : Bytes → D.Files → Option Store → Outcome
  failed e files store = record { error = some e; out = []; files = files; store = store }

  module _ (J : Json) where
    module _ (parse : FlagParser) where
      added : Result Bytes × D.Files × Store → Outcome
      added (err e, files, s) = failed e files (some s)
      added (ok root, files, s) = record {
        error = none;
        out = codes "Root CID: " ++ (root ++ new_line);
        files = files;
        store = some s;
      }

      add_opened : Bytes → Result Store × D.Files → Outcome
      unfolding added add_local
      add_opened path (err e, files) = failed e files none
      add_opened path (ok s, files) = added (add_local S J path files s)

      add_path : Parsed → Option Bytes → D.Files → Outcome
      unfolding add_opened
      add_path fs none files =
          failed (codes "usage: node add <file> [--storage storage]") files none
      add_path fs (some path) files =
          add_opened path (S.new_store (fs.value (codes "storage")) files)

      unfoldable pub run_add : List Bytes → D.Files → Outcome
      unfolding add_path path_of normalize_interspersed_flags
      run_add args files =
          elim (parse ((codes "in", []) ∷ storage_flag ∷ []) (normalize_interspersed_flags args)) [
            | err e ↦ failed e files none
            | ok fs ↦ add_path fs (path_of fs) files
          ]

      -- The file that `--out` names is a writer: what `ReconstructFile` writes is added to it.
      abbrev file_writer : Bytes → Writer
      file_writer path = record { Out = D.Files; write = λ b files. D.append path b files }

      reconstructed : Bytes → Store → Option Bytes × D.Files → Outcome
      reconstructed path s (some e, files) = failed e files (some s)
      reconstructed path s (none, files) = record {
        error = none;
        out = codes "Wrote file to " ++ (path ++ new_line);
        files = files;
        store = some s;
      }

      -- The file is closed when the command returns.
      closed : Bytes → Outcome → Outcome
      closed path r = record r { files = (D.close path r.files).1 }

      get_created : Bytes → Bytes → Store → Option Bytes × D.Files → Outcome
      unfolding reconstructed closed
      get_created root path s (some e, files) = failed e files (some s)
      get_created root path s (none, files) =
          closed path (reconstructed path s (S.reconstruct_file s root (file_writer path) files))

      printed : Store → D.Files → Option Bytes × Bytes → Outcome
      printed s files (e, text) = record { error = e; out = text; files = files; store = some s }

      get_opened : Bytes → Bytes → Result Store × D.Files → Outcome
      unfolding get_created printed
      get_opened root path (err e, files) = failed e files none
      get_opened root path (ok s, files) =
          if path == []
          then printed s files (S.reconstruct_file s root buffer [])
          else get_created root path s (D.create path files)

      get_root : Parsed → Option Bytes → D.Files → Outcome
      unfolding get_opened
      get_root fs none files =
          failed (codes "usage: node get <rootCID> [--out file] [--storage storage]") files none
      get_root fs (some root) files =
          get_opened root (fs.value (codes "out")) (S.new_store (fs.value (codes "storage")) files)

      unfoldable pub run_get : List Bytes → D.Files → Outcome
      unfolding get_root normalize_interspersed_flags
      run_get args files =
          elim (parse ((codes "out", []) ∷ storage_flag ∷ []) (normalize_interspersed_flags args)) [
            | err e ↦ failed e files none
            | ok fs ↦ get_root fs (only fs.args) files
          ]

      inspect_opened : Bytes → Result Store × D.Files → Outcome
      unfolding inspect_message
      inspect_opened c (err e, files) = failed e files none
      inspect_opened c (ok s, files) = elim (S.get c s) [
        | err e ↦ failed e files (some s)
        | ok b ↦ record { error = none; out = inspect_message J c b; files = files; store = some s }
      ]

      inspect_only : Parsed → Option Bytes → D.Files → Outcome
      unfolding inspect_opened
      inspect_only fs none files =
          failed (codes "usage: node inspect <cid> [--storage storage]") files none
      inspect_only fs (some c) files =
          inspect_opened c (S.new_store (fs.value (codes "storage")) files)

      unfoldable pub run_inspect : List Bytes → D.Files → Outcome
      unfolding inspect_only normalize_interspersed_flags
      run_inspect args files =
          elim (parse (storage_flag ∷ []) (normalize_interspersed_flags args)) [
            | err e ↦ failed e files none
            | ok fs ↦ inspect_only fs (only fs.args) files
          ]

      module _ (quote : Bytes → Bytes) where
        -- `Run`; `quote` is `%q`. What goes to the error output is left out.
        unfoldable pub run : List Bytes → D.Files → Outcome
        unfolding run_add run_get run_inspect
        run [] files = failed (codes "missing command") files none
        run (cmd ∷ args) files =
            if cmd == codes "add"
            then run_add args files
            else if cmd == codes "get"
            then run_get args files
            else if cmd == codes "inspect"
            then run_inspect args files
            else if (cmd == codes "help") || ((cmd == codes "-h") || (cmd == codes "--help"))
            then record { error = none; out = help_text; files = files; store = none }
            else failed (codes "unknown command " ++ quote cmd) files none

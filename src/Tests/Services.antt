-- ===== src/Tests/Services.antt =====
-- The HTTP API, the commands and the start of a node, run in the small world.
use p2p_distributed_system_m.Base.{
  ℕ_discrete, dec_text, ◌≡◌, ◌≢◌, ◌⊎◌, ◌↔◌, refl, Bytes, codes, [], ◌∷◌, ◌++◌, Bool, true, ◌&&◌,
  none, Result, ok, err, arith, if◌then◌else◌, ◌==◌,
}
use p2p_distributed_system_m.Base.Hex.{encode_to_string, hex_digit}
use p2p_distributed_system_m.Base.GoMap.{GoMap, lookup, insert}
use p2p_distributed_system_m.Http.{FormFile, Response, new_response}
use p2p_distributed_system_m.Storage.{Storage}
use p2p_distributed_system_m.Coordinator.Host.{Env, Host, new_host}
use p2p_distributed_system_m.Coordinator.Identity.{
  new_peer_host, identified_host, opened_host, load_or_create_peer_id, created_id, written_id,
  id_in,
}
use p2p_distributed_system_m.Http.{set_header, write, write_header}
use p2p_distributed_system_m.Merkle.{encode_canonical_json, new_file_node}
use p2p_distributed_system_m.Replication.{select_replica_peer_ids}
use p2p_distributed_system_m.Dht.Xor.{key_from_hex}
use p2p_distributed_system_m.Coordinator.Files.{
  add_file, replicate_all, write_file_bundle, write_block, write_chunks, provide_all,
  replicate_block,
}
use p2p_distributed_system_m.Api.Upload.{handle_upload, upload_added}
use p2p_distributed_system_m.Api.Routes.{cors_headers, serve_http, routed}
use p2p_distributed_system_m.Api.Transfer.Downloading.{status, uploads, downloads}
use p2p_distributed_system_m.Api.Transfer.{download-upload}
use p2p_distributed_system_m.Coordinator.Inspect.{inspect_cid}
use p2p_distributed_system_m.Cli.Commands.{Parsed, FlagParser, run_inspect}
use p2p_distributed_system_m.Cli.Agreement.{run_inspect-inspect_cid}
use p2p_distributed_system_m.Api.{Views, answered, panicked, json_header, extension, uploaded_text}
use p2p_distributed_system_m.Api.Handlers.{handle_graph}
use p2p_distributed_system_m.Api.Extension.{IsTypeOf, extension-IsTypeOf}
use p2p_distributed_system_m.Api.Graph.{HasShort, handle_graph_panics_iff}
use p2p_distributed_system_m.Coordinator.Loops.{BootstrapPeer}
use p2p_distributed_system_m.Coordinator.Announce.{register_bootstrap, trim_right}
use p2p_distributed_system_m.Coordinator.Announce.Listing.{connected, register_bootstrap_lists}
use p2p_distributed_system_m.Bootstrap.{RegPeer, Server, has_id}
use p2p_distributed_system_m.Node.{
  ServeConfig, ServeFlags, ServeParser, text_flags, number_flags, parse_serve_flags, host_config,
  serve_config, run_serve, start, after_host, listening,
}
use p2p_distributed_system_m.Node.Start.{IsStarted, run_serve-IsStarted}
use p2p_distributed_system_m.Tests.Disk.{disk, disk-DiskLaws}
use p2p_distributed_system_m.Tests.World.{
  blocks, blocks-StorageLaws, texts, texts-JsonLaws, env, orders, config, files, host,
}
use p2p_distributed_system_m.Tests.Programs.{zeros, zero_digits}

-- A block store that finds a block when it is opened.
abbrev stocked : Storage disk
stocked = record blocks { new_store = λ dir files. (ok (codes "x" ∷ []), files) }

abbrev stocked_env : Env
stocked_env = record env { storage = stocked }

abbrev stocked_host : Host stocked_env
stocked_host =
    new_host stocked_env orders 10 config (codes "a") none (codes "x" ∷ []) files tt (none, [])

abbrev parsed : Parsed
parsed = record { value = λ name. codes "storage"; args = codes "#x" ∷ [] }

abbrev inspects : FlagParser
inspects = λ flags args. ok parsed

run_inspect-inspect_cid_example :
    ((run_inspect stocked texts inspects [] files).error ≡ none)
    × (inspect_cid stocked_env orders (codes "#x") stocked_host
        ≡ (ok (run_inspect stocked texts inspects [] files).out, stocked_host))
unfolding new_host dec_text ℕ_discrete
run_inspect-inspect_cid_example =
    run_inspect-inspect_cid stocked_env inspects [] parsed orders (codes "#x") (codes "x")
      stocked_host files files refl refl refl refl

abbrev plain : Views
plain = record {
  encode_health = λ v. v.peer_id;
  encode_peers = λ v. [];
  encode_graph = λ v. [];
  encode_found = λ v. v.inspect;
  format_time = λ n. [];
}

handle_graph_panics_iff_example :
    (handle_graph env plain orders host new_response ≡ panicked) ↔ HasShort host.reg.peers
handle_graph_panics_iff_example = handle_graph_panics_iff env plain orders host new_response

extension-IsTypeOf_example :
    ((codes "a.b.txt" ≡ []) × (extension (codes "a.b.txt") ≡ []))
    ⊎ ((codes "a.b.txt" ≢ []) × IsTypeOf (codes "a.b.txt") (extension (codes "a.b.txt")))
extension-IsTypeOf_example = extension-IsTypeOf (codes "a.b.txt")

-- A JSON that writes one peer.
abbrev only_self : BootstrapPeer → Bool
only_self p =
    (p.peer_id == codes "a") && ((p.grpc_addr == codes "a:1") && (p.http_addr == codes "a:2"))

abbrev marshal_self : BootstrapPeer → Result Bytes
marshal_self p = if only_self p then ok (codes "self") else err (codes "another")

abbrev self_listed : RegPeer
self_listed = record { peer_id = codes "a"; grpc_addr = codes "a:1"; http_addr = codes "a:2" }

read_self :
    (p : BootstrapPeer) (b : Bytes)
    → marshal_self p ≡ ok b
    → ok self_listed
      ≡ ok (record { peer_id = p.peer_id; grpc_addr = p.grpc_addr; http_addr = p.http_addr })
read_self p b h =
    let id : codes "a" ≡ p.peer_id = ground arith in
    let grpc : codes "a:1" ≡ p.grpc_addr = ground arith in
    let http : codes "a:2" ≡ p.http_addr = ground arith in
    λ i. ok (record { peer_id = id i; grpc_addr = grpc i; http_addr = http i })

abbrev empty_server : Server
empty_server = record { peers = []; rdb = none }

abbrev announcing : Host env
announcing = record host { bootstrap = codes "x/" }

register_bootstrap_lists_example :
    let r =
      register_bootstrap env
        (connected (codes "x") (λ b. ok self_listed) (λ ps. []))
        marshal_self
        announcing
        empty_server in
    (r.0 ≡ none) × (has_id (codes "a") r.1.peers ≡ true)
unfolding trim_right new_host dec_text ℕ_discrete
register_bootstrap_lists_example =
    register_bootstrap_lists env marshal_self (λ b. ok self_listed) (λ ps. []) read_self (codes "x")
      announcing (codes "self") empty_server (λ e. absurd (ground arith)) refl refl
      (λ e. absurd (ground arith)) (λ e. absurd (ground arith)) (omega arith)

abbrev flags : ServeFlags
flags = record { text = λ name. codes "d"; number = λ name. 0 }

abbrev serve_flags : ServeParser
serve_flags = λ texts numbers args. ok flags

abbrev id_file : GoMap Bytes
id_file = insert (codes "d/peer.id") (zero_digits 64 ++ 10 ∷ []) files

abbrev cfg : ServeConfig
cfg = serve_config flags

abbrev started : Host env
started = new_host env orders 10 (host_config cfg) (zero_digits 64) none [] id_file tt (none, [])

run_serve-IsStarted_example :
    (fs : ServeFlags) × (serve_flags text_flags number_flags [] ≡ ok fs)
    × IsStarted env orders 10 (ok (zeros 32)) none tt (none, []) (λ a. none) fs started
unfolding run_serve start after_host listening new_peer_host identified_host opened_host
    load_or_create_peer_id created_id written_id encode_to_string hex_digit insert lookup dec_text
    ℕ_discrete id_in parse_serve_flags
run_serve-IsStarted_example =
    run_serve-IsStarted env orders 10 (ok (zeros 32)) none tt (none, []) (λ a. none) serve_flags []
      files id_file started refl

abbrev hello : FormFile
hello = record { filename = codes "a.txt"; size = 5; content = codes "hello"; read_error = none }

abbrev late : Bytes
late = codes "late"

abbrev done : Response × Host env
done = handle_upload env orders 2 late (uploads hello) host (cors_headers new_response)

download-upload_example :
    (root : Bytes) × (catalog_cid : Bytes) × (v : Response) × (done.0.body
      ≡ uploaded_text root catalog_cid)
    × (serve_http env orders 2 late (λ w. none) plain (downloads root) done.1
        ≡ (answered v, done.1))
    × (v.body ≡ codes "hello")
    × (status v ≡ 200)
unfolding serve_http routed dec_text ℕ_discrete cors_headers set_header handle_upload upload_added
    add_file encode_canonical_json new_file_node replicate_all write_file_bundle write_block
    write_chunks provide_all replicate_block select_replica_peer_ids key_from_hex lookup insert
    new_host json_header write write_header
download-upload_example =
    download-upload env disk-DiskLaws blocks-StorageLaws texts-JsonLaws (λ w. none) (λ w. refl)
      plain orders orders 2 late hello host done.1 done.0 refl refl

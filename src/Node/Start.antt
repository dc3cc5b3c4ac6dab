-- ===== src/Node/Start.antt =====
-- The node that `node serve` starts.
use p2p_distributed_system_m.Base.{
  ℕ, ◌≡◌, ◌≤◌, refl, sym, subst, Bytes, codes, List, [], Option, none, some, Result, ok, err, ◌==◌,
  arith, Bool-cases, inl, inr, Option-cases, Result-cases, ◌≢◌, ◌⊎◌, ltb,
}
use p2p_distributed_system_m.Os.{join}
use p2p_distributed_system_m.Peer.Registry.{RedisCommand}
use p2p_distributed_system_m.Coordinator.Host.{Env, Orders, Config, Host, new_host}
use p2p_distributed_system_m.Coordinator.Identity.{
  opened_host, identified_host, new_peer_host, load_or_create_peer_id,
}
use p2p_distributed_system_m.Coordinator.Rpc.Serving.{IsSound}
use p2p_distributed_system_m.Coordinator.Loops.Events.{happen_all, happen_all-new_host-IsSound}
use p2p_distributed_system_m.Node.{
  ServeConfig, ServeFlags, ServeParser, text_flags, number_flags, serve_config, advertised,
  parse_serve_flags, host_config, listening, after_host, start, run_serve,
}

-- The address that others are told: the one to advertise, unless that is empty.
abbrev Tells : Bytes → Bytes → Bytes → Type 0
Tells listen advertise addr =
    ((advertise ≡ []) × (addr ≡ listen)) ⊎ ((advertise ≢ []) × (addr ≡ advertise))

-- As many replicas as the flag says, and three where it says none.
abbrev Wants : ℕ → ℕ → Type 0
Wants number wanted = ((number ≡ 0) × (wanted ≡ 3)) ⊎ ((1 ≤ number) × (wanted ≡ number))

advertised-Tells : (listen advertise : Bytes) → Tells listen advertise (advertised listen advertise)
unfolding advertised
advertised-Tells listen advertise = elim (Bool-cases (advertise == [])) [
  | inl e ↦ rw e (inl (ground arith, refl))
  | inr e ↦ rw e (inr (λ q. absurd (ground (arith, q)), refl))
]

module _ (E : Env) (o : Orders) (now : ℕ) (entropy : Result Bytes)
    (rdb : Option (List RedisCommand)) (world : E.grpc.World) (db : E.redis.Db)
    (listens : Bytes → Option Bytes) where
  -- What a node has that was started with these values of the flags.
  pub record IsStarted (fs : ServeFlags) (h : Host E) : Type 0 where
    pub sound : IsSound E h
    pub grpc : Tells (fs.text (codes "grpc")) (fs.text (codes "advertise-grpc")) h.grpc_addr
    pub http : Tells (fs.text (codes "http")) (fs.text (codes "advertise-http")) h.http_addr
    pub dir : (h.data_dir ≡ fs.text (codes "data")) × (fs.text (codes "data") ≢ [])
    pub bootstrap : h.bootstrap ≡ fs.text (codes "bootstrap")
    pub replicas : Wants (fs.number (codes "replication")) h.repl_factor
    pub listener : listens (fs.text (codes "grpc")) ≡ none

  abbrev Starts : ServeFlags → Result (Host E) × E.disk.Files → Type 0
  Starts fs (err e, files) = Unit
  Starts fs (ok h, files) = IsStarted fs h

  new_host-Wants :
      (cfg : Config) (pid : Bytes) (store : E.storage.Store) (files : E.disk.Files)
      → Wants cfg.replication_factor (new_host E o now cfg pid rdb store files world db).repl_factor
  unfolding new_host
  new_host-Wants cfg pid store files = elim (Bool-cases (ltb cfg.replication_factor 1)) [
    | inl e ↦ rw e (inl (ground arith, refl))
    | inr e ↦ rw e (inr (ground arith, refl))
  ]

  listening-Starts :
      (fs : ServeFlags) (pid : Bytes) (store : E.storage.Store) (files : E.disk.Files)
      (l : Option Bytes)
      → fs.text (codes "data") ≢ []
      → listens (fs.text (codes "grpc")) ≡ l
      → Starts fs (
        listening E o now entropy rdb world db listens
            (fs.text (codes "grpc"))
            (new_host E o now (host_config (serve_config fs)) pid rdb store files world db)
            l,
        files,
      )
  unfolding listening
  listening-Starts fs pid store files (some e) given q = tt
  listening-Starts fs pid store files none given q = record {
    sound =
        unfold happen_all in
        happen_all-new_host-IsSound E o now (host_config (serve_config fs)) pid rdb store files
          world db [];
    grpc =
        unfold new_host host_config in
        advertised-Tells (fs.text (codes "grpc")) (fs.text (codes "advertise-grpc"));
    http =
        unfold new_host host_config in
        advertised-Tells (fs.text (codes "http")) (fs.text (codes "advertise-http"));
    dir = (unfold new_host host_config in refl, given);
    bootstrap = unfold new_host host_config in refl;
    replicas = unfold host_config in new_host-Wants (host_config (serve_config fs)) pid store files;
    listener = q;
  }

  opened-Starts :
      (fs : ServeFlags) (pid : Bytes) (s : Result E.storage.Store × E.disk.Files)
      → fs.text (codes "data") ≢ []
      → Starts fs (
          after_host E o now entropy rdb world db listens
            (serve_config fs).grpc_addr
            (opened_host E o now (host_config (serve_config fs)) pid rdb world db s))
  unfolding opened_host after_host
  opened-Starts fs pid (err e, files) given = tt
  opened-Starts fs pid (ok store, files) given =
      listening-Starts fs pid store files (listens (serve_config fs).grpc_addr) given refl

  identified-Starts :
      (fs : ServeFlags) (i : Result Bytes × E.disk.Files)
      → fs.text (codes "data") ≢ []
      → Starts fs (
          after_host E o now entropy rdb world db listens
            (serve_config fs).grpc_addr
            (identified_host E o now (host_config (serve_config fs)) rdb world db i))
  unfolding identified_host after_host
  identified-Starts fs (err e, files) given = tt
  identified-Starts fs (ok pid, files) given =
      opened-Starts fs pid (E.storage.new_store (host_config (serve_config fs)).data_dir files)
        given

  host-Starts :
      (fs : ServeFlags) (files : E.disk.Files)
      → fs.text (codes "data") ≢ []
      → Starts fs (
          after_host E o now entropy rdb world db listens
            (serve_config fs).grpc_addr
            (new_peer_host E o now (host_config (serve_config fs)) entropy rdb files world db))
  unfolding new_peer_host after_host host_config
  host-Starts fs files given = elim (Bool-cases ((serve_config fs).data_dir == [])) [
    | inl e ↦ rw e tt
    | inr e ↦ elim (Option-cases (E.disk.mkdir_all (serve_config fs).data_dir files).0) [
      | inl n ↦
          rw (e, n)
            (identified-Starts fs
              (load_or_create_peer_id E.disk (join (serve_config fs).data_dir (codes "peer.id"))
                entropy (E.disk.mkdir_all (serve_config fs).data_dir files).1)
              given)
      | inr (x, n) ↦ rw (e, n) tt
    ]
  ]

  -- A node that is started was given flags that were parsed from its arguments, and it is as they say.
  abbrev Runs : Result ServeFlags → Result (Host E) × E.disk.Files → Type 0
  Runs parsed (err e, files) = Unit
  Runs parsed (ok h, files) = (fs : ServeFlags) × (parsed ≡ ok fs) × IsStarted fs h

  ran : (fs : ServeFlags) (r : Result (Host E) × E.disk.Files) → Starts fs r → Runs (ok fs) r
  ran fs (err e, files) s = tt
  ran fs (ok h, files) s = (fs, refl, s)

  start-Runs :
      (fs : ServeFlags) (files : E.disk.Files)
      → Runs (ok fs) (start E o now entropy rdb world db listens (ok (serve_config fs)) files)
  unfolding start
  start-Runs fs files = elim (Bool-cases ((serve_config fs).data_dir == [])) [
    | inl e ↦ rw e tt
    | inr e ↦ rw e (
        ran fs
          (after_host E o now entropy rdb world db listens (serve_config fs).grpc_addr
            (new_peer_host E o now (host_config (serve_config fs)) entropy rdb files world db))
          (host-Starts fs files (λ q. absurd (ground (arith, q)))))
  ]

  parse_serve_flags-ok :
      (parse : ServeParser) (args : List Bytes) (fs : ServeFlags)
      → parse text_flags number_flags args ≡ ok fs
      → parse_serve_flags parse args ≡ ok (serve_config fs)
  unfolding parse_serve_flags
  parse_serve_flags-ok parse args fs e = rw (e, parse_serve_flags) refl

  parse_serve_flags-err :
      (parse : ServeParser) (args : List Bytes) (x : Bytes)
      → parse text_flags number_flags args ≡ err x
      → parse_serve_flags parse args ≡ err x
  unfolding parse_serve_flags
  parse_serve_flags-err parse args x e = rw (e, parse_serve_flags) refl

  abbrev started : Result ServeConfig → E.disk.Files → Result (Host E) × E.disk.Files
  started parsed files = start E o now entropy rdb world db listens parsed files

  run_serve-Runs :
      (parse : ServeParser) (args : List Bytes) (files : E.disk.Files)
      → Runs
          (parse text_flags number_flags args)
          (run_serve E o now entropy rdb world db listens parse args files)
  unfolding run_serve
  run_serve-Runs parse args files = elim (Result-cases (parse text_flags number_flags args)) [
    | inl (fs, e) ↦
        subst (λ z. Runs z (started (parse_serve_flags parse args) files)) (sym e)
          (subst (λ z. Runs (ok fs) (started z files)) (sym (parse_serve_flags-ok parse args fs e))
            (start-Runs fs files))
    | inr (x, e) ↦
        subst (λ z. Runs (parse text_flags number_flags args) (started z files))
          (sym (parse_serve_flags-err parse args x e)) (unfold start in tt)
  ]

  -- A node that `node serve` starts was given flags that were parsed from the arguments. It tells others
  -- the addresses to advertise, or those that it listens on where these are empty, keeps the directory,
  -- which is not empty, and the address of the discovery server, wants as many replicas as it was told,
  -- or three where it was told none, can listen on its gRPC address, and its registry and provider
  -- records are sound.
  pub run_serve-IsStarted :
      (parse : ServeParser) (args : List Bytes) (files files' : E.disk.Files) (h : Host E)
      → run_serve E o now entropy rdb world db listens parse args files ≡ (ok h, files')
      → (fs : ServeFlags) × (parse text_flags number_flags args ≡ ok fs) × IsStarted fs h
  run_serve-IsStarted parse args files files' h q =
      subst (Runs (parse text_flags number_flags args)) q (run_serve-Runs parse args files)

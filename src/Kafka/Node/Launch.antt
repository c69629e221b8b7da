-- ===== src/Kafka/Node/Launch.antt =====
-- A node of a Kafka cluster from the specification to its running server.
use mongoctl.Prelude.{
  ◌≡◌, ◌≢◌, List, [], ◌∷◌, ◌++◌, Bytes, codes, Option, some, true, false, All, ok,
}
use mongoctl.Text.Parts.{split}
use mongoctl.Stateless.{Engine, Fired}
use mongoctl.Kafka.{KafkaConfig, KafkaCandidateReport, KafkaReplSetSpec, generate_repl_config}
use mongoctl.Kafka.Machine.{
  State, init, startup, Trigger, start, Arg, spec, opened, KafkaSm, create_props, storage_args,
  new_kafka_sm, fire,
}
use mongoctl.Kafka.Runs.{start_succeeds}
use mongoctl.Kafka.Process.{server_args}
use mongoctl.Kafka.Properties.{Files, normalize, cfg_file, render, create_config}
use mongoctl.Kafka.Properties.ReadBack.{IsOneLine, read_property}
use mongoctl.Kafka.Properties.File.{IsServable, endpoints, create_config_servers}
use mongoctl.Kafka.Node.{Shell, command_env, node_host}

module _ {W : Type 0} (fs : Files W) (sh : Shell W) where
  -- The file that `createConfig` writes, and the path that the server is started on.
  abbrev pub file : Bytes
  file = cfg_file fs sh.alloc_dir

  abbrev pub used : Bytes
  used = normalize fs.clean (cfg_file fs sh.alloc_dir)

  -- The calls for a specification succeed: the file is written; in the world `w'` the storage is
  -- formatted for the specification's cluster and controllers, with that file's path as the
  -- configuration; and java is started with the same path, which leaves `w''`.
  pub record Works (cfg : KafkaConfig) (s : KafkaReplSetSpec) (w w' w'' : W) : Type 0 where
    pub made : W
    pub emptied : W
    pub formatted : W
    pub makes : fs.mkdir_all (fs.dir file) (sh.clean_deleted sh.meta_dir w) ≡ (ok tt, made)
    pub empties : fs.open_empty file made ≡ (ok tt, emptied)
    pub writes :
        fs.write file (render (create_props (normalize fs.clean) cfg s)) emptied ≡ (ok tt, w')
    pub formats :
        sh.run_command
          (codes "cmd")
          (codes "/c"
            ∷ codes "kafka-storage.bat"
            ∷ codes "format"
            ∷ codes "-t"
            ∷ s.cluster_id
            ∷ codes "-c"
            ∷ used
            ∷ codes "--initial-controllers"
            ∷ s.bootstrap_servers_storage
            ∷ codes "--ignore-formatted"
            ∷ [])
          (command_env fs sh)
          w'
        ≡ (ok tt, formatted)
    pub starts :
        sh.start_command
          (codes "java")
          (codes "-Xmx1G"
            ∷ codes "-Xms1G"
            ∷ codes "-server"
            ∷ codes "-XX:+UseG1GC"
            ∷ codes "-XX:MaxGCPauseMillis=20"
            ∷ codes "-XX:InitiatingHeapOccupancyPercent=35"
            ∷ codes "-XX:+ExplicitGCInvokesConcurrent"
            ∷ codes "-Djava.awt.headless=true"
            ∷ (codes "-Dkafka.logs.dir="
                ++ fs.join_path sh.tools (codes "../../config/log4j2.yaml"))
            ∷ codes "-cp"
            ∷ fs.join_path sh.tools (codes "../../libs/*")
            ∷ codes "kafka.Kafka"
            ∷ used
            ∷ [])
          (command_env fs sh)
          formatted
        ≡ (ok tt, w'')

  -- The manager is in `startup` with its monitor running, and from the file as it was when the
  -- storage was formatted the bootstrap servers are read back as the candidates' endpoints.
  abbrev pub Serves :
      (W → Bytes → Bytes)
      → List KafkaCandidateReport
      → W
      → W
      → Option (Fired State Trigger Arg (KafkaSm W))
      → Type 0
  Serves content cs w' w'' r =
      (r
        ≡ some (record {
          outcome = ok tt;
          state = startup;
          world = record {
            cfg_file = used;
            stop = opened;
            cancel = true;
            cancelled = false;
            exited = false;
            world = w'';
          };
          queued = [];
        }))
      × (v : Bytes) × (read_property (codes "controller.quorum.bootstrap.servers") (content w' file)
          ≡ some v)
      × (split b',' v ≡ endpoints cs)

module _ {W : Type 0} (fs : Files W) (sh : Shell W) (content : W → Bytes → Bytes)
    -- The configurations of the node, and of the controller that made the specification.
    (cfg own : KafkaConfig) (e : Engine State Trigger Arg (KafkaSm W))
    -- A file that was written without an error holds what was written.
    (stored : (file text : Bytes) (w w' : W)
      → fs.write file text w ≡ (ok tt, w')
      → content w' file ≡ text) where
  -- A node that starts with a specification of one candidate or more, whose controllers' addresses
  -- and ports hold no comma and no byte that HTML escapes, where no property holds a line's end:
  -- where the calls of the files and the commands succeed, it formats its storage and starts java
  -- on one file, and is in `startup` with the monitor running. From the file as it is when the
  -- storage is formatted, the bootstrap servers are read back as the candidates' endpoints, all and
  -- in order.
  pub node_launches :
      (cs : List KafkaCandidateReport) (w w' w'' : W)
      → let s = generate_repl_config own cs in
        cs ≢ []
        → All IsServable cs
        → IsOneLine (create_props (normalize fs.clean) cfg s)
        → Works fs sh cfg s w w' w''
        → Serves fs sh content cs w' w''
            (fire (node_host fs sh) cfg e start (spec s ∷ []) init (new_kafka_sm w))
  unfolding node_host create_config storage_args server_args
  node_launches cs w w' w'' ne h one works =
      let (created, _, v, found, parts) =
        create_config_servers fs content sh.alloc_dir cfg own stored cs
          (sh.clean_deleted sh.meta_dir w) works.made works.emptied w' ne h one works.makes
          works.empties works.writes in
      (
        start_succeeds (node_host fs sh) cfg e (generate_repl_config own cs) w w' works.formatted
            (cfg_file fs sh.alloc_dir) created w'' works.formats works.starts,
        v,
        found,
        parts,
      )

-- ===== src/Kafka/Node.antt =====
-- internal/replset/kafka-control.go: what the actions of `KafkaSM` call, on the files and the
-- commands of a node: an implementation of `KafkaHost`.
pub mod Launch
use mongoctl.Prelude.{List, Bytes, codes, Io}
use mongoctl.Kafka.Machine.{KafkaHost}
use mongoctl.Kafka.Properties.{Files, normalize, write_props}
use mongoctl.Kafka.Process.{server_env, server_args}

-- The environment of the program, and its commands.
pub record Shell (W : Type 0) : Type 0 where
  pub environ : List Bytes
  -- The variables PATH, KAFKA_TOOLS, NOMAD_ALLOC_DIR and KAFKA_META_DIR.
  pub path : Bytes
  pub tools : Bytes
  pub alloc_dir : Bytes
  pub meta_dir : Bytes
  -- `CleanKRaftDeletedFiles`; its result is only logged.
  pub clean_deleted : Bytes → W → W
  -- A command with its arguments and its environment, to its end or only started.
  pub run_command : Bytes → List Bytes → List Bytes → Io W Unit
  pub start_command : Bytes → List Bytes → List Bytes → Io W Unit

module _ {W : Type 0} (fs : Files W) (sh : Shell W) where
  -- The environment of both commands.
  unfoldable pub command_env : List Bytes
  unfolding server_env normalize
  command_env =
      server_env sh.environ sh.path
        (normalize fs.clean (fs.join_path sh.alloc_dir (codes "kafka-logs")))

  unfoldable pub node_host : KafkaHost W
  unfolding command_env normalize write_props server_args
  node_host = record {
    clean = sh.clean_deleted sh.meta_dir;
    normalize = normalize fs.clean;
    write_config = write_props fs sh.alloc_dir;
    run_storage = λ args. sh.run_command (codes "cmd") args command_env;
    start_process = λ file.
        sh.start_command (codes "java") (server_args fs.join_path sh.tools file) command_env;
  }

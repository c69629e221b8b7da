-- ===== src/Program/Start.antt =====
-- cmd/goctl/main.go: `main`, which makes the controllers and calls one of their tasks.
pub mod Launch
use mongoctl.Prelude.{
  Option, none, some, Bytes, codes, str_eq, if◌then◌else◌, Outcome, ok, err, panic, Io, pure, abort,
}
use mongoctl.Mongo.Status.{MongoConfig}
use mongoctl.Kafka.{KafkaConfig}
use mongoctl.Store.{ConsulStore, ConsulStoreConfig, new_consul_store}
use mongoctl.Program.{Viper, Settings, configure}

-- The flags `type`, `task` and `jobFile`.
pub record Flags : Type 0 where
  pub repl_type : Bytes
  pub task_type : Bytes
  pub job_file : Bytes

pub record ReplicaController (U : Type 0) : Type 0 where
  pub pre_start_task : Bytes → Io U Unit
  pub controller_task : Bytes → Io U Unit
  pub member_task : Bytes → Io U Unit

-- `NewMongoController` and `NewKafkaController`: the configuration, Nomad's address, the file of the
-- job, and the store, which may be nil.
pub record Controllers (W U : Type 0) : Type 0 where
  pub new_mongo : MongoConfig → Bytes → Bytes → Option (ConsulStore W) → ReplicaController U
  pub new_kafka : KafkaConfig → Bytes → Bytes → Option (ConsulStore W) → ReplicaController U

unfoldable pub mongo_config : Settings → MongoConfig
mongo_config s = record {
  addr = s.mongo_addr;
  port = s.mongo_port;
  local_addr = s.mongo_local_addr;
  local_port = s.mongo_local_port;
  db_path = s.mongo_data_dir;
  rs_name = s.mongo_rsname;
  node_id = s.node_id;
  node_name = s.node_name;
  key_file = s.mongo_secret_file;
}

unfoldable pub kafka_config : Settings → KafkaConfig
kafka_config s = record {
  cluster_id = s.kafka_cluster_id;
  storage_id = s.kafka_storage_id;
  node_id = s.node_id;
  node_name = s.node_name;
  log_dir = s.kafka_log_dir;
  meta_dir = s.kafka_meta_dir;
  dat_dir = s.kafka_data_dir;
  broker_addr = s.kafka_broker_addr;
  broker_port = s.kafka_broker_port;
  controller_addr = s.kafka_controller_addr;
  controller_port = s.kafka_controller_port;
}

abbrev pub mongo_paths : ConsulStoreConfig
mongo_paths = record {
  report_path = codes "status/mongo";
  health_path = codes "health/mongo";
  config_path = codes "config/mongo";
}

abbrev pub kafka_paths : ConsulStoreConfig
kafka_paths = record {
  report_path = codes "status/kafka";
  health_path = codes "health/kafka";
  config_path = codes "config/kafka";
}

-- The error of `NewConsulStore` is dropped: the store is nil then.
abbrev pub or_nil : {S : Type 0} → Outcome S → Option S
or_nil (ok s) = some s
or_nil (err e) = none
or_nil panic = none

module _ {W U : Type 0} (new_client : Bytes → Outcome W) (c : Controllers W U) where
  -- The switch on the type. The interface is nil where it names no type.
  unfoldable pub controller_of : Settings → Flags → Option (ReplicaController U)
  unfolding mongo_config kafka_config
  controller_of s f =
      let ms = or_nil (new_consul_store new_client s.consul_http_addr mongo_paths) in
      let mc = c.new_mongo (mongo_config s) s.nomad_addr f.job_file ms in
      let ks = or_nil (new_consul_store new_client s.consul_http_addr kafka_paths) in
      let kc = c.new_kafka (kafka_config s) s.nomad_addr f.job_file ks in
      if str_eq f.repl_type (codes "kafka")
      then some kc
      else if str_eq f.repl_type (codes "mongo")
      then some mc
      else none

  -- A call on a nil interface panics.
  abbrev pub invoke : Option (ReplicaController U) → (ReplicaController U → Io U Unit) → Io U Unit
  invoke none task = abort
  invoke (some ctrl) task = task ctrl

  -- The switch on the task.
  unfoldable pub run_task : Option (ReplicaController U) → Settings → Flags → Io U Unit
  run_task ctrl s f =
      if str_eq f.task_type (codes "prestart")
      then invoke ctrl (λ k. k.pre_start_task s.node_name)
      else if str_eq f.task_type (codes "controller")
      then invoke ctrl (λ k. k.controller_task f.job_file)
      else if str_eq f.task_type (codes "member")
      then invoke ctrl (λ k. k.member_task s.node_name)
      else pure tt

  module _ {V : Type 0} (vi : Viper V) where
    unfoldable pub main : Bytes → Flags → V → Io U Unit
    unfolding controller_of run_task
    main tmp f v = let s = configure vi tmp f.job_file v in run_task (controller_of s f) s f

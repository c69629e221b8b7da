-- ===== src/Program.antt =====
-- cmd/goctl/main.go: `configure`, which reads the settings of a run from its environment.
-- The package viper is the interface `Viper`.
pub mod Laws
pub mod Defaults
pub mod Quorum
pub mod Start
use mongoctl.Prelude.{ℕ, ◌+◌, ◌/◌, ◌%◌, ◌^◌, List, [], ◌∷◌, Option, none, some, Bytes, codes}

pub data Value : Type 0 where
  txt : Bytes → Value
  num : ℕ → Value

-- `V` is what the package keeps.
pub record Viper (V : Type 0) : Type 0 where
  pub set_default : Bytes → Value → V → V
  pub bind_env : Bytes → Bytes → V → V
  pub get_string : Bytes → V → Bytes
  pub get_uint : Bytes → V → ℕ

-- `uint(CLUSTER_SIZE/2) + 1`.
unfoldable pub quroum_of : ℕ → ℕ
quroum_of size = (size / 2 + 1) % 2 ^ 64

-- A key with its default, and the variable that it is bound to.
pub data Setting : Type 0 where
  text : Bytes → Bytes → Bytes → Setting
  number : Bytes → ℕ → Bytes → Setting
  unbound : Bytes → Bytes → Setting

-- The calls of `SetDefault` and `BindEnv`, in order. `tmp` is the joined path of the temporary
-- directory.
unfoldable pub settings : Bytes → Bytes → List Setting
settings tmp job_file =
    (text (codes "mongo.address") (codes "127.0.0.1") (codes "MONGO_ADDR")
      ∷ text (codes "mongo.port") (codes "27017") (codes "MONGO_PORT")
      ∷ text (codes "mongo.localaddress") (codes "127.0.0.1") (codes "MONGO_LOCAL_ADDR")
      ∷ text (codes "mongo.localport") (codes "27017") (codes "MONGO_LOCAL_PORT")
      ∷ text (codes "mongo.dbpath") tmp (codes "MONGO_DB_PATH")
      ∷ text (codes "mongo.rsname") (codes "rs0") (codes "MONGO_RS_NAME")
      ∷ text (codes "mongo.secretfile") [] (codes "MONGO_SECRET_FILE")
      ∷ text (codes "node.id") (codes "0") (codes "NODE_ID")
      ∷ text (codes "node.name") (codes "node-0") (codes "NODE_NAME")
      ∷ text (codes "nomad.addr") (codes "http://127.0.0.1:14646") (codes "NOMAD_ADDR")
      ∷ text (codes "consul.http.addr") (codes "http://127.0.0.1:8500") (codes "CONSUL_HTTP_ADDR")
      ∷ number (codes "cluster.size") 6 (codes "CLUSTER_SIZE")
      ∷ unbound (codes "job.file") job_file
      ∷ text (codes "kafka.storageid") [] (codes "KAFKA_STORAGE_ID")
      ∷ text (codes "kafka.clusterid") [] (codes "KAFKA_CLUSTER_ID")
      ∷ text (codes "kafka.datadir") [] (codes "KAFKA_DATA_DIR")
      ∷ text (codes "kafka.logdir") [] (codes "KAFKA_LOG_DIR")
      ∷ text (codes "kafka.metadir") [] (codes "KAFKA_META_DIR")
      ∷ text (codes "kafka.broker.addr") [] (codes "KAFKA_BROKER_ADDR")
      ∷ text (codes "kafka.broker.port") [] (codes "KAFKA_BROKER_PORT")
      ∷ text (codes "kafka.controller.addr") [] (codes "KAFKA_CONTROLLER_ADDR")
      ∷ text (codes "kafka.controller.port") [] (codes "KAFKA_CONTROLLER_PORT")
      ∷ [])

-- The package's variables that `configure` sets from the settings.
pub record Settings : Type 0 where
  pub kafka_cluster_id : Bytes
  pub kafka_storage_id : Bytes
  pub kafka_data_dir : Bytes
  pub kafka_log_dir : Bytes
  pub kafka_meta_dir : Bytes
  pub kafka_broker_addr : Bytes
  pub kafka_broker_port : Bytes
  pub kafka_controller_addr : Bytes
  pub kafka_controller_port : Bytes
  pub node_id : Bytes
  pub node_name : Bytes
  pub mongo_rsname : Bytes
  pub mongo_data_dir : Bytes
  pub mongo_secret_file : Bytes
  pub mongo_addr : Bytes
  pub mongo_port : Bytes
  pub mongo_local_addr : Bytes
  pub mongo_local_port : Bytes
  pub nomad_addr : Bytes
  pub consul_http_addr : Bytes
  pub cluster_size : ℕ
  pub quroum_size : ℕ

module _ {V : Type 0} (vi : Viper V) where
  unfoldable pub put_setting : Setting → V → V
  put_setting (text key d env) v = vi.bind_env key env (vi.set_default key (Value.txt d) v)
  put_setting (number key d env) v = vi.bind_env key env (vi.set_default key (Value.num d) v)
  put_setting (unbound key d) v = vi.set_default key (Value.txt d) v

  unfoldable pub put_settings : List Setting → V → V
  put_settings [] v = v
  put_settings (s ∷ ss) v = put_settings ss (put_setting s v)

  unfoldable pub configure : Bytes → Bytes → V → Settings
  unfolding quroum_of
  configure tmp job_file v =
      let v' = put_settings (settings tmp job_file) v in
      record {
        kafka_cluster_id = vi.get_string (codes "kafka.clusterid") v';
        kafka_storage_id = vi.get_string (codes "kafka.storageid") v';
        kafka_data_dir = vi.get_string (codes "kafka.datadir") v';
        kafka_log_dir = vi.get_string (codes "kafka.logdir") v';
        kafka_meta_dir = vi.get_string (codes "kafka.metadir") v';
        kafka_broker_addr = vi.get_string (codes "kafka.broker.addr") v';
        kafka_broker_port = vi.get_string (codes "kafka.broker.port") v';
        kafka_controller_addr = vi.get_string (codes "kafka.controller.addr") v';
        kafka_controller_port = vi.get_string (codes "kafka.controller.port") v';
        node_id = vi.get_string (codes "node.id") v';
        node_name = vi.get_string (codes "node.name") v';
        mongo_rsname = vi.get_string (codes "mongo.rsname") v';
        mongo_data_dir = vi.get_string (codes "mongo.dbpath") v';
        mongo_secret_file = vi.get_string (codes "mongo.secretfile") v';
        mongo_addr = vi.get_string (codes "mongo.address") v';
        mongo_port = vi.get_string (codes "mongo.port") v';
        mongo_local_addr = vi.get_string (codes "mongo.localaddress") v';
        mongo_local_port = vi.get_string (codes "mongo.localport") v';
        nomad_addr = vi.get_string (codes "nomad.addr") v';
        consul_http_addr = vi.get_string (codes "consul.http.addr") v';
        cluster_size = vi.get_uint (codes "cluster.size") v';
        quroum_size = quroum_of (vi.get_uint (codes "cluster.size") v');
      }

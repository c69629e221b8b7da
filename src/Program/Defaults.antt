-- ===== src/Program/Defaults.antt =====
-- What `configure` reads: of each setting its variable of the environment, or else its default.
use mongoctl.Prelude.{
  ℕ, zero, suc, List, [], ◌∷◌, some, Bool, true, ◌&&◌, ◌≡◌, refl, ◌∙◌, arith, Bytes, codes, str_eq,
  if◌then◌else◌, get_elem?, drop, take,
}
use mathlib.Core.Option.{some-injective}
use mongoctl.Program.{
  Value, Viper, Setting, text, number, unbound, settings, Settings, quroum_of, put_setting,
  put_settings, configure,
}
use mongoctl.Program.Laws.{within, apart, or_default, IsViper}

abbrev key_of : Setting → Bytes
key_of (text key d env) = key
key_of (number key d env) = key
key_of (unbound key d) = key

-- The settings as a table of variables and defaults.
pub expected : (Bytes → Bytes) → (Bytes → ℕ) → Bytes → Settings
expected env to_uint tmp = record {
  kafka_cluster_id = or_default env (codes "KAFKA_CLUSTER_ID") [];
  kafka_storage_id = or_default env (codes "KAFKA_STORAGE_ID") [];
  kafka_data_dir = or_default env (codes "KAFKA_DATA_DIR") [];
  kafka_log_dir = or_default env (codes "KAFKA_LOG_DIR") [];
  kafka_meta_dir = or_default env (codes "KAFKA_META_DIR") [];
  kafka_broker_addr = or_default env (codes "KAFKA_BROKER_ADDR") [];
  kafka_broker_port = or_default env (codes "KAFKA_BROKER_PORT") [];
  kafka_controller_addr = or_default env (codes "KAFKA_CONTROLLER_ADDR") [];
  kafka_controller_port = or_default env (codes "KAFKA_CONTROLLER_PORT") [];
  node_id = or_default env (codes "NODE_ID") (codes "0");
  node_name = or_default env (codes "NODE_NAME") (codes "node-0");
  mongo_rsname = or_default env (codes "MONGO_RS_NAME") (codes "rs0");
  mongo_data_dir = or_default env (codes "MONGO_DB_PATH") tmp;
  mongo_secret_file = or_default env (codes "MONGO_SECRET_FILE") [];
  mongo_addr = or_default env (codes "MONGO_ADDR") (codes "127.0.0.1");
  mongo_port = or_default env (codes "MONGO_PORT") (codes "27017");
  mongo_local_addr = or_default env (codes "MONGO_LOCAL_ADDR") (codes "127.0.0.1");
  mongo_local_port = or_default env (codes "MONGO_LOCAL_PORT") (codes "27017");
  nomad_addr = or_default env (codes "NOMAD_ADDR") (codes "http://127.0.0.1:14646");
  consul_http_addr = or_default env (codes "CONSUL_HTTP_ADDR") (codes "http://127.0.0.1:8500");
  cluster_size =
      if str_eq (env (codes "CLUSTER_SIZE")) [] then 6 else to_uint (env (codes "CLUSTER_SIZE"));
  quroum_size =
      quroum_of (
        if str_eq (env (codes "CLUSTER_SIZE")) [] then 6 else to_uint (env (codes "CLUSTER_SIZE")));
}

all_apart : Bytes → List Setting → Bool
all_apart k [] = true
all_apart k (s ∷ ss) = apart k (key_of s) && all_apart k ss

module _ {V : Type 0} (vi : Viper V) (env : Bytes → Bytes) (to_uint : Bytes → ℕ)
    (IsUnset : Bytes → V → Type 0) (law : IsViper vi env to_uint IsUnset) where
  put_other :
      (k : Bytes) (s : Setting) (v : V)
      → apart k (key_of s) ≡ true
      → (vi.get_string k (put_setting vi s v) ≡ vi.get_string k v)
        × (vi.get_uint k (put_setting vi s v) ≡ vi.get_uint k v)
        × (IsUnset k v → IsUnset k (put_setting vi s v))
  unfolding put_setting
  put_other k (text key d e) v h =
      let (a, b, c) = law.env_apart k key e (vi.set_default key (Value.txt d) v) h in
      let (a', b', c') = law.default_apart k key (Value.txt d) v h in
      (a ∙ a', b ∙ b', λ u. c (c' u))
  put_other k (number key d e) v h =
      let (a, b, c) = law.env_apart k key e (vi.set_default key (Value.num d) v) h in
      let (a', b', c') = law.default_apart k key (Value.num d) v h in
      (a ∙ a', b ∙ b', λ u. c (c' u))
  put_other k (unbound key d) v h = law.default_apart k key (Value.txt d) v h

  puts_other :
      (k : Bytes) (ss : List Setting) (v : V)
      → all_apart k ss ≡ true
      → (vi.get_string k (put_settings vi ss v) ≡ vi.get_string k v)
        × (vi.get_uint k (put_settings vi ss v) ≡ vi.get_uint k v)
  unfolding put_settings all_apart
  puts_other k [] v h = (refl, refl)
  puts_other k (s ∷ ss) v h =
      let (a, b) = puts_other k ss (put_setting vi s v) (ground arith) in
      let (a', b', _) = put_other k s v (ground arith) in (a ∙ a', b ∙ b')

  -- A setting is read back after those that follow it, where those before it leave its key unset.
  read_text :
      (ss : List Setting) (n : ℕ) (k d e : Bytes) (v : V)
      → IsUnset k v
      → get_elem? ss n ≡ some (text k d e)
      → all_apart k (take n ss) ≡ true
      → all_apart k (drop (suc n) ss) ≡ true
      → vi.get_string k (put_settings vi ss v) ≡ or_default env e d
  unfolding put_settings all_apart
  read_text [] n k d e v u at early free = cc
  read_text (s ∷ ss) zero k d e v u at early free =
      (puts_other k ss (put_setting vi s v) free).0
      ∙ rw (some-injective _ _ at) (unfold put_setting in law.text_read k d e v u)
  read_text (s ∷ ss) (suc n) k d e v u at early free =
      read_text ss n k d e (put_setting vi s v) ((put_other k s v (ground (arith, early))).2 u) at
        (ground (arith, early)) free

  read_number :
      (ss : List Setting) (n : ℕ) (k : Bytes) (d : ℕ) (e : Bytes) (v : V)
      → IsUnset k v
      → get_elem? ss n ≡ some (number k d e)
      → all_apart k (take n ss) ≡ true
      → all_apart k (drop (suc n) ss) ≡ true
      → vi.get_uint k (put_settings vi ss v) ≡ (if str_eq (env e) [] then d else to_uint (env e))
  unfolding put_settings all_apart
  read_number [] n k d e v u at early free = cc
  read_number (s ∷ ss) zero k d e v u at early free =
      (puts_other k ss (put_setting vi s v) free).1
      ∙ rw (some-injective _ _ at) (unfold put_setting in law.number_read k d e v u)
  read_number (s ∷ ss) (suc n) k d e v u at early free =
      read_number ss n k d e (put_setting vi s v) ((put_other k s v (ground (arith, early))).2 u) at
        (ground (arith, early)) free

  module _ (tmp job_file : Bytes) (v : V) (new : (k : Bytes) → IsUnset k v) where
    read :
        (n : ℕ) (k d e : Bytes)
        → get_elem? (settings tmp job_file) n ≡ some (text k d e)
        → all_apart k (take n (settings tmp job_file)) ≡ true
        → all_apart k (drop (suc n) (settings tmp job_file)) ≡ true
        → vi.get_string k (put_settings vi (settings tmp job_file) v) ≡ or_default env e d
    read n k d e = read_text (settings tmp job_file) n k d e v (new k)

    read_size : vi.get_uint (codes "cluster.size") (put_settings vi (settings tmp job_file) v) ≡ (
        if str_eq (env (codes "CLUSTER_SIZE")) [] then 6 else to_uint (env (codes "CLUSTER_SIZE")))
    unfolding settings all_apart apart within
    read_size =
        read_number (settings tmp job_file) 11 (codes "cluster.size") 6 (codes "CLUSTER_SIZE") v
          (new (codes "cluster.size")) refl refl refl

    -- In a package that nothing was set in, each variable of the program is the environment variable
    -- of the table, or its default where that one is empty; none depends on the others' keys, and
    -- the quorum is that of the size which is read.
    pub configure_lem : configure vi tmp job_file v ≡ expected env to_uint tmp
    unfolding configure expected settings all_apart apart within
    configure_lem = λ i. record {
      kafka_cluster_id =
          read 14 (codes "kafka.clusterid") [] (codes "KAFKA_CLUSTER_ID") refl refl refl i;
      kafka_storage_id =
          read 13 (codes "kafka.storageid") [] (codes "KAFKA_STORAGE_ID") refl refl refl i;
      kafka_data_dir = read 15 (codes "kafka.datadir") [] (codes "KAFKA_DATA_DIR") refl refl refl i;
      kafka_log_dir = read 16 (codes "kafka.logdir") [] (codes "KAFKA_LOG_DIR") refl refl refl i;
      kafka_meta_dir = read 17 (codes "kafka.metadir") [] (codes "KAFKA_META_DIR") refl refl refl i;
      kafka_broker_addr =
          read 18 (codes "kafka.broker.addr") [] (codes "KAFKA_BROKER_ADDR") refl refl refl i;
      kafka_broker_port =
          read 19 (codes "kafka.broker.port") [] (codes "KAFKA_BROKER_PORT") refl refl refl i;
      kafka_controller_addr =
          read 20 (codes "kafka.controller.addr") [] (codes "KAFKA_CONTROLLER_ADDR") refl refl refl
            i;
      kafka_controller_port =
          read 21 (codes "kafka.controller.port") [] (codes "KAFKA_CONTROLLER_PORT") refl refl refl
            i;
      node_id = read 7 (codes "node.id") (codes "0") (codes "NODE_ID") refl refl refl i;
      node_name = read 8 (codes "node.name") (codes "node-0") (codes "NODE_NAME") refl refl refl i;
      mongo_rsname =
          read 5 (codes "mongo.rsname") (codes "rs0") (codes "MONGO_RS_NAME") refl refl refl i;
      mongo_data_dir = read 4 (codes "mongo.dbpath") tmp (codes "MONGO_DB_PATH") refl refl refl i;
      mongo_secret_file =
          read 6 (codes "mongo.secretfile") [] (codes "MONGO_SECRET_FILE") refl refl refl i;
      mongo_addr =
          read 0 (codes "mongo.address") (codes "127.0.0.1") (codes "MONGO_ADDR") refl refl refl i;
      mongo_port =
          read 1 (codes "mongo.port") (codes "27017") (codes "MONGO_PORT") refl refl refl i;
      mongo_local_addr =
          read 2 (codes "mongo.localaddress") (codes "127.0.0.1") (codes "MONGO_LOCAL_ADDR") refl
            refl refl i;
      mongo_local_port =
          read 3 (codes "mongo.localport") (codes "27017") (codes "MONGO_LOCAL_PORT") refl refl refl
            i;
      nomad_addr =
          read 9 (codes "nomad.addr") (codes "http://127.0.0.1:14646") (codes "NOMAD_ADDR") refl
            refl refl i;
      consul_http_addr =
          read 10 (codes "consul.http.addr") (codes "http://127.0.0.1:8500")
            (codes "CONSUL_HTTP_ADDR") refl refl refl i;
      cluster_size = read_size i;
      quroum_size = quroum_of (read_size i);
    }

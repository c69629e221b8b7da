-- ===== src/Kafka.antt =====
-- internal/replset/kafka.go: the reports, the specification and the health of a Kafka cluster.
pub mod Spec
pub mod Machine
pub mod Runs
pub mod Serving
pub mod Monitor
pub mod Clean
pub mod Properties
pub mod Process
pub mod Node
use mongoctl.Prelude.{
  ℕ, ◌-◌, List, [], ◌∷◌, ◌++◌, map, Option, none, some, Bool, true, false, Bytes, codes, str_eq,
  str_lt, leb, if◌then◌else◌, Outcome, ok, err, panic, Io,
}
use mongoctl.Text.Parts.{join}

pub record KafkaCandidateReport : Type 0 where
  pub controller_addr : Bytes
  pub controller_port : Bytes
  pub broker_addr : Bytes
  pub broker_port : Bytes
  pub storage_id : Bytes
  pub m_time : Bytes
  pub node_id : Bytes
  pub node_name : Bytes

unfoldable pub less : KafkaCandidateReport → KafkaCandidateReport → Bool
less k other = str_lt k.m_time other.m_time

unfoldable get_id : KafkaCandidateReport → Bytes
get_id k = k.node_id

pub record KafkaReplSetSpec : Type 0 where
  pub bootstrap_servers : Bytes
  pub bootstrap_servers_storage : Bytes
  pub cluster_id : Bytes
  pub members : List Bytes

unfoldable pub get_members : KafkaReplSetSpec → Outcome (List Bytes)
get_members k = ok k.members

pub record KafkaHealthStatus : Type 0 where
  pub node_name : Bytes
  pub node_id : Bytes
  pub status : Bytes

-- `strings.ToUpper` of an ASCII text.
abbrev pub to_upper : ℕ → ℕ
to_upper c = if leb b'a' c then (if leb c b'z' then c - 32 else c) else c

pub is_healthy : KafkaHealthStatus → Bool
is_healthy k = str_eq (map to_upper k.status) (codes "OK")

pub record ServerProperties : Type 0 where
  pub id : Bytes
  pub controller_addr : Bytes
  pub broker_addr : Bytes
  pub meta_log_dir : Bytes
  pub log_dir : Bytes
  pub bootstrap_servers : Bytes

pub record KafkaConfig : Type 0 where
  pub cluster_id : Bytes
  pub storage_id : Bytes
  pub node_id : Bytes
  pub node_name : Bytes
  pub log_dir : Bytes
  pub meta_dir : Bytes
  pub dat_dir : Bytes
  pub controller_addr : Bytes
  pub controller_port : Bytes
  pub broker_addr : Bytes
  pub broker_port : Bytes

-- `mtime` prints the time of the data directory, and is empty where `os.Stat` fails.
pub collect : KafkaConfig → Outcome Bytes → KafkaCandidateReport
collect cfg mtime = record {
  controller_addr = cfg.broker_addr;
  controller_port = cfg.controller_port;
  broker_addr = cfg.broker_addr;
  broker_port = cfg.broker_port;
  storage_id = cfg.storage_id;
  node_id = cfg.node_id;
  node_name = cfg.node_name;
  m_time = elim mtime [ ok t ↦ t | err e ↦ [] | panic ↦ [] ];
}

-- `fmt.Sprintf("%s:%s", addr, port)`.
unfoldable pub endpoint : Bytes → Bytes → Bytes
endpoint addr port = addr ++ b':' ∷ port

-- `fmt.Sprintf("%s@%s:%s:%s", …)`.
unfoldable pub voter : KafkaCandidateReport → Bytes
voter m =
    m.node_id ++ b'@' ∷ (m.controller_addr ++ b':' ∷ (m.controller_port ++ b':' ∷ m.storage_id))

unfoldable pub generate_repl_config : KafkaConfig → List KafkaCandidateReport → KafkaReplSetSpec
generate_repl_config cfg cs = record {
  bootstrap_servers = join b',' (map (λ m. endpoint m.controller_addr m.controller_port) cs);
  bootstrap_servers_storage = join b',' (map voter cs);
  cluster_id = cfg.cluster_id;
  members = map (λ m. m.node_name) cs;
}

-- ===== src/Mongo/Offline.antt =====
-- internal/replset/mongo.go: `collect` and `getOfflineStatus`, which read a stopped member by a
-- mongod of their own; and the arguments of a mongod, from internal/util/mongo.go.
pub mod Collected
use mongoctl.Prelude.{
  ℕ, zero, suc, List, [], ◌∷◌, ◌++◌, map, Option, none, some, Bool, true, false, not, Bytes, codes,
  str_eq, if◌then◌else◌, Outcome, ok, err, panic, Error, Io, ◌>>=◌, ◌>>◌, pure, raise, handle, pos,
}
use mongoctl.Text.Parts.{join}
use mongoctl.Mongo.Types.{OpLog, ReplSetConfig}
use mongoctl.Mongo.Report.{MongoCandidateReport}
use mongoctl.Mongo.Members.{host_str}
use mongoctl.Mongo.Client.{Driver, repl_set_get_config_offline, get_oplog_window, has_user}
use mongoctl.Mongo.Status.{MongoConfig}
use mongoctl.Mongo.Member.{Host, wipe_db}

-- The settings of a `MongodMgm` that its arguments depend on.
pub record MongodMgm : Type 0 where
  pub bind_ip : Bytes
  pub bind_port : Bytes
  pub db_path : Bytes
  pub auth : Bool
  pub repl_set : Bytes
  pub key_file : Bytes

unfoldable pub mongod_args : MongodMgm → List Bytes → List Bytes
mongod_args m ext_args =
    (codes "--bind_ip"
      ∷ m.bind_ip
      ∷ codes "--port"
      ∷ m.bind_port
      ∷ codes "--dbpath"
      ∷ m.db_path
      ∷ [])
    ++ ((if m.auth then codes "--auth" ∷ codes "--keyFile" ∷ m.key_file ∷ [] else [])
        ++ ((if not (str_eq m.repl_set []) then codes "--replSet" ∷ m.repl_set ∷ [] else [])
            ++ ext_args))

-- A mongod of `getOfflineStatus`: on the local address, in no replica set, without authorization.
unfoldable pub offline_mongod : MongoConfig → MongodMgm
offline_mongod cfg = record {
  bind_ip = cfg.local_addr;
  bind_port = cfg.local_port;
  db_path = cfg.db_path;
  auth = false;
  repl_set = [];
  key_file = [];
}

-- A process of mongod, and the connection of a direct client to it.
pub record Mongod (W : Type 0) : Type 0 where
  pub launch : List Bytes → Io W Unit
  pub dial : Bytes → Bytes → Io W Unit
  pub ping : Io W Unit
  -- `ShutdownWithTimeout`: the seconds; its result is only logged.
  pub stop : ℕ → W → W

-- The identifier and the name are viper's `node.id` and `node.name`.
unfoldable pub bare_report : Bytes → Bytes → MongoConfig → MongoCandidateReport
bare_report node_id node_name cfg = record {
  node_id = node_id;
  node_name = node_name;
  repl_set_id = [];
  repl_set_name = [];
  members = [];
  term = pos 0;
  op_log_first_sec = 0;
  op_log_first_inc = 0;
  op_log_last_sec = 0;
  op_log_last_inc = 0;
  mongo_addr = cfg.addr;
  mongo_port = cfg.port;
}

module _ {W : Type 0} (d : Driver W) where
  unfoldable pub with_replset :
      ReplSetConfig → OpLog × OpLog → MongoCandidateReport → MongoCandidateReport
  with_replset c logs s = record s {
    repl_set_id = d.hex c.config.settings.replica_set_id;
    repl_set_name = c.config.id;
    members = join b',' (map host_str c.config.members);
    term = c.config.term;
    op_log_first_sec = logs.0.ts.t;
    op_log_first_inc = logs.0.ts.i;
    op_log_last_sec = logs.1.ts.t;
    op_log_last_inc = logs.1.ts.i;
  }

  -- A member with no stored configuration reports its address alone.
  unfoldable pub read_replset : ReplSetConfig → MongoCandidateReport → Io W MongoCandidateReport
  read_replset c s =
      if str_eq c.config.id []
      then pure s
      else (do logs ← get_oplog_window d; pure (with_replset c logs s))

  unfoldable pub ensure_admin : Bool → Io W Unit
  ensure_admin exists = if exists then pure tt else d.create_user (codes "admin") (codes "123")

module _ {W : Type 0} (d : Driver W) (m : Mongod W) (node_id node_name : Bytes) where
  stopped : MongoCandidateReport → Io W MongoCandidateReport
  stopped s w = (ok s, m.stop 3 w)

  -- The mongod is stopped where the report is made, and on no error.
  unfoldable pub get_offline_status : MongoConfig → Io W MongoCandidateReport
  unfolding stopped
  get_offline_status cfg = do
    m.launch (mongod_args (offline_mongod cfg) [])
    m.dial cfg.local_addr cfg.local_port
    m.ping
    exists ← has_user d (codes "admin")
    ensure_admin d exists
    c ← repl_set_get_config_offline d cfg.rs_name
    s ← read_replset d c (bare_report node_id node_name cfg)
    stopped s

  module _ (h : Host W) (cfg : MongoConfig) where
    -- The error of the wipe is logged.
    wiped : Io W Unit
    wiped w = let (x, w') = wipe_db h cfg.db_path w in handle x (λ e. pure tt) pure w'

    -- The attempts, the wipe after them, and the last attempt.
    unfoldable pub attempts : ℕ → Io W MongoCandidateReport
    unfolding wiped
    attempts zero w = (do wiped; get_offline_status cfg) w
    attempts (suc n) w =
        let (x, w') = get_offline_status cfg w in handle x (λ e. attempts n) (λ s. pure s) w'

    unfoldable pub collect : Io W MongoCandidateReport
    collect = attempts 2

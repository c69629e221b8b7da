-- ===== src/Mongo/Status.antt =====
-- internal/replset/mongo-control.go: `GetMemberStatus` and `checkWipeRequirment`.
pub mod Wipe
use mongoctl.Prelude.{
  ℕ, List, [], ◌∷◌, map, Option, none, some, Bool, true, false, not, ◌&&◌, Bytes, str_eq, ltb,
  if◌then◌else◌, pos, Io, ◌>>=◌, pure,
}
use mongoctl.Text.Parts.{join}
use mongoctl.Mongo.Types.{MongoStatus, ReplSetStatus, ReplSetConfig}
use mongoctl.Mongo.Spec.{MongoReplSetSpec}
use mongoctl.Mongo.Members.{host_str}
use mongoctl.Mongo.Client.{Driver, repl_set_get_status, repl_set_get_config}

pub record MongoConfig : Type 0 where
  pub addr : Bytes
  pub port : Bytes
  pub local_addr : Bytes
  pub local_port : Bytes
  pub db_path : Bytes
  pub rs_name : Bytes
  pub node_id : Bytes
  pub node_name : Bytes
  pub key_file : Bytes

-- The status with which `GetMemberStatus` begins.
unfoldable pub bare_status : MongoConfig → MongoStatus
bare_status cfg = record {
  node_id = cfg.node_id;
  node_name = cfg.node_name;
  repl_set_id = [];
  repl_set_name = [];
  members = [];
  term = pos 0;
  op_log_first_sec = 0;
  op_log_first_inc = 0;
  op_log_last_sec = 0;
  op_log_last_inc = 0;
  mongo_addr = cfg.addr;
  mongo_port = cfg.port;
}

unfoldable pub with_status : Option ReplSetStatus → MongoStatus → MongoStatus
with_status none m = m
with_status (some s) m = record m {
  op_log_last_inc = s.optimes.applied_op_time.ts.i;
  op_log_last_sec = s.optimes.applied_op_time.ts.t;
  term = s.term;
}

module _ {W : Type 0} (d : Driver W) where
  unfoldable pub with_config : Option ReplSetConfig → MongoStatus → MongoStatus
  unfolding join
  with_config none m = m
  with_config (some c) m = record m {
    repl_set_id = d.hex c.config.settings.replica_set_id;
    repl_set_name = c.config.id;
    members = join b',' (map host_str c.config.members);
  }

  unfoldable pub get_member_status : MongoConfig → Io W MongoStatus
  get_member_status cfg = do
    status ← repl_set_get_status d
    config ← repl_set_get_config d
    pure (with_config config (with_status status (bare_status cfg)))

-- The last test compares seconds with an increment, and decides nothing.
unfoldable pub check_wipe_requirment : MongoReplSetSpec → MongoStatus → Bool
check_wipe_requirment repl_config member_cfg =
    if str_eq member_cfg.repl_set_name []
    then false
    else if not (str_eq repl_config.repl_set_id member_cfg.repl_set_id)
        && not (str_eq repl_config.repl_set_id [])
    then true
    else if not (str_eq repl_config.repl_set_name member_cfg.repl_set_name)
    then true
    else if ltb member_cfg.op_log_last_inc repl_config.op_log_first_sec
    then false
    else false

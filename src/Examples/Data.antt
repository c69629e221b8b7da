-- ===== src/Examples/Data.antt =====
-- Three reports of a MongoDB replica set, and the services of a world that counts the calls.
use mathlib.Core.List.Permᴰ
use mongoctl.Prelude.{
  ℕ, ◌<◌, ◌^◌, ◌++◌, map, ℤ, Outcome, [], ◌∷◌, ◌≡◌, refl, arith, Bytes, codes, pos, negsuc, ok,
  some, ◌+◌, true,
}
use mongoctl.Mongo.Types.{MongoStatus, ReplSetStatus, Optime, Member, Replset, OpLog}
use mongoctl.Mongo.Report.{MongoCandidateReport}
use mongoctl.Mongo.Spec.{MongoReplSetSpec, member_str, generate_repl_config}
use mongoctl.Mongo.Spec.Names.{IsPrintable}
use mongoctl.Text.Parts.{join}
use mongoctl.Text.Decimal.{parse_int, parse_uint}
use mongoctl.Mongo.Members.Laws.{IsDistinct}
use mongoctl.Mongo.Members.Printed.{member_of, IsAddressed}
use mongoctl.Mongo.Members.{host_port}
use mongoctl.Mongo.Client.{Driver}
use mongoctl.Mongo.Primary.{RangeOrder}
use mongoctl.Mongo.Status.{MongoConfig}
use mongoctl.Mongo.Member.{Host}

abbrev pub report_of : Bytes → Bytes → ℕ → MongoCandidateReport
report_of id name sec = record {
  node_id = id;
  node_name = name;
  repl_set_id = [];
  repl_set_name = [];
  members = [];
  term = pos 0;
  op_log_first_sec = 0;
  op_log_first_inc = 0;
  op_log_last_sec = sec;
  op_log_last_inc = 0;
  mongo_addr = codes "10.0.0.1";
  mongo_port = codes "27017";
}

abbrev pub first : MongoCandidateReport
first = report_of (codes "1") (codes "n1") 5

abbrev pub second : MongoCandidateReport
second = report_of (codes "2") (codes "n2") 9

abbrev pub third : MongoCandidateReport
third = report_of (codes "3") (codes "n3") 9

pub first-IsPrintable : IsPrintable first
first-IsPrintable = record {
  id_plain = ground arith;
  name_plain = ground arith;
  addr_plain = ground arith;
  port_plain = ground arith;
}

pub second-IsPrintable : IsPrintable second
second-IsPrintable = record {
  id_plain = ground arith;
  name_plain = ground arith;
  addr_plain = ground arith;
  port_plain = ground arith;
}

pub third-IsPrintable : IsPrintable third
third-IsPrintable = record {
  id_plain = ground arith;
  name_plain = ground arith;
  addr_plain = ground arith;
  port_plain = ground arith;
}

-- A map visited in the order of its writes.
abbrev pub in_order : RangeOrder
in_order = record { visit = λ m. m; visit-Perm = Permᴰ.refl }

abbrev pub two_spec : MongoReplSetSpec
two_spec = record {
  count = 2;
  primary = codes "n1";
  members = codes "1:n1:10.0.0.1:27017,2:n2:10.0.0.1:27017";
  repl_set_id = [];
  repl_set_name = [];
  op_log_first_sec = 0;
  op_log_first_inc = 0;
  op_log_last_sec = 5;
  op_log_lastt_inc = 0;
}

pub made_two : generate_repl_config (first ∷ second ∷ []) ≡ ok two_spec
unfolding generate_repl_config member_str join
made_two = refl

pub IsDistinct-two : IsDistinct (map member_of (first ∷ second ∷ []))
unfolding parse_int parse_uint
IsDistinct-two = (((refl, tt)), (tt, tt))

abbrev pub member_at : ℕ → Member
member_at n = record { id = pos n; host = host_port (codes "10.0.0.1") (codes "27017") }

pub member_at-IsAddressed : (n : ℕ) → n < 2 ^ 31 → IsAddressed (member_at n)
member_at-IsAddressed n h = record {
  addr = codes "10.0.0.1";
  port = codes "27017";
  addr_plain = ground arith;
  port_plain = ground arith;
  host_eq = refl;
  id_fits = omega arith;
}

-- What the server stores and says of its set.
abbrev pub stored : Replset
stored = record {
  id = codes "rs0";
  members = member_at 1 ∷ member_at 2 ∷ [];
  term = pos 4;
  settings = record { replica_set_id = codes "ab" };
  version = pos 7;
}

abbrev pub oplog_of : ℤ → OpLog
oplog_of (pos n) = record { ts = record { t = 3; i = 1 } }
oplog_of (negsuc n) = record { ts = record { t = 9; i = 2 } }

-- A server in the set, and a world that counts the writes.
abbrev pub driver : Outcome ReplSetStatus → Driver ℕ
driver status = record {
  run_get_status = λ w. (status, w);
  run_get_config = λ w. (ok (record { config = stored }), w);
  find_replset = λ name w. (ok stored, w);
  run_reconfig = λ cfg w. (ok tt, w + 1);
  run_initiate = λ name ms w. (ok tt, w + 1);
  find_oplog = λ o w. (ok (oplog_of o), w);
  users_info = λ user w. (ok (some 1), w);
  create_user = λ user password w. (ok tt, w + 1);
  hex = λ x. x;
}

abbrev pub host : Host ℕ
host = record {
  stat = λ path w. (ok true, w);
  read_dir = λ path w. (ok [], w);
  remove_all = λ path w. (ok tt, w + 1);
  join_path = λ a b. a ++ b'/' ∷ b;
  shutdown = λ n w. w;
  start = λ w. (ok tt, w);
  connect = λ w. (ok tt, w);
}

abbrev pub config : MongoConfig
config = record {
  addr = codes "10.0.0.1";
  port = codes "27017";
  local_addr = codes "127.0.0.1";
  local_port = codes "27018";
  db_path = codes "/db";
  rs_name = codes "rs0";
  node_id = codes "1";
  node_name = codes "n1";
  key_file = codes "/key";
}

abbrev pub optime : Optime
optime = record { ts = record { t = 9; i = 2 }; t = pos 4 }

abbrev pub server_status : ReplSetStatus
server_status = record {
  set = codes "rs0";
  term = pos 4;
  optimes = record {
    last_committed_op_time = optime;
    read_concern_majority_op_time = optime;
    applied_op_time = optime;
    written_op_time = optime;
    durable_op_time = optime;
  };
  my_state = pos 1;
}

-- What a member of the set, with these members, reports of itself.
abbrev pub status_with : Bytes → Bytes → MongoStatus
status_with name members = record {
  node_id = codes "1";
  node_name = codes "n1";
  repl_set_id = codes "ab";
  repl_set_name = name;
  members = members;
  term = pos 4;
  op_log_first_sec = 0;
  op_log_first_inc = 0;
  op_log_last_sec = 9;
  op_log_last_inc = 2;
  mongo_addr = codes "10.0.0.1";
  mongo_port = codes "27017";
}

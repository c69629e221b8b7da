-- ===== src/Mongo/Types.antt =====
-- internal/util/types.go: what the driver decodes and what a member reports of itself.
-- An `int64` or `uint32` that the program only copies or compares is a number with no bound.
use mongoctl.Prelude.{ℕ, List, [], ◌≡◌, refl, Bytes, codes, if◌then◌else◌, ℤ, pos, int_eq}

-- The driver's `bson.ObjectID` and `bson.Timestamp`.
abbrev pub ObjectId : Type 0
ObjectId = Bytes

pub record Timestamp : Type 0 where
  pub t : ℕ
  pub i : ℕ

pub record Settings : Type 0 where
  pub replica_set_id : ObjectId

pub record Member : Type 0 where
  pub id : ℤ
  pub host : Bytes

pub record Replset : Type 0 where
  pub id : Bytes
  pub members : List Member
  pub term : ℤ
  pub settings : Settings
  pub version : ℤ

pub record OpLog : Type 0 where
  pub ts : Timestamp

pub record MongoStatus : Type 0 where
  pub node_id : Bytes
  pub node_name : Bytes
  pub repl_set_id : Bytes
  pub repl_set_name : Bytes
  pub members : Bytes
  pub term : ℤ
  pub op_log_first_sec : ℕ
  pub op_log_first_inc : ℕ
  pub op_log_last_sec : ℕ
  pub op_log_last_inc : ℕ
  pub mongo_addr : Bytes
  pub mongo_port : Bytes

pub record ReplSetConfig : Type 0 where
  pub config : Replset

pub record Optime : Type 0 where
  pub ts : Timestamp
  pub t : ℤ

pub record Optimes : Type 0 where
  pub last_committed_op_time : Optime
  pub read_concern_majority_op_time : Optime
  pub applied_op_time : Optime
  pub written_op_time : Optime
  pub durable_op_time : Optime

-- `type MongoStatusEnum int`: any integer may be decoded into it.
abbrev pub MongoStatusEnum : Type 0
MongoStatusEnum = ℤ

abbrev pub status_startup : MongoStatusEnum
status_startup = pos 0

abbrev pub status_primary : MongoStatusEnum
status_primary = pos 1

abbrev pub status_secondary : MongoStatusEnum
status_secondary = pos 2

abbrev pub status_recovering : MongoStatusEnum
status_recovering = pos 3

abbrev pub status_startup2 : MongoStatusEnum
status_startup2 = pos 5

abbrev pub status_unknown : MongoStatusEnum
status_unknown = pos 6

abbrev pub status_arbiter : MongoStatusEnum
status_arbiter = pos 7

abbrev pub status_down : MongoStatusEnum
status_down = pos 8

abbrev pub status_rollback : MongoStatusEnum
status_rollback = pos 9

abbrev pub status_removed : MongoStatusEnum
status_removed = pos 10

-- `String`, which `%s` calls.
unfoldable pub status_string : MongoStatusEnum → Bytes
status_string e =
    if int_eq e status_startup
    then codes "STARTUP"
    else if int_eq e status_primary
    then codes "PRIMARY"
    else if int_eq e status_secondary
    then codes "SECONDARY"
    else if int_eq e status_recovering
    then codes "RECOVERING"
    else if int_eq e status_startup2
    then codes "STARTUP2"
    else if int_eq e status_unknown
    then codes "UNKNOWN"
    else if int_eq e status_arbiter
    then codes "ARBITER"
    else if int_eq e status_down
    then codes "DOWN"
    else if int_eq e status_rollback
    then codes "ROLLBACK"
    else if int_eq e status_removed
    then codes "REMOVED"
    else []

pub record ReplSetStatus : Type 0 where
  pub set : Bytes
  pub term : ℤ
  pub optimes : Optimes
  pub my_state : MongoStatusEnum

status_string_gap : status_string (pos 4) ≡ []
unfolding status_string
status_string_gap = refl

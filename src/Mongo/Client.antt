-- ===== src/Mongo/Client.antt =====
-- internal/util/mongo.go: the administrative commands of `MongoClient`. The driver and the server
-- behind it are the interface `Driver`; `W` is all that they keep.
use mongoctl.Prelude.{
  ℕ, zero, suc, ◌+◌, ◌-◌, ◌^◌, List, [], ◌++◌, Option, none, some, Bool, false, Bytes, codes,
  str_eq, ltb, ◌==◌, if◌then◌else◌, ℤ, pos, negsuc, Outcome, ok, err, panic, command_error, failure,
  Io, ◌>>=◌, pure, abort, handle,
}
use mongoctl.Mongo.Types.{ObjectId, Member, Replset, ReplSetConfig, ReplSetStatus, OpLog}

-- What the program asks of `mongo.Client`: each command, with the reply that it decodes.
pub record Driver (W : Type 0) : Type 0 where
  pub run_get_status : Io W ReplSetStatus
  pub run_get_config : Io W ReplSetConfig
  pub find_replset : Bytes → Io W Replset
  pub run_reconfig : Replset → Io W Unit
  pub run_initiate : Bytes → List Member → Io W Unit
  -- The first record of `oplog.rs` in the given `$natural` order.
  pub find_oplog : ℤ → Io W OpLog
  -- The number of entries of the reply's `users`, if it is there.
  pub users_info : Bytes → Io W (Option ℕ)
  pub create_user : Bytes → Bytes → Io W Unit
  pub hex : ObjectId → Bytes

-- `x += 1` on an int.
unfoldable pub incr64 : ℤ → ℤ
incr64 (pos n) = if n == 2 ^ 63 - 1 then negsuc (2 ^ 63 - 1) else pos (n + 1)
incr64 (negsuc zero) = pos 0
incr64 (negsuc (suc n)) = negsuc n

-- A server that is not in a replica set is no error: the pointer is nil.
unfoldable pub or_nil : {A : Type 0} → Outcome A → Outcome (Option A)
or_nil (ok a) = ok (some a)
or_nil (err (command_error name)) =
    if str_eq name (codes "NoReplicationEnabled")
    then ok none
    else if str_eq name (codes "NotYetInitialized")
    then ok none
    else err (command_error name)
or_nil (err (failure m)) = err (failure m)
or_nil panic = panic

-- The zero value of `Replset`, which stays when nothing is decoded.
abbrev pub no_replset : Replset
no_replset = record {
  id = [];
  members = [];
  term = pos 0;
  settings = record { replica_set_id = [] };
  version = pos 0;
}

module _ {W : Type 0} (d : Driver W) where
  unfoldable pub repl_set_get_status : Io W (Option ReplSetStatus)
  repl_set_get_status w = let (r, w') = d.run_get_status w in (or_nil r, w')

  unfoldable pub repl_set_get_config : Io W (Option ReplSetConfig)
  repl_set_get_config w = let (r, w') = d.run_get_config w in (or_nil r, w')

  -- The error is logged and dropped.
  unfoldable pub repl_set_get_config_offline : Bytes → Io W ReplSetConfig
  repl_set_get_config_offline rs_name w =
      let (r, w') = d.find_replset rs_name w in
      handle r (λ e. pure (record { config = no_replset })) (λ c. pure (record { config = c })) w'

  unfoldable pub repl_set_reconfig : Replset → Io W Unit
  repl_set_reconfig cfg = d.run_reconfig (record cfg { version = incr64 cfg.version })

  -- Writing to a nil configuration panics.
  add_to : List Member → Option ReplSetConfig → Io W Unit
  unfolding repl_set_reconfig
  add_to members none = abort
  add_to members (some active) =
      repl_set_reconfig (record active.config { members = active.config.members ++ members })

  unfoldable pub add_member : List Member → Io W Unit
  unfolding add_to
  add_member members = do active ← repl_set_get_config; add_to members active

  unfoldable pub get_oplog_window : Io W (OpLog × OpLog)
  get_oplog_window = do
    last ← d.find_oplog (negsuc 0)
    first ← d.find_oplog (pos 1)
    pure (first, last)

  unfoldable pub repl_set_initiate : Bytes → List Member → Io W Unit
  repl_set_initiate rs_name members = d.run_initiate rs_name members

  abbrev has_entries : Option ℕ → Bool
  has_entries none = false
  has_entries (some n) = ltb 0 n

  unfoldable pub has_user : Bytes → Io W Bool
  has_user user = do users ← d.users_info user; pure (has_entries users)

-- ===== src/Mongo/Member.antt =====
-- internal/replset/mongo.go and mongo-control.go: `wipeDB`, and the round of `memberTask` that a new
-- specification starts. The process of mongod and the file system are the interface `Host`.
pub mod Rounds
pub mod Bootstrap
use mongoctl.Prelude.{
  ℕ, List, [], ◌∷◌, Option, none, some, Bool, true, false, not, ◌&&◌, ◌||◌, Bytes, codes, str_eq,
  if◌then◌else◌, Outcome, ok, err, panic, Error, command_error, failure, Io, ◌>>=◌, ◌>>◌, pure,
  raise, abort, handle,
}
use mongoctl.Mongo.Types.{MongoStatus, ReplSetConfig}
use mongoctl.Mongo.Spec.{MongoReplSetSpec}
use mongoctl.Mongo.Members.{parse_members}
use mongoctl.Mongo.Client.{Driver, repl_set_get_config, repl_set_reconfig}
use mongoctl.Mongo.Status.{MongoConfig, get_member_status, check_wipe_requirment}
use mongoctl.Mongo.Primary.{RangeOrder, values, config_primary}

pub record Host (W : Type 0) : Type 0 where
  -- `os.Stat`: is the path a directory?
  pub stat : Bytes → Io W Bool
  pub read_dir : Bytes → Io W (List Bytes)
  pub remove_all : Bytes → Io W Unit
  -- `filepath.Join`.
  pub join_path : Bytes → Bytes → Bytes
  -- `ShutdownWithTimeout`: the seconds; its result is only logged.
  pub shutdown : ℕ → W → W
  -- `mongod.Start` and the connection of a new client.
  pub start : Io W Unit
  pub connect : Io W Unit

abbrev pub or_panic : {W : Type 0} → Io W Unit → Io W Unit
or_panic m w = let (r, w') = m w in handle r (λ e. abort) pure w'

-- `isExists := err != nil || info.IsDir()`.
abbrev pub is_exists : Outcome Bool → Bool
is_exists (ok dir) = dir
is_exists (err e) = true
is_exists panic = true

module _ {W : Type 0} (h : Host W) where
  unfoldable pub remove_entries : Bytes → List Bytes → Io W Unit
  remove_entries db_path [] = pure tt
  remove_entries db_path (name ∷ names) = do
    h.remove_all (h.join_path db_path name)
    remove_entries db_path names

  unfoldable pub wipe_db : Bytes → Io W Unit
  unfolding remove_entries
  wipe_db db_path w =
      let (r, w1) = h.stat db_path w in
      if is_exists r
      then (do entries ← h.read_dir db_path; remove_entries db_path entries) w1
      else (ok tt, w1)

module _ {W : Type 0} (d : Driver W) (h : Host W) (cfg : MongoConfig) (r r' r'' : RangeOrder) where
  -- `log.Panicln` on errors of all but the shutdown.
  unfoldable pub rebuild : Io W Unit
  unfolding wipe_db
  rebuild w =
      (do or_panic (wipe_db h cfg.db_path); or_panic h.start; or_panic h.connect) (h.shutdown 10 w)

  -- The error of `configPrimary` is logged.
  abbrev logged : Io W Unit → Io W Unit
  logged m w = let (x, w') = m w in handle x (λ e. pure tt) pure w'

  -- From the log of the member's status on; a nil status panics where it is read.
  unfoldable pub apply_spec : Bool → MongoReplSetSpec → Option MongoStatus → Io W Unit
  unfolding rebuild
  apply_spec is_primary spec none = abort
  apply_spec true spec (some status) = logged (config_primary d cfg.rs_name r r' spec status)
  apply_spec false spec (some status) =
      if check_wipe_requirment spec status then rebuild else pure tt

  -- The error of `ReplSetGetConfig` is dropped: the configuration is nil then, and the write panics.
  abbrev or_none : Outcome (Option ReplSetConfig) → Option ReplSetConfig
  or_none (ok c) = c
  or_none (err e) = none
  or_none panic = none

  force : MongoReplSetSpec → Option ReplSetConfig → Io W Unit
  force spec none = abort
  force spec (some c) =
      repl_set_reconfig d
        (record c.config { members = values (r''.visit (parse_members spec.members)) })

  -- `continue` where the reconfiguration fails.
  unfoldable pub recover : MongoReplSetSpec → Io W Unit
  unfolding force apply_spec
  recover spec w =
      let (c, w1) = repl_set_get_config d w in
      let (x, w2) = force spec (or_none c) w1 in
      handle x (λ e. pure tt) (λ _. apply_spec true spec none) w2

  is_invalid : Error → Bool
  is_invalid (command_error name) = str_eq name (codes "InvalidReplicaSetConfig")
  is_invalid (failure m) = false

  unfoldable pub after_status_error : Bool → MongoReplSetSpec → Error → Io W Unit
  unfolding is_invalid apply_spec
  after_status_error is_primary spec e =
      if is_invalid e && is_primary then recover spec else apply_spec is_primary spec none

  unfoldable pub member_round : MongoReplSetSpec → Io W Unit
  member_round spec w =
      let is_primary = str_eq spec.primary cfg.node_name in
      let (x, w') = get_member_status d cfg w in
      handle x (after_status_error is_primary spec) (λ s. apply_spec is_primary spec (some s)) w'

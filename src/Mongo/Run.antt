-- ===== src/Mongo/Run.antt =====
-- internal/replset/mongo.go: `memberTask`, from the start of its mongod to its loop over
-- specifications, ticks and the exit of the process.
pub mod Reports
pub mod Keeping
pub mod Wiped
pub mod Secondary
use mongoctl.Prelude.{
  ℕ, List, [], ◌∷◌, ◌++◌, Option, none, some, Bool, true, false, ltb, codes, if◌then◌else◌, Outcome,
  ok, err, panic, Error, Io, ◌>>=◌, ◌>>◌, pure, abort, handle,
}
use mongoctl.Mongo.Types.{ReplSetStatus}
use mongoctl.Mongo.Health.{MongoHealthStatus, health_of}
use mongoctl.Mongo.Spec.{MongoReplSetSpec}
use mongoctl.Mongo.Client.{Driver, repl_set_get_status}
use mongoctl.Mongo.Status.{MongoConfig}
use mongoctl.Mongo.Primary.{RangeOrder}
use mongoctl.Mongo.Member.{Host, or_panic, member_round}
use mongoctl.Mongo.Offline.{MongodMgm}
use mongoctl.Mongo.Process.{ClientOptions, client, connect_opts, set_direct}

-- The mongod of a member: on the member's address, in the replica set, with authorization.
unfoldable pub member_mongod : MongoConfig → MongodMgm
member_mongod cfg = record {
  bind_ip = cfg.addr;
  bind_port = cfg.port;
  db_path = cfg.db_path;
  auth = true;
  repl_set = cfg.rs_name;
  key_file = cfg.key_file;
}

-- The connection of its client: direct, as the user that `collect` created.
unfoldable pub member_opts : MongoConfig → ClientOptions
unfolding member_mongod client connect_opts
member_opts cfg = record (set_direct (connect_opts (client (member_mongod cfg)))) {
  auth = some (codes "admin", codes "123");
  replica_set = some [];
}

-- What comes before the loop; `ping` is that of the new connection.
unfoldable pub start_member : {W : Type 0} → Host W → Io W Unit → Io W Unit
start_member h ping = do or_panic h.start; or_panic h.connect; or_panic ping

-- What the goroutine of the ticker and the loop wait for. An `exit` is a notice of `OnExit`.
pub data Event : Type 0 where
  spec : MongoReplSetSpec → Event
  tick : Event
  exit : Event

-- A panic ends the program; `sent` are the published statuses, in order.
pub record Task (W : Type 0) : Type 0 where
  pub ended : Bool
  pub sent : List MongoHealthStatus
  pub world : W

abbrev pub panics : {A : Type 0} → Outcome A → Bool
panics (ok a) = false
panics (err e) = false
panics panic = true

-- Statuses are published only where the server replies with its state.
abbrev pub reported : MongoConfig → Outcome (Option ReplSetStatus) → List MongoHealthStatus
reported cfg (ok (some status)) = health_of cfg.node_id cfg.node_name status.my_state ∷ []
reported cfg (ok none) = []
reported cfg (err e) = []
reported cfg panic = []

module _ {W : Type 0} (d : Driver W) (h : Host W) (cfg : MongoConfig) (r r' r'' : RangeOrder)
    -- The exits of mongods that `OnExit` was called for.
    (exits : W → ℕ) where
  unfoldable pub on_spec : MongoReplSetSpec → Task W → Task W
  on_spec s t =
      let (x, w') = member_round d h cfg r r' r'' s t.world in
      record t { ended = panics x; world = w' }

  unfoldable pub on_tick : Task W → Task W
  on_tick t =
      let (x, w') = repl_set_get_status d t.world in
      record { ended = panics x; sent = t.sent ++ reported cfg x; world = w' }

  -- The loop takes a notice where there is one.
  unfoldable pub on_exit : Task W → Task W
  on_exit t = record t { ended = ltb 0 (exits t.world) }

  unfoldable pub react : Event → Task W → Task W
  unfolding on_spec on_tick on_exit
  react e t =
      if t.ended then t else elim e [ spec s ↦ on_spec s t | tick ↦ on_tick t | exit ↦ on_exit t ]

  unfoldable pub run : List Event → Task W → Task W
  run [] t = t
  run (e ∷ es) t = run es (react e t)

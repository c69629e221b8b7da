-- ===== src/Mongo/Process.antt =====
-- internal/util/mongo.go: `ShutdownWithTimeout` and `Repair` of `MongodMgm`, and the options of a
-- client's connection. The process and its exit are the interface `Proc`.
pub mod Shutdown
pub mod Waits
use mongoctl.Prelude.{
  ℕ, List, [], ◌∷◌, ◌++◌, Option, none, some, Bool, true, false, not, ◌&&◌, ◌||◌, Bytes, codes,
  str_eq, if◌then◌else◌, Outcome, ok, err, panic, Error, failure, Io, ◌>>=◌, pure, raise, ◌==◌,
}
use mongoctl.Mongo.Offline.{MongodMgm}

-- `options.ClientOptions`, as far as the program fills them in.
pub record ClientOptions : Type 0 where
  pub hosts : List Bytes
  pub auth : Option (Bytes × Bytes)
  pub replica_set : Option Bytes
  pub direct : Bool

pub record MongoClient : Type 0 where
  pub server_ip : Bytes
  pub server_port : Bytes
  pub user_name : Bytes
  pub password : Bytes
  pub repl_set : Bytes

-- `Client`, and `WithOptions`, which is the same.
unfoldable pub client : MongodMgm → MongoClient
client m = record {
  server_ip = m.bind_ip;
  server_port = m.bind_port;
  user_name = [];
  password = [];
  repl_set = m.repl_set;
}

unfoldable pub set_authentication : Bytes → Bytes → MongoClient → MongoClient
set_authentication user pass c = record c { user_name = user; password = pass }

unfoldable pub set_replication : Bytes → MongoClient → MongoClient
set_replication repl_set c = record c { repl_set = repl_set }

-- The options that `Connect` and `ConnectWithOptions` begin with.
unfoldable pub connect_opts : MongoClient → ClientOptions
connect_opts c = record {
  hosts = (c.server_ip ++ b':' ∷ c.server_port) ∷ [];
  auth =
      if not (str_eq c.user_name []) && not (str_eq c.password [])
      then some (c.user_name, c.password)
      else none;
  replica_set = if not (str_eq c.repl_set []) then some c.repl_set else none;
  direct = false;
}

abbrev pub set_direct : ClientOptions → ClientOptions
set_direct opts = record opts { direct = true }

-- The options of the client that sends the command: no user.
abbrev pub shutdown_opts : MongodMgm → ClientOptions
shutdown_opts m = set_direct (connect_opts (client m))

-- A process of mongod, and what goes on beside the goroutine that waits for it.
pub record Proc (W X : Type 0) : Type 0 where
  -- `net.ParseIP(…).IsLoopback()`.
  pub is_loopback : Bytes → Bool
  -- The error of the connection, and of the command `shutdown` by its client, if there is one.
  pub connect : ClientOptions → W → Option Error × W
  pub run_shutdown : ClientOptions → W → Option Error × W
  pub interrupt : W → W
  pub kill : W → W
  -- What `Wait` gives the goroutine of `exitCh`, if the process exits within the seconds: the exit
  -- state, or nil where there was an error, which is dropped. Otherwise the world at their end.
  pub exit_within : ℕ → W → Option (Option X) × W
  -- The same, if the process exits at all.
  pub exit_at_last : W → Option (Option X) × W
  -- `mongod --repair`: an error, or the exit code.
  pub repair : List Bytes → Io W ℕ

-- How a call of `ShutdownWithTimeout` ends.
pub data Ended (X : Type 0) : Type 0 where
  -- A nil state, with no wait for the process.
  unwaited : Ended X
  -- What was read from `exitCh`: a state, or nil.
  exited : Option X → Ended X
  -- It waits for ever.
  blocked : Ended X

module _ {W X : Type 0} (p : Proc W X) where
  abbrev ended : Option (Option X) × W → Ended X × W
  ended (some x, w) = (exited x, w)
  ended (none, w) = (blocked, w)

  -- The timer kills the process where its exit is not read in time.
  abbrev timed : Option (Option X) × W → Ended X × W
  timed (some x, w) = (exited x, w)
  timed (none, w) = ended (p.exit_at_last (p.kill w))

  -- An error of the command ends the call; one of the connection is logged.
  abbrev commanded : ℕ → Option Error × W → Ended X × W
  commanded d (some e, w) = (unwaited, w)
  commanded d (none, w) = timed (p.exit_within d w)

  abbrev connected : MongodMgm → ℕ → Option Error × W → Ended X × W
  connected m d (some e, w) = timed (p.exit_within d w)
  connected m d (none, w) = commanded d (p.run_shutdown (shutdown_opts m) w)

  unfoldable pub shutdown_with_timeout : MongodMgm → ℕ → W → Ended X × W
  unfolding client connect_opts
  shutdown_with_timeout m d w =
      if p.is_loopback m.bind_ip || m.auth
      then connected m d (p.connect (shutdown_opts m) w)
      else timed (p.exit_within d (p.interrupt w))

  abbrev repaired : ℕ → Io W Unit
  repaired code = if code == 0 then pure tt else raise (failure (codes "mongo repair failed"))

  unfoldable pub repair_db : MongodMgm → Io W Unit
  repair_db m = do
    code ← p.repair (codes "--dbpath" ∷ m.db_path ∷ codes "--repair" ∷ [])
    repaired code

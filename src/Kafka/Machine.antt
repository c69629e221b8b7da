-- ===== src/Kafka/Machine.antt =====
-- internal/replset/kafka-control.go: the state machine `KafkaSM` and its actions. The file system, the
-- storage tool and the server process are the interface `KafkaHost`.
use mongoctl.Prelude.{
  List, [], ◌∷◌, Option, Bool, true, false, Bytes, codes, if◌then◌else◌, Outcome, ok, err, panic,
  Error, Io,
}
use mongoctl.Stateless.{
  Effect, Action, Directive, permit, on_entry, on_exit, substate_of, Setup, Fired, Engine,
}
use mongoctl.Stateless.Queue.{drain}
use mongoctl.Kafka.{KafkaConfig, KafkaReplSetSpec, ServerProperties, endpoint}

pub data State : Type 0 where
  init formatting starting failed startup running shutting_down : State

pub data Trigger : Type 0 where
  start start_server done ready kafka_exit shutdown : Trigger

pub data Arg : Type 0 where
  spec : KafkaReplSetSpec → Arg
  error : Error → Arg
  exit_state : Arg

abbrev same_state : State → State → Bool
same_state init init = true
same_state formatting formatting = true
same_state starting starting = true
same_state failed failed = true
same_state startup startup = true
same_state running running = true
same_state shutting_down shutting_down = true
same_state _ _ = false

abbrev same_trigger : Trigger → Trigger → Bool
same_trigger start start = true
same_trigger start_server start_server = true
same_trigger done done = true
same_trigger ready ready = true
same_trigger kafka_exit kafka_exit = true
same_trigger shutdown shutdown = true
same_trigger _ _ = false

pub record KafkaHost (W : Type 0) : Type 0 where
  -- `CleanKRaftDeletedFiles`; its result is only logged.
  pub clean : W → W
  -- `filepath.Clean` with forward slashes.
  pub normalize : Bytes → Bytes
  -- The part of `createConfig` that writes the file, and its path.
  pub write_config : ServerProperties → Io W Bytes
  -- `cmd /c` with these arguments.
  pub run_storage : List Bytes → Io W Unit
  -- The server process with this configuration file.
  pub start_process : Bytes → Io W Unit

pub data Chan : Type 0 where
  nil opened closed : Chan

pub record KafkaSm (W : Type 0) : Type 0 where
  pub cfg_file : Bytes
  pub stop : Chan
  -- Is `cancel` set, and was it called?
  pub cancel : Bool
  pub cancelled : Bool
  -- Did `os.Exit` end the process?
  pub exited : Bool
  pub world : W

-- The properties that `createConfig` fills in.
unfoldable pub create_props : (Bytes → Bytes) → KafkaConfig → KafkaReplSetSpec → ServerProperties
create_props normalize cfg s = record {
  id = cfg.node_id;
  controller_addr = endpoint cfg.controller_addr cfg.controller_port;
  broker_addr = endpoint cfg.broker_addr cfg.broker_port;
  meta_log_dir = normalize cfg.meta_dir;
  log_dir = normalize cfg.dat_dir;
  bootstrap_servers = s.bootstrap_servers;
}

unfoldable pub storage_args : KafkaReplSetSpec → Bytes → List Bytes
storage_args s cfg_file =
    codes "/c"
    ∷ codes "kafka-storage.bat"
    ∷ codes "format"
    ∷ codes "-t"
    ∷ s.cluster_id
    ∷ codes "-c"
    ∷ cfg_file
    ∷ codes "--initial-controllers"
    ∷ s.bootstrap_servers_storage
    ∷ codes "--ignore-formatted"
    ∷ []

module _ {W : Type 0} where
  abbrev leave :
      Outcome (Unit {0}) → KafkaSm W → List (Trigger × List Arg) → Effect Trigger Arg (KafkaSm W)
  leave r k queued = record { outcome = r; world = k; queued = queued }

  -- Closing a channel that is nil or closed panics.
  stop_monitor : KafkaSm W → Effect Trigger Arg (KafkaSm W)
  stop_monitor k = elim k.stop [
    | nil ↦ leave panic k []
    | opened ↦ leave (ok tt) (record k { stop = closed }) []
    | closed ↦ leave panic k []
  ]

  start_monitor : KafkaSm W → Effect Trigger Arg (KafkaSm W)
  start_monitor k = leave (ok tt) (record k { stop = opened }) []

  log_entry : Action Trigger Arg (KafkaSm W)
  log_entry args k = leave (ok tt) k []

  -- `waitKafkaReady` only waits.
  enter_running : Action Trigger Arg (KafkaSm W)
  enter_running args k = leave (ok tt) k ((done, args) ∷ [])

  -- Calling a nil function panics.
  enter_shutting_down : Action Trigger Arg (KafkaSm W)
  enter_shutting_down args k =
      if k.cancel then leave (ok tt) (record k { cancelled = true }) [] else leave panic k []

  -- `os.Exit` does not return.
  enter_failed : Action Trigger Arg (KafkaSm W)
  enter_failed args k = leave panic (record k { exited = true }) []

  exit_starting : Action Trigger Arg (KafkaSm W)
  unfolding stop_monitor
  exit_starting args k = stop_monitor k

module _ {W : Type 0} (h : KafkaHost W) (cfg : KafkaConfig) where
  formatted : Outcome (Unit {0}) × W → List Arg → KafkaSm W → Effect Trigger Arg (KafkaSm W)
  formatted (ok _, w) args k = leave (ok tt) (record k { world = w }) ((start_server, args) ∷ [])
  formatted (err e, w) args k = leave (err e) (record k { world = w }) []
  formatted (panic, w) args k = leave panic (record k { world = w }) []

  -- `formatStorage`; an error of `createConfig` panics.
  configured :
      Outcome Bytes × W → KafkaReplSetSpec → List Arg → KafkaSm W → Effect Trigger Arg (KafkaSm W)
  unfolding formatted
  configured (ok file, w) s args k =
      let cfg_file = h.normalize file in
      formatted (h.run_storage (storage_args s cfg_file) w) args (record k { cfg_file = cfg_file })
  configured (err e, w) s args k = leave panic (record k { world = w }) []
  configured (panic, w) s args k = leave panic (record k { world = w }) []

  enter_formatting : Action Trigger Arg (KafkaSm W)
  unfolding configured
  enter_formatting (spec s ∷ args) k =
      configured (h.write_config (create_props h.normalize cfg s) (h.clean k.world)) s
        (spec s ∷ args) k
  enter_formatting _ k = leave panic (record k { world = h.clean k.world }) []

  process_started : Outcome (Unit {0}) × W → KafkaSm W → Effect Trigger Arg (KafkaSm W)
  unfolding start_monitor
  process_started (ok _, w) k = start_monitor (record k { world = w })
  process_started (err e, w) k =
      leave (ok tt) (record k { world = w }) ((kafka_exit, error e ∷ []) ∷ [])
  process_started (panic, w) k = leave panic (record k { world = w }) []

  enter_starting : Action Trigger Arg (KafkaSm W)
  unfolding process_started
  enter_starting args k =
      process_started (h.start_process k.cfg_file k.world) (record k { cancel = true })

  configure : State → List (Directive State Trigger Arg (KafkaSm W))
  unfolding enter_formatting enter_starting exit_starting log_entry enter_running
      enter_shutting_down enter_failed
  configure init = permit start formatting ∷ []
  configure formatting = on_entry enter_formatting ∷ permit start_server startup ∷ []
  configure starting =
      on_entry enter_starting ∷ on_exit exit_starting ∷ permit kafka_exit failed ∷ []
  configure startup =
      substate_of starting
      ∷ on_entry log_entry
      ∷ permit ready running
      ∷ permit shutdown shutting_down
      ∷ []
  configure running =
      substate_of starting ∷ on_entry enter_running ∷ permit shutdown shutting_down ∷ []
  configure shutting_down =
      substate_of starting ∷ on_entry enter_shutting_down ∷ permit done running ∷ []
  configure failed = on_entry enter_failed ∷ []

  unfoldable pub kafka_sm : Setup State Trigger Arg (KafkaSm W)
  unfolding configure
  kafka_sm = record { configure = configure; same_state = same_state; same_trigger = same_trigger }

-- `NewKafkaSM` before any trigger.
abbrev pub new_kafka_sm : {W : Type 0} → W → KafkaSm W
new_kafka_sm w = record {
  cfg_file = [];
  stop = nil;
  cancel = false;
  cancelled = false;
  exited = false;
  world = w;
}

-- The longest chain of triggers is start, start of the server, exit.
unfoldable pub fire :
    {W : Type 0} (h : KafkaHost W) (cfg : KafkaConfig)
    → Engine State Trigger Arg (KafkaSm W)
    → Trigger
    → List Arg
    → State
    → KafkaSm W
    → Option (Fired State Trigger Arg (KafkaSm W))
fire h cfg e t args s k = drain (e.fire_one (kafka_sm h cfg)) 3 ((t, args) ∷ []) s k

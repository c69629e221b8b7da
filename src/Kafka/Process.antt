-- ===== src/Kafka/Process.antt =====
-- internal/replset/kafka-control.go: `startKafkaProcess`, its command line and environment, and the
-- two goroutines that turn a signal and the end of the process into triggers.
pub mod Ends
use mongoctl.Prelude.{List, [], ◌∷◌, ◌++◌, Bool, true, false, Bytes, codes, if◌then◌else◌}
use mongoctl.Text.Parts.{join}
use mongoctl.Kafka.Machine.{Trigger, shutdown, kafka_exit, Arg, exit_state}

-- `environ` are the entries of the program's own environment, and `path` its variable PATH.
unfoldable pub base_env : List Bytes → Bytes → List Bytes
unfolding join
base_env environ path =
    environ ++ (codes "PATH=" ++ join b';' (path ∷ [])) ∷ codes "CLASSPATH=" ∷ []

-- `log_dir` is the normalized path of the logs under Nomad's directory.
unfoldable pub server_env : List Bytes → Bytes → Bytes → List Bytes
unfolding base_env
server_env environ path log_dir = base_env environ path ++ (codes "LOG_DIR=" ++ log_dir) ∷ []

-- The arguments of `java`. `tools` is the variable KAFKA_TOOLS.
unfoldable pub server_args : (Bytes → Bytes → Bytes) → Bytes → Bytes → List Bytes
server_args join_path tools cfg_file =
    codes "-Xmx1G"
    ∷ codes "-Xms1G"
    ∷ codes "-server"
    ∷ codes "-XX:+UseG1GC"
    ∷ codes "-XX:MaxGCPauseMillis=20"
    ∷ codes "-XX:InitiatingHeapOccupancyPercent=35"
    ∷ codes "-XX:+ExplicitGCInvokesConcurrent"
    ∷ codes "-Djava.awt.headless=true"
    ∷ (codes "-Dkafka.logs.dir=" ++ join_path tools (codes "../../config/log4j2.yaml"))
    ∷ codes "-cp"
    ∷ join_path tools (codes "../../libs/*")
    ∷ codes "kafka.Kafka"
    ∷ cfg_file
    ∷ []

-- What the two goroutines wait for.
pub data OsEvent : Type 0 where
  interrupt : OsEvent
  ended : OsEvent

-- Has a goroutine received what it waits for? It returns then.
pub record Watch : Type 0 where
  pub signalled : Bool
  pub waited : Bool

abbrev pub watching : Watch
watching = record { signalled = false; waited = false }

unfoldable pub notice : OsEvent → Watch → List (Trigger × List Arg) × Watch
notice interrupt w =
    (if w.signalled then [] else (shutdown, []) ∷ [], record w { signalled = true })
notice ended w =
    (if w.waited then [] else (kafka_exit, exit_state ∷ []) ∷ [], record w { waited = true })

-- The triggers that a sequence of events fires.
unfoldable pub triggers : List OsEvent → Watch → List (Trigger × List Arg)
unfolding notice
triggers [] w = []
triggers (e ∷ es) w = let (now, w') = notice e w in now ++ triggers es w'

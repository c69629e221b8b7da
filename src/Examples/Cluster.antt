-- ===== src/Examples/Cluster.antt =====
-- A Kafka node, its server and its monitor.
use mathlib.Core.List.{Mem, mem-cons_self, mem-cons_of_mem}
use mathlib.Core.Path.{subst}
use mongoctl.Prelude.{
  ap, ℕ, ◌+◌, List, [], ◌∷◌, ◌++◌, ◌≡◌, refl, Bytes, codes, Outcome, ok, err, panic, failure, some,
  none, true, false, All,
}
use mongoctl.Stateless.{Engine, Fired}
use mongoctl.Stateless.Queue.{by_the_book}
use mongoctl.Kafka.{KafkaConfig, KafkaReplSetSpec, KafkaCandidateReport}
use mongoctl.Kafka.Machine.{
  State, init, startup, Trigger, start, shutdown, kafka_exit, ready, Arg, spec, exit_state,
  KafkaHost, opened, KafkaSm, new_kafka_sm, fire,
}
use mongoctl.Kafka.Runs.{process_fails}
use mongoctl.Kafka.Serving.{alive, HasServer, IsServing, run, run-IsServing}
use mongoctl.Kafka.Monitor.{Monitor, connected}
use mongoctl.Kafka.Clean.{Entry, FileSystem, clean_kraft_deleted_files}
use mongoctl.Kafka.Clean.Names.{Removable}
use mongoctl.Kafka.Clean.Removed.{IsRemoving, cleaned_or_reported}

abbrev pub config : KafkaConfig
config = record {
  cluster_id = codes "c";
  storage_id = codes "s";
  node_id = codes "1";
  node_name = codes "k1";
  log_dir = codes "/log";
  meta_dir = codes "/meta";
  dat_dir = codes "/dat";
  controller_addr = codes "10.0.0.2";
  controller_port = codes "9093";
  broker_addr = codes "10.0.0.1";
  broker_port = codes "9092";
}

abbrev pub own_report : KafkaCandidateReport
own_report = record {
  controller_addr = codes "10.0.0.1";
  controller_port = codes "9093";
  broker_addr = codes "10.0.0.1";
  broker_port = codes "9092";
  storage_id = codes "s";
  m_time = [];
  node_id = codes "1";
  node_name = codes "k1";
}

abbrev pub cluster : KafkaReplSetSpec
cluster = record {
  bootstrap_servers = codes "10.0.0.1:9093";
  bootstrap_servers_storage = codes "1@10.0.0.1:9093:s";
  cluster_id = codes "c";
  members = codes "k1" ∷ [];
}

-- The host counts its calls, and starts the server process or does not.
abbrev pub host : Outcome (Unit {0}) → KafkaHost ℕ
host process = record {
  clean = λ w. w + 1;
  normalize = λ path. path;
  write_config = λ props w. (ok (codes "/f"), w + 1);
  run_storage = λ args w. (ok tt, w + 1);
  start_process = λ file w. (process, w + 1);
}

abbrev pub book : Engine State Trigger Arg (KafkaSm ℕ)
book = by_the_book

abbrev pub started : KafkaSm ℕ
started = record {
  cfg_file = codes "/f";
  stop = opened;
  cancel = true;
  cancelled = false;
  exited = false;
  world = 4;
}

process_fails_example :
    (f : Fired State Trigger Arg (KafkaSm ℕ)) × (fire
        (host (err (failure [])))
        config
        book
        start
        (spec cluster ∷ [])
        init
        (new_kafka_sm 0)
      ≡ some f)
    × (f.outcome ≡ panic)
    × (f.world.exited ≡ false)
    × (f.state ≡ startup)
process_fails_example =
    process_fails (host (err (failure []))) config book cluster 0 2 3 (codes "/f") refl (failure [])
      4 refl refl

pub serves : HasServer started
serves = record { monitored = refl; cancellable = refl }

abbrev triggers : List (Trigger × List Arg)
triggers = (ready, []) ∷ (shutdown, []) ∷ (kafka_exit, exit_state ∷ []) ∷ []

run-IsServing_example : IsServing (run (host (ok tt)) config book triggers (alive startup started))
run-IsServing_example =
    run-IsServing (host (ok tt)) config book triggers (alive startup started) serves

abbrev monitor : Monitor
monitor = record { phase = connected; closed = false; sent = [] }

abbrev entry : Bytes → Entry
entry name = record { path = codes "/meta/" ++ name; name = name; is_dir = false; walk_err = none }

-- The world are the paths that were removed.
abbrev disk : FileSystem (List Bytes)
disk = record {
  windows = true;
  utf16_ptr = λ path. ok tt;
  get_file_attributes = λ path w. (ok 33, w);
  set_file_attributes = λ path attrs w. (ok tt, w);
  remove = λ path w. (ok tt, path ∷ w);
  stat = λ path w. (ok true, w);
  walk = λ path w. (entry (codes "a.DELETED") ∷ entry (codes "b.log") ∷ [], w);
}

disk-IsRemoving : IsRemoving disk (λ w p. Mem p w)
disk-IsRemoving = record {
  sure = λ path w. cc;
  removes = λ path w w' e.
      subst (Mem path) (ap (λ (r : Outcome (Unit {0}) × List Bytes). r.1) e) mem-cons_self;
  remove_keeps = λ path p w m. mem-cons_of_mem path m;
  get_keeps = λ path p w m. m;
  set_keeps = λ path p attrs w m. m;
}

unreported : (clean_kraft_deleted_files disk (codes "/meta") []).0.1 ≡ none
unfolding clean_kraft_deleted_files mongoctl.Kafka.Clean.is_deleted_name
    mongoctl.Kafka.Clean.has_suffix mongoctl.Prelude.str_eq
unreported = refl

cleaned_or_reported_example :
    Removable
      (entry (codes "a.DELETED") ∷ entry (codes "b.log") ∷ [])
      (clean_kraft_deleted_files disk (codes "/meta") []).0.0
    × All
        (λ p. Mem p (clean_kraft_deleted_files disk (codes "/meta") []).1)
        (clean_kraft_deleted_files disk (codes "/meta") []).0.0
cleaned_or_reported_example =
    cleaned_or_reported disk (λ w p. Mem p w) disk-IsRemoving (codes "/meta") [] [] []
      (entry (codes "a.DELETED") ∷ entry (codes "b.log") ∷ []) refl refl unreported

-- ===== src/Examples/Nodes.antt =====
-- A Kafka cluster: its deployment, the file of a node, and the end of its server.
use mathlib.Core.List.{Mem}
use mongoctl.Prelude.{
  str_lt, ℕ, ◌+◌, List, [], ◌∷◌, ◌++◌, map, ◌≡◌, ◌↔◌, refl, sym, arith, ap, Bytes, codes, Outcome,
  ok, some, true, false, All, length, drop,
}
use mongoctl.Text.Parts.{split, join}
use mongoctl.Sorting.{sort_candidates}
use mongoctl.Sorting.Insertion.{insertion}
use mongoctl.Stateless.{Engine}
use mongoctl.Stateless.Queue.{by_the_book}
use mongoctl.Kafka.{
  KafkaCandidateReport, KafkaReplSetSpec, ServerProperties, less, generate_repl_config,
}
use mongoctl.Kafka.Machine.{
  State as NodeState, Trigger as NodeTrigger, Arg as NodeArg, KafkaSm, init, startup, shutting_down,
  start, spec, new_kafka_sm, fire, create_props,
}
use mongoctl.Kafka.Serving.{alive, run}
use mongoctl.Kafka.Process.{interrupt, watching, triggers}
use mongoctl.Kafka.Process.Ends.{run-triggers}
use mongoctl.Kafka.Properties.{Files, render, normalize}
use mongoctl.Kafka.Properties.Escape.{IsPlain}
use mongoctl.Kafka.Properties.ReadBack.{IsOneLine, read_property, render_iff}
use mongoctl.Kafka.Properties.File.{IsServable}
use mongoctl.Kafka.Node.{Shell, node_host}
use mongoctl.Kafka.Node.Launch.{Works, Serves, node_launches}
use mongoctl.Control.{Outside, Control, publish_repl_spec}
use mongoctl.Control.Machine.{State, monitoring, Trigger, Arg}
use mongoctl.Control.Loop.{running, report, expire, deliver, controller_task}
use mongoctl.Control.Journey.Cluster.{kafka_kind, kafka_deployment}
use mongoctl.Examples.Cluster.{config, own_report, host, book, started, serves}

run-triggers_example :
    run
      (host (ok tt))
      config
      book
      (triggers (interrupt ∷ interrupt ∷ []) watching)
      (alive startup started)
    ≡ alive shutting_down (record started { cancelled = true })
run-triggers_example =
    run-triggers (host (ok tt)) config book (interrupt ∷ interrupt ∷ []) started serves

abbrev pub node : Bytes → Bytes → KafkaCandidateReport
node name time = record own_report { node_name = name; m_time = time }

abbrev pub nodes : List KafkaCandidateReport
nodes =
    node (codes "k1") (codes "2024-03")
    ∷ node (codes "k2") (codes "2024-01")
    ∷ node (codes "k3") (codes "2024-04")
    ∷ node (codes "k4") (codes "2024-02")
    ∷ []

abbrev pub outside : Outside KafkaReplSetSpec (Unit {0}) ℕ
outside = record {
  update_repl_set_config = λ spec w. (ok tt, w + 1);
  new_client = λ w. (ok tt, w);
  read_file = λ file w. (ok file, w);
  parse_hcl = λ text vars w. (ok tt, w);
  register = λ job w. (ok tt, w + 10);
}

abbrev pub KafkaControl : Type 0
KafkaControl = Control KafkaCandidateReport KafkaReplSetSpec ℕ

abbrev pub machine : Engine State Trigger (Arg KafkaCandidateReport (Unit {0})) KafkaControl
machine = by_the_book

pub publishes :
    (s : KafkaReplSetSpec)
    → publish_repl_spec (kafka_kind insertion config) outside (codes "job") s 0 ≡ (ok tt, 11)
unfolding publish_repl_spec kafka_kind mongoctl.Kafka.get_members
publishes s = refl

kafka_deployment_example :
    (rs : KafkaControl) × (spec : KafkaReplSetSpec) × (controller_task
        (kafka_kind insertion config)
        outside
        machine
        (codes "job")
        0
        (report nodes ∷ expire ∷ deliver 0 ∷ [])
      ≡ running monitoring rs)
    × (rs.world ≡ 11)
    × (rs.last_spec ≡ some spec)
    × (length rs.last_members ≡ 3)
    × (spec ≡ generate_repl_config config rs.last_members)
    × (spec.members ≡ map (λ c. c.node_name) rs.last_members)
    × (spec.cluster_id ≡ config.cluster_id)
    × ((a b : KafkaCandidateReport)
        → Mem a rs.last_members
        → Mem b (drop 3 (sort_candidates insertion less nodes))
        → str_lt b.m_time a.m_time ≡ false)
kafka_deployment_example =
    kafka_deployment insertion config outside machine (codes "job") 0 11 nodes [] (omega arith)
      (publishes _)

-- The world is what the last write left.
abbrev pub files : Files Bytes
files = record {
  clean = λ path. path;
  join_path = λ a b. a ++ b'\\' ∷ b;
  dir = λ path. path;
  mkdir_all = λ path w. (ok tt, w);
  open_empty = λ path w. (ok tt, []);
  write = λ path text w. (ok tt, text);
}

own_report-IsServable : IsServable own_report
own_report-IsServable = record {
  addr_plain = ground arith;
  port_plain = ground arith;
  addr_part = ground arith;
  port_part = ground arith;
}

abbrev props : ServerProperties
props = create_props (normalize files.clean) config (generate_repl_config config (own_report ∷ []))

props-IsOneLine : IsOneLine props
unfolding create_props normalize generate_repl_config mongoctl.Kafka.endpoint
    mongoctl.Text.Parts.join
props-IsOneLine = record {
  id_line = ground arith;
  controller_line = ground arith;
  broker_line = ground arith;
  meta_line = ground arith;
  log_line = ground arith;
  bootstrap_line = ground arith;
}

abbrev pub node_book : Engine NodeState NodeTrigger NodeArg (KafkaSm Bytes)
node_book = by_the_book

abbrev pub shell : Shell Bytes
shell = record {
  environ = [];
  path = codes "/bin";
  tools = codes "/kafka";
  alloc_dir = codes "/alloc";
  meta_dir = codes "/meta";
  clean_deleted = λ dir w. w;
  run_command = λ name args env w. (ok tt, w);
  start_command = λ name args env w. (ok tt, w);
}

works :
    Works files shell config
      (generate_repl_config config (own_report ∷ []))
      []
      (render props)
      (render props)
works = record {
  made = [];
  emptied = [];
  formatted = render props;
  makes = refl;
  empties = refl;
  writes = refl;
  formats = refl;
  starts = refl;
}

pub file_stored : (file text w w' : Bytes) → files.write file text w ≡ (ok tt, w') → w' ≡ text
file_stored file text w w' e = sym (ap (λ (r : Outcome (Unit {0}) × Bytes). r.1) e)

node_launches_example :
    Serves files shell
      (λ w file. w)
      (own_report ∷ [])
      (render props)
      (render props)
      (fire
        (node_host files shell)
        config
        node_book
        start
        (spec (generate_repl_config config (own_report ∷ [])) ∷ [])
        init
        (new_kafka_sm []))
node_launches_example =
    node_launches files shell (λ w file. w) config config node_book file_stored (own_report ∷ []) []
      (render props) (render props) (cc) (own_report-IsServable, tt) props-IsOneLine works

abbrev odd : ServerProperties
odd = record props { log_dir = codes "/r&d" }

odd-IsOneLine : IsOneLine odd
unfolding create_props normalize generate_repl_config mongoctl.Kafka.endpoint
    mongoctl.Text.Parts.join
odd-IsOneLine = record {
  id_line = ground arith;
  controller_line = ground arith;
  broker_line = ground arith;
  meta_line = ground arith;
  log_line = ground arith;
  bootstrap_line = ground arith;
}

render_iff_example :
    ((read_property (codes "node.id") (render odd) ≡ some odd.id)
      × (read_property (codes "controller.quorum.bootstrap.servers") (render odd)
          ≡ some odd.bootstrap_servers)
      × (read_property (codes "log.dirs") (render odd) ≡ some odd.log_dir)
      × (read_property (codes "metadata.log.dir") (render odd) ≡ some odd.meta_log_dir))
    ↔ (All IsPlain odd.id
        × All IsPlain odd.bootstrap_servers
        × All IsPlain odd.log_dir
        × All IsPlain odd.meta_log_dir)
render_iff_example = render_iff odd odd-IsOneLine

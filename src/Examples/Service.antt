-- ===== src/Examples/Service.antt =====
-- A Kafka cluster of four candidates, and a node of it that is one of the three.
use mongoctl.Prelude.{List, [], ◌∷◌, ◌≡◌, ◌⊎◌, refl, arith, Bytes, codes, ok, some, take, All}
use mongoctl.Sorting.{sort_candidates}
use mongoctl.Sorting.Insertion.{insertion}
use mongoctl.Kafka.{
  KafkaCandidateReport, KafkaReplSetSpec, ServerProperties, less, generate_repl_config,
}
use mongoctl.Kafka.Machine.{init, create_props, new_kafka_sm}
use mongoctl.Kafka.Monitor.{member_start}
use mongoctl.Kafka.Monitor.Membership.{IsNamed, IsNameless}
use mongoctl.Kafka.Properties.{render, normalize}
use mongoctl.Kafka.Properties.ReadBack.{IsOneLine}
use mongoctl.Kafka.Properties.File.{IsServable}
use mongoctl.Kafka.Node.{node_host}
use mongoctl.Kafka.Node.Launch.{Works, Serves}
use mongoctl.Control.Machine.{monitoring}
use mongoctl.Control.Loop.{running, report, expire, deliver, controller_task}
use mongoctl.Control.Journey.Cluster.{kafka_kind}
use mongoctl.Control.Journey.Service.{cluster_forms}
use mongoctl.Examples.Cluster.{config}
use mongoctl.Examples.Nodes.{
  node, nodes, outside, machine, KafkaControl, files, node_book, shell, publishes, file_stored,
}

abbrev three : List KafkaCandidateReport
three = take 3 (sort_candidates insertion less nodes)

abbrev props : ServerProperties
props = create_props (normalize files.clean) config (generate_repl_config config three)

props-IsOneLine : IsOneLine props
unfolding create_props normalize generate_repl_config mongoctl.Kafka.endpoint less sort_candidates
    mongoctl.Text.Parts.join insertion mongoctl.Sorting.Insertion.insertion_sort
    mongoctl.Sorting.Insertion.insert mongoctl.Sorting.compare_by
props-IsOneLine = record {
  id_line = ground arith;
  controller_line = ground arith;
  broker_line = ground arith;
  meta_line = ground arith;
  log_line = ground arith;
  bootstrap_line = ground arith;
}

works :
    Works files shell config (generate_repl_config config three) [] (render props) (render props)
works = record {
  made = [];
  emptied = [];
  formatted = render props;
  makes = refl;
  empties = refl;
  writes = refl;
  formats = refl;
  starts = refl;
}

node-IsServable : (name time : Bytes) → IsServable (node name time)
node-IsServable name time = record {
  addr_plain = ground arith;
  port_plain = ground arith;
  addr_part = ground arith;
  port_part = ground arith;
}

nodes-IsServable : All IsServable nodes
nodes-IsServable =
    (node-IsServable _ _, (node-IsServable _ _, (node-IsServable _ _, (node-IsServable _ _, tt))))

cluster_forms_example :
    (rs : KafkaControl) × (spec : KafkaReplSetSpec) × (controller_task
        (kafka_kind insertion config)
        outside
        machine
        (codes "job")
        0
        (report nodes ∷ expire ∷ deliver 0 ∷ [])
      ≡ running monitoring rs)
    × (rs.last_spec ≡ some spec)
    × (rs.last_members ≡ three)
    × ((IsNamed (codes "k1") three
          × Serves files shell
              (λ w file. w)
              three
              (render props)
              (render props)
              (member_start (node_host files shell) config node_book spec (new_kafka_sm [])))
        ⊎ (IsNameless (codes "k1") three
            × (member_start (node_host files shell) config node_book spec (new_kafka_sm [])
                ≡ some (record {
                  outcome = ok tt;
                  state = init;
                  world = new_kafka_sm [];
                  queued = [];
                }))))
cluster_forms_example =
    cluster_forms insertion config outside machine files shell (λ w file. w) config node_book
      file_stored (codes "job") 0 11 nodes [] [] (render props) (render props) (omega arith)
      nodes-IsServable (publishes _) (λ named. (props-IsOneLine, works))
